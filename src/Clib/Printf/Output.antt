-- ===== src/Clib/Printf/Output.antt =====
-- Where the characters go: ADDCH, the end of `vsnprintf_internal`, and the three entry points of
-- lib/mylibc/stdio/simple_printf.c.
use non_os_lite.Prelude.{
  Buf, List, Option, [], if◌then◌else◌, ltb, none, put8, some, sub32, u32, ℕ, ◌+◌, ◌-◌, ◌==◌, ◌^◌,
  ◌∷◌,
}
use non_os_lite.Uart.{Uart, ftuart_putc}
use non_os_lite.Clib.Printf.Format.{Arg, Formatted, format, formatted, out_of_fuel, undefined}

-- `str` is an address; 0 is NULL, for which the characters go to `putchar`.
pub record Output : Type 0 where
  pub memory : Buf
  pub str : ℕ
  pub console : Uart

-- ADDCH. `putchar` is `ftuart_putc`, by include/libc/stdio.h.
unfoldable pub addch : ℕ → ℕ → Output → Output
unfolding ftuart_putc
addch end ch o =
    if o.str == 0
    then record o {
      console = ftuart_putc ch (if ch == b'\n' then ftuart_putc b'\r' o.console else o.console);
    }
    else record o {
      memory = if ltb o.str end then put8 o.memory o.str ch else o.memory;
      str = u32 (o.str + 1);
    }

unfoldable pub add_all : ℕ → List ℕ → Output → Output
unfolding addch
add_all end [] o = o
add_all end (c ∷ cs) o = add_all end cs (addch end c o)

-- `end = buf + size`, and "Make sure end is always >= buf": the end, and the size.
abbrev pub limits : ℕ → ℕ → ℕ × ℕ
limits buf size =
    let end = u32 (buf + size) in
    if ltb end buf then (2 ^ 32 - 1, 2 ^ 32 - 1 - buf) else (end, size)

-- What follows the loop.
unfoldable pub terminate : ℕ → ℕ → Output → Output
unfolding addch
terminate end size o =
    let p = addch end 0 o in
    let o1 : Output =
      if ltb 0 size
      then (if ltb end p.str then record p { memory = put8 p.memory (end - 1) 0 } else p)
      else o in
    if o1.str == 0 then o1 else record o1 { memory = put8 o1.memory o1.str 0 }

-- The result, and what has been written. `none` where the formatter's behaviour is not defined.
unfoldable pub put_formatted : ℕ → ℕ → Output → Formatted → Option (ℕ × Output)
unfolding add_all terminate
put_formatted buf size o (formatted text) =
    let (end, room) = limits buf size in
    let done = terminate end room (add_all end text (record o { str = buf })) in
    some (sub32 done.str buf, done)
put_formatted buf size o undefined = none
put_formatted buf size o out_of_fuel = none

unfoldable pub vsnprintf_internal : ℕ → ℕ → List ℕ → List Arg → Output → Option (ℕ × Output)
unfolding format put_formatted
vsnprintf_internal buf size fmt args o = put_formatted buf size o (format fmt args)

abbrev pub int_max : ℕ
int_max = 2 ^ 31 - 1

unfoldable pub simple_sprintf : ℕ → List ℕ → List Arg → Output → Option (ℕ × Output)
unfolding vsnprintf_internal
simple_sprintf str fmt args o = vsnprintf_internal str int_max fmt args o

unfoldable pub simple_snprintf : ℕ → ℕ → List ℕ → List Arg → Output → Option (ℕ × Output)
unfolding vsnprintf_internal
simple_snprintf str size fmt args o = vsnprintf_internal str size fmt args o

unfoldable pub simple_printf : List ℕ → List Arg → Output → Option (ℕ × Output)
unfolding vsnprintf_internal
simple_printf fmt args o = vsnprintf_internal 0 int_max fmt args o

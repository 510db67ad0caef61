-- ===== src/Clib/Printf/Console.antt =====
-- What `prints` of lib/mylibc/stdio/simple_printf.c puts on the serial console of
-- drivers/console/ftuart.c.
use mathlib.Core.List.{append_assoc}
use non_os_lite.Prelude.{Buf, List, [], ap, false, refl, some, ℕ, ◌++◌, ◌∙◌, ◌∷◌, ◌≡◌}
use non_os_lite.Irq.{pending}
use non_os_lite.Uart.{Uart, dlab, ftuart_putc, ftuart_puts}
use non_os_lite.Uart.Lines.{ftuart_putc-sends, ftuart_puts-sends, printed, send}
use non_os_lite.Clib.Printf.Format.{Arg, format, formatted}
use non_os_lite.Clib.Printf.Output.{
  Output, add_all, addch, int_max, put_formatted, simple_printf, terminate, vsnprintf_internal,
}

-- Without a buffer ADDCH puts out what `ftuart_puts` does.
add_all-puts :
    (end : ℕ) (text : List ℕ) (m : Buf) (console : Uart)
    → add_all end text (record { memory = m; str = 0; console = console })
      ≡ record { memory = m; str = 0; console = ftuart_puts text console }
unfolding add_all addch ftuart_puts
add_all-puts end [] m console = refl
add_all-puts end (c ∷ cs) m console = add_all-puts end cs m _

put_formatted-puts :
    (text : List ℕ) (o : Output)
    → put_formatted 0 int_max o (formatted text)
      ≡ some (
        0,
        record { memory = o.memory; str = 0; console = ftuart_putc 0 (ftuart_puts text o.console) },
      )
unfolding put_formatted terminate addch
put_formatted-puts text o = rw (add_all-puts int_max text o.memory o.console) refl

-- Out of set-up mode this is the text with its line ends, and the NUL.
puts-transmitted :
    (text : List ℕ) (u : Uart)
    → pending u.lcr dlab ≡ false
    → ftuart_putc 0 (ftuart_puts text u) ≡ send (printed text ++ (0 ∷ [])) u
puts-transmitted text u plain =
    ap (ftuart_putc 0) (ftuart_puts-sends text u plain)
    ∙ (ftuart_putc-sends 0 (send (printed text) u) plain
        ∙ ap (λ (t : List ℕ). record u { transmitted = t })
            (append_assoc u.transmitted (printed text) (0 ∷ [])))

-- For a call whose conversions are defined, while the console is not in set-up mode, `prints` returns
-- 0, stores nothing in memory, and transmits the text and a NUL behind it. For each line feed it
-- transmits two carriage returns and the line feed: one return is its own, the other that of
-- `ftuart_putc`. No other register of the console changes.
pub simple_printf-console :
    (fmt : List ℕ) (args : List Arg) (o : Output) (text : List ℕ)
    → pending o.console.lcr dlab ≡ false
    → format fmt args ≡ formatted text
    → simple_printf fmt args o
      ≡ some (
        0,
        record { memory = o.memory; str = 0; console = send (printed text ++ (0 ∷ [])) o.console },
      )
unfolding simple_printf vsnprintf_internal
simple_printf-console fmt args o text plain h =
    ap (put_formatted 0 int_max o) h
    ∙ (put_formatted-puts text o
        ∙ ap (λ (u : Uart). some (0, record { memory = o.memory; str = 0; console = u }))
            (puts-transmitted text o.console plain))

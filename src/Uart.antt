-- ===== src/Uart.antt =====
-- The serial console drivers/console/ftuart.c. What comes in is a list of bytes; a wait for it when
-- there is none does not end (`none`). The wait for room in the transmit register is the hardware's and
-- does end. A `char` is unsigned, so that `c != -1` holds.
pub mod Lines
use non_os_lite.Prelude.{
  Bool, Buf, List, Option, [], if◌then◌else◌, none, put8, some, ℕ, ◌%◌, ◌++◌, ◌+◌, ◌/◌, ◌==◌, ◌||◌,
  ◌∷◌,
}
use non_os_lite.Irq.{clear_line, pending, set_line}

-- The registers, the bytes transmitted, the oldest first, and the bytes to come.
pub record Uart : Type 0 where
  pub lcr : ℕ
  pub fcr : ℕ
  pub dlm : ℕ
  pub dll : ℕ
  pub transmitted : List ℕ
  pub incoming : List ℕ

-- FTUART_LCR_DLAB is the bit 7.
abbrev pub dlab : ℕ
dlab = 7

-- A store at the offset 0 goes to the divisor latch DLL, or transmits, as DLAB says; one at the offset 4
-- goes to DLM, or to the interrupt enable register, which is not modelled.
unfoldable pub store_low : ℕ → Uart → Uart
store_low v u =
    if pending u.lcr dlab
    then record u { dll = v }
    else record u { transmitted = u.transmitted ++ (v ∷ []) }

unfoldable pub store_high : ℕ → Uart → Uart
store_high v u = if pending u.lcr dlab then record u { dlm = v } else u

unfoldable pub ftuart_set_baud : ℕ → Uart → Uart
ftuart_set_baud baud u =
    let u1 = record u { lcr = set_line u.lcr dlab } in
    let u2 = store_low (baud % 256) (store_high (baud / 256 % 256) u1) in
    record u2 { lcr = clear_line u2.lcr dlab }

unfoldable pub uart_init : ℕ → Uart → Uart
uart_init baud u = record (ftuart_set_baud baud u) { lcr = 3; fcr = 7 }

unfoldable pub ftuart_fini : Uart → Uart
ftuart_fini u = record u { fcr = 6 }

unfoldable pub ftuart_putc : ℕ → Uart → Uart
ftuart_putc c u = store_low c (if c == b'\n' then store_low b'\r' u else u)

unfoldable pub ftuart_getc : Uart → Option (ℕ × Uart)
ftuart_getc u = elim u.incoming [
  | [] ↦ none
  | c ∷ cs ↦ some (if c == b'\r' then b'\n' else c, record u { incoming = cs })
]

unfoldable pub ftuart_puts : List ℕ → Uart → Uart
ftuart_puts [] u = u
ftuart_puts (c ∷ cs) u =
    ftuart_puts cs (ftuart_putc c (if c == b'\n' then ftuart_putc b'\r' u else u))

-- Whether `ftuart_gets` ends with the character.
abbrev pub ends_line : ℕ → Bool
ends_line c = c == 0 || (c == b'\r' || c == b'\n')

-- The loop of `ftuart_gets` from the index `i` on, while there are bytes to come.
unfoldable pub gets_loop : List ℕ → Buf → ℕ → ℕ → Uart → Option (Buf × Uart)
gets_loop [] m s i u = none
gets_loop (byte ∷ more) m s i u =
    let c = if byte == b'\r' then b'\n' else byte in
    let m1 = put8 m (s + i) c in
    let u1 = ftuart_putc c (record u { incoming = more }) in
    let rest = gets_loop more m1 s (i + 1) u1 in
    if ends_line c then some (if c == 0 then m1 else put8 m1 (s + i) 0, u1) else rest

-- `ftuart_gets` into the buffer at `s`, which is taken to be long enough.
unfoldable pub ftuart_gets : Buf → ℕ → Uart → Option (Buf × Uart)
ftuart_gets m s u = gets_loop u.incoming m s 0 u

-- 0 if there is no byte.
unfoldable pub ftuart_kbhit : Uart → ℕ × Uart
ftuart_kbhit u = elim u.incoming [ [] ↦ (0, u) | c ∷ cs ↦ (c, record u { incoming = cs }) ]

-- ===== src/Uart/Lines.antt =====
-- What the console transmits, and the lines that it reads.
use mathlib.Core.Path.{ap₂, subst}
use mathlib.Core.List.{append_assoc, append-nil}
use non_os_lite.Prelude.{
  Bool-cases, Buf, List, Spells, [], ap, arith, false, if◌then◌else◌, inl, inr, ne→==, put8, refl,
  some, sym, true, ℕ, ◌%◌, ◌*◌, ◌++◌, ◌+◌, ◌/◌, ◌<◌, ◌==◌, ◌^◌, ◌∙◌, ◌∷◌, ◌≡◌, ◌≢◌, ◌⊎◌,
}
use non_os_lite.Irq.{pending, set_line}
use non_os_lite.Irq.Controller.{set_line-lines}
use non_os_lite.Uart.{
  Uart, dlab, ftuart_gets, ftuart_putc, ftuart_puts, ftuart_set_baud, gets_loop, store_high,
  store_low, uart_init,
}

-- `ftuart_putc` sends CR LF for a newline; `ftuart_puts` sends another CR before it.
abbrev pub echo : List ℕ → List ℕ
echo [] = []
echo (c ∷ cs) = if c == b'\n' then b'\r' ∷ c ∷ echo cs else c ∷ echo cs

abbrev pub printed : List ℕ → List ℕ
printed [] = []
printed (c ∷ cs) = if c == b'\n' then b'\r' ∷ b'\r' ∷ c ∷ printed cs else c ∷ printed cs

abbrev pub send : List ℕ → Uart → Uart
send cs u = record u { transmitted = u.transmitted ++ cs }

-- Out of set-up mode a character is sent.
abbrev pub IsPlain : Uart → Type 0
IsPlain u = pending u.lcr dlab ≡ false

store_low-sends : (c : ℕ) (u : Uart) → IsPlain u → store_low c u ≡ send (c ∷ []) u
unfolding store_low
store_low-sends c u plain = rw plain refl

send-send : (xs ys : List ℕ) (u : Uart) → send ys (send xs u) ≡ send (xs ++ ys) u
send-send xs ys u =
    ap (λ (t : List ℕ). record u { transmitted = t }) (append_assoc u.transmitted xs ys)

pub ftuart_putc-sends : (c : ℕ) (u : Uart) → IsPlain u → ftuart_putc c u ≡ send (echo (c ∷ [])) u
unfolding ftuart_putc
ftuart_putc-sends c u plain = elim (Bool-cases (c == b'\n')) [
  | inl e ↦ rw e (
      ap (store_low c) (store_low-sends b'\r' u plain)
      ∙ (store_low-sends c (send (b'\r' ∷ []) u) plain ∙ send-send (b'\r' ∷ []) (c ∷ []) u))
  | inr e ↦ rw e (store_low-sends c u plain)
]

-- Out of set-up mode `ftuart_puts` transmits the text, with two CRs before each newline.
pub ftuart_puts-sends :
    (cs : List ℕ) (u : Uart) → IsPlain u → ftuart_puts cs u ≡ send (printed cs) u
unfolding ftuart_puts
ftuart_puts-sends [] u plain =
    ap (λ (t : List ℕ). record u { transmitted = t }) (sym (append-nil u.transmitted))
ftuart_puts-sends (c ∷ cs) u plain = elim (Bool-cases (c == b'\n')) [
  | inl e ↦ rw e (
      ap (λ v. ftuart_puts cs (ftuart_putc c v)) (ftuart_putc-sends b'\r' u plain)
      ∙ (ap (ftuart_puts cs) (ftuart_putc-sends c (send (b'\r' ∷ []) u) plain)
          ∙ (ap (λ t. ftuart_puts cs (send t (send (b'\r' ∷ []) u))) (both e)
              ∙ (ap (ftuart_puts cs) (send-send (b'\r' ∷ []) (b'\r' ∷ c ∷ []) u)
                  ∙ (ftuart_puts-sends cs (send (b'\r' ∷ b'\r' ∷ c ∷ []) u) plain
                      ∙ send-send (b'\r' ∷ b'\r' ∷ c ∷ []) (printed cs) u)))))
  | inr e ↦ rw e (
      ap (ftuart_puts cs) (ftuart_putc-sends c u plain)
      ∙ (ap (λ t. ftuart_puts cs (send t u)) (one e)
          ∙ (ftuart_puts-sends cs (send (c ∷ []) u) plain ∙ send-send (c ∷ []) (printed cs) u)))
]
  where
    both : (c == b'\n') ≡ true → echo (c ∷ []) ≡ b'\r' ∷ c ∷ []
    both e = rw e refl

    one : (c == b'\n') ≡ false → echo (c ∷ []) ≡ c ∷ []
    one e = rw e refl

-- Characters of a line: neither NUL nor an end of the line.
abbrev pub AllInLine : List ℕ → Type 0
AllInLine [] = Unit {0}
AllInLine (c ∷ cs) = ((c ≢ 0) × ((c ≢ b'\r') × (c ≢ b'\n'))) × AllInLine cs

-- What is left behind the line in the machine.
abbrev pub after_line : List ℕ → List ℕ → Uart → Uart
after_line text more u = record u {
  transmitted = u.transmitted ++ (text ++ (b'\r' ∷ b'\n' ∷ []));
  incoming = more;
}

gets_loop-line :
    (text more : List ℕ) (stop : ℕ) (m : Buf) (s i : ℕ) (u : Uart)
    → AllInLine text
    → (stop ≡ b'\r') ⊎ (stop ≡ b'\n')
    → IsPlain u
    → (m' : Buf) × ((gets_loop (text ++ (stop ∷ more)) m s i u ≡ some (m', after_line text more u))
        × (Spells m' (s + i) text × ((q : ℕ) → q < s + i → m' q ≡ m q)))
unfolding gets_loop
gets_loop-line [] more stop m s i u all ends plain =
    let sent = ftuart_putc-sends b'\n' (record u { incoming = more }) plain in
    let end : Buf = put8 (put8 m (s + i) b'\n') (s + i) 0 in
    let nul : end (s + i) ≡ 0 = ground arith in
    let before : (q : ℕ) → q < s + i → end q ≡ m q = λ q h. ground arith in
    (
      end,
      (
        elim ends [
          | inl e ↦ rw e (ap (λ v. some (end, v)) sent)
          | inr e ↦ rw e (ap (λ v. some (end, v)) sent)
        ],
        (nul, before),
      ),
    )
gets_loop-line (c ∷ cs) more stop m s i u all ends plain =
    let later : Uart = record u { incoming = cs ++ (stop ∷ more) } in
    let no_cr = ne→== c b'\r' all.0.1.0 in
    let no_nl = ne→== c b'\n' all.0.1.1 in
    let plain_echo : echo (c ∷ []) ≡ c ∷ [] = rw no_nl refl in
    let sent = ftuart_putc-sends c later plain ∙ ap (λ t. send t later) plain_echo in
    let rest =
      gets_loop-line cs more stop (put8 m (s + i) c) s (i + 1) (send (c ∷ []) later) all.1 ends
        plain in
    let place : s + (i + 1) ≡ s + i + 1 = omega arith in
    let typed : put8 m (s + i) c (s + i) ≡ c = ground arith in
    (
      rest.0,
      (
        rw no_cr (
            rw (no_cr, no_nl, ne→== c 0 all.0.0)
              (ap (gets_loop (cs ++ (stop ∷ more)) (put8 m (s + i) c) s (i + 1)) sent
                ∙ (rest.1.0
                    ∙ ap
                        (λ (t : List ℕ).
                          some (rest.0, record u { transmitted = t; incoming = more }))
                        (append_assoc u.transmitted (c ∷ []) (cs ++ (b'\r' ∷ b'\n' ∷ [])))))),
        (
          (
            rest.1.1.1 (s + i) (omega arith) ∙ typed,
            subst (λ p. Spells rest.0 p cs) place rest.1.1.0,
          ),
          λ q h. ground (arith, rest.1.1.1 q (omega arith)),
        ),
      ),
    )

-- A line of characters that ends with CR or LF: out of set-up mode `ftuart_gets` returns with the line
-- in the buffer, a NUL in the place of its end, and nothing before the buffer changed; it echoes the
-- line and CR LF; and the bytes behind the line are not read.
pub ftuart_gets-line :
    (text more : List ℕ) (stop : ℕ) (m : Buf) (s : ℕ) (u : Uart)
    → AllInLine text
    → (stop ≡ b'\r') ⊎ (stop ≡ b'\n')
    → pending u.lcr dlab ≡ false
    → u.incoming ≡ text ++ (stop ∷ more)
    → (m' : Buf) × ((ftuart_gets m s u ≡ some (m', after_line text more u))
        × (Spells m' s text × ((q : ℕ) → q < s → m' q ≡ m q)))
unfolding ftuart_gets
ftuart_gets-line text more stop m s u all ends plain comes =
    let r = gets_loop-line text more stop m s 0 u all ends plain in
    let start : s + 0 ≡ s = omega arith in
    (
      r.0,
      (
        ap (λ bytes. gets_loop bytes m s 0 u) comes ∙ r.1.0,
        (subst (λ p. Spells r.0 p text) start r.1.1.0, λ q h. r.1.1.1 q (omega (arith, h))),
      ),
    )

set_up : (u : Uart) → pending (set_line u.lcr dlab) dlab ≡ true
set_up u = set_line-lines u.lcr dlab dlab

-- In set-up mode the stores go to the divisor latch.
ftuart_set_baud-latches :
    (baud : ℕ) (u : Uart)
    → ((ftuart_set_baud baud u).dlm ≡ baud / 256 % 256)
      × (((ftuart_set_baud baud u).dll ≡ baud % 256)
          × ((ftuart_set_baud baud u).transmitted ≡ u.transmitted))
unfolding ftuart_set_baud store_low store_high
ftuart_set_baud-latches baud u = rw (set_up u) (rw (set_up u) (refl, (refl, refl)))

-- `uart_init` sets the divisor to a rate of 16 bits, transmits nothing, and leaves set-up mode, so that
-- a text put out behind it is transmitted, with two CRs before each newline.
pub ftuart_puts-uart_init :
    (baud : ℕ) (cs : List ℕ) (u : Uart)
    → baud < 2 ^ 16
    → ((uart_init baud u).dlm * 256 + (uart_init baud u).dll ≡ baud)
      × ((ftuart_puts cs (uart_init baud u)).transmitted ≡ u.transmitted ++ printed cs)
unfolding uart_init
ftuart_puts-uart_init baud cs u small =
    let set = ftuart_set_baud-latches baud u in
    let rate : baud / 256 % 256 * 256 + baud % 256 ≡ baud = omega arith in
    (
      ap₂ (λ high low. high * 256 + low) set.0 set.1.0 ∙ rate,
      ap (λ (v : Uart). v.transmitted) (ftuart_puts-sends cs (uart_init baud u) refl)
          ∙ ap (λ t. t ++ printed cs) set.1.1,
    )

-- ===== src/Clib/Roundtrip.antt =====
-- `strtoul` on what the decimal conversion of simple_printf.c prints.
use mathlib.Core.List.{reverse, reverse-cons}
use non_os_lite.Prelude.{
  Bool-cases, List, [], ap, arith, false, inl, inr, refl, true, u32, ℕ, ◌*◌, ◌++◌, ◌+◌, ◌-◌, ◌<◌,
  ◌==◌, ◌^◌, ◌∙◌, ◌∷◌, ◌≡◌, ◌≤◌,
}
use non_os_lite.Clib.Strtoul.{isdigit, strtoul, strtoul_dec}
use non_os_lite.Clib.Decimal.{decimal}
use non_os_lite.Clib.Decimal.Laws.{AllDigits, AllDigits-append, IsDigit, dec_value, put_dec_value}

-- The value of digits with the most significant first, behind `n`.
abbrev num_value : ℕ → List ℕ → ℕ
num_value n [] = n
num_value n (c ∷ cs) = num_value (n * 10 + (c - b'0')) cs

-- A text that does not begin with a digit.
abbrev pub NoDigit : List ℕ → Type 0
NoDigit [] = Unit {0}
NoDigit (c ∷ cs) = isdigit c ≡ false

num_value-ge : (n : ℕ) (s : List ℕ) → n ≤ num_value n s
num_value-ge n [] = omega arith
num_value-ge n (c ∷ cs) = omega (arith, num_value-ge (n * 10 + (c - b'0')) cs)

num_value-append :
    (n : ℕ) (s : List ℕ) (c : ℕ) → num_value n (s ++ c ∷ []) ≡ num_value n s * 10 + (c - b'0')
num_value-append n [] c = refl
num_value-append n (d ∷ s) c = num_value-append (n * 10 + (d - b'0')) s c

num_value-reverse : (xs : List ℕ) → num_value 0 (reverse xs) ≡ dec_value xs
num_value-reverse [] = refl
num_value-reverse (x ∷ xs) =
    rw reverse-cons (num_value-append 0 (reverse xs) x ∙ omega (arith, num_value-reverse xs))

AllDigits-reverse : (xs : List ℕ) → AllDigits xs → AllDigits (reverse xs)
AllDigits-reverse [] h = tt
AllDigits-reverse (x ∷ xs) h =
    rw reverse-cons (AllDigits-append (reverse xs) (x ∷ []) (AllDigits-reverse xs h.1) (h.0, tt))

strtoul_dec-stop : (n : ℕ) (rest : List ℕ) → NoDigit rest → strtoul_dec rest n ≡ (n, rest)
unfolding strtoul_dec
strtoul_dec-stop n [] h = refl
strtoul_dec-stop n (c ∷ cs) h = rw h

digit_true : (c : ℕ) → IsDigit c → isdigit c ≡ true
digit_true c h = ground arith

strtoul_dec-digits :
    (s rest : List ℕ) (n : ℕ)
    → AllDigits s
    → NoDigit rest
    → num_value n s < 2 ^ 32
    → strtoul_dec (s ++ rest) n ≡ (num_value n s, rest)
unfolding strtoul_dec
strtoul_dec-digits [] rest n h stop fits = strtoul_dec-stop n rest stop
strtoul_dec-digits (c ∷ cs) rest n h stop fits =
    let next : u32 (u32 (n * 10) + (c - b'0')) ≡ n * 10 + (c - b'0') =
      omega (arith, num_value-ge (n * 10 + (c - b'0')) cs) in
    rw (digit_true c h.0, next) (strtoul_dec-digits cs rest (n * 10 + (c - b'0')) h.1 stop fits)

decimal-parts : (n : ℕ) → n < 2 ^ 64 → (num_value 0 (decimal n) ≡ n) × AllDigits (decimal n)
unfolding decimal
decimal-parts n h = elim (Bool-cases (n == 0)) [
  | inl z ↦ rw z (ground arith, omega arith)
  | inr nz ↦
      let p = put_dec_value 3 n (omega arith) in
      rw nz (num_value-reverse _ ∙ p.0, AllDigits-reverse _ p.1)
]

-- Reading a printed number with base 10 gives the number, and stops at the first byte behind it.
pub strtoul-decimal :
    (n : ℕ) (rest : List ℕ) → n < 2 ^ 32 → NoDigit rest → strtoul (decimal n ++ rest) 10 ≡ (n, rest)
unfolding strtoul
strtoul-decimal n rest fits stop =
    let p = decimal-parts n (omega arith) in
    strtoul_dec-digits (decimal n) rest 0 p.1 stop (rw p.0 fits) ∙ ap (λ v. (v, rest)) p.0

-- ===== src/Clib/Decimal/Laws.antt =====
-- The digits that the conversion of lib/mylibc/stdio/simple_printf.c yields.
use non_os_lite.Prelude.{
  Bool-cases, List, [], ap, arith, if◌then◌else◌, inl, inr, ltb, suc, zero, ℕ, ◌!=◌, ◌%◌, ◌*◌, ◌++◌,
  ◌+◌, ◌-◌, ◌/◌, ◌<◌, ◌^◌, ◌||◌, ◌∙◌, ◌∷◌, ◌≡◌, ◌≤◌,
}
use non_os_lite.Clib.Decimal.{digit, put_dec, put_dec_full, put_dec_trunc}
use native.Mathlib.Nat.{pow-suc}

-- The number that digits stand for, the least significant first.
abbrev pub dec_value : List ℕ → ℕ
dec_value [] = 0
dec_value (c ∷ cs) = c - b'0' + 10 * dec_value cs

abbrev pub IsDigit : ℕ → Type 0
IsDigit c = (b'0' ≤ c) × (c ≤ b'9')

abbrev pub AllDigits : List ℕ → Type 0
AllDigits [] = Unit {0}
AllDigits (c ∷ cs) = IsDigit c × AllDigits cs

div10_small : (x : ℕ) → x < 1024 → x * 0xcd / 2 ^ 11 ≡ x / 10
div10_small x h = omega arith

div10_tiny : (x : ℕ) → x < 69 → x * 0xd / 2 ^ 7 ≡ x / 10
div10_tiny x h = omega arith

-- The four partial quotients of the conversion, for the hexadecimal digits `a`, `d1`, `d2`, `d3`.
module _ (a d1 d2 d3 : ℕ) where
  abbrev d0 : ℕ
  d0 = 6 * (d3 + d2 + d1) + a

  abbrev q0 : ℕ
  q0 = d0 * 0xcd / 2 ^ 11

  abbrev e1 : ℕ
  e1 = q0 + 9 * d3 + 5 * d2 + d1

  abbrev q1 : ℕ
  q1 = e1 * 0xcd / 2 ^ 11

  abbrev e2 : ℕ
  e2 = q1 + 2 * d2

  abbrev q2 : ℕ
  q2 = e2 * 0xd / 2 ^ 7

  abbrev e3 : ℕ
  e3 = q2 + 4 * d3

  abbrev q3 : ℕ
  q3 = e3 * 0xcd / 2 ^ 11

module _ (a d1 d2 d3 : ℕ) (ha : a < 16) (h1 : d1 < 16) (h2 : d2 < 16) (h3 : d3 ≤ 24) where
  first_lem : q0 a d1 d2 d3 ≡ d0 a d1 d2 d3 / 10
  first_lem = div10_small (d0 a d1 d2 d3) (omega arith)

  e1_small : e1 a d1 d2 d3 < 350
  e1_small = omega (arith, first_lem)

  second_lem : q1 a d1 d2 d3 ≡ e1 a d1 d2 d3 / 10
  second_lem = div10_small (e1 a d1 d2 d3) (omega (arith, e1_small))

  e2_small : e2 a d1 d2 d3 < 69
  e2_small = omega (arith, second_lem, e1_small)

  third_lem : q2 a d1 d2 d3 ≡ e2 a d1 d2 d3 / 10
  third_lem = div10_tiny (e2 a d1 d2 d3) e2_small

  e3_small : e3 a d1 d2 d3 < 1024
  e3_small = omega (arith, third_lem, e2_small)

  fourth_lem : q3 a d1 d2 d3 ≡ e3 a d1 d2 d3 / 10
  fourth_lem = div10_small (e3 a d1 d2 d3) e3_small

-- Each quotient is the quotient by ten.
record IsDivision (a d1 d2 d3 q0 q1 q2 q3 : ℕ) : Type 0 where
  first : q0 ≡ (6 * (d3 + d2 + d1) + a) / 10
  second : q1 ≡ (q0 + 9 * d3 + 5 * d2 + d1) / 10
  third : q2 ≡ (q1 + 2 * d2) / 10
  fourth : q3 ≡ (q2 + 4 * d3) / 10

digit_value : (x v : ℕ) → digit x - b'0' + 10 * v ≡ x + 10 * v
digit_value x v = omega arith

div_rest : (e : ℕ) → e - 10 * (e / 10) + 10 * (e / 10) ≡ e
div_rest e = omega arith

-- The printed digits of such quotients, and what they stand for.
module _ (a d1 d2 d3 q0 q1 q2 q3 : ℕ) (h : IsDivision a d1 d2 d3 q0 q1 q2 q3) where
  abbrev full : List ℕ
  full =
      digit (6 * (d3 + d2 + d1) + a - 10 * q0)
      ∷ digit (q0 + 9 * d3 + 5 * d2 + d1 - 10 * q1)
      ∷ digit (q1 + 2 * d2 - 10 * q2)
      ∷ digit (q2 + 4 * d3 - 10 * q3)
      ∷ digit q3
      ∷ []

  full_value : dec_value full ≡ a + 16 * d1 + 256 * d2 + 4096 * d3
  full_value = simp digit_value (sum_up _ _ _ _ r0 r1 r2 r3)
    where
      r0 : 6 * (d3 + d2 + d1) + a - 10 * q0 + 10 * q0 ≡ 6 * (d3 + d2 + d1) + a
      r0 = rw h.first (div_rest _)

      r1 : q0 + 9 * d3 + 5 * d2 + d1 - 10 * q1 + 10 * q1 ≡ q0 + 9 * d3 + 5 * d2 + d1
      r1 = rw h.second (div_rest _)

      r2 : q1 + 2 * d2 - 10 * q2 + 10 * q2 ≡ q1 + 2 * d2
      r2 = rw h.third (div_rest _)

      r3 : q2 + 4 * d3 - 10 * q3 + 10 * q3 ≡ q2 + 4 * d3
      r3 = rw h.fourth (div_rest _)

      sum_up :
          (x0 x1 x2 x3 : ℕ)
          → x0 + 10 * q0 ≡ 6 * (d3 + d2 + d1) + a
          → x1 + 10 * q1 ≡ q0 + 9 * d3 + 5 * d2 + d1
          → x2 + 10 * q2 ≡ q1 + 2 * d2
          → x3 + 10 * q3 ≡ q2 + 4 * d3
          → x0 + 10 * (x1 + 10 * (x2 + 10 * (x3 + 10 * (q3 + 10 * 0))))
            ≡ a + 16 * d1 + 256 * d2 + 4096 * d3
      sum_up x0 x1 x2 x3 p0 p1 p2 p3 = omega arith

  full-AllDigits : q3 < 10 → AllDigits full
  full-AllDigits small = omega arith

  top_small : a + 16 * d1 + 256 * d2 + 4096 * d3 < 100000 → q3 < 10
  top_small small = omega arith

module _ (q : ℕ) (small : q < 100000) where
  abbrev a : ℕ
  a = q % 16

  abbrev b : ℕ
  b = q / 2 ^ 4 % 16

  abbrev c : ℕ
  c = q / 2 ^ 8 % 16

  abbrev d : ℕ
  d = q / 2 ^ 12

  parts : a + 16 * b + 256 * c + 4096 * d ≡ q
  parts = omega arith

  divided : IsDivision a b c d (q0 a b c d) (q1 a b c d) (q2 a b c d) (q3 a b c d)
  divided = record {
    first = first_lem a b c d (omega arith) (omega arith) (omega arith) (omega arith);
    second = second_lem a b c d (omega arith) (omega arith) (omega arith) (omega arith);
    third = third_lem a b c d (omega arith) (omega arith) (omega arith) (omega arith);
    fourth = fourth_lem a b c d (omega arith) (omega arith) (omega arith) (omega arith);
  }

  q3_small : q3 a b c d < 10
  q3_small = top_small a b c d _ _ _ _ divided (rw parts small)

  put_dec_full_value : dec_value (put_dec_full q) ≡ q
  unfolding put_dec_full
  put_dec_full_value = full_value a b c d _ _ _ _ divided ∙ parts

  put_dec_full-AllDigits : AllDigits (put_dec_full q)
  unfolding put_dec_full
  put_dec_full-AllDigits = full-AllDigits a b c d _ _ _ _ divided q3_small

-- The same digits without the leading zeros.
module _ (a d1 d2 d3 q0 q1 q2 q3 : ℕ) (h : IsDivision a d1 d2 d3 q0 q1 q2 q3)
    (small : q3 < 10) where
  abbrev top : List ℕ
  top = if q3 != 0 then digit q3 ∷ [] else []

  abbrev thousands : List ℕ
  thousands = if q2 + 4 * d3 != 0 then digit (q2 + 4 * d3 - 10 * q3) ∷ top else []

  abbrev hundreds : List ℕ
  hundreds = if q1 + 2 * d2 != 0 || d3 != 0 then digit (q1 + 2 * d2 - 10 * q2) ∷ thousands else []

  abbrev tens : List ℕ
  tens =
      if q0 + 9 * d3 + 5 * d2 + d1 != 0
      then digit (q0 + 9 * d3 + 5 * d2 + d1 - 10 * q1) ∷ hundreds
      else []

  top_value : dec_value top ≡ q3
  top_value = ground arith

  thousands_value : dec_value thousands ≡ q2 + 4 * d3
  thousands_value = ground (arith, top_value)

  hundreds_value : dec_value hundreds ≡ q1 + 2 * d2 + 40 * d3
  hundreds_value = ground (arith, thousands_value)

  tens_value : dec_value tens ≡ q0 + 9 * d3 + 5 * d2 + d1 + 20 * d2 + 400 * d3
  tens_value = ground (arith, hundreds_value)

  trunc_value :
      dec_value (digit (6 * (d3 + d2 + d1) + a - 10 * q0) ∷ tens)
      ≡ a + 16 * d1 + 256 * d2 + 4096 * d3
  trunc_value = omega (arith, tens_value, h.first)

  top-AllDigits : AllDigits top
  top-AllDigits = ground arith

  thousands-AllDigits : AllDigits thousands
  thousands-AllDigits = ground (arith, top-AllDigits)

  hundreds-AllDigits : AllDigits hundreds
  hundreds-AllDigits = ground (arith, thousands-AllDigits)

  tens-AllDigits : AllDigits tens
  tens-AllDigits = ground (arith, hundreds-AllDigits)

  trunc-AllDigits : AllDigits (digit (6 * (d3 + d2 + d1) + a - 10 * q0) ∷ tens)
  trunc-AllDigits = (omega (arith, h.first), tens-AllDigits)

put_dec_trunc_value : (q : ℕ) → q < 100000 → dec_value (put_dec_trunc q) ≡ q
unfolding put_dec_trunc
put_dec_trunc_value q small =
    trunc_value (q % 16) (q / 2 ^ 4 % 16) (q / 2 ^ 8 % 16) (q / 2 ^ 12) _ _ _ _ (divided q small)
      (q3_small q small)
    ∙ parts q small

put_dec_trunc-AllDigits : (q : ℕ) → q < 100000 → AllDigits (put_dec_trunc q)
unfolding put_dec_trunc
put_dec_trunc-AllDigits q small =
    trunc-AllDigits (q % 16) (q / 2 ^ 4 % 16) (q / 2 ^ 8 % 16) (q / 2 ^ 12) _ _ _ _
      (divided q small) (q3_small q small)

dec_value-append_five :
    (c0 c1 c2 c3 c4 : ℕ) (xs : List ℕ)
    → dec_value (c0 ∷ c1 ∷ c2 ∷ c3 ∷ c4 ∷ xs)
      ≡ dec_value (c0 ∷ c1 ∷ c2 ∷ c3 ∷ c4 ∷ []) + 100000 * dec_value xs
dec_value-append_five c0 c1 c2 c3 c4 xs = omega arith

pub AllDigits-append : (xs ys : List ℕ) → AllDigits xs → AllDigits ys → AllDigits (xs ++ ys)
AllDigits-append [] ys p q = q
AllDigits-append (x ∷ xs) ys p q = (p.0, AllDigits-append xs ys p.1 q)

put_dec_full-append :
    (q : ℕ) (xs : List ℕ)
    → q < 100000
    → dec_value (put_dec_full q ++ xs) ≡ q + 100000 * dec_value xs
put_dec_full-append q xs small =
    dec_value-put_dec_full ∙ ap (λ v. v + 100000 * dec_value xs) (put_dec_full_value q small)
  where
    dec_value-put_dec_full :
        dec_value (put_dec_full q ++ xs) ≡ dec_value (put_dec_full q) + 100000 * dec_value xs
    dec_value-put_dec_full = unfold put_dec_full in dec_value-append_five _ _ _ _ _ xs

-- `put_dec` gives decimal digits, and they stand for the number, for every number that its rounds
-- suffice for.
pub put_dec_value :
    (rounds num : ℕ)
    → num < 10 ^ 5 * 100000 ^ rounds
    → (dec_value (put_dec rounds num) ≡ num) × AllDigits (put_dec rounds num)
unfolding put_dec
put_dec_value zero num h =
    (put_dec_trunc_value num (omega arith), put_dec_trunc-AllDigits num (omega arith))
put_dec_value (suc rounds) num h = elim (Bool-cases (ltb num 100000)) [
  | inl less ↦
      rw less (put_dec_trunc_value num (ground arith), put_dec_trunc-AllDigits num (ground arith))
  | inr more ↦
      let ih = put_dec_value rounds (num / 100000) (div-lt num rounds h) in
      rw more (
        put_dec_full-append (num % 100000) _ (omega arith) ∙ omega (arith, ih.0),
        AllDigits-append (put_dec_full (num % 100000)) _
            (put_dec_full-AllDigits (num % 100000) (omega arith)) ih.1,
      )
]
  where
    div-lt :
        (num rounds : ℕ)
        → num < 10 ^ 5 * 100000 ^ suc rounds
        → num / 100000 < 10 ^ 5 * 100000 ^ rounds
    div-lt num rounds p = omega (arith, pow-suc 100000 rounds)

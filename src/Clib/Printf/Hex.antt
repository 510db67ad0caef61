-- ===== src/Clib/Printf/Hex.antt =====
-- Hexadecimal numbers of lib/mylibc/stdio/simple_printf.c, and what lib/mylibc/stdlib/strtoul.c reads
-- them as.
use mathlib.Core.List.{append-nil, reverse, reverse-cons}
use native.Mathlib.Nat.{pow-suc}
use non_os_lite.Prelude.{
  Bool, Bool-cases, List, [], ap, arith, false, if◌then◌else◌, inl, inr, length, ltb, refl, suc,
  true, u32, zero, ℕ, ◌%◌, ◌*◌, ◌++◌, ◌+◌, ◌-◌, ◌/◌, ◌<◌, ◌==◌, ◌^◌, ◌∙◌, ◌∷◌, ◌≡◌, ◌≤◌,
}
use non_os_lite.Clib.Strtoul.{isdigit, isxdigit, strtoul, strtoul_hex, tolower}
use non_os_lite.Clib.Printf.{
  Flags, hex_digit, lay_number, lay_out, no_flags, number, number_digits, repeat, shift_digits,
}

-- The flags of `%0x` and `%0X`.
abbrev pub hex_flags : Bool → Flags
hex_flags lower = record no_flags { zeropad = true; small = lower }

lay_out-zero_pad :
    (size extra : ℕ) (lower : Bool) (tmp : List ℕ)
    → extra ≡ 0
    → lay_out size (hex_flags lower) [] [] extra tmp ≡ repeat size b'0' ++ reverse tmp
unfolding lay_out
lay_out-zero_pad size extra lower tmp e =
    let none_left : size - 0 - (size - 0) ≡ 0 = omega arith in
    let all : size - 0 ≡ size = omega arith in rw (e, none_left, all, append-nil) refl

-- With zeros on the left, the digits stand behind as many zeros as the width leaves.
pub number-zero_pad :
    (n size : ℕ) (lower : Bool)
    → number n 16 size 0 (hex_flags lower)
      ≡ repeat (size - length (number_digits n 16 lower)) b'0' ++ reverse (number_digits n 16 lower)
unfolding number lay_number
number-zero_pad n size lower = pad (number_digits n 16 lower)
  where
    pad :
        (tmp : List ℕ)
        → lay_out
            (size - 0 - 0 - (if ltb 0 (length tmp) then length tmp else 0))
            (hex_flags lower)
            []
            []
            ((if ltb 0 (length tmp) then length tmp else 0) - length tmp)
            tmp
          ≡ repeat (size - length tmp) b'0' ++ reverse tmp
    pad tmp =
        lay_out-zero_pad _ _ lower tmp (ground arith)
        ∙ ap (λ k. repeat k b'0' ++ reverse tmp) (ground arith)

is_zero : (n : ℕ) → (n == 0) ≡ true → n ≡ 0
is_zero n h = ground arith

shift_digits-last :
    (k n : ℕ) (lower : Bool) → n < 16 → shift_digits (suc k) 16 lower n ≡ hex_digit lower n ∷ []
unfolding shift_digits
shift_digits-last k n lower h =
    let low : n % 256 % 16 ≡ n = omega arith in
    let high : n / 16 ≡ 0 = omega arith in rw (low, high) refl

shift_digits-two :
    (k n : ℕ) (lower : Bool)
    → 16 ≤ n
    → n < 256
    → shift_digits (suc (suc k)) 16 lower n
      ≡ hex_digit lower (n % 16) ∷ hex_digit lower (n / 16) ∷ []
unfolding shift_digits
shift_digits-two k n lower h small =
    let low : n % 256 % 16 ≡ n % 16 = omega arith in
    let more : (n / 16 == 0) ≡ false = ground arith in
    rw (more, low)
      (ap (λ t. hex_digit lower (n % 16) ∷ t) (shift_digits-last k (n / 16) lower (omega arith)))

number_digits-one :
    (n : ℕ) (lower : Bool) → n < 16 → number_digits n 16 lower ≡ hex_digit lower n ∷ []
unfolding number_digits
number_digits-one n lower h = elim (Bool-cases (n == 0)) [
  | inl z ↦ rw (z, is_zero n z) refl
  | inr nz ↦ rw nz (shift_digits-last 21 n lower h)
]

number_digits-two :
    (n : ℕ) (lower : Bool)
    → 16 ≤ n
    → n < 256
    → number_digits n 16 lower ≡ hex_digit lower (n % 16) ∷ hex_digit lower (n / 16) ∷ []
unfolding number_digits
number_digits-two n lower h small =
    let nz : (n == 0) ≡ false = ground arith in rw nz (shift_digits-two 20 n lower h small)

-- `%02X` or `%02x` of a byte is its two digits.
pub number-byte :
    (n : ℕ) (lower : Bool)
    → n < 256
    → number n 16 2 0 (hex_flags lower) ≡ hex_digit lower (n / 16) ∷ hex_digit lower (n % 16) ∷ []
number-byte n lower h = number-zero_pad n 2 lower ∙ elim (Bool-cases (ltb n 16)) [
  | inl small ↦
      let high : n / 16 ≡ 0 = ground arith in
      let low : n % 16 ≡ n = ground arith in
      ap pad_two (number_digits-one n lower (ground arith)) ∙ rw (high, low) refl
  | inr large ↦ ap pad_two (number_digits-two n lower (ground arith) h)
]
  where
    pad_two : List ℕ → List ℕ
    pad_two tmp = repeat (2 - length tmp) b'0' ++ reverse tmp

-- The value of a hexadecimal digit as `strtoul` takes it.
abbrev hex_value : ℕ → ℕ
hex_value c = if isdigit c then c - b'0' else tolower c - b'a' + 10

-- The number that digits stand for, the least significant first.
abbrev hex_number : List ℕ → ℕ
hex_number [] = 0
hex_number (c ∷ cs) = hex_value c + 16 * hex_number cs

abbrev AllHex : List ℕ → Type 0
AllHex [] = Unit {0}
AllHex (c ∷ cs) = (isxdigit c ≡ true) × AllHex cs

hex_value-hex_digit : (lower : Bool) (x : ℕ) → x < 16 → hex_value (hex_digit lower x) ≡ x
hex_value-hex_digit true x h = ground arith
hex_value-hex_digit false x h = ground arith

isxdigit-hex_digit : (lower : Bool) (x : ℕ) → x < 16 → isxdigit (hex_digit lower x) ≡ true
isxdigit-hex_digit true x h = ground arith
isxdigit-hex_digit false x h = ground arith

shift_digits-number :
    (rounds : ℕ) (lower : Bool) (n : ℕ)
    → n < 16 ^ rounds
    → (hex_number (shift_digits rounds 16 lower n) ≡ n) × AllHex (shift_digits rounds 16 lower n)
unfolding shift_digits
shift_digits-number zero lower n h = (omega arith, tt)
shift_digits-number (suc k) lower n h = elim (Bool-cases (n / 16 == 0)) [
  | inl z ↦ rw z (
    omega (arith, is_zero (n / 16) z, hex_value-hex_digit lower (n % 256 % 16) (omega arith)),
    (isxdigit-hex_digit lower (n % 256 % 16) (omega arith), tt),
  )
  | inr nz ↦
      let more = shift_digits-number k lower (n / 16) (omega (arith, pow-suc 16 k)) in
      rw nz (
        omega (arith, hex_value-hex_digit lower (n % 256 % 16) (omega arith), more.0),
        (isxdigit-hex_digit lower (n % 256 % 16) (omega arith), more.1),
      )
]

number_digits-number :
    (lower : Bool) (n : ℕ)
    → n < 2 ^ 32
    → (hex_number (number_digits n 16 lower) ≡ n) × AllHex (number_digits n 16 lower)
unfolding number_digits
number_digits-number lower n h = elim (Bool-cases (n == 0)) [
  | inl z ↦ rw z (ground arith, (refl, tt))
  | inr nz ↦ rw nz (shift_digits-number 22 lower n (omega arith))
]

-- The value of digits with the most significant first, behind `n`.
abbrev hex_from : ℕ → List ℕ → ℕ
hex_from n [] = n
hex_from n (c ∷ cs) = hex_from (n * 16 + hex_value c) cs

-- A text that does not begin with a hexadecimal digit.
abbrev pub NoHex : List ℕ → Type 0
NoHex [] = Unit {0}
NoHex (c ∷ cs) = isxdigit c ≡ false

hex_from-ge : (n : ℕ) (s : List ℕ) → n ≤ hex_from n s
hex_from-ge n [] = omega arith
hex_from-ge n (c ∷ cs) = omega (arith, hex_from-ge (n * 16 + hex_value c) cs)

hex_from-append :
    (n : ℕ) (s : List ℕ) (c : ℕ) → hex_from n (s ++ c ∷ []) ≡ hex_from n s * 16 + hex_value c
hex_from-append n [] c = refl
hex_from-append n (d ∷ s) c = hex_from-append (n * 16 + hex_value d) s c

hex_from-reverse : (xs : List ℕ) → hex_from 0 (reverse xs) ≡ hex_number xs
hex_from-reverse [] = refl
hex_from-reverse (x ∷ xs) =
    rw reverse-cons (hex_from-append 0 (reverse xs) x ∙ omega (arith, hex_from-reverse xs))

hex_from-repeat : (k : ℕ) (s : List ℕ) → hex_from 0 (repeat k b'0' ++ s) ≡ hex_from 0 s
hex_from-repeat zero s = refl
hex_from-repeat (suc k) s = hex_from-repeat k s

AllHex-append : (xs ys : List ℕ) → AllHex xs → AllHex ys → AllHex (xs ++ ys)
AllHex-append [] ys h k = k
AllHex-append (x ∷ xs) ys h k = (h.0, AllHex-append xs ys h.1 k)

AllHex-reverse : (xs : List ℕ) → AllHex xs → AllHex (reverse xs)
AllHex-reverse [] h = tt
AllHex-reverse (x ∷ xs) h =
    rw reverse-cons (AllHex-append (reverse xs) (x ∷ []) (AllHex-reverse xs h.1) (h.0, tt))

AllHex-repeat : (k : ℕ) → AllHex (repeat k b'0')
AllHex-repeat zero = tt
AllHex-repeat (suc k) = (refl, AllHex-repeat k)

strtoul_hex-stop : (n : ℕ) (rest : List ℕ) → NoHex rest → strtoul_hex rest n ≡ (n, rest)
unfolding strtoul_hex
strtoul_hex-stop n [] h = refl
strtoul_hex-stop n (c ∷ cs) h = rw h refl

strtoul_hex-digits :
    (s rest : List ℕ) (n : ℕ)
    → AllHex s
    → NoHex rest
    → hex_from n s < 2 ^ 32
    → strtoul_hex (s ++ rest) n ≡ (hex_from n s, rest)
unfolding strtoul_hex
strtoul_hex-digits [] rest n h stop fits = strtoul_hex-stop n rest stop
strtoul_hex-digits (c ∷ cs) rest n h stop fits =
    let next : u32 (u32 (n * 16) + hex_value c) ≡ n * 16 + hex_value c =
      omega (arith, hex_from-ge (n * 16 + hex_value c) cs) in
    rw (h.0, next) (strtoul_hex-digits cs rest (n * 16 + hex_value c) h.1 stop fits)

-- The digits behind any number of zeros.
abbrev padded : Bool → ℕ → ℕ → List ℕ
padded lower n k = repeat k b'0' ++ reverse (number_digits n 16 lower)

module _ (lower : Bool) (n k : ℕ) (fits : n < 2 ^ 32) where
  padded-number : hex_from 0 (padded lower n k) ≡ n
  padded-number =
      hex_from-repeat k _
      ∙ (hex_from-reverse (number_digits n 16 lower) ∙ (number_digits-number lower n fits).0)

  padded-AllHex : AllHex (padded lower n k)
  padded-AllHex =
      AllHex-append (repeat k b'0') _ (AllHex-repeat k)
        (AllHex-reverse _ (number_digits-number lower n fits).1)

-- Reading back a 32-bit number that was printed with `%0wx` or `%0wX`, whatever the width w is, gives
-- the number, if no hexadecimal digit follows, and stops at the first byte behind it.
pub strtoul-number :
    (n size : ℕ) (lower : Bool) (rest : List ℕ)
    → n < 2 ^ 32
    → NoHex rest
    → strtoul (number n 16 size 0 (hex_flags lower) ++ rest) 16 ≡ (n, rest)
unfolding strtoul
strtoul-number n size lower rest fits stop =
    let k = size - length (number_digits n 16 lower) in
    let whole = padded-number lower n k fits in
    ap (λ s. strtoul_hex (s ++ rest) 0) (number-zero_pad n size lower)
    ∙ (strtoul_hex-digits (padded lower n k) rest 0 (padded-AllHex lower n k fits) stop
          (omega (arith, whole))
        ∙ ap (λ v. (v, rest)) whole)

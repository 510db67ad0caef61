-- ===== src/Clib/Printf/Texts.antt =====
-- What the formatter of lib/mylibc/stdio/simple_printf.c makes of the directives that the code uses,
-- one directive at a time, and of a text without directives.
use mathlib.Core.Path.{ap₂}
use mathlib.Core.List.{append-nil, reverse}
use non_os_lite.Prelude.{
  Bool, Bool-cases, List, [], ap, arith, false, if◌then◌else◌, inl, inr, length, refl, some, suc,
  sym, true, ℕ, ◌%◌, ◌++◌, ◌<◌, ◌==◌, ◌^◌, ◌∙◌, ◌∷◌, ◌≡◌,
}
use non_os_lite.Clib.Decimal.{decimal}
use non_os_lite.Clib.Printf.{
  Flags, lay_number, lay_out, magnitude, no_flags, number, number_digits, sign_text,
}
use non_os_lite.Clib.Printf.Format.{
  Arg, Cursor, arg_word, convert, convert_as, convert_char, convert_number, convert_with, directive,
  format, format_loop, format_step, formatted, read_flags, read_precision, read_qualifier,
  read_width, sign_extend, skip_atoi, take_number,
}

-- The flags of `%d` and of `%u`.
abbrev int_flags : Bool → Flags
int_flags b = record no_flags { signed = b }

lay_out-none :
    (size extra : ℕ) (b : Bool) (sign tmp : List ℕ)
    → size ≡ 0
    → extra ≡ 0
    → sign ≡ []
    → lay_out size (int_flags b) sign [] extra tmp ≡ reverse tmp
unfolding lay_out
lay_out-none size extra b sign tmp e f g = rw (e, f, g) (append-nil _)

sign_text-none : (n : ℕ) (b : Bool) → n < 2 ^ 63 → sign_text n (int_flags b) ≡ []
sign_text-none n true h = ground arith
sign_text-none n false h = refl

-- The flags of `%08X`.
abbrev pub zero_flags : Flags
zero_flags = record no_flags { zeropad = true }

-- A conversion without a width lays out the digits alone.
lay_number-plain :
    (n base : ℕ) (b : Bool) (tmp : List ℕ)
    → n < 2 ^ 63
    → lay_number n base 0 0 (int_flags b) tmp ≡ reverse tmp
unfolding lay_number
lay_number-plain n base b tmp h =
    lay_out-none _ _ b _ tmp (omega arith) (ground arith) (sign_text-none n b h)

magnitude-small : (n : ℕ) (b : Bool) → n < 2 ^ 63 → magnitude n (int_flags b) ≡ n
magnitude-small n true h = ground arith
magnitude-small n false h = refl

reverse-if :
    (b : Bool) (xs ys : List ℕ)
    → reverse (if b then xs else ys) ≡ (if b then reverse xs else reverse ys)
reverse-if true xs ys = refl
reverse-if false xs ys = refl

-- `%d` and `%u` of a number below 2 ^ 63.
pub number-decimal : (n : ℕ) (b : Bool) → n < 2 ^ 63 → number n 10 0 0 (int_flags b) ≡ decimal n
unfolding number number_digits decimal
number-decimal n b h =
    lay_number-plain n 10 b _ h ∙ digits (magnitude n (int_flags b)) (magnitude-small n b h)
  where
    digits : (m : ℕ) → m ≡ n → reverse (number_digits m 10 false) ≡ decimal n
    digits m e = unfold number_digits decimal in rw e (reverse-if (n == 0) _ _)

sign_extend-small : (n : ℕ) → n < 2 ^ 31 → sign_extend (2 ^ 31) n ≡ n
sign_extend-small n h = ground arith

format_step-char : (x : ℕ) (c : Cursor) → (x == b'%') ≡ false → format_step x c ≡ some (x ∷ [], c)
unfolding format_step
format_step-char x c h = rw h refl

-- One step of the formatter, in front of what the rest of the format gives.
module _ (rounds : ℕ) (rest : List ℕ) (args : List Arg) {t : List ℕ}
    (then_text : format_loop rounds (record { fmt = rest; args = args }) ≡ formatted t) where
  pub format_loop-char :
      (x : ℕ)
      → (x == b'%') ≡ false
      → format_loop (suc rounds) (record { fmt = x ∷ rest; args = args }) ≡ formatted (x ∷ t)
  unfolding format_loop
  format_loop-char x h = rw (format_loop, format_step-char x _ h, then_text) refl

  pub format_loop-d :
      (n : ℕ)
      → n < 2 ^ 31
      → format_loop (suc rounds) (record { fmt = b'%' ∷ b'd' ∷ rest; args = arg_word n ∷ args })
        ≡ formatted (decimal n ++ t)
  unfolding format_loop format_step directive read_flags read_width read_precision read_qualifier
      convert_with convert convert_as convert_number take_number
  format_loop-d n h =
      rw (sign_extend-small n h, number-decimal n true (omega arith), then_text) refl

  pub format_loop-c :
      (n : ℕ)
      → n < 256
      → format_loop (suc rounds) (record { fmt = b'%' ∷ b'c' ∷ rest; args = arg_word n ∷ args })
        ≡ formatted (n ∷ t)
  unfolding format_loop format_step directive read_flags read_width read_precision read_qualifier
      convert_with convert convert_as convert_char
  format_loop-c n h = let e : n % 2 ^ 8 ≡ n = omega arith in rw (e, then_text) refl

  -- `%02X`
  pub format_loop-hex2 :
      (n : ℕ)
      → format_loop
          (suc rounds)
          (record { fmt = b'%' ∷ b'0' ∷ b'2' ∷ b'X' ∷ rest; args = arg_word n ∷ args })
        ≡ formatted (number n 16 2 0 zero_flags ++ t)
  unfolding format_loop format_step directive read_flags read_width read_precision read_qualifier
      skip_atoi convert_with convert convert_as convert_number take_number
  format_loop-hex2 n = rw then_text refl

  -- `%08X`
  pub format_loop-hex8 :
      (n : ℕ)
      → format_loop
          (suc rounds)
          (record { fmt = b'%' ∷ b'0' ∷ b'8' ∷ b'X' ∷ rest; args = arg_word n ∷ args })
        ≡ formatted (number n 16 8 0 zero_flags ++ t)
  unfolding format_loop format_step directive read_flags read_width read_precision read_qualifier
      skip_atoi convert_with convert convert_as convert_number take_number
  format_loop-hex8 n = rw then_text refl

pub format-end :
    (rounds : ℕ) (args : List Arg)
    → format_loop (suc rounds) (record { fmt = []; args = args }) ≡ formatted []
unfolding format_loop
format-end rounds args = refl

pub format-format_loop :
    (fmt : List ℕ) (args : List Arg)
    → format fmt args ≡ format_loop (suc (length fmt)) (record { fmt = fmt; args = args })
unfolding format
format-format_loop fmt args = refl

-- A text without `%` is printed as it stands.
abbrev pub is_plain : List ℕ → Bool
is_plain [] = true
is_plain (c ∷ cs) = if c == b'%' then false else is_plain cs

is_plain-parts :
    (c : ℕ) (cs : List ℕ) → is_plain (c ∷ cs) ≡ true → ((c == b'%') ≡ false) × (is_plain cs ≡ true)
is_plain-parts c cs h = elim (Bool-cases (c == b'%')) [
  | inl e ↦ let clash : false ≡ true = (rw e at h) in cc
  | inr e ↦ (e, (rw e at h))
]

abbrev pub add_rounds : List ℕ → ℕ → ℕ
add_rounds [] rounds = rounds
add_rounds (c ∷ cs) rounds = suc (add_rounds cs rounds)

add_rounds-one : (s : List ℕ) → add_rounds s 1 ≡ suc (length s)
add_rounds-one [] = refl
add_rounds-one (c ∷ cs) = ap (λ n. suc n) (add_rounds-one cs)

pub format_loop-plain :
    (s : List ℕ) (rounds : ℕ) (rest : List ℕ) (args : List Arg) {t : List ℕ}
    → is_plain s ≡ true
    → format_loop rounds (record { fmt = rest; args = args }) ≡ formatted t
    → format_loop (add_rounds s rounds) (record { fmt = s ++ rest; args = args })
      ≡ formatted (s ++ t)
format_loop-plain [] rounds rest args h e = e
format_loop-plain (c ∷ cs) rounds rest args h e =
    let p = is_plain-parts c cs h in
    format_loop-char _ _ args (format_loop-plain cs rounds rest args p.1 e) c p.0

pub format-plain : (s : List ℕ) (args : List Arg) → is_plain s ≡ true → format s args ≡ formatted s
format-plain s args h =
    format-format_loop s args
    ∙ ap₂ (λ k f. format_loop k (record { fmt = f; args = args })) (sym (add_rounds-one s))
        (sym (append-nil s))
    ∙ format_loop-plain s 1 [] args h (format-end 0 args)
    ∙ ap formatted (append-nil s)

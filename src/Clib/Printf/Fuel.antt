-- ===== src/Clib/Printf/Fuel.antt =====
-- The loop over the format in lib/mylibc/stdio/simple_printf.c ends: each directive leaves a format
-- that is no longer.
use non_os_lite.Prelude.{
  Bool-cases, List, Option, [], arith, inl, inr, length, none, some, suc, zero, ℕ, ◌*◌, ◌+◌, ◌-◌,
  ◌<◌, ◌==◌, ◌∷◌, ◌≢◌, ◌≤◌,
}
use non_os_lite.Clib.Strtoul.{isdigit}
use non_os_lite.Clib.Printf.{Flags, no_flags}
use non_os_lite.Clib.Printf.Format.{
  Arg, Conversion, Cursor, Formatted, Spec, arg_quad, arg_string, arg_word, as_signed, as_small,
  conv_char, conv_count, conv_default, conv_float, conv_hex, conv_hex_small, conv_octal,
  conv_percent, conv_pointer, conv_signed, conv_string, conv_unsigned, conversion_of, convert,
  convert_as, convert_char, convert_number, convert_pointer, convert_string, convert_with,
  directive, flag_of, format, format_loop, format_step, formatted, out_of_fuel, prepend, read_flags,
  read_places, read_precision, read_qualifier, read_width, skip_atoi, skip_suffix, take_number,
  take_word, undefined, ◌>>=◌,
}

-- What is left, when there is a result, is at most so long.
unfoldable Left {ℓ} : {A : Type ℓ} → ℕ → Option (A × Cursor) → Type 0
Left n none = Unit {0}
Left n (some r) = length r.1.fmt ≤ n

read_flags-Left : (f : Flags) (s : List ℕ) → length (read_flags f s).1 ≤ length s
unfolding read_flags
read_flags-Left f [] = omega arith
read_flags-Left f (c ∷ cs) = flag_cases (flag_of f c) (λ g. read_flags-Left g cs)
  where
    flag_cases :
        (o : Option Flags)
        → ((g : Flags) → length (read_flags g cs).1 ≤ length cs)
        → length
            (elim o as (λ _. Flags × List ℕ) [ none ↦ (f, c ∷ cs) | some g ↦ read_flags g cs ]).1
          ≤ suc (length cs)
    flag_cases none h = omega arith
    flag_cases (some g) h = omega (arith, h g)

skip_atoi-Left : (s : List ℕ) (i : ℕ) → length (skip_atoi s i).1 ≤ length s
unfolding skip_atoi
skip_atoi-Left [] i = omega arith
skip_atoi-Left (c ∷ cs) i = ground (arith, skip_atoi-Left cs (i * 10 + c - b'0'))

skip_suffix-Left : (s : List ℕ) → length (skip_suffix s) ≤ length s
unfolding skip_suffix
skip_suffix-Left [] = omega arith
skip_suffix-Left (c ∷ cs) = ground (arith, skip_suffix-Left cs)

read_qualifier-Left : (s : List ℕ) → length (read_qualifier s).1 ≤ length s
unfolding read_qualifier
read_qualifier-Left [] = omega arith
read_qualifier-Left (c ∷ []) = ground arith
read_qualifier-Left (c ∷ d ∷ ds) = ground arith

Left-none {ℓ} : (A : Type ℓ) (n : ℕ) → Left {A = A} n none
unfolding Left
Left-none A n = tt

Left-some {ℓ} : {A : Type ℓ} (n : ℕ) (r : A × Cursor) → length r.1.fmt ≤ n → Left n (some r)
unfolding Left
Left-some n r h = h

Left-weaken {ℓ} : {A : Type ℓ} (m n : ℕ) (o : Option (A × Cursor)) → m ≤ n → Left m o → Left n o
unfolding Left
Left-weaken m n none h k = tt
Left-weaken m n (some r) h k = omega arith

-- A chain of readers leaves no more than its parts do.
>>=-Left {ℓ κ} :
    {A : Type ℓ} {B : Type κ} (n : ℕ) (m : Option (A × Cursor))
    → (f : A × Cursor → Option (B × Cursor)) → Left n m
    → ((r : A × Cursor) → Left (length r.1.fmt) (f r))
    → Left n (m >>= f)
unfolding Left
>>=-Left n none f h k = tt
>>=-Left n (some r) f h k = Left-weaken _ n (f r) h (k r)

take_word-Left {ℓ} :
    {A : Type ℓ} (n : ℕ) (args : List Arg) (f : ℕ × List Arg → Option (A × Cursor))
    → ((r : ℕ × List Arg) → Left n (f r))
    → Left n (take_word args >>= f)
unfolding Left
take_word-Left n [] f k = tt
take_word-Left n (arg_word x ∷ more) f k = k (x, more)
take_word-Left n (arg_quad x ∷ more) f k = tt
take_word-Left n (arg_string x ∷ more) f k = tt

read_width-Left :
    (f : Flags) (s : List ℕ) (args : List Arg)
    → Left (length s) (read_width f (record { fmt = s; args = args }))
unfolding Left read_width
read_width-Left f [] args = omega arith
read_width-Left f (x ∷ xs) args = elim (Bool-cases (isdigit x)) [
  | inl e ↦ rw e (omega (arith, skip_atoi-Left xs (0 + x - b'0')))
  | inr e ↦ elim (Bool-cases (x == b'*')) [
    | inl star ↦ rw (e, star) (take_word-Left (suc (length xs)) args _ (λ r. ground arith))
    | inr other ↦ rw (e, other) (omega arith)
  ]
]

read_places-Left :
    (s : List ℕ) (args : List Arg) → Left (length s) (read_places (record { fmt = s; args = args }))
unfolding Left read_places
read_places-Left [] args = omega arith
read_places-Left (x ∷ xs) args = elim (Bool-cases (isdigit x)) [
  | inl e ↦ rw e (omega (arith, skip_atoi-Left xs (0 + x - b'0')))
  | inr e ↦ elim (Bool-cases (x == b'*')) [
    | inl star ↦ rw (e, star) (take_word-Left (suc (length xs)) args _ (λ r. omega arith))
    | inr other ↦ rw (e, other) (omega arith)
  ]
]

read_precision-Left :
    (s : List ℕ) (args : List Arg)
    → Left (length s) (read_precision (record { fmt = s; args = args }))
unfolding Left read_precision
read_precision-Left [] args = omega arith
read_precision-Left (x ∷ xs) args = elim (Bool-cases (x == b'.')) [
  | inl e ↦ rw e (
      >>=-Left (suc (length xs)) _ _
        (Left-weaken (length xs) (suc (length xs)) _ (omega arith) (read_places-Left xs args))
        (λ r. omega arith))
  | inr e ↦ rw e (omega arith)
]

take_number-Left :
    (n : ℕ) (s : Spec) (args : List Arg) (f : ℕ × List Arg → Option (List ℕ × Cursor))
    → ((r : ℕ × List Arg) → Left n (f r))
    → Left n (take_number s args >>= f)
unfolding Left
take_number-Left n s args f k = go (take_number s args)
  where
    go : (o : Option (ℕ × List Arg)) → Left n (o >>= f)
    go none = tt
    go (some r) = k r

-- The conversions take the format as it stands, but for the suffix of a pointer.
module _ (s : Spec) (t : List ℕ) (args : List Arg) where
  abbrev here : Cursor
  here = record { fmt = t; args = args }

  convert_number-Left : (base : ℕ) → Left (length t) (convert_number base s here)
  unfolding Left convert_number
  convert_number-Left base = take_number-Left _ s args _ (λ r. omega arith)

  convert_char-Left : Left (length t) (convert_char s here)
  unfolding Left convert_char
  convert_char-Left = take_word-Left _ args _ (λ r. omega arith)

  convert_pointer-Left : Left (length t) (convert_pointer s here)
  unfolding Left convert_pointer
  convert_pointer-Left = take_word-Left _ args _ (λ r. skip_suffix-Left t)

convert_string-Left :
    (s : Spec) (t : List ℕ) (args : List Arg)
    → Left (length t) (convert_string s (record { fmt = t; args = args }))
unfolding Left convert_string
convert_string-Left s t [] = tt
convert_string-Left s t (arg_word x ∷ more) = tt
convert_string-Left s t (arg_quad x ∷ more) = tt
convert_string-Left s t (arg_string x ∷ more) = omega arith

convert_as-Left :
    (v : Conversion) (x : ℕ) (s : Spec) (t : List ℕ) (args : List Arg)
    → Left (length t) (convert_as v x s (record { fmt = t; args = args }))
unfolding convert_as
convert_as-Left conv_char x s t args = convert_char-Left s t args
convert_as-Left conv_string x s t args = convert_string-Left s t args
convert_as-Left conv_float x s t args = Left-none _ _
convert_as-Left conv_pointer x s t args = convert_pointer-Left s t args
convert_as-Left conv_count x s t args = Left-none _ _
convert_as-Left conv_percent x s t args = Left-some _ _ (omega arith)
convert_as-Left conv_octal x s t args = convert_number-Left s t args 8
convert_as-Left conv_hex_small x s t args = convert_number-Left (as_small s) t args 16
convert_as-Left conv_hex x s t args = convert_number-Left s t args 16
convert_as-Left conv_signed x s t args = convert_number-Left (as_signed s) t args 10
convert_as-Left conv_unsigned x s t args = convert_number-Left s t args 10
convert_as-Left conv_default x s t args = Left-some _ _ (omega arith)

convert-Left :
    (s : Spec) (t : List ℕ) (args : List Arg)
    → Left (length t) (convert s (record { fmt = t; args = args }))
unfolding convert
convert-Left s [] args = Left-some _ _ (omega arith)
convert-Left s (x ∷ xs) args =
    Left-weaken (length xs) _ _ (omega arith) (convert_as-Left (conversion_of x) x s xs args)

convert_with-Left :
    (fw : Flags × Option ℕ) (p : Option ℕ × Cursor) → Left (length p.1.fmt) (convert_with fw p)
unfolding convert_with
convert_with-Left fw p =
    let (q, more) = read_qualifier p.1.fmt in
    Left-weaken _ _ _ (read_qualifier-Left p.1.fmt) (
      convert-Left (record { flags = fw.0; width = fw.1; precision = p.0; qualifier = q }) more
        p.1.args)

directive-Left : (c : Cursor) → Left (length c.fmt) (directive c)
unfolding directive
directive-Left c =
    let (f, more) = read_flags no_flags c.fmt in
    >>=-Left (length c.fmt) (read_width f (record { fmt = more; args = c.args })) _
      (Left-weaken _ _ (read_width f (record { fmt = more; args = c.args }))
        (read_flags-Left no_flags c.fmt) (read_width-Left f more c.args))
      (λ w.
        >>=-Left (length w.1.fmt) (read_precision w.1) (convert_with w.0)
          (read_precision-Left w.1.fmt w.1.args) (convert_with-Left w.0))

format_step-Left : (x : ℕ) (c : Cursor) → Left (length c.fmt) (format_step x c)
unfolding format_step
format_step-Left x c = elim (Bool-cases (x == b'%')) [
  | inl e ↦ rw e (directive-Left c)
  | inr e ↦ rw e (Left-some _ _ (omega arith))
]

prepend-out : (t : List ℕ) (r : Formatted) → r ≢ out_of_fuel → prepend t r ≢ out_of_fuel
prepend-out t (formatted more) h = λ e. cc
prepend-out t undefined h = λ e. cc
prepend-out t out_of_fuel h = h

-- The round that has read a directive.
behind_directive :
    (n : ℕ) (xs : List ℕ) (o : Option (List ℕ × Cursor))
    → Left (length xs) o
    → ((s : List ℕ) (args : List Arg)
        → length s ≤ length xs
        → format_loop n (record { fmt = s; args = args }) ≢ out_of_fuel)
    → (elim o as (λ _. Formatted) [
      | none ↦ undefined
      | some (text, rest) ↦ prepend text (format_loop n rest)
    ])
      ≢ out_of_fuel
unfolding Left
behind_directive n xs none k more = λ e. cc
behind_directive n xs (some r) k more = prepend-out r.0 _ (more r.1.fmt r.1.args k)

-- One more round than the format has characters is enough.
pub format_loop-enough :
    (rounds : ℕ) (s : List ℕ) (args : List Arg)
    → length s < rounds
    → format_loop rounds (record { fmt = s; args = args }) ≢ out_of_fuel
unfolding format_loop
format_loop-enough zero s args h = absurd (omega arith)
format_loop-enough (suc n) [] args h = λ e. cc
format_loop-enough (suc n) (x ∷ xs) args h =
    behind_directive n xs (format_step x (record { fmt = xs; args = args })) (format_step-Left x _)
      (λ s more k. format_loop-enough n s more (omega arith))

-- The formatter's loop ends for every format and argument list, in at most one round more than the
-- format has characters.
pub format-out_of_fuel : (fmt : List ℕ) (args : List Arg) → format fmt args ≢ out_of_fuel
unfolding format
format-out_of_fuel fmt args = format_loop-enough (suc (length fmt)) fmt args (omega arith)

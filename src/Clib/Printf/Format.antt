-- ===== src/Clib/Printf/Format.antt =====
-- `vsnprintf_internal` of lib/mylibc/stdio/simple_printf.c: the format, and the arguments that it
-- takes. `fmt` is what is left of the format, before its NUL.
use non_os_lite.Prelude.{
  Bool, List, Option, [], if◌then◌else◌, leb, length, none, some, suc, true, u16, u8, zero, ℕ, ◌&&◌,
  ◌*◌, ◌++◌, ◌+◌, ◌-◌, ◌==◌, ◌^◌, ◌||◌, ◌∷◌,
}
use non_os_lite.Clib.Strtoul.{isdigit}
use non_os_lite.Clib.Printf.{Flags, no_flags, number, repeat, string}

-- An argument: a 32-bit word (also a pointer that is printed as a number), a 64-bit one, or a string
-- by the bytes before its NUL (`none` for a NULL pointer).
pub data Arg : Type 0 where
  arg_word : ℕ → Arg
  arg_quad : ℕ → Arg
  arg_string : Option (List ℕ) → Arg

pub record Cursor : Type 0 where
  pub fmt : List ℕ
  pub args : List Arg

-- The qualifiers `h`, `l`, `L` (also `ll`), `z` (also `Z`) and `t`, or none.
pub data Qualifier : Type 0 where
  qual_none : Qualifier
  qual_h : Qualifier
  qual_l : Qualifier
  qual_ll : Qualifier
  qual_z : Qualifier
  qual_t : Qualifier

infixl 5 ◌>>=◌
abbrev pub ◌>>=◌ {ℓ κ} : {A : Type ℓ} {B : Type κ} → Option A → (A → Option B) → Option B
none >>= f = none
some a >>= f = f a

-- "process flags"
abbrev pub flag_of : Flags → ℕ → Option Flags
flag_of f c =
    if c == b'-'
    then some (record f { left = true })
    else if c == b'+'
    then some (record f { plus = true })
    else if c == b' '
    then some (record f { space = true })
    else if c == b'#'
    then some (record f { special = true })
    else if c == b'0'
    then some (record f { zeropad = true })
    else none

unfoldable pub read_flags : Flags → List ℕ → Flags × List ℕ
read_flags f [] = (f, [])
read_flags f (c ∷ cs) = elim (flag_of f c) [ none ↦ (f, c ∷ cs) | some g ↦ read_flags g cs ]

-- `skip_atoi`
unfoldable pub skip_atoi : List ℕ → ℕ → ℕ × List ℕ
skip_atoi [] i = (i, [])
skip_atoi (c ∷ cs) i =
    let more = skip_atoi cs (i * 10 + c - b'0') in if isdigit c then more else (i, c ∷ cs)

-- `va_arg(args, int)`, of an argument that is a word.
abbrev pub take_word : List Arg → Option (ℕ × List Arg)
take_word (arg_word n ∷ more) = some (n, more)
take_word _ = none

abbrev is_int_negative : ℕ → Bool
is_int_negative n = leb (2 ^ 31) n

-- "get field width": the flags, the width (`none` is -1), and what follows.
unfoldable pub read_width : Flags → Cursor → Option ((Flags × Option ℕ) × Cursor)
unfolding skip_atoi
read_width f c = elim c.fmt [
  | [] ↦ some ((f, none), c)
  | x ∷ xs ↦
      if isdigit x
      then (let (n, more) = skip_atoi (x ∷ xs) 0 in some ((f, some n), record c { fmt = more }))
      else if x == b'*'
      then (take_word c.args >>= λ r.
          let rest : Cursor = record { fmt = xs; args = r.1 } in
          if is_int_negative r.0
          then some ((record f { left = true }, some (2 ^ 32 - r.0)), rest)
          else some ((f, some r.0), rest))
      else some ((f, none), c)
]

-- "get the precision", behind the point. A negative one is 0.
unfoldable pub read_places : Cursor → Option (ℕ × Cursor)
unfolding skip_atoi
read_places c = elim c.fmt [
  | [] ↦ some (0, c)
  | x ∷ xs ↦
      if isdigit x
      then (let (n, more) = skip_atoi (x ∷ xs) 0 in some (n, record c { fmt = more }))
      else if x == b'*'
      then (take_word c.args >>= λ r.
          some (if is_int_negative r.0 then 0 else r.0, record { fmt = xs; args = r.1 }))
      else some (0, c)
]

unfoldable pub read_precision : Cursor → Option (Option ℕ × Cursor)
unfolding read_places
read_precision c = elim c.fmt [
  | [] ↦ some (none, c)
  | x ∷ xs ↦
      if x == b'.'
      then (read_places (record c { fmt = xs }) >>= λ r. some (some r.0, r.1))
      else some (none, c)
]

-- "get the conversion qualifier"
abbrev pub behind_l : List ℕ → Qualifier × List ℕ
behind_l [] = (qual_l, [])
behind_l (c ∷ cs) = if c == b'l' then (qual_ll, cs) else (qual_l, c ∷ cs)

unfoldable pub read_qualifier : List ℕ → Qualifier × List ℕ
read_qualifier [] = (qual_none, [])
read_qualifier (c ∷ cs) =
    if c == b'h'
    then (qual_h, cs)
    else if c == b'l'
    then behind_l cs
    else if c == b'L'
    then (qual_ll, cs)
    else if c == b'Z' || c == b'z'
    then (qual_z, cs)
    else if c == b't'
    then (qual_t, cs)
    else (qual_none, c ∷ cs)

pub record Spec : Type 0 where
  pub flags : Flags
  pub width : Option ℕ
  pub precision : Option ℕ
  pub qualifier : Qualifier

abbrev pub or_zero : Option ℕ → ℕ
or_zero none = 0
or_zero (some n) = n

-- `num = (signed ...) x`, of a value of 2 * half bits that is to be 64 bits wide.
abbrev pub sign_extend : ℕ → ℕ → ℕ
sign_extend half x = if leb half x then x + 2 ^ 64 - 2 * half else x

-- "num = va_arg(...)", by the qualifier.
unfoldable pub take_number : Spec → List Arg → Option (ℕ × List Arg)
take_number s (arg_quad n ∷ more) = elim s.qualifier [ qual_ll ↦ some (n, more) | _ ↦ none ]
take_number s (arg_word n ∷ more) = elim s.qualifier [
  | qual_ll ↦ none
  | qual_z ↦ some (n, more)
  | qual_t ↦ some (sign_extend (2 ^ 31) n, more)
  | qual_h ↦ some (if s.flags.signed then sign_extend (2 ^ 15) (u16 n) else u16 n, more)
  | _ ↦ some (if s.flags.signed then sign_extend (2 ^ 31) n else n, more)
]
take_number _ _ = none

unfoldable pub convert_number : ℕ → Spec → Cursor → Option (List ℕ × Cursor)
unfolding take_number number
convert_number base s c = take_number s c.args >>= λ r.
    some (number r.0 base (or_zero s.width) (or_zero s.precision) s.flags, record c { args = r.1 })

-- `case 'c'`
unfoldable pub convert_char : Spec → Cursor → Option (List ℕ × Cursor)
convert_char s c = take_word c.args >>= λ r.
    let padding = repeat (or_zero s.width - 1) b' ' in
    some
      (if s.flags.left then u8 r.0 ∷ padding else padding ++ (u8 r.0 ∷ []), record c { args = r.1 })

-- `case 's'`
unfoldable pub convert_string : Spec → Cursor → Option (List ℕ × Cursor)
unfolding string
convert_string s c = elim c.args [
  | arg_string text ∷ more ↦
      some (string text (or_zero s.width) s.precision s.flags, record c { args = more })
  | _ ↦ none
]

abbrev nil_text : List ℕ
nil_text = b'(' ∷ b'n' ∷ b'u' ∷ b'l' ∷ b'l' ∷ b')' ∷ []

-- `pointer`, without CONFIG_CMD_NET: eight digits when no width is given.
unfoldable pub pointer : ℕ → Spec → List ℕ
unfolding string number
pointer ptr s =
    if ptr == 0
    then string (some nil_text) (or_zero s.width) s.precision s.flags
    else elim s.width [
      | none ↦
          number ptr 16 8 (or_zero s.precision) (record s.flags { small = true; zeropad = true })
      | some w ↦ number ptr 16 w (or_zero s.precision) (record s.flags { small = true })
    ]

abbrev isalnum : ℕ → Bool
isalnum c = isdigit c || (leb b'a' c && leb c b'z') || (leb b'A' c && leb c b'Z')

-- "Skip all alphanumeric pointer suffixes"
unfoldable pub skip_suffix : List ℕ → List ℕ
skip_suffix [] = []
skip_suffix (c ∷ cs) = let more = skip_suffix cs in if isalnum c then more else c ∷ cs

unfoldable pub convert_pointer : Spec → Cursor → Option (List ℕ × Cursor)
unfolding pointer skip_suffix
convert_pointer s c =
    take_word c.args >>= λ r. some (pointer r.0 s, record { fmt = skip_suffix c.fmt; args = r.1 })

-- The cases of the `switch` on the conversion.
pub data Conversion : Type 0 where
  conv_char : Conversion
  conv_string : Conversion
  conv_float : Conversion
  conv_pointer : Conversion
  conv_count : Conversion
  conv_percent : Conversion
  conv_octal : Conversion
  conv_hex_small : Conversion
  conv_hex : Conversion
  conv_signed : Conversion
  conv_unsigned : Conversion
  conv_default : Conversion

abbrev pub conversion_of : ℕ → Conversion
conversion_of x =
    if x == b'c'
    then conv_char
    else if x == b's'
    then conv_string
    else if x == b'f' || x == b'g'
    then conv_float
    else if x == b'p'
    then conv_pointer
    else if x == b'n'
    then conv_count
    else if x == b'%'
    then conv_percent
    else if x == b'o'
    then conv_octal
    else if x == b'x'
    then conv_hex_small
    else if x == b'X'
    then conv_hex
    else if x == b'd' || x == b'i'
    then conv_signed
    else if x == b'u'
    then conv_unsigned
    else conv_default

-- `flags |= SMALL` and `flags |= SIGN`
abbrev pub as_small : Spec → Spec
as_small s = record s { flags = record s.flags { small = true } }

abbrev pub as_signed : Spec → Spec
as_signed s = record s { flags = record s.flags { signed = true } }

-- What each case does; `x` is the character, and the cursor stands behind it. `none` is an argument
-- of another type than the conversion takes or no argument (undefined behaviour), and the
-- conversions that are not modelled, `f`, `g` and `n`.
unfoldable pub convert_as : Conversion → ℕ → Spec → Cursor → Option (List ℕ × Cursor)
unfolding convert_number convert_char convert_string convert_pointer
convert_as conv_char x s c = convert_char s c
convert_as conv_string x s c = convert_string s c
convert_as conv_float x s c = none
convert_as conv_pointer x s c = convert_pointer s c
convert_as conv_count x s c = none
convert_as conv_percent x s c = some (b'%' ∷ [], c)
convert_as conv_octal x s c = convert_number 8 s c
convert_as conv_hex_small x s c = convert_number 16 (as_small s) c
convert_as conv_hex x s c = convert_number 16 s c
convert_as conv_signed x s c = convert_number 10 (as_signed s) c
convert_as conv_unsigned x s c = convert_number 10 s c
convert_as conv_default x s c = some (b'%' ∷ x ∷ [], c)

-- The format may end behind the `%`.
unfoldable pub convert : Spec → Cursor → Option (List ℕ × Cursor)
unfolding convert_as
convert s c = elim c.fmt [
  | [] ↦ some (b'%' ∷ [], c)
  | x ∷ xs ↦ convert_as (conversion_of x) x s (record { fmt = xs; args = c.args })
]

-- The qualifier and the conversion, behind the flags, the width and the precision.
unfoldable pub convert_with : Flags × Option ℕ → Option ℕ × Cursor → Option (List ℕ × Cursor)
unfolding read_qualifier convert
convert_with fw p =
    let (q, more) = read_qualifier p.1.fmt in
    convert (record { flags = fw.0; width = fw.1; precision = p.0; qualifier = q })
      (record { fmt = more; args = p.1.args })

-- What follows a `%`: the text that it adds, and what is left.
unfoldable pub directive : Cursor → Option (List ℕ × Cursor)
unfolding read_flags read_width read_precision convert_with
directive c =
    let (f, more) = read_flags no_flags c.fmt in
    read_width f (record { fmt = more; args = c.args }) >>= λ w.
    read_precision w.1 >>= λ p. convert_with w.0 p

pub data Formatted : Type 0 where
  formatted : List ℕ → Formatted
  undefined : Formatted
  out_of_fuel : Formatted

abbrev pub prepend : List ℕ → Formatted → Formatted
prepend t (formatted more) = formatted (t ++ more)
prepend t undefined = undefined
prepend t out_of_fuel = out_of_fuel

-- One round of the loop, at the character `x` and what is behind it.
unfoldable pub format_step : ℕ → Cursor → Option (List ℕ × Cursor)
unfolding directive
format_step x c = if x == b'%' then directive c else some (x ∷ [], c)

-- The loop over the format; each round takes a character of it at least.
unfoldable pub format_loop : ℕ → Cursor → Formatted
unfolding format_step
format_loop zero c = out_of_fuel
format_loop (suc rounds) c = elim c.fmt [
  | [] ↦ formatted []
  | x ∷ xs ↦ elim (format_step x (record { fmt = xs; args = c.args })) [
    | none ↦ undefined
    | some (text, rest) ↦ prepend text (format_loop rounds rest)
  ]
]

-- The characters that the call adds before its NUL.
unfoldable pub format : List ℕ → List Arg → Formatted
unfolding format_loop
format fmt args = format_loop (suc (length fmt)) (record { fmt = fmt; args = args })

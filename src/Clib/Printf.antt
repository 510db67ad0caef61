-- ===== src/Clib/Printf.antt =====
-- lib/mylibc/stdio/simple_printf.c: the formatter behind `sprintf`, `snprintf` and `prints`. This
-- file has the flags and the two functions that lay a field out; a text is the list of the
-- characters that the code adds with ADDCH, in their order.
pub mod Format
pub mod Output
pub mod Fuel
pub mod Width
pub mod Texts
pub mod Hex
pub mod Written
pub mod Effect
pub mod Console
use mathlib.Core.List.{reverse}
use non_os_lite.Prelude.{
  Bool, List, Option, [], false, if◌then◌else◌, leb, length, ltb, none, not, some, suc, zero, ℕ,
  ◌!=◌, ◌%◌, ◌&&◌, ◌++◌, ◌+◌, ◌-◌, ◌/◌, ◌==◌, ◌^◌, ◌||◌, ◌∷◌,
}
use non_os_lite.Clib.Decimal.{put_dec}

-- The bits of `type`: ZEROPAD, SIGN, PLUS, SPACE, LEFT, SMALL and SPECIAL.
pub record Flags : Type 0 where
  pub zeropad : Bool
  pub signed : Bool
  pub plus : Bool
  pub space : Bool
  pub left : Bool
  pub small : Bool
  pub special : Bool

abbrev pub no_flags : Flags
no_flags = record {
  zeropad = false;
  signed = false;
  plus = false;
  space = false;
  left = false;
  small = false;
  special = false;
}

-- `for (...) ADDCH(buf, c)`, `n` times.
abbrev pub repeat : ℕ → ℕ → List ℕ
repeat zero c = []
repeat (suc n) c = c ∷ repeat n c

-- `digits[x] | locase`
abbrev pub hex_digit : Bool → ℕ → ℕ
hex_digit lower x = if ltb x 10 then x + b'0' else if lower then x - 10 + b'a' else x - 10 + b'A'

-- The digits for base 8 and 16, the least significant first. Each round takes three bits at least.
unfoldable pub shift_digits : ℕ → ℕ → Bool → ℕ → List ℕ
shift_digits zero base lower num = []
shift_digits (suc rounds) base lower num =
    let more = shift_digits rounds base lower (num / base) in
    hex_digit lower (num % 256 % base) ∷ (if num / base == 0 then [] else more)

-- What `tmp` holds. 22 rounds of three bits are a 64-bit number.
unfoldable pub number_digits : ℕ → ℕ → Bool → List ℕ
unfolding put_dec shift_digits
number_digits num base lower =
    if num == 0
    then b'0' ∷ []
    else if base != 10
    then shift_digits 22 base lower num
    else put_dec 3 num

-- `(signed NUM_TYPE) num < 0`, of a number that is to be read as signed.
abbrev pub is_negative : ℕ → Flags → Bool
is_negative num type = type.signed && leb (2 ^ 63) num

abbrev pub magnitude : ℕ → Flags → ℕ
magnitude num type = if is_negative num type then 2 ^ 64 - num else num

-- The sign, when there is one.
abbrev pub sign_text : ℕ → Flags → List ℕ
sign_text num type =
    if is_negative num type
    then b'-' ∷ []
    else if type.signed && type.plus
    then b'+' ∷ []
    else if type.signed && type.space
    then b' ' ∷ []
    else []

-- The prefix `0` or `0x`, when there is one (`need_pfx`).
abbrev pub prefix_text : ℕ → Flags → List ℕ
prefix_text base type =
    if type.special && base != 10
    then (if base == 16 then b'0' ∷ (if type.small then b'x' else b'X') ∷ [] else b'0' ∷ [])
    else []

-- From "leading space padding" to the end of `number`. `size` is what is left of the field's width
-- behind the sign, the prefix and the digits; below zero it adds as much as zero does.
unfoldable pub lay_out : ℕ → Flags → List ℕ → List ℕ → ℕ → List ℕ → List ℕ
lay_out size type sign pfx zeros tmp =
    let zeropad = type.zeropad && not type.left in
    let leading = if zeropad || type.left then 0 else size in
    let padding = if type.left then 0 else size - leading in
    let trailing = size - leading - padding in
    repeat leading b' '
    ++ (sign
        ++ (pfx
            ++ (repeat padding (if zeropad then b'0' else b' ')
                ++ (repeat zeros b'0' ++ (reverse tmp ++ repeat trailing b' ')))))

-- `number` behind "generate full string in tmp[]".
unfoldable pub lay_number : ℕ → ℕ → ℕ → ℕ → Flags → List ℕ → List ℕ
unfolding lay_out
lay_number num base size precision type tmp =
    let i = length tmp in
    let wanted = if ltb precision i then i else precision in
    let pfx = prefix_text base type in
    let sign = sign_text num type in
    lay_out (size - length sign - length pfx - wanted) type sign pfx (wanted - i) tmp

-- `number`; a size or a precision of -1 does what 0 does.
unfoldable pub number : ℕ → ℕ → ℕ → ℕ → Flags → List ℕ
unfolding number_digits lay_number
number num base size precision type =
    lay_number num base size precision type (number_digits (magnitude num type) base type.small)

abbrev null_text : List ℕ
null_text = b'<' ∷ b'N' ∷ b'U' ∷ b'L' ∷ b'L' ∷ b'>' ∷ []

-- `strnlen`: a precision of -1 (`none`) is no bound.
unfoldable pub bounded : Option ℕ → List ℕ → List ℕ
bounded none s = s
bounded (some zero) s = []
bounded (some (suc n)) [] = []
bounded (some (suc n)) (c ∷ cs) = c ∷ bounded (some n) cs

-- `string`, of the bytes before the NUL; `none` is a NULL pointer.
abbrev pub shown_text : Option (List ℕ) → List ℕ
shown_text none = null_text
shown_text (some s) = s

unfoldable pub string : Option (List ℕ) → ℕ → Option ℕ → Flags → List ℕ
unfolding bounded
string s width precision flags =
    let shown = bounded precision (shown_text s) in
    let missing = repeat (width - length shown) b' ' in
    if flags.left then shown ++ missing else missing ++ shown

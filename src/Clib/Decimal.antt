-- ===== src/Clib/Decimal.antt =====
-- The decimal conversion of lib/mylibc/stdio/simple_printf.c, which `%d` and `%lu` end in. The digits
-- are stored with the least significant first; `number` prints them from the other end.
pub mod Laws
use non_os_lite.Prelude.{
  List, [], if◌then◌else◌, ltb, suc, zero, ℕ, ◌!=◌, ◌%◌, ◌*◌, ◌++◌, ◌+◌, ◌-◌, ◌/◌, ◌==◌, ◌^◌, ◌||◌,
  ◌∷◌,
}
use mathlib.Core.List.{reverse}

abbrev pub digit : ℕ → ℕ
digit d = d + b'0'

-- `put_dec_trunc`: no leading zeros.
unfoldable pub put_dec_trunc : ℕ → List ℕ
put_dec_trunc q =
    let d1 = q / 2 ^ 4 % 16 in
    let d2 = q / 2 ^ 8 % 16 in
    let d3 = q / 2 ^ 12 in
    let d0 = 6 * (d3 + d2 + d1) + q % 16 in
    let q0 = d0 * 0xcd / 2 ^ 11 in
    let e1 = q0 + 9 * d3 + 5 * d2 + d1 in
    let q1 = e1 * 0xcd / 2 ^ 11 in
    let e2 = q1 + 2 * d2 in
    let q2 = e2 * 0xd / 2 ^ 7 in
    let e3 = q2 + 4 * d3 in
    let q3 = e3 * 0xcd / 2 ^ 11 in
    let top = if q3 != 0 then digit q3 ∷ [] else [] in
    let thousands = if e3 != 0 then digit (e3 - 10 * q3) ∷ top else [] in
    let hundreds = if e2 != 0 || d3 != 0 then digit (e2 - 10 * q2) ∷ thousands else [] in
    let tens = if e1 != 0 then digit (e1 - 10 * q1) ∷ hundreds else [] in
    digit (d0 - 10 * q0) ∷ tens

-- `put_dec_full`: always five digits.
unfoldable pub put_dec_full : ℕ → List ℕ
put_dec_full q =
    let d1 = q / 2 ^ 4 % 16 in
    let d2 = q / 2 ^ 8 % 16 in
    let d3 = q / 2 ^ 12 in
    let d0 = 6 * (d3 + d2 + d1) + q % 16 in
    let q0 = d0 * 0xcd / 2 ^ 11 in
    let e1 = q0 + 9 * d3 + 5 * d2 + d1 in
    let q1 = e1 * 0xcd / 2 ^ 11 in
    let e2 = q1 + 2 * d2 in
    let q2 = e2 * 0xd / 2 ^ 7 in
    let e3 = q2 + 4 * d3 in
    let q3 = e3 * 0xcd / 2 ^ 11 in
    digit (d0 - 10 * q0)
    ∷ digit (e1 - 10 * q1)
    ∷ digit (e2 - 10 * q2)
    ∷ digit (e3 - 10 * q3)
    ∷ digit q3
    ∷ []

-- `put_dec`: five digits a round. Four rounds take any number below 10 ^ 20, so any 64-bit one.
unfoldable pub put_dec : ℕ → ℕ → List ℕ
unfolding put_dec_trunc put_dec_full
put_dec zero num = put_dec_trunc num
put_dec (suc rounds) num =
    let more = put_dec_full (num % 100000) ++ put_dec rounds (num / 100000) in
    if ltb num 100000 then put_dec_trunc num else more

-- What `number` prints for base 10 with no flags, field width or precision.
unfoldable pub decimal : ℕ → List ℕ
unfolding put_dec
decimal num = if num == 0 then b'0' ∷ [] else reverse (put_dec 3 num)

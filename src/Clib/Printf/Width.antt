-- ===== src/Clib/Printf/Width.antt =====
-- The width of a number that `number` of lib/mylibc/stdio/simple_printf.c lays out.
use mathlib.Core.List.{reverse, reverse-cons}
use non_os_lite.Prelude.{
  List, [], arith, if◌then◌else◌, length, length-append, ltb, refl, suc, zero, ℕ, ◌+◌, ◌-◌, ◌∙◌,
  ◌∷◌, ◌≡◌,
}
use non_os_lite.Clib.Printf.{
  Flags, lay_number, lay_out, magnitude, number, number_digits, prefix_text, repeat, sign_text,
}

abbrev pub max : ℕ → ℕ → ℕ
max a b = if ltb a b then b else a

pub length-repeat : (n c : ℕ) → length (repeat n c) ≡ n
length-repeat zero c = refl
length-repeat (suc n) c = omega (arith, length-repeat n c)

pub length-reverse : (xs : List ℕ) → length (reverse xs) ≡ length xs
length-reverse [] = refl
length-reverse (x ∷ xs) =
    rw reverse-cons (length-append (reverse xs) (x ∷ []) ∙ omega (arith, length-reverse xs))

length-lay_out :
    (size : ℕ) (type : Flags) (sign pfx : List ℕ) (extra : ℕ) (tmp : List ℕ)
    → length (lay_out size type sign pfx extra tmp)
      ≡ size + length sign + length pfx + extra + length tmp
unfolding lay_out
length-lay_out size type sign pfx extra tmp =
    simp (length-append, length-repeat, length-reverse) (ground arith)

-- The digits are given here.
length-lay_number :
    (num base size precision : ℕ) (type : Flags) (tmp : List ℕ)
    → length (lay_number num base size precision type tmp)
      ≡ max size (
          length (sign_text num type) + length (prefix_text base type) + max precision (length tmp))
unfolding lay_number
length-lay_number num base size precision type tmp =
    length-lay_out _ type (sign_text num type) (prefix_text base type) _ tmp
    ∙ arrange (length (sign_text num type)) (length (prefix_text base type)) (length tmp)
  where
    arrange :
        (s p i : ℕ)
        → size
            - s
            - p
            - (if ltb precision i then i else precision)
            + s
            + p
            + ((if ltb precision i then i else precision) - i)
            + i
          ≡ max size (s + p + max precision i)
    arrange s p i = ground arith

-- A number is printed as wide as asked for, or as its sign, its prefix and its digits (at least as
-- many as the precision) need, for every number, base, width, precision and set of flags.
pub length-number :
    (num base size precision : ℕ) (type : Flags)
    → length (number num base size precision type)
      ≡ max size (
          length (sign_text num type)
          + length (prefix_text base type)
          + max precision (length (number_digits (magnitude num type) base type.small)))
unfolding number
length-number num base size precision type = length-lay_number num base size precision type _

-- ===== src/Cli/Memory/Fill.antt =====
-- What `mw` of lib/cli.c writes and prints.
use non_os_lite.Prelude.{
  Bool, Bool-cases, Buf, List, [], ap, arith, false, if◌then◌else◌, inl, inr, refl, suc, true, u32,
  zero, ℕ, ◌*◌, ◌++◌, ◌+◌, ◌<◌, ◌==◌, ◌^◌, ◌∙◌, ◌∷◌, ◌≡◌, ◌≤◌, ◌⊎◌,
}
use non_os_lite.Clib.Strtol.{strtol}
use non_os_lite.Cli.Memory.{
  Token, do_wr32, dump, fill, get_le32, label, newline, put_le32, rounds_of, word, write_and_dump,
}

-- The words that a fill writes: an arithmetic progression of 32-bit words.
abbrev pub progression : ℕ → ℕ → ℕ → List ℕ
progression value datainc zero = []
progression value datainc (suc left) = value ∷ progression (u32 (value + datainc)) datainc left

-- The words in an output.
abbrev pub words_in : List Token → List ℕ
words_in [] = []
words_in (label a ∷ ts) = words_in ts
words_in (word v ∷ ts) = v ∷ words_in ts
words_in (newline ∷ ts) = words_in ts

put_le32-elsewhere : (m : Buf) (p v a : ℕ) → (a < p) ⊎ (p + 4 ≤ a) → put_le32 m p v a ≡ m a
unfolding put_le32
put_le32-elsewhere m p v a (inl h) = ground arith
put_le32-elsewhere m p v a (inr h) = ground arith

get_le32-put_le32 : (m : Buf) (p v : ℕ) → v < 2 ^ 32 → get_le32 (put_le32 m p v) p ≡ v
unfolding get_le32 put_le32
get_le32-put_le32 m p v h = ground arith

-- Outside the range nothing changes.
fill-elsewhere :
    (m : Buf) (pd value datainc left a : ℕ)
    → pd + 4 * left < 2 ^ 32
    → (a < pd) ⊎ (pd + 4 * left ≤ a)
    → fill m pd value datainc left a ≡ m a
unfolding fill
fill-elsewhere m pd value datainc zero a fits out = refl
fill-elsewhere m pd value datainc (suc left) a fits out =
    let next : u32 (pd + 4) ≡ pd + 4 = omega arith in
    rw next (
      fill-elsewhere (put_le32 m pd value) (pd + 4) _ datainc left a (omega arith) (omega arith)
      ∙ put_le32-elsewhere m pd value a (omega arith))

get_le32-agree :
    (m f : Buf) (p : ℕ) → ((a : ℕ) → p ≤ a → a < p + 4 → f a ≡ m a) → get_le32 f p ≡ get_le32 m p
unfolding get_le32
get_le32-agree m f p h = omega (
  arith,
  h p (omega arith) (omega arith),
  h (p + 1) (omega arith) (omega arith),
  h (p + 2) (omega arith) (omega arith),
  h (p + 3) (omega arith) (omega arith),
)

words_in-break :
    (b : Bool) (ts : List Token) → words_in ((if b then [] else newline ∷ []) ++ ts) ≡ words_in ts
words_in-break true ts = refl
words_in-break false ts = refl

words_in-label :
    (b : Bool) (a : ℕ) (ts : List Token)
    → words_in ((if b then label a ∷ [] else []) ++ ts) ≡ words_in ts
words_in-label true a ts = refl
words_in-label false a ts = refl

words_in-dump :
    (m : Buf) (pd left j : ℕ)
    → words_in (dump m pd (suc left) j)
      ≡ get_le32 m pd ∷ words_in (dump m (u32 (pd + 4)) left (if j + 1 == 4 then 0 else j + 1))
unfolding dump
words_in-dump m pd left j =
    words_in-label (j == 0) pd _
    ∙ ap (λ ws. get_le32 m pd ∷ ws)
        (elim (Bool-cases (j + 1 == 4)) [
          | inl e ↦ rw e (words_in-break (left == 0) _)
          | inr e ↦ rw e refl
        ])

dump-zero : (m : Buf) (pd j : ℕ) → dump m pd 0 j ≡ []
unfolding dump
dump-zero m pd j = refl

words_in-fill :
    (m : Buf) (pd value datainc left j : ℕ)
    → pd + 4 * left < 2 ^ 32
    → value < 2 ^ 32
    → words_in (dump (fill m pd value datainc left) pd left j) ≡ progression value datainc left
unfolding fill
words_in-fill m pd value datainc zero j fits small = ap words_in (dump-zero m pd j)
words_in-fill m pd value datainc (suc left) j fits small =
    let next : u32 (pd + 4) ≡ pd + 4 = omega arith in
    let m1 = put_le32 m pd value in
    let m2 = fill m1 (pd + 4) (u32 (value + datainc)) datainc left in
    let first =
      get_le32-agree m1 m2 pd (λ a l h.
        fill-elsewhere m1 (pd + 4) (u32 (value + datainc)) datainc left a (omega arith) (inl h))
      ∙ get_le32-put_le32 m pd value small in
    rw next (
      words_in-dump m2 pd left j
      ∙ rw (next, first)
          (ap (λ ws. value ∷ ws)
            (words_in-fill m1 (pd + 4) (u32 (value + datainc)) datainc left _ (omega arith)
              (omega arith))))

-- `mw` with a count and an increment, where the range ends below 2 ^ 32: it returns 0 and prints the
-- words data, data + inc, data + 2 * inc and so on, as many as the count says, which are the words
-- that memory then holds from the address on; outside the range memory is as it was.
pub do_wr32-words :
    (addr value num inc : List ℕ) (m : Buf)
    → strtol num 0 < 2 ^ 31
    → strtol addr 0 + 4 * strtol num 0 < 2 ^ 32
    → strtol value 0 < 2 ^ 32
    → ((do_wr32 (addr ∷ value ∷ num ∷ inc ∷ []) m).0.0 ≡ 0)
      × ((words_in (do_wr32 (addr ∷ value ∷ num ∷ inc ∷ []) m).0.1
            ≡ progression (strtol value 0) (strtol inc 0) (strtol num 0))
          × (((do_wr32 (addr ∷ value ∷ num ∷ inc ∷ []) m).0.1
                ≡ dump
                    (do_wr32 (addr ∷ value ∷ num ∷ inc ∷ []) m).1
                    (strtol addr 0)
                    (strtol num 0)
                    0)
              × ((a : ℕ)
                  → (a < strtol addr 0) ⊎ (strtol addr 0 + 4 * strtol num 0 ≤ a)
                  → (do_wr32 (addr ∷ value ∷ num ∷ inc ∷ []) m).1 a ≡ m a)))
unfolding do_wr32 write_and_dump
do_wr32-words addr value num inc m count fits small =
    let rounds : rounds_of (strtol num 0) ≡ strtol num 0 = ground arith in
    rw rounds (
      refl,
      (
        words_in-fill m (strtol addr 0) (strtol value 0) (strtol inc 0) (strtol num 0) 0 fits small,
        (
          refl,
          λ a out.
              fill-elsewhere m (strtol addr 0) (strtol value 0) (strtol inc 0) (strtol num 0) a fits
                out,
        ),
      ),
    )

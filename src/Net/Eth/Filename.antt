-- ===== src/Net/Eth/Filename.antt =====
-- The name that `copy_filename` of net/net_core.c stores.
use non_os_lite.Prelude.{
  Bool-cases, List, [], ap, arith, false, inl, inr, length, refl, suc, zero, ℕ, ◌++◌, ◌+◌, ◌-◌, ◌<◌,
  ◌==◌, ◌||◌, ◌∷◌, ◌≡◌, ◌≢◌,
}
use non_os_lite.Net.Eth.{copy_filename, copy_filename_loop}

copy_filename_loop-length :
    (size : ℕ) (s : List ℕ) → 0 < size → length (copy_filename_loop size s) < size
unfolding copy_filename_loop
copy_filename_loop-length size [] h = h
copy_filename_loop-length zero (c ∷ cs) h = absurd (omega arith)
copy_filename_loop-length (suc size) (c ∷ cs) h = elim (Bool-cases (c == b'"' || size == 0)) [
  | inl e ↦ rw e h
  | inr e ↦ rw e (omega (arith, copy_filename_loop-length size cs (ground arith)))
]

-- Bytes without a quotation mark.
abbrev pub Unquoted : List ℕ → Type 0
Unquoted [] = Unit {0}
Unquoted (c ∷ cs) = (c ≢ b'"') × Unquoted cs

copy_filename_loop-Unquoted :
    (size : ℕ) (s more : List ℕ)
    → Unquoted s
    → length s < size
    → copy_filename_loop size (s ++ (b'"' ∷ more)) ≡ s
unfolding copy_filename_loop
copy_filename_loop-Unquoted zero s more u h = absurd (omega arith)
copy_filename_loop-Unquoted (suc size) [] more u h = refl
copy_filename_loop-Unquoted (suc size) (c ∷ cs) more u h =
    let goes_on : (c == b'"' || size == 0) ≡ false = ground (arith, u.0) in
    rw goes_on (ap (λ r. c ∷ r) (copy_filename_loop-Unquoted size cs more u.1 (omega arith)))

-- The name and its NUL fit into `size` bytes, for a size of at least 2.
pub copy_filename-length : (s : List ℕ) (size : ℕ) → 1 < size → length (copy_filename s size) < size
unfolding copy_filename
copy_filename-length [] size h = omega arith
copy_filename-length (c ∷ cs) size h = elim (Bool-cases (c == b'"')) [
  | inl e ↦ rw e (omega (arith, copy_filename_loop-length (size - 1) cs (omega arith)))
  | inr e ↦ rw e (copy_filename_loop-length size (c ∷ cs) (omega arith))
]

-- A name in quotation marks that is at least two bytes shorter than the buffer is copied without them,
-- whatever follows.
pub copy_filename-Unquoted :
    (s more : List ℕ) (size : ℕ)
    → Unquoted s
    → length s + 1 < size
    → copy_filename (b'"' ∷ (s ++ (b'"' ∷ more))) size ≡ s
unfolding copy_filename
copy_filename-Unquoted s more size u h =
    copy_filename_loop-Unquoted (size - 1) s more u (omega arith)

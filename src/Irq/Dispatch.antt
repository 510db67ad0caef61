-- ===== src/Irq/Dispatch.antt =====
-- The order in which `do_irq` of lib/traps.c calls the handlers.
use native.Mathlib.Nat.{two-pow-succ, pow-suc, div-div-eq-div-mul, mul-div_cancel}
use non_os_lite.Prelude.{
  Bool, Bool-cases, List, [], ap, arith, eq→==, false, if◌then◌else◌, inl, inr, ne→==, refl, some,
  suc, sym, true, zero, ℕ, ◌%◌, ◌*◌, ◌+◌, ◌-◌, ◌/◌, ◌<◌, ◌==◌, ◌^◌, ◌∙◌, ◌∷◌, ◌≡◌, ◌≢◌,
}
use non_os_lite.Irq.{Handler, clear_line, do_irq, irq_loop, pending}

pub two_pow-positive : (k : ℕ) → 0 < 2 ^ k
two_pow-positive zero = omega arith
two_pow-positive (suc k) = omega (arith, two-pow-succ k, two_pow-positive k)

odd_clear : (q k p : ℕ) → q ≡ 2 * k + 1 → q * p - p ≡ k * (p + p)
odd_clear q k p h = rw h (omega arith)

even_same : (q k p : ℕ) → q ≡ 2 * k → q * p ≡ k * (p + p)
even_same q k p h = rw h (omega arith)

product-positive : (q p : ℕ) → 0 < p → q * p ≡ 0 → q ≡ 0
product-positive zero p h e = refl
product-positive (suc q) p h e = absurd (omega arith)

quotient-half : (w k : ℕ) → w / 2 ^ k / 2 ≡ w / 2 ^ (suc k)
quotient-half w k = div-div-eq-div-mul w (2 ^ k) 2 ∙ ap (λ d. w / d) (sym (pow-suc 2 k))

-- The pending lines from `irq` on, `count` of them looked at, in ascending order.
unfoldable pub pending_lines : ℕ → ℕ → ℕ → List ℕ
pending_lines word irq zero = []
pending_lines word irq (suc count) =
    let rest = pending_lines word (irq + 1) count in if pending word irq then irq ∷ rest else rest

pending_lines-none : (word irq count : ℕ) → word / 2 ^ irq ≡ 0 → pending_lines word irq count ≡ []
unfolding pending_lines
pending_lines-none word irq zero h = refl
pending_lines-none word irq (suc count) h =
    let next : word / 2 ^ (suc irq) ≡ 0 = sym (quotient-half word irq) ∙ ap (λ q. q / 2) h in
    let same : irq + 1 ≡ suc irq = omega arith in
    rw (same, h) (pending_lines-none word (suc irq) count next)

-- What is left after the line `irq` is looked at.
clear_line-half : (q irq : ℕ) → clear_line (q * 2 ^ irq) irq ≡ q / 2 * 2 ^ (suc irq)
clear_line-half q irq =
    rw (mul-div_cancel q (two_pow-positive irq), two-pow-succ irq) (halves (q % 2 == 1) refl)
  where
    halves :
        (b : Bool)
        → (q % 2 == 1) ≡ b
        → (if b then q * 2 ^ irq - 2 ^ irq else q * 2 ^ irq) ≡ q / 2 * (2 ^ irq + 2 ^ irq)
    halves true e = let r : q % 2 ≡ 1 = ground arith in odd_clear q (q / 2) (2 ^ irq) (omega arith)
    halves false e = let r : q % 2 ≢ 1 = ground arith in even_same q (q / 2) (2 ^ irq) (omega arith)

module _ {ℓ} {S : Type ℓ} (run : Handler → S → S) (table : ℕ → Handler) where
  -- The handlers of the lines, called in the order of the list.
  unfoldable pub serve : List ℕ → S → S
  serve [] s = s
  serve (irq ∷ lines) s = serve lines (run (table irq) s)

  serve-line :
      (b : Bool) (irq : ℕ) (lines : List ℕ) (s : S)
      → serve (if b then irq ∷ lines else lines) s
        ≡ serve lines (if b then run (table irq) s else s)
  unfolding serve
  serve-line true irq lines s = refl
  serve-line false irq lines s = refl

  irq_loop-serve :
      (word count irq q : ℕ) (s : S)
      → q < 2 ^ count
      → word / 2 ^ irq ≡ q
      → irq_loop run count table (q * 2 ^ irq) irq s ≡ some (serve (pending_lines word irq count) s)
  unfolding irq_loop pending_lines serve
  irq_loop-serve word zero irq q s small h =
      let none_left : q ≡ 0 = omega arith in
      let nothing : q * 2 ^ irq ≡ 0 = ap (λ k. k * 2 ^ irq) none_left ∙ omega arith in
      rw (eq→== (q * 2 ^ irq) 0 nothing) refl
  irq_loop-serve word (suc count) irq q s small h = elim (Bool-cases (q == 0)) [
    | inl e ↦
        let none_left : q ≡ 0 = ground arith in
        let nothing : q * 2 ^ irq ≡ 0 = ap (λ k. k * 2 ^ irq) none_left ∙ omega arith in
        rw (eq→== (q * 2 ^ irq) 0 nothing) (
          ap (λ lines. some (serve lines s))
            (sym (pending_lines-none word irq (suc count) (h ∙ none_left))))
    | inr e ↦
        let left : q * 2 ^ irq ≢ 0 =
          λ z. absurd (ground (arith, product-positive q (2 ^ irq) (two_pow-positive irq) z)) in
        let same : irq + 1 ≡ suc irq = omega arith in
        let line : pending (q * 2 ^ irq) irq ≡ pending word irq =
          ap (λ k. k % 2 == 1) (mul-div_cancel q (two_pow-positive irq) ∙ sym h) in
        rw (clear_line-half q irq, same)
          (rw (ne→== (q * 2 ^ irq) 0 left, line)
            (irq_loop-serve word count (suc irq) (q / 2) _ (omega (arith, two-pow-succ count))
                (sym (quotient-half word irq) ∙ ap (λ k. k / 2) h)
              ∙ ap some
                  (sym (serve-line (pending word irq) irq (pending_lines word (suc irq) count) s))))
  ]

-- For a status word of 32 bits, `do_irq` ends, and has called the handler of each pending line once, in
-- ascending order, and no other.
pub do_irq-serve {ℓ} :
    {S : Type ℓ} (run : Handler → S → S) (table : ℕ → Handler) (word : ℕ) (s : S)
    → word < 2 ^ 32
    → do_irq run table word s ≡ some (serve run table (pending_lines word 0 32) s)
unfolding do_irq
do_irq-serve run table word s small =
    ap (λ w. irq_loop run 32 table w 0 s) whole
    ∙ irq_loop-serve run table word 32 0 word s small whole_quotient
  where
    whole : word ≡ word * 2 ^ 0
    whole = omega arith

    whole_quotient : word / 2 ^ 0 ≡ word
    whole_quotient = omega arith

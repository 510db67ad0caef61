-- ===== src/Irq/Controller.antt =====
-- What the controller's functions do to each line of a register.
use native.Mathlib.Nat.{
  add-div_right, add-mul-div_right, div-div-eq-div-mul, two-pow-succ, div-eq_of_lt,
}
use non_os_lite.Prelude.{
  Bool, Bool-cases, ap, arith, false, inl, inr, leb, not, refl, suc, sym, true, zero, ℕ, ◌%◌, ◌&&◌,
  ◌*◌, ◌+◌, ◌-◌, ◌/◌, ◌<◌, ◌==◌, ◌^◌, ◌||◌, ◌∙◌, ◌≡◌, ◌≢◌, ◌⊎◌,
}
use non_os_lite.Irq.{
  Intc, IrqType, clear_line, edge_falling, edge_rising, irq_set_disable, irq_set_enable,
  irq_set_type, level_high, level_low, nr_irqs, other_type, pending, set_line,
}
use non_os_lite.Irq.Dispatch.{two_pow-positive}

power-sum : (i d : ℕ) → 2 ^ (i + (1 + d)) ≡ 2 ^ i * (2 * 2 ^ d)
power-sum zero d =
    let same : 0 + (1 + d) ≡ suc d = omega arith in rw same (omega (arith, two-pow-succ d))
power-sum (suc i) d =
    let same : suc i + (1 + d) ≡ suc (i + (1 + d)) = omega arith in
    rw (same, two-pow-succ (i + (1 + d)), two-pow-succ i, power-sum i d) (omega arith)

-- The quotient by a higher power, through the quotient by a lower one.
shift : (w i d : ℕ) → w / 2 ^ (i + (1 + d)) ≡ w / 2 ^ i / 2 / 2 ^ d
shift w i d =
    ap (λ p. w / p) (power-sum i d)
    ∙ (sym (div-div-eq-div-mul w (2 ^ i) (2 * 2 ^ d))
        ∙ sym (div-div-eq-div-mul (w / 2 ^ i) 2 (2 ^ d)))

add-above :
    (w i d : ℕ) → w / 2 ^ i % 2 ≡ 0 → (w + 2 ^ i) / 2 ^ (i + (1 + d)) ≡ w / 2 ^ (i + (1 + d))
add-above w i d even =
    let no_carry : (w + 2 ^ i) / 2 ^ i / 2 ≡ w / 2 ^ i / 2 =
      ap (λ q. q / 2) (add-div_right w (two_pow-positive i)) ∙ omega arith in
    shift (w + 2 ^ i) i d ∙ (ap (λ q. q / 2 ^ d) no_carry ∙ sym (shift w i d))

add-below : (w j d : ℕ) → (w + 2 ^ (j + (1 + d))) / 2 ^ j % 2 ≡ w / 2 ^ j % 2
add-below w j d =
    let power : 2 ^ (j + (1 + d)) ≡ 2 * 2 ^ d * 2 ^ j = power-sum j d ∙ omega arith in
    let quotient : (w + 2 * 2 ^ d * 2 ^ j) / 2 ^ j ≡ w / 2 ^ j + 2 * 2 ^ d =
      add-mul-div_right w (2 * 2 ^ d) (two_pow-positive j) in
    ap (λ p. (w + p) / 2 ^ j % 2) power ∙ (ap (λ q. q % 2) quotient ∙ omega arith)

-- Where the line `i` is clear, adding its power sets it, and leaves the others.
add-line : (w i j : ℕ) → w / 2 ^ i % 2 ≡ 0 → j ≢ i → (w + 2 ^ i) / 2 ^ j % 2 ≡ w / 2 ^ j % 2
add-line w i j even other = elim (sides j i other) [
  | inl below ↦
      let d = i - j - 1 in
      let same : i ≡ j + (1 + (i - j - 1)) = omega arith in
      ap (λ k. (w + 2 ^ k) / 2 ^ j % 2) same ∙ add-below w j d
  | inr above ↦
      let d = j - i - 1 in
      let same : j ≡ i + (1 + (j - i - 1)) = omega arith in
      ap (λ k. (w + 2 ^ i) / 2 ^ k % 2) same
      ∙ (ap (λ q. q % 2) (add-above w i d even) ∙ ap (λ k. w / 2 ^ k % 2) (sym same))
]
  where
    sides : (j i : ℕ) → j ≢ i → (j < i) ⊎ (i < j)
    sides j i h = omega arith

add-itself : (w i : ℕ) → w / 2 ^ i % 2 ≡ 0 → (w + 2 ^ i) / 2 ^ i % 2 ≡ 1
add-itself w i even = ap (λ q. q % 2) (add-div_right w (two_pow-positive i)) ∙ omega arith

-- Setting a line sets it and no other.
pub set_line-lines : (w i j : ℕ) → pending (set_line w i) j ≡ (j == i || pending w j)
set_line-lines w i j = elim (Bool-cases (pending w i)) [
  | inl e ↦ rw e (already (j == i) refl e)
  | inr e ↦ rw e (added (j == i) refl (ground arith))
]
  where
    already : (b : Bool) → (j == i) ≡ b → pending w i ≡ true → pending w j ≡ (b || pending w j)
    already true at e = let same : j ≡ i = ground arith in ap (λ k. pending w k) same ∙ e
    already false at e = refl

    added :
        (b : Bool) → (j == i) ≡ b → w / 2 ^ i % 2 ≡ 0 → pending (w + 2 ^ i) j ≡ (b || pending w j)
    added true at even =
        let same : j ≡ i = ground arith in
        ap (λ k. pending (w + 2 ^ i) k) same ∙ ap (λ q. q == 1) (add-itself w i even)
    added false at even = ap (λ q. q == 1) (add-line w i j even (ground arith))

-- A word with the line `i` set is one without it, and the line's power.
take-line : (w i : ℕ) → w / 2 ^ i % 2 ≡ 1 → w ≡ w - 2 ^ i + 2 ^ i
take-line w i odd = let small = div-eq_of_lt {n = w} {m = 2 ^ i} in ground (arith, small)

take-even : (w v i : ℕ) → w ≡ v + 2 ^ i → w / 2 ^ i % 2 ≡ 1 → v / 2 ^ i % 2 ≡ 0
take-even w v i whole odd =
    let quotient : w / 2 ^ i ≡ v / 2 ^ i + 1 =
      ap (λ x. x / 2 ^ i) whole ∙ add-div_right v (two_pow-positive i) in
    omega arith

-- Clearing a line clears it and no other.
pub clear_line-lines : (w i j : ℕ) → pending (clear_line w i) j ≡ (not (j == i) && pending w j)
clear_line-lines w i j = elim (Bool-cases (pending w i)) [
  | inl e ↦ rw e (taken (j == i) refl (ground arith))
  | inr e ↦ rw e (absent (j == i) refl e)
]
  where
    absent : (b : Bool) → (j == i) ≡ b → pending w i ≡ false → pending w j ≡ (not b && pending w j)
    absent true at e = let same : j ≡ i = ground arith in ap (λ k. pending w k) same ∙ e
    absent false at e = refl

    taken :
        (b : Bool)
        → (j == i) ≡ b
        → w / 2 ^ i % 2 ≡ 1
        → pending (w - 2 ^ i) j ≡ (not b && pending w j)
    taken true at odd =
        let same : j ≡ i = ground arith in
        ap (λ k. pending (w - 2 ^ i) k) same
        ∙ ap (λ q. q == 1) (take-even w (w - 2 ^ i) i (take-line w i odd) odd)
    taken false at odd =
        let whole = take-line w i odd in
        let rest = add-line (w - 2 ^ i) i j (take-even w (w - 2 ^ i) i whole odd) (ground arith) in
        ap (λ q. q == 1) (sym rest ∙ ap (λ x. x / 2 ^ j % 2) (sym whole))

-- The types that set a line's mode to edge, and those that set its level to low or falling.
abbrev pub is_edge : IrqType → Bool
is_edge edge_falling = true
is_edge edge_rising = true
is_edge _ = false

abbrev pub is_low : IrqType → Bool
is_low level_low = true
is_low edge_falling = true
is_low _ = false

-- `irq_set_enable` and `irq_set_disable` change the given line of the enable register and no other.
pub irq_set_enable-lines :
    (irq j : ℕ) (c : Intc)
    → (pending (irq_set_enable irq c).enable j ≡ (j == irq || pending c.enable j))
      × (pending (irq_set_disable irq c).enable j ≡ (not (j == irq) && pending c.enable j))
unfolding irq_set_enable irq_set_disable
irq_set_enable-lines irq j c = (set_line-lines c.enable irq j, clear_line-lines c.enable irq j)

in_range : (irq : ℕ) → irq < nr_irqs → leb nr_irqs irq ≡ false
in_range irq small = ground arith

-- `irq_set_type` sets the bit of the line in the mode register for the edge types, and in the level
-- register for active low and falling edge, and otherwise leaves every line as it is: no type clears
-- the bit that another type has set.
pub irq_set_type-lines :
    (irq j : ℕ) (type : IrqType) (c : Intc)
    → irq < nr_irqs
    → (pending (irq_set_type irq type c).1.mode j ≡ (is_edge type && j == irq || pending c.mode j))
      × (pending (irq_set_type irq type c).1.level j
          ≡ (is_low type && j == irq || pending c.level j))
unfolding irq_set_type
irq_set_type-lines irq j level_low c small =
    rw (in_range irq small) (refl, set_line-lines c.level irq j)
irq_set_type-lines irq j level_high c small = rw (in_range irq small) (refl, refl)
irq_set_type-lines irq j edge_falling c small =
    rw (in_range irq small) (set_line-lines c.mode irq j, set_line-lines c.level irq j)
irq_set_type-lines irq j edge_rising c small =
    rw (in_range irq small) (set_line-lines c.mode irq j, refl)
irq_set_type-lines irq j (other_type k) c small = rw (in_range irq small) (refl, refl)

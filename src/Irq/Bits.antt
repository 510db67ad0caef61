-- ===== src/Irq/Bits.antt =====
-- The lines of a conjunction of two registers.
use native.Mathlib.Nat.{div-div-eq-div-mul, two-pow-succ, zero-div}
use Prim.Native.Nat.{bit_and-bitwise, digits, min}
use non_os_lite.Prelude.{
  ap, arith, bit_and, false, refl, suc, sym, zero, ℕ, ◌%◌, ◌&&◌, ◌*◌, ◌+◌, ◌/◌, ◌==◌, ◌^◌, ◌∙◌, ◌≡◌,
  ◌≤◌,
}
use non_os_lite.Irq.{pending}

pub pending-zero : (j : ℕ) → pending 0 j ≡ false
pending-zero j = rw (zero-div (2 ^ j)) refl

pending-half : (w j : ℕ) → pending w (suc j) ≡ pending (w / 2) j
pending-half w j =
    let power : 2 ^ suc j ≡ 2 * 2 ^ j = omega (arith, two-pow-succ j) in
    ap (λ q. q % 2 == 1) (ap (λ p. w / p) power ∙ sym (div-div-eq-div-mul w 2 (2 ^ j)))

pending-first : (w : ℕ) → pending w 0 ≡ (w % 2 == 1)
pending-first w = ground arith

lowest : (q a b : ℕ) → (q * 2 + min (a % 2) (b % 2)) % 2 ≡ min (a % 2) (b % 2)
lowest q a b = ground arith

upper : (q a b : ℕ) → (q * 2 + min (a % 2) (b % 2)) / 2 ≡ q
upper q a b = ground arith

both : (a b : ℕ) → (min (a % 2) (b % 2) == 1) ≡ (a % 2 == 1 && b % 2 == 1)
both a b = ground arith

-- With at least as many rounds as the first word has bits.
digits-lines :
    (n a b j : ℕ) → a ≤ n → pending (digits (λ _. 0) min n a b) j ≡ (pending a j && pending b j)
digits-lines zero zero b j h = rw (pending-zero j) refl
digits-lines zero (suc a) b j h = absurd (omega arith)
digits-lines (suc n) zero b j h = rw (pending-zero j) refl
digits-lines (suc n) (suc a) b zero h =
    pending-first (digits (λ _. 0) min n (suc a / 2) (b / 2) * 2 + min (suc a % 2) (b % 2))
    ∙ (ap (λ q. q == 1) (lowest (digits (λ _. 0) min n (suc a / 2) (b / 2)) (suc a) b)
        ∙ (both (suc a) b ∙ rw (pending-first (suc a), pending-first b) refl))
digits-lines (suc n) (suc a) b (suc j) h =
    pending-half (digits (λ _. 0) min n (suc a / 2) (b / 2) * 2 + min (suc a % 2) (b % 2)) j
    ∙ (ap (λ w. pending w j) (upper (digits (λ _. 0) min n (suc a / 2) (b / 2)) (suc a) b)
        ∙ (digits-lines n (suc a / 2) (b / 2) j (omega arith)
            ∙ rw (pending-half (suc a) j, pending-half b j) refl))

-- `&` of two words has the lines that both have.
pub bit_and-lines : (a b j : ℕ) → pending (bit_and a b) j ≡ (pending a j && pending b j)
bit_and-lines a b j = simp bit_and-bitwise (digits-lines a a b j (omega arith))

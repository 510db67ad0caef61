-- ===== src/Fttmr/Isr.antt =====
-- The interrupt routines of drivers/timer/fttmr010.c.
use mathlib.Core.Path.{subst}
use non_os_lite.Prelude.{
  Bool, Bool-cases, ap, arith, inl, inr, ne→==, not, refl, ℕ, ◌&&◌, ◌*◌, ◌+◌, ◌<◌, ◌==◌, ◌^◌, ◌∙◌,
  ◌∷◌, ◌≡◌, ◌≢◌,
}
use non_os_lite.Irq.Bits.{bit_and-lines}
use non_os_lite.Irq.{irq_edge_clear, pending}
use non_os_lite.Irq.Controller.{clear_line-lines}
use non_os_lite.Fttmr.{
  Fttmr, acknowledge, fttmr010_t2_isr, fttmr010_t3_isr, init_timer, set_callback, start_timer,
  timer_isr, timerc_irq2, timerc_irq3,
}
use non_os_lite.Fttmr.Lines.{init_timer-handler, of_timer}

timer_isr-runs :
    (run : ℕ → Fttmr → Fttmr) (idx irq mask callback : ℕ) (t : Fttmr)
    → callback ≢ 0
    → t.handler idx ≡ callback
    → timer_isr run idx irq mask t
      ≡ record (run callback (acknowledge idx irq mask t)) { cr = t.cr }
unfolding timer_isr acknowledge
timer_isr-runs run idx irq mask callback t some_callback same =
    rw (same, ne→== callback 0 some_callback) refl

-- One number more.
next : (p : ℕ → Type 0) (n : ℕ) → ((j : ℕ) → j < n → p j) → p n → (j : ℕ) → j < n + 1 → p j
next p n less here j h = elim (Bool-cases (j == n)) [
  | inl e ↦ let same : n ≡ j = ground arith in subst p same here
  | inr e ↦ less j (ground arith)
]

-- The numbers below three, from any one on.
three :
    (p : ℕ → Type 0) (n : ℕ)
    → ((j : ℕ) → j < n → p j)
    → p n
    → p (n + 1)
    → p (n + 1 + 1)
    → (j : ℕ) → j < n + 1 + 1 + 1
    → p j
three p n less a b c = next p (n + 1 + 1) (next p (n + 1) (next p n less a) b) c

nine :
    (p : ℕ → Type 0)
    → (p 0 × (p 1 × p 2))
    → (p 3 × (p 4 × p 5))
    → (p 6 × (p 7 × p 8))
    → (j : ℕ) → j < 9
    → p j
nine p a b c =
    three p 6 (three p 3 (three p 0 (λ j h. absurd (omega arith)) a.0 a.1.0 a.1.1) b.0 b.1.0 b.1.1)
      c.0 c.1.0 c.1.1

-- What an interrupt routine has done when it calls the callback of the timer, in the state `s` behind
-- `t`: the timer is stopped, its edge is cleared in the interrupt controller, and of the nine bits of
-- the interrupt state those of the timer are clear. The other timers' bits stay.
pub record Acknowledged (idx irq : ℕ) (t s : Fttmr) : Type 0 where
  pub stopped : (j : ℕ) → pending s.cr j ≡ (not (j == 3 * idx) && pending t.cr j)
  pub edge : s.intc.cleared ≡ 2 ^ irq ∷ t.intc.cleared
  pub bits :
      (j : ℕ)
      → j < 9
      → pending s.interrupt_state j ≡ (not (of_timer idx j) && pending t.interrupt_state j)
  pub same_mask : s.interrupt_mask ≡ t.interrupt_mask

-- The mask keeps the bits of the other timers.
abbrev KeepsOthers : ℕ → ℕ → Type 0
KeepsOthers idx mask = (j : ℕ) → j < 9 → pending mask j ≡ not (of_timer idx j)

second_mask : KeepsOthers 1 0x1C7
second_mask =
    nine (λ k. pending 0x1C7 k ≡ not (of_timer 1 k)) (refl, (refl, refl)) (refl, (refl, refl))
      (refl, (refl, refl))

third_mask : KeepsOthers 2 0x3F
third_mask =
    nine (λ k. pending 0x3F k ≡ not (of_timer 2 k)) (refl, (refl, refl)) (refl, (refl, refl))
      (refl, (refl, refl))

swap : (a b : Bool) → (a && b) ≡ (b && a)
swap a b = ground arith

acknowledge-Acknowledged :
    (idx irq mask : ℕ) (t : Fttmr)
    → KeepsOthers idx mask
    → Acknowledged idx irq t (acknowledge idx irq mask t)
unfolding acknowledge irq_edge_clear
acknowledge-Acknowledged idx irq mask t keeps = record {
  stopped = λ j. clear_line-lines t.cr (3 * idx) j;
  edge = refl;
  bits = λ j h.
      bit_and-lines t.interrupt_state mask j
      ∙ (ap (λ b. pending t.interrupt_state j && b) (keeps j h)
          ∙ swap (pending t.interrupt_state j) (not (of_timer idx j)));
  same_mask = refl;
}

init_timer-other :
    (load_val callback : ℕ) (ext : Bool) (t : Fttmr)
    → (init_timer 3 load_val ext callback t).1.handler 1 ≡ t.handler 1
unfolding init_timer start_timer set_callback
init_timer-other v callback ext t = elim (Bool-cases (callback == 0)) [
  | inl e ↦ rw e refl
  | inr e ↦ rw e refl
]

-- When the timers 2 and 3 have been started, each with a callback, an interrupt of either runs its own
-- callback, on a state in which that timer's interrupt is acknowledged and the timer stopped. Behind it
-- the control register is what it was before the interrupt, whatever the callback did to it.
pub fttmr010_isr-init_timer :
    (run : ℕ → Fttmr → Fttmr) (load2 callback2 load3 callback3 : ℕ) (ext2 ext3 : Bool) (t : Fttmr)
    → callback2 ≢ 0
    → callback3 ≢ 0
    → let u = (init_timer 3 load3 ext3 callback3 (init_timer 2 load2 ext2 callback2 t).1).1 in
      ((s : Fttmr) × ((fttmr010_t2_isr run u ≡ record (run callback2 s) { cr = u.cr })
          × Acknowledged 1 timerc_irq2 u s))
      × ((s : Fttmr) × ((fttmr010_t3_isr run u ≡ record (run callback3 s) { cr = u.cr })
            × Acknowledged 2 timerc_irq3 u s))
unfolding fttmr010_t2_isr fttmr010_t3_isr
fttmr010_isr-init_timer run load2 callback2 load3 callback3 ext2 ext3 t some2 some3 =
    let t2 = (init_timer 2 load2 ext2 callback2 t).1 in
    let u = (init_timer 3 load3 ext3 callback3 t2).1 in
    let second =
      init_timer-other load3 callback3 ext3 t2
      ∙ init_timer-handler 2 load2 callback2 ext2 t (omega arith) (omega arith) some2 in
    let third = init_timer-handler 3 load3 callback3 ext3 t2 (omega arith) (omega arith) some3 in
    (
      (
        acknowledge 1 timerc_irq2 0x1C7 u,
        (
          timer_isr-runs run 1 timerc_irq2 0x1C7 callback2 u some2 second,
          acknowledge-Acknowledged 1 timerc_irq2 0x1C7 u second_mask,
        ),
      ),
      (
        acknowledge 2 timerc_irq3 0x3F u,
        (
          timer_isr-runs run 2 timerc_irq3 0x3F callback3 u some3 third,
          acknowledge-Acknowledged 2 timerc_irq3 0x3F u third_mask,
        ),
      ),
    )

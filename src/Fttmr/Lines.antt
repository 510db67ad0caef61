-- ===== src/Fttmr/Lines.antt =====
-- What the functions of the timer driver do to each bit of its registers.
use non_os_lite.Prelude.{
  Bool, Bool-cases, ap, arith, eq→==, false, if◌then◌else◌, inl, inr, leb, ltb, ne→==, not, refl,
  true, ℕ, ◌&&◌, ◌*◌, ◌+◌, ◌-◌, ◌<◌, ◌==◌, ◌||◌, ◌∙◌, ◌≡◌, ◌≢◌, ◌≤◌,
}
use non_os_lite.Irq.Bits.{pending-zero}
use non_os_lite.Irq.{Intc, clear_line, edge_rising, irq_set_type, pending, set_line}
use non_os_lite.Irq.Controller.{clear_line-lines, irq_set_enable-lines, set_line-lines}
use non_os_lite.Fttmr.{
  Fttmr, at, clear_three, disable_timer, hook_line, init_global_timer, init_timer, loaded_cfg,
  out_of_range, set_callback, set_three, start_timer, timerc_irq2, timerc_irq3,
}

-- The three bits of a timer in the interrupt registers.
abbrev pub of_timer : ℕ → ℕ → Bool
of_timer idx j = leb (3 * idx) j && ltb j (3 * idx + 3)

some_of_three :
    (b : Bool) (j k : ℕ)
    → (j == k + 2 || (j == k + 1 || (j == k || b))) ≡ (leb k j && ltb j (k + 3) || b)
some_of_three b j k = ground arith

none_of_three :
    (b : Bool) (j k : ℕ)
    → (not (j == k + 2) && (not (j == k + 1) && (not (j == k) && b)))
      ≡ (not (leb k j && ltb j (k + 3)) && b)
none_of_three b j k = ground arith

set_three-lines :
    (w k j : ℕ) → pending (set_three w k) j ≡ (leb k j && ltb j (k + 3) || pending w j)
unfolding set_three
set_three-lines w k j =
    rw
      (
        set_line-lines (set_line (set_line w k) (k + 1)) (k + 2) j,
        set_line-lines (set_line w k) (k + 1) j,
        set_line-lines w k j,
      )
      (some_of_three (pending w j) j k)

clear_three-lines :
    (w k j : ℕ) → pending (clear_three w k) j ≡ (not (leb k j && ltb j (k + 3)) && pending w j)
unfolding clear_three
clear_three-lines w k j =
    rw
      (
        clear_line-lines (clear_line (clear_line w k) (k + 1)) (k + 2) j,
        clear_line-lines (clear_line w k) (k + 1) j,
        clear_line-lines w k j,
      )
      (none_of_three (pending w j) j k)

start_timer-cr :
    (idx : ℕ) (ext : Bool) (t : Fttmr) (j : ℕ)
    → pending (start_timer idx ext t).cr j
      ≡ (ext && j == 3 * idx + 1 || (j == 3 * idx || pending t.cr j))
unfolding start_timer
start_timer-cr idx true t j =
    rw (set_line-lines (set_line t.cr (3 * idx)) (3 * idx + 1) j, set_line-lines t.cr (3 * idx) j)
      refl
start_timer-cr idx false t j = set_line-lines t.cr (3 * idx) j

-- A timer is masked exactly if it has no callback.
set_callback-mask :
    (idx callback : ℕ) (t : Fttmr) (j : ℕ)
    → pending (set_callback idx callback t).interrupt_mask j
      ≡ (if of_timer idx j then callback == 0 else pending t.interrupt_mask j)
unfolding set_callback
set_callback-mask idx callback t j = elim (Bool-cases (callback == 0)) [
  | inl e ↦ rw (e, set_three-lines t.interrupt_mask (3 * idx) j) (ground arith)
  | inr e ↦ rw (e, clear_three-lines t.interrupt_mask (3 * idx) j) (ground arith)
]

set_callback-rest :
    (idx callback : ℕ) (t : Fttmr)
    → ((set_callback idx callback t).cr ≡ t.cr) × ((set_callback idx callback t).cfg ≡ t.cfg)
unfolding set_callback
set_callback-rest idx callback t = elim (Bool-cases (callback == 0)) [
  | inl e ↦ rw e (refl, refl)
  | inr e ↦ rw e (refl, refl)
]

valid : (i : ℕ) → 0 < i → i ≤ 3 → out_of_range i ≡ false
valid i low high = ground arith

-- What `init_timer` does to the control and the mask register, bit by bit: the timer's enable bit is
-- set, its clock bit is set for an external clock and otherwise left as it was, its three interrupt
-- bits are masked exactly if there is no callback, and the bits of the other timers stay.
pub init_timer-bits :
    (i load_val callback : ℕ) (ext : Bool) (t : Fttmr)
    → 0 < i
    → i ≤ 3
    → ((j : ℕ)
        → pending (init_timer i load_val ext callback t).1.cr j
          ≡ (ext && j == 3 * (i - 1) + 1 || (j == 3 * (i - 1) || pending t.cr j)))
      × ((j : ℕ)
          → pending (init_timer i load_val ext callback t).1.interrupt_mask j
            ≡ (if of_timer (i - 1) j then callback == 0 else pending t.interrupt_mask j))
unfolding init_timer start_timer
init_timer-bits i v callback ext t low high =
    let idx = i - 1 in
    let t1 : Fttmr = record t {
      load_val = at t.load_val idx v;
      cfg = at t.cfg idx (loaded_cfg v);
    } in
    let rest = set_callback-rest idx callback t1 in
    rw (valid i low high) (
      λ j.
          start_timer-cr idx ext (set_callback idx callback t1) j
          ∙ ap (λ w. ext && j == 3 * idx + 1 || (j == 3 * idx || pending w j)) rest.0,
      λ j. set_callback-mask idx callback t1 j,
    )

disable_timer-cr :
    (i : ℕ) (t : Fttmr) (j : ℕ)
    → 0 < i
    → i ≤ 3
    → pending (disable_timer i t).cr j ≡ (not (j == 3 * (i - 1)) && pending t.cr j)
unfolding disable_timer
disable_timer-cr i t j low high =
    let same : (i - 1) * 3 ≡ 3 * (i - 1) = omega arith in
    rw (valid i low high)
      (clear_line-lines t.cr ((i - 1) * 3) j ∙ ap (λ k. not (j == k) && pending t.cr j) same)

dropped : (a b c : Bool) → (not a && (b || (a || c))) ≡ (not a && (b || c))
dropped a b c = ground arith

-- A timer that is started and stopped again leaves the control register with its enable bit clear and,
-- but for the clock bit that an external clock sets, every other bit as it was: `disable_timer` does not
-- undo the choice of the clock.
pub disable_timer-init_timer :
    (i load_val callback : ℕ) (ext : Bool) (t : Fttmr) (j : ℕ)
    → 0 < i
    → i ≤ 3
    → pending (disable_timer i (init_timer i load_val ext callback t).1).cr j
      ≡ (not (j == 3 * (i - 1)) && (ext && j == 3 * (i - 1) + 1 || pending t.cr j))
disable_timer-init_timer i v callback ext t j low high =
    disable_timer-cr i (init_timer i v ext callback t).1 j low high
    ∙ (ap (λ b. not (j == 3 * (i - 1)) && b) ((init_timer-bits i v callback ext t low high).0 j)
        ∙ dropped (j == 3 * (i - 1)) (ext && j == 3 * (i - 1) + 1) (pending t.cr j))

pub init_timer-handler :
    (i load_val callback : ℕ) (ext : Bool) (t : Fttmr)
    → 0 < i
    → i ≤ 3
    → callback ≢ 0
    → (init_timer i load_val ext callback t).1.handler (i - 1) ≡ callback
unfolding init_timer start_timer set_callback
init_timer-handler i v callback ext t low high some_callback =
    rw (valid i low high, ne→== callback 0 some_callback, eq→== (i - 1) (i - 1) refl) refl

irq_set_type-enable : (irq : ℕ) (c : Intc) → (irq_set_type irq edge_rising c).1.enable ≡ c.enable
unfolding irq_set_type
irq_set_type-enable irq c = ground arith

init_timer-intc :
    (load_val : ℕ) (ext : Bool) (t : Fttmr) → (init_timer 1 load_val ext 0 t).1.intc ≡ t.intc
unfolding init_timer start_timer set_callback
init_timer-intc v ext t = refl

hook_line-enable :
    (irq isr : ℕ) (t : Fttmr) (j : ℕ)
    → pending (hook_line irq isr t).intc.enable j ≡ (j == irq || pending t.intc.enable j)
unfolding hook_line
hook_line-enable irq isr t j =
    (irq_set_enable-lines irq j (irq_set_type irq edge_rising t.intc).1).0
    ∙ ap (λ w. j == irq || pending w j) (irq_set_type-enable irq t.intc)

hook_line-rest :
    (irq isr : ℕ) (t : Fttmr)
    → ((hook_line irq isr t).cr ≡ t.cr) × ((hook_line irq isr t).interrupt_mask ≡ t.interrupt_mask)
unfolding hook_line
hook_line-rest irq isr t = (refl, refl)

-- The global timer: timer 1 counts, alone, with the clock asked for and its interrupts masked, those of
-- the others not; and the lines 2 and 3 of the interrupt controller are enabled besides those that were.
pub init_global_timer-bits :
    (t2_isr t3_isr load_val : ℕ) (ext : Bool) (t : Fttmr) (j : ℕ)
    → (pending (init_global_timer t2_isr t3_isr load_val ext t).cr j ≡ (ext && j == 1 || j == 0))
      × ((pending (init_global_timer t2_isr t3_isr load_val ext t).interrupt_mask j ≡ ltb j 3)
          × (pending (init_global_timer t2_isr t3_isr load_val ext t).intc.enable j
              ≡ (j == 3 || (j == 2 || pending t.intc.enable j))))
unfolding init_global_timer
init_global_timer-bits t2_isr t3_isr v ext t j =
    let t0 : Fttmr = record t { cr = 0; interrupt_mask = 0 } in
    let t1 = (init_timer 1 v ext 0 t0).1 in
    let t2 = hook_line timerc_irq2 t2_isr t1 in
    let bits = init_timer-bits 1 v 0 ext t0 (omega arith) (omega arith) in
    let first = hook_line-rest timerc_irq2 t2_isr t1 in
    let second = hook_line-rest timerc_irq3 t3_isr t2 in
    let no_bit = pending-zero j in
    (
      ap (λ w. pending w j) (second.0 ∙ first.0)
          ∙ (bits.0 j
              ∙ ap (λ b. ext && j == 1 || (j == 0 || b)) no_bit
              ∙ no_more (ext && j == 1) (j == 0)),
      (
        ap (λ w. pending w j) (second.1 ∙ first.1)
            ∙ (bits.1 j ∙ ap (λ b. if of_timer 0 j then true else b) no_bit ∙ masked j),
        hook_line-enable timerc_irq3 t3_isr t2 j
            ∙ ap (λ b. j == 3 || b)
                (hook_line-enable timerc_irq2 t2_isr t1 j
                  ∙ ap (λ (c : Intc). j == 2 || pending c.enable j) (init_timer-intc v ext t0)),
      ),
    )
  where
    no_more : (a b : Bool) → (a || (b || false)) ≡ (a || b)
    no_more a b = ground arith

    masked : (j : ℕ) → (if of_timer 0 j then true else false) ≡ ltb j 3
    masked j = ground arith

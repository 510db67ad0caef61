-- ===== src/Fttmr.antt =====
-- drivers/timer/fttmr010.c but for `get_ticks`: the three timers are started, stopped and interrupt. A
-- register is a 32-bit word; `timer_index` is 1, 2 or 3, and `idx` is one less.
pub mod Isr
pub mod Lines
use non_os_lite.Prelude.{
  Bool, bit_and, false, if◌then◌else◌, ltb, true, ℕ, ◌*◌, ◌+◌, ◌-◌, ◌==◌, ◌||◌,
}
use non_os_lite.Irq.{
  Handler, Intc, clear_line, edge_rising, irq_edge_clear, irq_install_handler, irq_set_enable,
  irq_set_type, set_line,
}

-- The registers of one timer.
pub record TimerCfg : Type 0 where
  pub timer_counter : ℕ
  pub timer_load : ℕ
  pub timer_match1 : ℕ
  pub timer_match2 : ℕ

-- The registers of the block, `timer_load_val`, `timer_handler` (0 is NULL), the interrupt controller,
-- IRQ_HANDLER, and whether the CPU takes interrupts.
pub record Fttmr : Type 0 where
  pub cfg : ℕ → TimerCfg
  pub cr : ℕ
  pub interrupt_state : ℕ
  pub interrupt_mask : ℕ
  pub load_val : ℕ → ℕ
  pub handler : ℕ → ℕ
  pub intc : Intc
  pub irq_table : ℕ → Handler
  pub interrupts_on : Bool

abbrev pub at {ℓ} : {A : Type ℓ} → (ℕ → A) → ℕ → A → ℕ → A
at f i v j = if j == i then v else f j

abbrev pub stopped_cfg : TimerCfg
stopped_cfg = record { timer_counter = 0; timer_load = 0; timer_match1 = 0; timer_match2 = 0 }

abbrev pub loaded_cfg : ℕ → TimerCfg
loaded_cfg v = record { timer_counter = v; timer_load = v; timer_match1 = 0; timer_match2 = 0 }

-- `word | ((MATCH1 | MATCH2 | OVERFLOW) << (3 * idx))`, and the same bits cleared.
unfoldable pub set_three : ℕ → ℕ → ℕ
set_three word k = set_line (set_line (set_line word k) (k + 1)) (k + 2)

unfoldable pub clear_three : ℕ → ℕ → ℕ
clear_three word k = clear_line (clear_line (clear_line word k) (k + 1)) (k + 2)

abbrev pub out_of_range : ℕ → Bool
out_of_range timer_index = timer_index == 0 || ltb 3 timer_index

unfoldable pub disable_timer : ℕ → Fttmr → Fttmr
disable_timer timer_index t =
    let idx = timer_index - 1 in
    if out_of_range timer_index
    then t
    else record t { cr = clear_line t.cr (idx * 3); cfg = at t.cfg idx stopped_cfg }

-- The callback, or the lack of one.
unfoldable pub set_callback : ℕ → ℕ → Fttmr → Fttmr
set_callback idx callback t =
    if callback == 0
    then record t { interrupt_mask = set_three t.interrupt_mask (3 * idx) }
    else record t {
      handler = at t.handler idx callback;
      interrupt_mask = clear_three t.interrupt_mask (3 * idx);
      interrupts_on = true;
    }

-- `cr |= (ENABLE | CLOCK) << (3 * idx)`, the latter with an external clock.
unfoldable pub start_timer : ℕ → Bool → Fttmr → Fttmr
start_timer idx use_extclk t = record t {
  cr =
      if use_extclk
      then set_line (set_line t.cr (3 * idx)) (3 * idx + 1)
      else set_line t.cr (3 * idx);
}

-- The result `false` is the 1 of the code.
unfoldable pub init_timer : ℕ → ℕ → Bool → ℕ → Fttmr → Bool × Fttmr
init_timer timer_index load_val use_extclk callback t =
    let idx = timer_index - 1 in
    if out_of_range timer_index
    then (false, t)
    else let t1 = record t {
      load_val = at t.load_val idx load_val;
      cfg = at t.cfg idx (loaded_cfg load_val);
    } in
      (true, start_timer idx use_extclk (set_callback idx callback t1))

-- TIMERC_IRQ2 and TIMERC_IRQ3
abbrev pub timerc_irq2 : ℕ
timerc_irq2 = 2

abbrev pub timerc_irq3 : ℕ
timerc_irq3 = 3

-- What both interrupt routines do before the callback: `mask` is what is kept of the interrupt state.
unfoldable pub acknowledge : ℕ → ℕ → ℕ → Fttmr → Fttmr
acknowledge idx irq mask t = record t {
  cr = clear_line t.cr (3 * idx);
  intc = irq_edge_clear irq t.intc;
  interrupt_state = bit_and t.interrupt_state mask;
}

-- The body that they share, for the timer `idx` at its line of the controller; `run` is what a callback
-- does.
unfoldable pub timer_isr : (ℕ → Fttmr → Fttmr) → ℕ → ℕ → ℕ → Fttmr → Fttmr
timer_isr run idx irq mask t =
    let t1 = acknowledge idx irq mask t in
    let t2 = if t1.handler idx == 0 then t1 else run (t1.handler idx) t1 in record t2 { cr = t.cr }

unfoldable pub fttmr010_t2_isr : (ℕ → Fttmr → Fttmr) → Fttmr → Fttmr
fttmr010_t2_isr run t = timer_isr run 1 timerc_irq2 0x1C7 t

unfoldable pub fttmr010_t3_isr : (ℕ → Fttmr → Fttmr) → Fttmr → Fttmr
fttmr010_t3_isr run t = timer_isr run 2 timerc_irq3 0x3F t

-- `irq_set_type`, `irq_install_handler` and `irq_set_enable` for one line; `isr` is the routine's
-- address.
unfoldable pub hook_line : ℕ → ℕ → Fttmr → Fttmr
hook_line irq isr t = record t {
  intc = irq_set_enable irq (irq_set_type irq edge_rising t.intc).1;
  irq_table = irq_install_handler irq isr 0 t.irq_table;
}

unfoldable pub init_global_timer : ℕ → ℕ → ℕ → Bool → Fttmr → Fttmr
init_global_timer t2_isr t3_isr load_val use_extclk t =
    let t1 = (init_timer 1 load_val use_extclk 0 (record t { cr = 0; interrupt_mask = 0 })).1 in
    hook_line timerc_irq3 t3_isr (hook_line timerc_irq2 t2_isr t1)

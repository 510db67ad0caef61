-- ===== src/Irq.antt =====
-- Interrupts: the controller drivers/interrupt/ftintc010.c, and the dispatch of lib/traps.c. A set of
-- lines is a 32-bit word; line `i` is its bit `i`.
pub mod Bits
pub mod Controller
pub mod Dispatch
use non_os_lite.Prelude.{
  Bool, List, Option, false, if◌then◌else◌, leb, none, some, suc, true, zero, ℕ, ◌%◌, ◌+◌, ◌-◌, ◌/◌,
  ◌==◌, ◌^◌, ◌||◌, ◌∷◌,
}

-- NR_IRQS
abbrev pub nr_irqs : ℕ
nr_irqs = 32

-- `word & (1 << irq)`
abbrev pub pending : ℕ → ℕ → Bool
pending word irq = word / 2 ^ irq % 2 == 1

-- `word | (1 << irq)` and `word & ~(1 << irq)`
abbrev pub set_line : ℕ → ℕ → ℕ
set_line word irq = if pending word irq then word else word + 2 ^ irq

abbrev pub clear_line : ℕ → ℕ → ℕ
clear_line word irq = if pending word irq then word - 2 ^ irq else word

-- The registers of the controller, by the offsets 0x4, 0xC, 0x10 and 0x14; a store of `v` at 0x8 clears
-- the latched edges of the lines in `v`, which is recorded, the newest first.
pub record Intc : Type 0 where
  pub enable : ℕ
  pub mode : ℕ
  pub level : ℕ
  pub status : ℕ
  pub cleared : List ℕ

-- The types IRQ_TYPE_LEVEL_LOW, _LEVEL_HIGH, _EDGE_FALLING and _EDGE_RISING of common.h, or another.
pub data IrqType : Type 0 where
  level_low level_high edge_falling edge_rising : IrqType
  other_type : ℕ → IrqType

-- An address of the interrupt handlers' functions, and a `void *`.
pub record Handler : Type 0 where
  pub m_func : ℕ
  pub m_data : ℕ

unfoldable pub irq_edge_clear : ℕ → Intc → Intc
irq_edge_clear irq c = record c { cleared = 2 ^ irq ∷ c.cleared }

unfoldable pub irq_set_enable : ℕ → Intc → Intc
irq_set_enable irq c = record c { enable = set_line c.enable irq }

unfoldable pub irq_set_disable : ℕ → Intc → Intc
irq_set_disable irq c = record c { enable = clear_line c.enable irq }

-- The result `false` is the -1 of the code.
unfoldable pub irq_set_type : ℕ → IrqType → Intc → Bool × Intc
irq_set_type irq type c = if leb nr_irqs irq then (false, c) else elim type [
  | level_low ↦ (true, record c { level = set_line c.level irq })
  | level_high ↦ (true, c)
  | edge_falling ↦ (true, record c { mode = set_line c.mode irq; level = set_line c.level irq })
  | edge_rising ↦ (true, record c { mode = set_line c.mode irq })
  | other_type k ↦ (false, c)
]

unfoldable pub interrupt_hw_init : Intc → Intc
interrupt_hw_init c = record c { enable = 0; mode = 0; level = 0; cleared = 0xffffffff ∷ c.cleared }

-- `irq_install_handler`: the table IRQ_HANDLER; 0 is the NULL function.
unfoldable pub irq_install_handler : ℕ → ℕ → ℕ → (ℕ → Handler) → ℕ → Handler
irq_install_handler irq handle_irq data_ptr table =
    if leb nr_irqs irq || handle_irq == 0 then table else λ i.
    if i == irq then record { m_func = handle_irq; m_data = data_ptr } else table i

-- The loop of `do_irq`, with the rounds left. A handler's effect on the machine's state `S` is `run`.
module _ {ℓ} {S : Type ℓ} (run : Handler → S → S) where
  unfoldable pub irq_loop : ℕ → (ℕ → Handler) → ℕ → ℕ → S → Option S
  irq_loop zero table vintc_is irq s = if vintc_is == 0 then some s else none
  irq_loop (suc fuel) table vintc_is irq s =
      let s1 = if pending vintc_is irq then run (table irq) s else s in
      let rest = irq_loop fuel table (clear_line vintc_is irq) (irq + 1) s1 in
      if vintc_is == 0 then some s else rest

  unfoldable pub do_irq : (ℕ → Handler) → ℕ → S → Option S
  do_irq table vintc_is s = irq_loop nr_irqs table vintc_is 0 s

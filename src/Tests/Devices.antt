-- ===== src/Tests/Devices.antt =====
-- The timers and the console at concrete states.
use non_os_lite.Dma.{Bus, ch_cfg, dma_int_err_clr, dma_int_tc_clr, outl}
use non_os_lite.Dma.Dmac020.{f_lib_dma_clear_all_interrupt, f_lib_dma_set_interrupt}
use non_os_lite.Dma.Dmac030.{dma_clear_all_interrupt, dma_wait_int_status}
use non_os_lite.Dma.Channels.{
  dma_clear_all_interrupt-registers, dma_wait_int_status-first, f_lib_dma_set_interrupt-masks,
}
use non_os_lite.Prelude.{
  Buf, Spells, [], arith, false, inl, ltb, not, refl, some, true, ℕ, ◌&&◌, ◌*◌, ◌+◌, ◌-◌, ◌<◌, ◌==◌,
  ◌||◌, ◌∷◌, ◌≡◌,
}
use non_os_lite.Irq.{Intc, pending}
use non_os_lite.Net.Sample.{blank}
use non_os_lite.Uart.{Uart, ftuart_gets, ftuart_puts, uart_init}
use non_os_lite.Uart.Lines.{AllInLine, after_line, ftuart_gets-line, ftuart_puts-uart_init}
use non_os_lite.Fttmr.{
  Fttmr, disable_timer, fttmr010_t2_isr, fttmr010_t3_isr, init_global_timer, init_timer,
  set_callback, start_timer, stopped_cfg, timerc_irq2, timerc_irq3,
}
use non_os_lite.Fttmr.Lines.{disable_timer-init_timer, init_global_timer-bits}
use non_os_lite.Uart.Lines.{ftuart_puts-uart_init}
use non_os_lite.Fttmr.{init_global_timer}
use non_os_lite.Uart.{ftuart_puts, uart_init}
use non_os_lite.Prelude.{ltb, not, ◌&&◌, ◌||◌, ◌==◌, ◌-◌, ◌*◌}
use non_os_lite.Fttmr.Isr.{Acknowledged, fttmr010_isr-init_timer}

abbrev reset_intc : Intc
reset_intc = record { enable = 0; mode = 0; level = 0; status = 0; cleared = [] }

-- Timer 1 runs with an external clock.
abbrev timers : Fttmr
timers = record {
  cfg = λ i. stopped_cfg;
  cr = 3;
  interrupt_state = 0;
  interrupt_mask = 0x1FF;
  load_val = λ i. 0;
  handler = λ i. 0;
  intc = reset_intc;
  irq_table = λ i. record { m_func = 0; m_data = 0 };
  interrupts_on = false;
}

init_timer_runs : (init_timer 2 500 false 0x1000 timers).1.cr ≡ 11
unfolding init_timer set_callback start_timer
init_timer_runs = refl

-- The callback stops its timer.
abbrev stops : ℕ → Fttmr → Fttmr
stops f t = disable_timer 2 t

disable_timer-init_timer_example :
    pending (disable_timer 2 (init_timer 2 500 true 0 timers).1).cr 4
    ≡ (not (4 == 3 * (2 - 1)) && (true && 4 == 3 * (2 - 1) + 1 || pending 3 4))
disable_timer-init_timer_example =
    disable_timer-init_timer 2 500 0 true timers 4 (omega arith) (omega arith)

init_global_timer-bits_example :
    (pending (init_global_timer 0x100 0x200 500 true timers).cr 1 ≡ (true && 1 == 1 || 1 == 0))
    × ((pending (init_global_timer 0x100 0x200 500 true timers).interrupt_mask 1 ≡ ltb 1 3)
        × (pending (init_global_timer 0x100 0x200 500 true timers).intc.enable 1
            ≡ (1 == 3 || (1 == 2 || pending 0 1))))
init_global_timer-bits_example = init_global_timer-bits 0x100 0x200 500 true timers 1

abbrev both_started : Fttmr
both_started = (init_timer 3 700 true 0x2000 (init_timer 2 500 false 0x1000 timers).1).1

fttmr010_isr-init_timer_example :
    ((s : Fttmr) × ((fttmr010_t2_isr stops both_started
          ≡ record (stops 0x1000 s) { cr = both_started.cr })
        × Acknowledged 1 timerc_irq2 both_started s))
    × ((s : Fttmr) × ((fttmr010_t3_isr stops both_started
            ≡ record (stops 0x2000 s) { cr = both_started.cr })
          × Acknowledged 2 timerc_irq3 both_started s))
fttmr010_isr-init_timer_example =
    fttmr010_isr-init_timer stops 500 0x1000 700 0x2000 false true timers
      (λ e. absurd (omega arith)) (λ e. absurd (omega arith))

-- "ok", CR and the next line's first byte are to come.
abbrev console : Uart
console = record {
  lcr = 3;
  fcr = 7;
  dlm = 0;
  dll = 0;
  transmitted = [];
  incoming = b'o' ∷ b'k' ∷ b'\r' ∷ b'x' ∷ [];
}

ok_text : AllInLine (b'o' ∷ b'k' ∷ [])
ok_text = (
  (λ e. absurd (omega arith), (λ e. absurd (omega arith), λ e. absurd (omega arith))),
  ((λ e. absurd (omega arith), (λ e. absurd (omega arith), λ e. absurd (omega arith))), tt),
)

ftuart_gets-line_example :
    (m' : Buf) × ((ftuart_gets blank 100 console
        ≡ some (m', after_line (b'o' ∷ b'k' ∷ []) (b'x' ∷ []) console))
      × (Spells m' 100 (b'o' ∷ b'k' ∷ []) × ((q : ℕ) → q < 100 → m' q ≡ blank q)))
ftuart_gets-line_example =
    ftuart_gets-line (b'o' ∷ b'k' ∷ []) (b'x' ∷ []) b'\r' blank 100 console ok_text (inl refl) refl
      refl

-- "o" and a line feed, with the divisor 10.
ftuart_puts-uart_init_example :
    ((uart_init 10 console).dlm * 256 + (uart_init 10 console).dll ≡ 10)
    × ((ftuart_puts (b'o' ∷ b'\n' ∷ []) (uart_init 10 console)).transmitted
        ≡ b'o' ∷ b'\r' ∷ b'\r' ∷ b'\n' ∷ [])
ftuart_puts-uart_init_example = ftuart_puts-uart_init 10 (b'o' ∷ b'\n' ∷ []) console (omega arith)

-- The registers of a DMA controller at 0x90500000, all of them with their low bits set.
abbrev dma_base : ℕ
dma_base = 0x90500000

abbrev dma_bus : Bus
dma_bus q = 7

f_lib_dma_set_interrupt-masks_example :
    (pending (f_lib_dma_set_interrupt dma_base 2 1 0 0 dma_bus (ch_cfg dma_base 2)) 0 ≡ false)
    × (f_lib_dma_set_interrupt dma_base 2 1 0 0 dma_bus (ch_cfg dma_base 3) ≡ 7)
f_lib_dma_set_interrupt-masks_example =
    f_lib_dma_set_interrupt-masks dma_base 2 1 0 0 dma_bus 0 (ch_cfg dma_base 3) (omega arith)

dma_clear_all_interrupt-registers_example :
    (dma_clear_all_interrupt dma_base dma_bus (dma_int_tc_clr dma_base) ≡ 0xff)
    × (dma_clear_all_interrupt dma_base dma_bus (dma_int_err_clr dma_base) ≡ 0xff00ff)
    × (f_lib_dma_clear_all_interrupt dma_base dma_bus (dma_base + 8) ≡ 7)
dma_clear_all_interrupt-registers_example =
    dma_clear_all_interrupt-registers dma_base dma_bus (dma_base + 8) (omega arith) (omega arith)
      (omega arith)

dma_wait_int_status-first_example :
    dma_wait_int_status dma_base 1 ((4, 1) ∷ (2, 2) ∷ []) dma_bus
    ≡ some (1, outl 2 (dma_int_tc_clr dma_base) dma_bus)
dma_wait_int_status-first_example =
    dma_wait_int_status-first dma_base 1 ((4, 1) ∷ []) [] (2, 2) dma_bus ((refl, refl), tt)
      (inl refl)

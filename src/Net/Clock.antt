-- ===== src/Net/Clock.antt =====
-- lib/timer.c: conversions between timer ticks and CONFIG_SYS_HZ units, and `get_timer`, the clock of
-- the network stack. `get_ticks` is the driver's: its readings are the stream `ticks` of the state.
pub mod Delay
use non_os_lite.Prelude.{
  List, Option, [], if◌then◌else◌, ltb, none, some, u32, u64, ℕ, ◌*◌, ◌+◌, ◌-◌, ◌/◌, ◌^◌, ◌∷◌,
}
use non_os_lite.Net.State.{Net, Platform}

unfoldable pub tick_to_time : Platform → ℕ → ℕ
tick_to_time p tick = u64 (tick * p.sys_hz) / p.timer_clock

unfoldable pub usec_to_tick : Platform → ℕ → ℕ
usec_to_tick p usec = u64 (usec * p.timer_clock) / 1000000

-- `time - base` in 64 bits, returned as a 32-bit `unsigned long`.
unfoldable pub elapsed : ℕ → ℕ → ℕ
elapsed time base = u32 (u64 (time + 2 ^ 64 - base))

unfoldable pub get_timer : ℕ → Net → ℕ × Net
get_timer base n =
    (elapsed (tick_to_time n.platform (n.ticks n.reads)) base, record n { reads = n.reads + 1 })

-- The loop of `udelay` over the readings that follow its first one: the number of readings made, or
-- `none` if the time has not passed within them.
unfoldable pub udelay_loop : ℕ → ℕ → List ℕ → ℕ → Option ℕ
udelay_loop start tmo [] count = none
udelay_loop start tmo (t ∷ ts) count =
    let rest = udelay_loop start tmo ts (count + 1) in
    if ltb (u64 (t + 2 ^ 64 - start)) tmo then rest else some (count + 1)

unfoldable pub udelay : Platform → ℕ → ℕ → List ℕ → Option ℕ
unfolding udelay_loop
udelay p usec start readings = udelay_loop start (u32 (usec_to_tick p usec)) readings 0

-- ===== src/Net/Clock/Delay.antt =====
-- How long `udelay` of lib/timer.c waits.
use non_os_lite.Prelude.{
  List, [], ap, arith, false, length, ltb, some, true, u32, u64, ℕ, ◌*◌, ◌++◌, ◌+◌, ◌-◌, ◌/◌, ◌<◌,
  ◌^◌, ◌∙◌, ◌∷◌, ◌≡◌, ◌≤◌,
}
use non_os_lite.Net.State.{Platform}
use non_os_lite.Net.Clock.{udelay, udelay_loop, usec_to_tick}

-- Readings that come too early: less than `tmo` ticks after `start`.
abbrev pub Early : ℕ → ℕ → List ℕ → Type 0
Early start tmo [] = Unit {0}
Early start tmo (t ∷ ts) = ((start ≤ t) × (t < start + tmo)) × Early start tmo ts

udelay_loop-Early :
    (start tmo t count : ℕ) (early late : List ℕ)
    → start + tmo < 2 ^ 64
    → Early start tmo early
    → start + tmo ≤ t
    → t < 2 ^ 64
    → udelay_loop start tmo (early ++ (t ∷ late)) count ≡ some (count + length early + 1)
unfolding udelay_loop
udelay_loop-Early start tmo t count [] late fits e enough small =
    let passed : ltb (u64 (t + 2 ^ 64 - start)) tmo ≡ false = ground arith in
    rw passed (ap some (omega arith))
udelay_loop-Early start tmo t count (x ∷ early) late fits e enough small =
    let waiting : ltb (u64 (x + 2 ^ 64 - start)) tmo ≡ true = ground (arith, e.0.0, e.0.1) in
    rw waiting (
      udelay_loop-Early start tmo t (count + 1) early late fits e.1 enough small
      ∙ ap some (omega arith))

-- Where the delay is less than 2 ^ 32 ticks and the tick counter does not wrap around, `udelay` returns
-- at the first reading that is at least `usec * TIMER_CLOCK / 1000000` ticks after its first one, and
-- not before.
pub udelay-Early :
    (p : Platform) (usec start t : ℕ) (early late : List ℕ)
    → usec * p.timer_clock / 1000000 < 2 ^ 32
    → usec * p.timer_clock < 2 ^ 64
    → start + usec * p.timer_clock / 1000000 < 2 ^ 64
    → Early start (usec * p.timer_clock / 1000000) early
    → start + usec * p.timer_clock / 1000000 ≤ t
    → t < 2 ^ 64
    → udelay p usec start (early ++ (t ∷ late)) ≡ some (length early + 1)
unfolding udelay usec_to_tick
udelay-Early p usec start t early late short fits no_wrap e enough small =
    let ticks : u32 (u64 (usec * p.timer_clock) / 1000000) ≡ usec * p.timer_clock / 1000000 =
      omega arith in
    rw ticks (
      udelay_loop-Early start (usec * p.timer_clock / 1000000) t 0 early late no_wrap e enough small
      ∙ ap some (omega arith))

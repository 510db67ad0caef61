-- ===== src/Ticks.antt =====
-- `get_ticks` of drivers/timer/fttmr010.c: the 32-bit counter of the hardware, which counts down from
-- the load value, extended to 64 bits.
use non_os_lite.Prelude.{
  List, [], ap, arith, if◌then◌else◌, ltb, refl, sub32, u32, u64, ℕ, ◌%◌, ◌*◌, ◌+◌, ◌/◌, ◌<◌, ◌^◌,
  ◌∷◌, ◌≡◌, ◌≤◌,
}

pub record Ticker : Type 0 where
  pub tbu : ℕ
  pub tbl : ℕ
  pub load_val : ℕ

-- With the counter read: the ticks, and the new state.
unfoldable pub get_ticks : ℕ → Ticker → ℕ × Ticker
get_ticks counter s =
    let now = sub32 s.load_val counter in
    let tbu = if ltb now s.tbl then u64 (s.tbu + 1) else s.tbu in
    (u64 (tbu * 2 ^ 32) + now, record s { tbu = tbu; tbl = now })

-- A call for each value read.
unfoldable pub readings : List ℕ → Ticker → List ℕ
readings [] s = []
readings (c ∷ cs) s = let (t, s') = get_ticks c s in t ∷ readings cs s'

-- The value of a counter of 32 bits that has counted down `t` times from `load_val`.
abbrev pub counter_at : ℕ → ℕ → ℕ
counter_at load_val t = sub32 load_val (u32 t)

-- Each moment less than 2 ^ 32 ticks after the one before.
abbrev pub Frequent : ℕ → List ℕ → Type 0
Frequent t [] = Unit {0}
Frequent t (u ∷ us) = ((t ≤ u) × (u < t + 2 ^ 32)) × ((u < 2 ^ 64) × Frequent u us)

-- The state after the moment `t`.
pub record At (t : ℕ) (s : Ticker) : Type 0 where
  pub high : s.tbu ≡ t / 2 ^ 32
  pub low : s.tbl ≡ t % 2 ^ 32

get_ticks-At :
    (t u load_val : ℕ) (s : Ticker)
    → At t s
    → s.load_val ≡ load_val
    → load_val < 2 ^ 32
    → t ≤ u
    → u < t + 2 ^ 32
    → u < 2 ^ 64
    → ((get_ticks (counter_at load_val u) s).0 ≡ u)
      × (At u (get_ticks (counter_at load_val u) s).1
          × ((get_ticks (counter_at load_val u) s).1.load_val ≡ load_val))
unfolding get_ticks
get_ticks-At t u load_val s at same small l h big =
    let now : sub32 s.load_val (counter_at load_val u) ≡ u % 2 ^ 32 = omega arith in
    let high : (if ltb (u % 2 ^ 32) s.tbl then u64 (s.tbu + 1) else s.tbu) ≡ u / 2 ^ 32 =
      ground (arith, at.low, at.high) in
    rw (now, high) (omega arith, (record { high = refl; low = refl }, same))

abbrev pub counters : ℕ → List ℕ → List ℕ
counters load_val [] = []
counters load_val (u ∷ us) = counter_at load_val u ∷ counters load_val us

readings-from :
    (t : ℕ) (us : List ℕ) (s : Ticker) (load_val : ℕ)
    → At t s
    → s.load_val ≡ load_val
    → load_val < 2 ^ 32
    → Frequent t us
    → readings (counters load_val us) s ≡ us
unfolding readings
readings-from t [] s load_val at same small f = refl
readings-from t (u ∷ us) s load_val at same small f =
    let step = get_ticks-At t u load_val s at same small f.0.0 f.0.1 f.1.0 in
    rw step.0 (ap (λ r. u ∷ r) (readings-from u us _ load_val step.1.0 step.1.1 small f.1.1))

-- TIMER_LOAD_VAL, which every board passes to `init_global_timer`
abbrev pub timer_load_val : ℕ
timer_load_val = 0xffffffff

-- With the boards' load value: called first less than 2 ^ 32 ticks after the timer was started, and
-- each time less than 2 ^ 32 ticks after the call before, `get_ticks` returns the number of ticks since
-- the start, beyond the 32 bits of the counter, for less than 2 ^ 64 ticks.
pub readings-Frequent :
    (us : List ℕ)
    → Frequent 0 us
    → readings (counters timer_load_val us) (record { tbu = 0; tbl = 0; load_val = timer_load_val })
      ≡ us
readings-Frequent us f =
    readings-from 0 us _ timer_load_val (record { high = refl; low = refl }) refl (omega arith) f

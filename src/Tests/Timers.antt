-- ===== src/Tests/Timers.antt =====
-- The timer functions and the copy of a file's name at concrete inputs.
use non_os_lite.Prelude.{List, [], arith, length, some, ℕ, ◌*◌, ◌++◌, ◌+◌, ◌/◌, ◌∷◌, ◌≡◌}
use non_os_lite.Net.State.{platform_ahb}
use non_os_lite.Net.Clock.{udelay}
use non_os_lite.Net.Clock.Delay.{Early, udelay-Early}
use non_os_lite.Ticks.{Frequent, counters, readings, readings-Frequent, timer_load_val}

abbrev early_readings : List ℕ
early_readings = 60 ∷ 3823 ∷ []

-- 100 microseconds are 3774 ticks.
udelay-Early_example :
    udelay platform_ahb 100 50 (early_readings ++ (3824 ∷ [])) ≡ some (length early_readings + 1)
udelay-Early_example =
    udelay-Early platform_ahb 100 50 3824 early_readings [] (omega arith) (omega arith)
      (omega arith) early (omega arith) (omega arith)
  where
    early : Early 50 (100 * platform_ahb.timer_clock / 1000000) early_readings
    early = ((omega arith, omega arith), ((omega arith, omega arith), tt))

-- The counter wraps around between the readings.
readings-Frequent_example :
    readings
      (counters timer_load_val (1000 ∷ 4000000000 ∷ 5000000000 ∷ []))
      (record { tbu = 0; tbl = 0; load_val = timer_load_val })
    ≡ 1000 ∷ 4000000000 ∷ 5000000000 ∷ []
readings-Frequent_example = readings-Frequent (1000 ∷ 4000000000 ∷ 5000000000 ∷ []) frequent
  where
    frequent : Frequent 0 (1000 ∷ 4000000000 ∷ 5000000000 ∷ [])
    frequent = (
      (omega arith, omega arith),
      (
        omega arith,
        (
          (omega arith, omega arith),
          (omega arith, ((omega arith, omega arith), (omega arith, tt))),
        ),
      ),
    )

-- ===== src/Net/Loop/Timeouts.antt =====
-- The timeout that `NetSetTimeout` arms, and `NetLoop`'s test of it.
use non_os_lite.Prelude.{
  arith, if◌then◌else◌, ltb, refl, sub32, ℕ, ◌*◌, ◌+◌, ◌/◌, ◌<◌, ◌^◌, ◌≡◌, ◌≢◌, ◌≤◌,
}
use non_os_lite.Net.State.{Net, TimeHandler, no_handler, ping_timeout, platform_axi, tftp_timeout}
use non_os_lite.Net.Clock.{get_timer}
use non_os_lite.Net.Send.{net_set_timeout}
use non_os_lite.Net.Loop.{run_time_handler, timeout_check}

-- The reading of `get_timer(0)` that comes `k` readings from now.
pub time_at : ℕ → Net → ℕ
unfolding get_timer
time_at k n = (get_timer 0 (record n { reads = n.reads + k })).0

-- The state in which the handler runs, or in which the loop goes on: armed, and the clock read twice.
pub armed : ℕ → TimeHandler → Net → Net
armed delta f n = record n {
  time_handler = f;
  time_start = time_at 0 n;
  time_delta = delta;
  reads = n.reads + 1 + 1;
}

-- Where `iv * CONFIG_SYS_HZ` fits into 32 bits, the handler that `NetSetTimeout(iv, f)` arms runs at
-- the next test, once, exactly if more than `iv * CONFIG_SYS_HZ / 1000` units have passed; otherwise
-- it stays armed.
pub timeout_check-net_set_timeout :
    (iv : ℕ) (f : TimeHandler) (n : Net)
    → iv ≢ 0
    → f ≢ no_handler
    → iv * n.platform.sys_hz < 2 ^ 32
    → timeout_check (net_set_timeout iv f n) ≡ (
        if ltb (iv * n.platform.sys_hz / 1000) (sub32 (time_at 1 n) (time_at 0 n))
        then run_time_handler f
            (record (armed (iv * n.platform.sys_hz / 1000) f n) { time_handler = no_handler })
        else armed (iv * n.platform.sys_hz / 1000) f n)
unfolding timeout_check net_set_timeout get_timer time_at armed
timeout_check-net_set_timeout iv no_handler n pos some_f fits = absurd (some_f refl)
timeout_check-net_set_timeout iv tftp_timeout n pos some_f fits = ground arith
timeout_check-net_set_timeout iv ping_timeout n pos some_f fits = ground arith

-- On the AXI platform the product wraps around for 4295 milliseconds and more, so that the timeout
-- is shorter than asked for.
pub net_set_timeout-axi_early :
    (iv : ℕ) (f : TimeHandler) (n : Net)
    → n.platform ≡ platform_axi
    → 4295 ≤ iv
    → (net_set_timeout iv f n).time_delta < iv * n.platform.sys_hz / 1000
unfolding net_set_timeout get_timer
net_set_timeout-axi_early iv f n axi long = ground arith

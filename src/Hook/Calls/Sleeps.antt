-- ===== src/Hook/Calls/Sleeps.antt =====
-- The hooked sleeps of libcocao/hook.cc: how long they sleep.
use libcocao.Base.{ℕ, ◌+◌, ◌*◌, ◌/◌, ◌^◌, ◌≤◌, ◌<◌, ◌≡◌, ◌↔◌, arith}
use libcocao.Hook.Calls.{sleep_ms, nanosleep_ms}

-- The hooked sleep sleeps its time exactly for less than 4294968 seconds (some 50 days), and a shorter
-- time for all other arguments.
sleep_ms_lem : (s : ℕ) → ((sleep_ms s ≡ s * 1000) ↔ (s < 4294968)) × (sleep_ms s ≤ s * 1000)
unfolding sleep_ms
sleep_ms_lem s = ground arith

-- The time in milliseconds is less than 2^63, so that the product does not overflow. The hooked
-- nanosleep sleeps the whole milliseconds of its time exactly if they are an int, that is
-- for times of less than 2147483648 ms (some 25 days).
nanosleep_ms_lem :
    (sec nsec : ℕ)
    → nsec < 1000000000
    → sec < 9223372036854775
    → (nanosleep_ms sec nsec ≡ sec * 1000 + nsec / 1000000) ↔ (sec * 1000 + nsec / 1000000 < 2 ^ 31)
unfolding nanosleep_ms
nanosleep_ms_lem sec nsec h k = ground arith

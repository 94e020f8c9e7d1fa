-- ===== src/Hook/Calls/Runs.antt =====
-- Runs of the conversions in libcocao/hook.cc.
use libcocao.Base.{◌+◌, ◌^◌, ◌≡◌, refl}
use libcocao.FdManager.{pos}
use libcocao.Hook.Calls.{to_int, sleep_ms}

-- A result that is no int loses its high bits where the descriptor has no context.
big_result : to_int (pos (2 ^ 32 + 7)) ≡ pos 7
unfolding to_int
big_result = refl

sleep_too_long : sleep_ms 4294968 ≡ 704
unfolding sleep_ms
sleep_too_long = refl

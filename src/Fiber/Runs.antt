-- ===== src/Fiber/Runs.antt =====
-- Runs of the fibers of libcocao/fiber.cc.
use libcocao.Base.{ℕ, ◌≡◌, refl, Bool, false, none, some, [], ◌∷◌, arith}
use libcocao.Scheduler.{ready}
use libcocao.Fiber.{Thread, thread_fiber_new, fiber_new, base_fiber}
use libcocao.Fiber.Nested.{nested, nested_lost}

-- A thread without fibers.
abbrev fresh : Thread ℕ
fresh = record {
  fibers = λ i. record { state = ready; cb = none; run_in_scheduler = false; context = 0 };
  fiber_id = 0;
  this = none;
  thread_fiber = none;
  scheduler_fiber = none;
  flow = 0;
}

-- The thread's fiber 0, the root fiber 1 and two fibers that are resumed from fiber 0, as the
-- constructor of Scheduler and Scheduler::run make them.
abbrev with_caller : Bool → Thread ℕ
with_caller in_scheduler =
    let s1 = (fiber_new 10 false (thread_fiber_new fresh)).0 in
    let s2 = (fiber_new 20 in_scheduler s1).0 in
    record (fiber_new 30 in_scheduler s2).0 { scheduler_fiber = some 1 }

nested_lost_example :
    (s' : Thread ℕ) × (nested 1 (2 ∷ 3 ∷ 2 ∷ []) (with_caller false) ≡ some s') × (s'.flow ≡ 1)
unfolding fiber_new thread_fiber_new base_fiber
nested_lost_example = nested_lost 1 0 2 (3 ∷ 2 ∷ []) (with_caller false) refl (omega arith) (
  (refl, omega arith, omega arith),
  ((refl, omega arith, omega arith), ((refl, omega arith, omega arith), tt)),
)

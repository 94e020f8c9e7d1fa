-- ===== src/Fiber.antt =====
-- libcocao/fiber.cc: the fibers of one thread. A flow is a stack with what runs on it. A fiber's context
-- holds the flow that a switch to the fiber continues; swapcontext, getcontext and makecontext are
-- used as documented, and only this is kept of them. `none` is the use of a null pointer.
pub mod Nested
pub mod Switch
mod Runs
use libcocao.Base.{ℕ, ◌+◌, Bool, true, false, Option, none, some, ◌==◌, if◌then◌else◌}
use libcocao.Scheduler.{FiberState, ready, running, term}

-- Fiber. `context` is m_ctx.
pub record Fiber (C : Type 0) : Type 0 where
  pub state : FiberState
  pub cb : Option C
  pub run_in_scheduler : Bool
  pub context : ℕ

-- A thread: its fibers by their ids, s_fiber_id, t_fiber, t_thread_fiber and t_scheduler_fiber, and the
-- flow that runs.
pub record Thread (C : Type 0) : Type 0 where
  pub fibers : ℕ → Fiber C
  pub fiber_id : ℕ
  pub this : Option ℕ
  pub thread_fiber : Option ℕ
  pub scheduler_fiber : Option ℕ
  pub flow : ℕ

-- A state that TERM keeps.
pub unless_term : FiberState → FiberState → FiberState
unless_term ready new = new
unless_term running new = new
unless_term term new = term

module _ {C : Type 0} where
  pub update : (ℕ → Fiber C) → ℕ → Fiber C → ℕ → Fiber C
  update fs i x j = if j == i then x else fs j

  -- swapcontext: the flow that runs is saved in one context and that of the other goes on.
  pub swap_context : ℕ → ℕ → Thread C → Thread C
  unfolding update
  swap_context from to s = record s {
    fibers = update s.fibers from (record (s.fibers from) { context = s.flow });
    flow = (s.fibers to).context;
  }

  -- Fiber::Fiber(): the fiber of the flow that runs.
  pub thread_fiber_new : Thread C → Thread C
  unfolding update
  thread_fiber_new s = record s {
    fibers =
        update s.fibers s.fiber_id
          (record { state = running; cb = none; run_in_scheduler = false; context = s.flow });
    fiber_id = s.fiber_id + 1;
    this = some s.fiber_id;
    thread_fiber = some s.fiber_id;
  }

  -- Fiber::GetThis.
  pub get_this : Thread C → Thread C × Option ℕ
  unfolding thread_fiber_new
  get_this s = elim s.this [ some f ↦ (s, some f) | none ↦ (thread_fiber_new s, some s.fiber_id) ]

  -- Fiber::Fiber(cb, stacksize, run_in_scheduler). Its stack is a new flow, numbered as the fiber.
  pub fiber_new : C → Bool → Thread C → Thread C × ℕ
  unfolding update
  fiber_new cb run_in_scheduler s = (
    record s {
      fibers = update s.fibers s.fiber_id (record {
        state = ready;
        cb = some cb;
        run_in_scheduler = run_in_scheduler;
        context = s.fiber_id;
      });
      fiber_id = s.fiber_id + 1;
    },
    s.fiber_id,
  )

  -- Fiber::reset.
  pub reset : ℕ → C → Thread C → Thread C
  unfolding update
  reset f cb s = record s {
    fibers = update s.fibers f (record (s.fibers f) { state = ready; cb = some cb; context = f });
  }

  set_state : ℕ → FiberState → Thread C → Thread C
  unfolding update
  set_state f new s = record s {
    fibers = update s.fibers f (record (s.fibers f) { state = unless_term (s.fibers f).state new });
  }

  -- The fiber that a fiber is resumed from and yields to.
  pub base_fiber : ℕ → Thread C → Option ℕ
  base_fiber f s = if (s.fibers f).run_in_scheduler then s.scheduler_fiber else s.thread_fiber

  -- Fiber::resume.
  pub resume : ℕ → Thread C → Option (Thread C)
  unfolding base_fiber set_state unless_term swap_context
  resume f s = elim (base_fiber f s) [
    | none ↦ none
    | some base ↦ some (swap_context base f (set_state f running (record s { this = some f })))
  ]

  -- Fiber::yield.
  pub yield : ℕ → Thread C → Option (Thread C)
  unfolding base_fiber set_state unless_term swap_context
  yield f s = elim (base_fiber f s) [
    | none ↦ none
    | some base ↦
        some (swap_context f base (set_state f ready (record s { this = s.thread_fiber })))
  ]

  -- The end of Fiber::MainFunc, after the callback.
  pub main_func_end : ℕ → Thread C → Option (Thread C)
  unfolding update
  main_func_end f s =
      yield f
        (record s { fibers = update s.fibers f (record (s.fibers f) { state = term; cb = none }) })

-- ===== src/IoManager/Contexts.antt =====
-- One descriptor's context in libcocao/iomanager.cc: when its mask and its two event contexts agree,
-- and triggerEvent on such a context.
use libcocao.Base.{
  ℕ, ◌+◌, ◌≡◌, refl, sym, ap, ◌≢◌, Bool, true, false, ◌&&◌, ◌||◌, Option, none, some, List, [],
  arith, if◌then◌else◌, is_some, length,
}
use libcocao.IoManager.{
  Event, no_event, read, write, has, without, Task, EventContext, FdContext, ok, Caller,
  empty_context, new_context, task_of, spent, trigger_event,
}
use libcocao.IoManager.Masks.{mask_of, flag, has_mask, without_mask}

module _ {C : Type 0} where
  -- An event context is in use when it has a scheduler.
  abbrev pub armed : EventContext C → Bool
  armed x = is_some x.scheduler

  -- In use it holds a fiber or a function and not both; otherwise it holds neither.
  pub record IsFilled (x : EventContext C) : Type 0 where
    pub some_task : (is_some x.fiber || is_some x.cb) ≡ armed x
    pub one_task : (is_some x.fiber && is_some x.cb) ≡ false

  -- The mask says which of the two event contexts are in use.
  pub record IsWf (c : FdContext C) : Type 0 where
    pub mask : c.events ≡ mask_of (armed c.reader) (armed c.writer)
    pub reader_ok : IsFilled c.reader
    pub writer_ok : IsFilled c.writer

  abbrev pub event_armed : (c : FdContext C) → Event → Bool
  event_armed c e = flag e (armed c.reader) (armed c.writer)

  -- How many events are registered.
  abbrev pub weight : FdContext C → ℕ
  weight c = (if armed c.reader then 1 else 0) + (if armed c.writer then 1 else 0)

  pub has-event_armed : (c : FdContext C) (e : Event) → IsWf c → has c.events e ≡ event_armed c e
  has-event_armed c e v = rw v.mask (has_mask e (armed c.reader) (armed c.writer))

  pub new_context-IsWf : (fd : ℕ) → IsWf (new_context fd)
  new_context-IsWf fd = record {
    mask = refl;
    reader_ok = record { some_task = refl; one_task = refl };
    writer_ok = record { some_task = refl; one_task = refl };
  }

  spent-empty : (x : EventContext C) → IsFilled x → spent x ≡ empty_context
  unfolding spent
  spent-empty x f = ground arith

  -- An event context with the event taken out of its mask and left empty.
  abbrev pub dropped : FdContext C → Event → FdContext C
  dropped c no_event = c
  dropped c read = record c { reader = empty_context; events = mask_of false (armed c.writer) }
  dropped c write = record c { writer = empty_context; events = mask_of (armed c.reader) false }

  pub dropped-IsWf : (c : FdContext C) (e : Event) → IsWf c → IsWf (dropped c e)
  dropped-IsWf c no_event v = v
  dropped-IsWf c read v = record {
    mask = refl;
    reader_ok = record { some_task = refl; one_task = refl };
    writer_ok = v.writer_ok;
  }
  dropped-IsWf c write v = record {
    mask = refl;
    reader_ok = v.reader_ok;
    writer_ok = record { some_task = refl; one_task = refl };
  }

  pub weight-dropped :
      (c : FdContext C) (e : Event)
      → weight (dropped c e) + (if event_armed c e then 1 else 0) ≡ weight c
  weight-dropped c no_event = omega arith
  weight-dropped c read = ground arith
  weight-dropped c write = ground arith

  -- What an event context in use gives to its scheduler.
  abbrev pub tasks_of : EventContext C → List (ℕ × Task C)
  tasks_of x = elim x.scheduler [ none ↦ [] | some s ↦ task_of s x ]

  abbrev pub event_tasks : FdContext C → Event → List (ℕ × Task C)
  event_tasks c no_event = []
  event_tasks c read = tasks_of c.reader
  event_tasks c write = tasks_of c.writer

  pub without-dropped :
      (c : FdContext C) (e : Event) → IsWf c → without c.events e ≡ (dropped c e).events
  without-dropped c no_event v = rw v.mask (without_mask no_event (armed c.reader) (armed c.writer))
  without-dropped c read v = rw v.mask (without_mask read (armed c.reader) (armed c.writer))
  without-dropped c write v = rw v.mask (without_mask write (armed c.reader) (armed c.writer))

  -- triggerEvent on a registered event never crashes: it takes the event out of the mask, empties its
  -- context and schedules the one task that the context held.
  pub trigger_event_armed :
      (c : FdContext C) (e : Event)
      → IsWf c
      → event_armed c e ≡ true
      → trigger_event c e ≡ ok (dropped c e, event_tasks c e)
  unfolding trigger_event
  trigger_event_armed c no_event v h = absurd (ground arith)
  trigger_event_armed c read v h =
      ground (arith, without-dropped c read v, spent-empty c.reader v.reader_ok)
  trigger_event_armed c write v h =
      ground (arith, without-dropped c write v, spent-empty c.writer v.writer_ok)

  pub length-event_tasks :
      (c : FdContext C) (e : Event)
      → IsWf c
      → length (event_tasks c e) ≡ (if event_armed c e then 1 else 0)
  unfolding task_of
  length-event_tasks c no_event v = refl
  length-event_tasks c read v = ground (arith, v.reader_ok.some_task)
  length-event_tasks c write v = ground (arith, v.writer_ok.some_task)

  -- A context with a free event registered, for the caller's fiber or for a function.
  abbrev pub filled : Caller → Option C → EventContext C
  filled who cb = record {
    scheduler = who.scheduler;
    fiber = (if is_some cb then none else some who.fiber);
    cb = cb;
  }

  abbrev pub registered : FdContext C → Event → EventContext C → FdContext C
  registered c no_event x = c
  registered c read x = record c { reader = x; events = mask_of true (armed c.writer) }
  registered c write x = record c { writer = x; events = mask_of (armed c.reader) true }

  filled-IsFilled :
      (who : Caller) (cb : Option C) → is_some who.scheduler ≡ true → IsFilled (filled who cb)
  filled-IsFilled who cb h = ground arith

  pub registered-IsWf :
      (c : FdContext C) (e : Event) (who : Caller) (cb : Option C)
      → IsWf c
      → is_some who.scheduler ≡ true
      → IsWf (registered c e (filled who cb))
  registered-IsWf c no_event who cb v h = v
  registered-IsWf c read who cb v h = record {
    mask = ap (λ b. mask_of b (armed c.writer)) (sym h);
    reader_ok = filled-IsFilled who cb h;
    writer_ok = v.writer_ok;
  }
  registered-IsWf c write who cb v h = record {
    mask = ap (λ b. mask_of (armed c.reader) b) (sym h);
    reader_ok = v.reader_ok;
    writer_ok = filled-IsFilled who cb h;
  }

  pub weight-registered :
      (c : FdContext C) (e : Event) (who : Caller) (cb : Option C)
      → e ≢ no_event
      → event_armed c e ≡ false
      → is_some who.scheduler ≡ true
      → weight (registered c e (filled who cb)) ≡ weight c + 1
  weight-registered c no_event who cb n f h = absurd (n refl)
  weight-registered c read who cb n f h = ground arith
  weight-registered c write who cb n f h = ground arith

-- ===== src/IoManager.antt =====
-- libcocao/iomanager.h and libcocao/iomanager.cc: the I/O events of file descriptors. A context per
-- descriptor says which events are registered and what runs when one happens; registering goes
-- through epoll_ctl, whose state and answers are a parameter. A call is one step under the locks of
-- the code; what it hands to a scheduler is appended to `posted`. Descriptors are not negative.
pub mod Masks
pub mod Contexts
pub mod Inv
pub mod Unregistered
pub mod Delivery
pub mod CancelAll
pub mod Idle
mod Runs
use Prim.Native.Nat.{bit_and, bit_or}
use libcocao.Base.{
  ℕ, zero, suc, ◌+◌, ◌-◌, ◌*◌, ◌/◌, ◌%◌, ◌^◌, Bool, true, false, not, ◌&&◌, ◌||◌, Option, none,
  some, List, [], ◌∷◌, ◌++◌, ltb, leb, ◌==◌, if◌then◌else◌, is_some, length, get_elem?, set, take,
}

-- IOManager::Event.
pub data Event : Type 0 where
  no_event read write : Event

unfoldable pub bits : Event → ℕ
bits no_event = 0x0
bits read = 0x1
bits write = 0x4

-- `mask & event`, `mask & ~event` and `mask | event`, on 32 bits.
unfoldable pub has : ℕ → Event → Bool
unfolding bits
has mask e = not (bit_and mask (bits e) == 0)

unfoldable pub without : ℕ → Event → ℕ
unfolding bits
without mask e = bit_and mask (0xffff_ffff - bits e)

unfoldable pub join : ℕ → Event → ℕ
unfolding bits
join mask e = bit_or mask (bits e)

-- std::atomic<size_t> arithmetic.
abbrev pub inc : ℕ → ℕ
inc n = (n + 1) % 2 ^ 64

abbrev pub dec : ℕ → ℕ
dec n = (n + 2 ^ 64 - 1) % 2 ^ 64

-- What a scheduler is given: a fiber to resume or a function to call.
pub data Task (C : Type 0) : Type 0 where
  resume : ℕ → Task C
  call : C → Task C

-- FdContext::EventContext; schedulers and fibers are named by their addresses.
pub record EventContext (C : Type 0) : Type 0 where
  pub scheduler : Option ℕ
  pub fiber : Option ℕ
  pub cb : Option C

-- FdContext.
pub record FdContext (C : Type 0) : Type 0 where
  pub reader : EventContext C
  pub writer : EventContext C
  pub fd : ℕ
  pub events : ℕ

-- The three operations of epoll_ctl, and epoll_ctl itself: its new state, and whether it failed.
pub data CtlOp : Type 0 where
  ctl_add ctl_mod ctl_del : CtlOp

abbrev pub Ctl : Type 0 → Type 0
Ctl E = E → CtlOp → ℕ → ℕ → E × Bool

pub record IoManager (C E : Type 0) : Type 0 where
  pub epoll : E
  pub pending : ℕ
  pub contexts : List (FdContext C)
  pub posted : List (ℕ × Task C)

-- `crash` is a failed assertion, a call through a null scheduler or an index past the vector.
pub data Outcome (A : Type 0) : Type 0 where
  ok : A → Outcome A
  crash : Outcome A

infixl 5 ◌>>=◌
abbrev pub ◌>>=◌ : {A B : Type 0} → Outcome A → (A → Outcome B) → Outcome B
ok a >>= f = f a
crash >>= f = crash

-- Who calls: the scheduler of the thread, its running fiber, and whether that is in state RUNNING.
pub record Caller : Type 0 where
  pub scheduler : Option ℕ
  pub fiber : ℕ
  pub running : Bool

abbrev pub epoll_in : ℕ
epoll_in = 0x1

abbrev pub epoll_out : ℕ
epoll_out = 0x4

abbrev pub epoll_err : ℕ
epoll_err = 0x8

abbrev pub epoll_hup : ℕ
epoll_hup = 0x10

abbrev pub epoll_et : ℕ
epoll_et = 0x8000_0000

-- What idle makes of the events that epoll_wait reports for a context: EPOLLERR and EPOLLHUP
-- stand for all that is registered, EPOLLIN is READ and EPOLLOUT is WRITE.
unfoldable pub real_events : ℕ → ℕ → ℕ
unfolding bits
real_events reported mask =
    let ev =
      if not (bit_and reported (bit_or epoll_err epoll_hup) == 0)
      then bit_and (bit_or epoll_in epoll_out) mask
      else reported in
    bit_or (if not (bit_and ev epoll_in == 0) then bits read else 0)
      (if not (bit_and ev epoll_out == 0) then bits write else 0)

module _ {C : Type 0} where
  abbrev pub empty_context : EventContext C
  empty_context = record { scheduler = none; fiber = none; cb = none }

  abbrev pub new_context : ℕ → FdContext C
  new_context fd = record { reader = empty_context; writer = empty_context; fd = fd; events = 0 }

  -- contextResize, on the vector: resize to `n`, and a new context in each null place.
  unfoldable pub context_resize_from : ℕ → ℕ → List (FdContext C) → List (FdContext C)
  context_resize_from zero i cs = []
  context_resize_from (suc n) i [] = new_context i ∷ context_resize_from n (i + 1) []
  context_resize_from (suc n) i (c ∷ cs) = c ∷ context_resize_from n (i + 1) cs

  unfoldable pub context_resize : ℕ → List (FdContext C) → List (FdContext C)
  unfolding context_resize_from
  context_resize n cs = context_resize_from n 0 cs

  -- The constructor: 32 contexts; `e` is the epoll state after the pipe was added to it.
  unfoldable pub new_manager : {E : Type 0} → E → IoManager C E
  unfolding context_resize
  new_manager e = record { epoll = e; pending = 0; contexts = context_resize 32 []; posted = [] }

  -- The vector that addEvent works on: grown to fd * 1.5 where `fd` is past its end.
  unfoldable pub grown : List (FdContext C) → ℕ → List (FdContext C)
  unfolding context_resize
  grown cs fd = if ltb fd (length cs) then cs else context_resize (fd * 3 / 2) cs

  -- getEventContext; `none` is its failed assertion.
  unfoldable pub get_event_context : FdContext C → Event → Option (EventContext C)
  get_event_context c no_event = none
  get_event_context c read = some c.reader
  get_event_context c write = some c.writer

  unfoldable pub put_event_context : FdContext C → Event → EventContext C → FdContext C
  put_event_context c no_event x = c
  put_event_context c read x = record c { reader = x }
  put_event_context c write x = record c { writer = x }

  -- The argument of schedule in triggerEvent, and the context that the swap in ScheduleTask leaves.
  -- A null fiber is not queued.
  unfoldable pub task_of : ℕ → EventContext C → List (ℕ × Task C)
  task_of s x = elim x.cb [
    | some c ↦ (s, call c) ∷ []
    | none ↦ elim x.fiber [ some f ↦ (s, resume f) ∷ [] | none ↦ [] ]
  ]

  unfoldable pub spent : EventContext C → EventContext C
  spent x =
      if is_some x.cb
      then record x { scheduler = none; cb = none }
      else record x { scheduler = none; fiber = none }

  -- triggerEvent: the context afterwards and what it schedules.
  unfoldable pub trigger_event : FdContext C → Event → Outcome (FdContext C × List (ℕ × Task C))
  unfolding get_event_context put_event_context task_of spent
  trigger_event c e =
      let c' = record c { events = without c.events e } in
      elim (get_event_context c' e) [
        | none ↦ crash
        | some x ↦ elim x.scheduler [
          | none ↦ crash
          | some s ↦ ok (put_event_context c' e (spent x), task_of s x)
        ]
      ]

  module _ {E : Type 0} (ctl : Ctl E) where
    -- The registration in addEvent, once epoll_ctl has succeeded.
    unfoldable pub register :
        IoManager C E → Caller → ℕ → Event → Option C → FdContext C → Outcome (IoManager C E × Bool)
    unfolding get_event_context put_event_context
    register m who fd e cb c =
        let c' = record c { events = join c.events e } in
        elim (get_event_context c' e) [
          | none ↦ crash
          | some x ↦
              let taken = is_some x.scheduler || is_some x.fiber || is_some x.cb in
              let y = record x {
                scheduler = who.scheduler;
                fiber = (if is_some cb then x.fiber else some who.fiber);
                cb = cb;
              } in
              if taken || (not (is_some cb) && not who.running)
              then crash
              else ok (
                record m {
                  pending = inc m.pending;
                  contexts = set m.contexts fd (put_event_context c' e y);
                },
                true,
              )
        ]

    -- addEvent, from the lock of the context on. The Bool is whether 0 is returned.
    unfoldable pub add_at :
        IoManager C E → Caller → ℕ → Event → Option C → FdContext C → Outcome (IoManager C E × Bool)
    add_at m who fd e cb c =
        let op = if c.events == 0 then ctl_del else ctl_mod in
        let r = ctl m.epoll op fd (bit_or (bit_or epoll_et c.events) (bits e)) in
        let m' = record m { epoll = r.0 } in
        if r.1 then ok (m', false) else register m' who fd e cb c

    unfoldable pub add_event :
        IoManager C E → Caller → ℕ → Event → Option C → Outcome (IoManager C E × Bool)
    add_event m who fd e cb =
        let m' = record m { contexts = grown m.contexts fd } in
        elim (get_elem? (grown m.contexts fd) fd) [
          | none ↦ crash
          | some c ↦ add_at m' who fd e cb c
        ]

    -- The epoll_ctl call of delEvent and cancelEvent.
    unfoldable pub drop_event : E → ℕ → Event → FdContext C → E × Bool
    drop_event s fd e c =
        let left = without c.events e in
        ctl s (if left == 0 then ctl_del else ctl_mod) fd (bit_or epoll_et left)

    -- delEvent.
    unfoldable pub del_at : IoManager C E → ℕ → Event → FdContext C → Outcome (IoManager C E × Bool)
    unfolding put_event_context
    del_at m fd e c =
        let r = drop_event m.epoll fd e c in
        let c' = record c { events = without c.events e } in
        if not (has c.events e)
        then ok (m, false)
        else if r.1
        then ok (record m { epoll = r.0 }, false)
        else ok (
          record m {
            epoll = r.0;
            pending = dec m.pending;
            contexts = set m.contexts fd (put_event_context c' e empty_context);
          },
          true,
        )

    unfoldable pub del_event : IoManager C E → ℕ → Event → Outcome (IoManager C E × Bool)
    del_event m fd e = elim (get_elem? m.contexts fd) [
      | none ↦ ok (m, false)
      | some c ↦ del_at m fd e c
    ]

    -- triggerEvent and the decrement after it, on the context at `fd`.
    unfoldable pub trigger_at :
        IoManager C E → ℕ → Event → FdContext C → Outcome (IoManager C E × FdContext C)
    trigger_at m fd e c = do
      (c', tasks) ← trigger_event c e
      ok (
        record m {
          pending = dec m.pending;
          contexts = set m.contexts fd c';
          posted = m.posted ++ tasks;
        },
        c',
      )

    -- cancelEvent.
    unfoldable pub cancel_at :
        IoManager C E → ℕ → Event → FdContext C → Outcome (IoManager C E × Bool)
    cancel_at m fd e c =
        let r = drop_event m.epoll fd e c in
        let go = do (m', c') ← trigger_at (record m { epoll = r.0 }) fd e c; ok (m', true)
        in if not (has c.events e)
          then ok (m, false)
          else if r.1
          then ok (record m { epoll = r.0 }, false)
          else go

    unfoldable pub cancel_event : IoManager C E → ℕ → Event → Outcome (IoManager C E × Bool)
    cancel_event m fd e = elim (get_elem? m.contexts fd) [
      | none ↦ ok (m, false)
      | some c ↦ cancel_at m fd e c
    ]

    -- `if (mask & e) { triggerEvent(e); --m_pendingEventCount; }`
    unfoldable pub trigger_if :
        Bool → IoManager C E → ℕ → Event → FdContext C → Outcome (IoManager C E × FdContext C)
    trigger_if true m fd e c = trigger_at m fd e c
    trigger_if false m fd e c = ok (m, c)

    -- cancelAll; the last test is its closing assertion.
    unfoldable pub cancel_all_at : IoManager C E → ℕ → FdContext C → Outcome (IoManager C E × Bool)
    cancel_all_at m fd c =
        let r = ctl m.epoll ctl_del fd 0 in
        let go = do
          (m1, c1) ← trigger_if (has c.events read) (record m { epoll = r.0 }) fd read c
          (m2, c2) ← trigger_if (has c1.events write) m1 fd write c1
          (if c2.events == 0 then ok (m2, true) else crash)
        in if c.events == 0
          then ok (m, false)
          else if r.1
          then ok (record m { epoll = r.0 }, false)
          else go

    unfoldable pub cancel_all : IoManager C E → ℕ → Outcome (IoManager C E × Bool)
    cancel_all m fd = elim (get_elem? m.contexts fd) [
      | none ↦ ok (m, false)
      | some c ↦ cancel_all_at m fd c
    ]

    -- The body of idle's loop over the reported events, for the context at `fd`.
    unfoldable pub deliver_at : IoManager C E → ℕ → ℕ → FdContext C → Outcome (IoManager C E)
    deliver_at m fd reported c =
        let real = real_events reported c.events in
        let left = bit_and c.events (0xffff_ffff - real) in
        let op = if left == 0 then ctl_del else ctl_mod in
        let r = ctl m.epoll op c.fd (bit_or epoll_et left) in
        let go = do
          (m1, c1) ← trigger_if (has real read) (record m { epoll = r.0 }) fd read c
          (m2, c2) ← trigger_if (has real write) m1 fd write c1
          ok m2
        in if bit_and real c.events == 0
          then ok m
          else if r.1
          then ok (record m { epoll = r.0 })
          else go

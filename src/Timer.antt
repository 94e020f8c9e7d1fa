-- ===== src/Timer.antt =====
-- libcocao/timer.h and libcocao/timer.cc: timers and the manager that keeps them in a std::set.
-- A timer object is named by its address, the heap holds the objects, and the set is the list of
-- the addresses in its order. The clock (GetCurrentMS) is the argument `now` of a call. A call is
-- one step under the manager's lock. `C` is what a std::function<void()> may hold.
pub mod Set
pub mod Inv
pub mod Expiry
pub mod Fire
pub mod History
mod Runs
use libcocao.Base.{
  ℕ, ◌+◌, ◌-◌, ◌*◌, ◌%◌, ◌^◌, Bool, true, false, not, ◌&&◌, ◌||◌, Option, none, some, List, [], ◌∷◌,
  ◌++◌, ltb, ◌==◌, if◌then◌else◌, is_some, is_empty,
}

-- uint64_t addition and subtraction.
abbrev pub add64 : ℕ → ℕ → ℕ
add64 a b = (a + b) % 2 ^ 64

abbrev pub sub64 : ℕ → ℕ → ℕ
sub64 a b = (a + 2 ^ 64 - b) % 2 ^ 64

pub record Timer {ℓ} (C : Type ℓ) : Type ℓ where
  pub recurring : Bool
  pub ms : ℕ
  pub next : ℕ
  pub cb : Option C

-- The objects by their addresses.
abbrev pub Heap {ℓ} : Type ℓ → Type ℓ
Heap C = ℕ → Timer C

abbrev pub update {ℓ} : {C : Type ℓ} → Heap C → ℕ → Timer C → Heap C
update h a t b = if b == a then t else h b

-- What an operation that erases an iterator comes to: `fault` is erase(end()).
pub data Outcome {ℓ} (A : Type ℓ) : Type ℓ where
  ok : A → Outcome A
  fault : Outcome A

-- Timer::Comparator; `none` is a null pointer.
pub comparator {ℓ} : {C : Type ℓ} → Heap C → Option ℕ → Option ℕ → Bool
comparator h none none = false
comparator h none (some b) = true
comparator h (some a) none = false
comparator h (some a) (some b) =
    if ltb (h a).next (h b).next then true else if ltb (h b).next (h a).next then false else ltb a b

-- std::set::insert, find (is it not end()) and erase of what find returns.
module _ {ℓ} {C : Type ℓ} (h : Heap C) where
  pub set_insert : ℕ → List ℕ → List ℕ
  set_insert a [] = a ∷ []
  set_insert a (x ∷ xs) =
      let rest = set_insert a xs in
      if comparator h (some a) (some x)
      then a ∷ x ∷ xs
      else if comparator h (some x) (some a)
      then x ∷ rest
      else x ∷ xs

  pub set_find : ℕ → List ℕ → Bool
  set_find a [] = false
  set_find a (x ∷ xs) =
      let rest = set_find a xs in
      if comparator h (some a) (some x)
      then false
      else if comparator h (some x) (some a)
      then rest
      else true

  pub set_erase : ℕ → List ℕ → List ℕ
  set_erase a [] = []
  set_erase a (x ∷ xs) =
      let rest = set_erase a xs in
      if comparator h (some a) (some x)
      then x ∷ xs
      else if comparator h (some x) (some a)
      then x ∷ rest
      else xs

-- TimerManager: m_timers in the order of the set, m_tickled and m_pteviouseTime.
pub record Manager {ℓ} (C : Type ℓ) : Type ℓ where
  pub heap : Heap C
  pub timers : List ℕ
  pub tickled : Bool
  pub previous_time : ℕ

-- The comparison `it == m_timers.begin()`, where `it` is the place of `a`: elements that the
-- comparator takes for equal have one address.
abbrev pub at_begin : ℕ → List ℕ → Bool
at_begin a [] = false
at_begin a (x ∷ xs) = x == a

-- ~0ull.
abbrev pub no_timeout : ℕ
no_timeout = 2 ^ 64 - 1

-- detectClockRollover: the test, on uint64_t.
pub clock_rollover : ℕ → ℕ → Bool
clock_rollover previous now = ltb now previous && ltb now (sub64 previous (60 * 60 * 1000))

module _ {ℓ} {C : Type ℓ} where
  -- `Timer(uint64_t)` leaves every field at its default, whatever its argument.
  pub key_timer : ℕ → Timer C
  key_timer now = record { recurring = false; ms = 0; next = 0; cb = none }

  -- `Timer(ms, cb, recurring, manager)`.
  pub new_timer : ℕ → ℕ → Option C → Bool → Timer C
  new_timer now ms cb recurring = record {
    recurring = recurring;
    ms = ms;
    next = add64 now ms;
    cb = cb;
  }

  -- TimerManager(): an empty set and the time of the construction.
  pub new_manager : Heap C → ℕ → Manager C
  new_manager h now = record { heap = h; timers = []; tickled = false; previous_time = now }

  -- addTimer(val, lock): the manager, and whether onTimerInsertAtFront is called.
  pub insert_timer : Manager C → ℕ → Manager C × Bool
  insert_timer m a =
      let timers = set_insert m.heap a m.timers in
      let at_front = at_begin a timers && not m.tickled in
      (record m { timers = timers; tickled = at_front || m.tickled }, at_front)

  -- addTimer(ms, cb, recurring): `a` is the address that `new` returns.
  pub add_timer : Manager C → ℕ → ℕ → ℕ → Option C → Bool → Manager C × Bool
  unfolding insert_timer new_timer
  add_timer m a now ms cb recurring =
      insert_timer (record m { heap = update m.heap a (new_timer now ms cb recurring) }) a

  -- Timer::cancel.
  pub cancel : Manager C → ℕ → Outcome (Manager C × Bool)
  cancel m a =
      let h = update m.heap a (record (m.heap a) { cb = none }) in
      if is_some (m.heap a).cb
      then (if set_find h a m.timers
          then ok (record m { heap = h; timers = set_erase h a m.timers }, true)
          else fault)
      else ok (m, false)

  -- Timer::refresh. The second insertion does not go through addTimer.
  pub refresh : Manager C → ℕ → ℕ → Manager C × Bool
  refresh m now a =
      let h = update m.heap a (record (m.heap a) { next = add64 now (m.heap a).ms }) in
      if not (is_some (m.heap a).cb)
      then (m, false)
      else if not (set_find m.heap a m.timers)
      then (m, false)
      else (record m { heap = h; timers = set_insert h a (set_erase m.heap a m.timers) }, true)

  -- Timer::reset; the last component says whether onTimerInsertAtFront is called.
  pub reset : Manager C → ℕ → ℕ → ℕ → Bool → Manager C × Bool × Bool
  unfolding insert_timer
  reset m now a ms from_now =
      let t = m.heap a in
      let start = if from_now then now else sub64 t.next t.ms in
      let h = update m.heap a (record t { ms = ms; next = add64 start ms }) in
      let moved = insert_timer (record m { heap = h; timers = set_erase m.heap a m.timers }) a in
      if ms == t.ms && not from_now
      then (m, true, false)
      else if not (is_some t.cb)
      then (m, false, false)
      else if not (set_find m.heap a m.timers)
      then (m, false, false)
      else (moved.0, true, moved.1)

  -- How long the first timer of the set still has.
  pub time_left : Heap C → ℕ → List ℕ → ℕ
  time_left h now [] = no_timeout
  time_left h now (a ∷ rest) = if ltb (h a).next now then 0 else (h a).next - now

  -- getNextTimer.
  pub get_next_timer : Manager C → ℕ → Manager C × ℕ
  unfolding time_left
  get_next_timer m now = (record m { tickled = false }, time_left m.heap now m.timers)

  -- What lower_bound(now_timer) leaves before it, and behind it; `k` is the key's address.
  pub before_key : Heap C → ℕ → List ℕ → List ℕ × List ℕ
  before_key h k [] = ([], [])
  before_key h k (x ∷ xs) =
      let rest = before_key h k xs in
      if comparator h (some x) (some k) then (x ∷ rest.0, rest.1) else ([], x ∷ xs)

  -- The while loop that steps over the timers that are due at `now`.
  pub skip_due : Heap C → ℕ → List ℕ → List ℕ × List ℕ
  skip_due h now [] = ([], [])
  skip_due h now (x ∷ xs) =
      let rest = skip_due h now xs in
      if (h x).next == now then (x ∷ rest.0, rest.1) else ([], x ∷ xs)

  -- One round of the closing for loop: the timer is armed again, or disarmed.
  pub fire_one : Bool → Manager C → ℕ → ℕ → Manager C
  fire_one true m now a =
      let h = update m.heap a (record (m.heap a) { next = add64 now (m.heap a).ms }) in
      record m { heap = h; timers = set_insert h a m.timers }
  fire_one false m now a = record m { heap = update m.heap a (record (m.heap a) { cb = none }) }

  -- The closing for loop, with the callbacks that it collects.
  pub fire : Manager C → ℕ → List ℕ → Manager C × List (Option C)
  fire m now [] = (m, [])
  fire m now (a ∷ more) =
      let rest = fire (fire_one (m.heap a).recurring m now a) now more in
      (rest.0, (m.heap a).cb ∷ rest.1)

  -- The first expired timers and those that stay; `k` is the address of now_timer.
  pub split_expired : Heap C → Bool → ℕ → ℕ → List ℕ → List ℕ × List ℕ
  unfolding before_key skip_due key_timer
  split_expired h true now k ts = (ts, [])
  split_expired h false now k ts =
      let key = before_key (update h k (key_timer now)) k ts in
      let due = skip_due h now key.1 in (key.0 ++ due.0, due.1)

  -- listExpiredCb, the part that holds the write lock.
  pub take_expired : Manager C → ℕ → ℕ → ℕ → List ℕ → Manager C × List (Option C)
  take_expired m now k first rest =
      let rollover = clock_rollover m.previous_time now in
      let m' = record m { previous_time = now } in
      let parts = split_expired m.heap rollover now k (first ∷ rest) in
      if not rollover && ((m.heap first).next == now)
      then (m', [])
      else fire (record m' { timers = parts.1 }) now parts.0

  -- listExpiredCb: nothing for an empty set.
  pub expire_first : List ℕ → Manager C → ℕ → ℕ → Manager C × List (Option C)
  expire_first [] m now k = (m, [])
  expire_first (a ∷ more) m now k = take_expired m now k a more

  pub list_expired_cb : Manager C → ℕ → ℕ → Manager C × List (Option C)
  unfolding expire_first
  list_expired_cb m now k = expire_first m.timers m now k

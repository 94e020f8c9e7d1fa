-- ===== src/Timer/Runs.antt =====
-- Runs of timer.cc at concrete inputs, and its theorems at these. Callbacks are numbers.
use libcocao.Base.{
  ℕ, ◌+◌, ◌*◌, ◌≡◌, refl, true, false, not, ◌&&◌, none, some, [], ◌∷◌, arith, ◌==◌, is_some,
}
use libcocao.Timer.{
  Heap, comparator, set_insert, set_find, ok, fault, Manager, new_timer, new_manager, add_timer,
  cancel, get_next_timer, clock_rollover, fire_one, fire, split_expired, take_expired, expire_first,
  list_expired_cb,
}
use libcocao.Timer.Set.{mem}
use libcocao.Timer.Inv.{cb_of, Inv, cancel_lem}
use libcocao.Timer.Expiry.{never_expires}
use libcocao.Timer.History.{Reach, here, next, adds, history-Inv}

abbrev hour : ℕ
hour = 3600000

abbrev blank : Heap ℕ
blank a = record { recurring = false; ms = 0; next = 0; cb = none }

abbrev started : Manager ℕ
started = new_manager blank (3 * hour)

-- Timer 10 once after 50 ms, and timer 20 every 30 ms, added one millisecond later.
abbrev one : Manager ℕ
one = (add_timer started 10 (3 * hour) 50 (some 7) false).0

abbrev two : Manager ℕ
two = (add_timer one 20 (3 * hour + 1) 30 (some 8) true).0

two-Reach : Reach started two
unfolding add_timer new_manager
two-Reach =
    next (next here (adds started 10 (3 * hour) 50 7 false refl))
      (adds one 20 (3 * hour + 1) 30 8 true refl)

two-Inv : Inv two
two-Inv = history-Inv blank (3 * hour) two (λ a. refl) two-Reach

history-Inv_example : Inv two
history-Inv_example = history-Inv blank (3 * hour) two (λ a. refl) two-Reach

two_timers : two.timers ≡ 20 ∷ 10 ∷ []
unfolding add_timer new_manager set_insert comparator
two_timers = refl

two_wait : (get_next_timer two (3 * hour + 11)).1 ≡ 20
unfolding get_next_timer add_timer new_manager set_insert comparator
two_wait = refl

cancel_lem_example :
    (m : Manager ℕ) × (cancel two 10 ≡ ok (m, is_some (cb_of two.heap 10)))
    × Inv m
    × (cb_of m.heap 10 ≡ none)
    × ((b : ℕ) → (b == 10) ≡ false → m.heap b ≡ two.heap b)
    × ((b : ℕ) → mem b m.timers ≡ mem b two.timers && not (b == 10))
    × (cancel m 10 ≡ ok (m, false))
cancel_lem_example = cancel_lem two 10 two-Inv

ran_on : clock_rollover two.previous_time (9 * hour) ≡ false
unfolding clock_rollover add_timer new_manager
ran_on = refl

never_expires_example :
    let r = list_expired_cb two (9 * hour) 30 in
    (r.1 ≡ []) × (r.0.timers ≡ two.timers) × (r.0.heap ≡ two.heap)
unfolding add_timer new_manager set_insert comparator
never_expires_example = never_expires two (9 * hour) 30 refl (omega arith) ran_on

-- The set's own find does not see an object that was never inserted, and erasing it is the fault.
cancel_stray : cancel (record two { heap = λ a. new_timer 0 5 (some 9) false }) 77 ≡ fault
unfolding cancel set_find comparator add_timer new_manager set_insert new_timer
cancel_stray = refl

fires_in_order : (list_expired_cb two hour 30).1 ≡ some 8 ∷ some 7 ∷ []
unfolding list_expired_cb expire_first take_expired clock_rollover split_expired fire fire_one
    add_timer new_manager set_insert comparator
fires_in_order = refl

-- An hour after its time the one-shot timer is still pending.
overdue_stays : (list_expired_cb two (4 * hour) 30).0.timers ≡ 20 ∷ 10 ∷ []
unfolding list_expired_cb expire_first take_expired clock_rollover split_expired fire fire_one
    add_timer new_manager set_insert comparator
overdue_stays = refl

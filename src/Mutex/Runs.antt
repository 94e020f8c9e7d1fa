-- ===== src/Mutex/Runs.antt =====
-- Runs of the guards of mutex.h on concrete locks, and the theorems at these.
use libcocao.Base.{◌≡◌, refl, ap, Bool, true, false, Option, none, some, List, [], ◌∷◌, arith}
use libcocao.Mutex.{Use, locks, unlocks, block, RwMutex, read_block, write_block}
use libcocao.Mutex.Scope.{Lockable, block_releases}
use libcocao.Mutex.ReadWrite.{Hold, free, reading, writing, RwLockable, rw_blocks_never_release}

-- A mutex as the flag that says whether it is held: it blocks or fails on any other call.
abbrev flag_lock : Bool → Option Bool
flag_lock true = none
flag_lock false = some true

abbrev flag_unlock : Bool → Option Bool
flag_unlock true = some false
flag_unlock false = none

flag_lock_free : (s : Bool) → s ≡ false → (t : Bool) × (flag_lock s ≡ some t) × (t ≡ true)
flag_lock_free true h = absurd (ground arith)
flag_lock_free false h = (true, refl, refl)

flag_unlock_held : (s : Bool) → s ≡ true → (t : Bool) × (flag_unlock s ≡ some t) × (t ≡ false)
flag_unlock_held true h = (false, refl, refl)
flag_unlock_held false h = absurd (ground arith)

abbrev flag : Lockable Bool
flag = record {
  lock = flag_lock;
  unlock = flag_unlock;
  held = λ s. s;
  lock_free = flag_lock_free;
  unlock_held = flag_unlock_held;
}

abbrev busy_block : List Use
busy_block = unlocks ∷ unlocks ∷ locks ∷ locks ∷ []

block_releases_example :
    (t : Bool) × (block flag_lock flag_unlock busy_block false ≡ some t) × (t ≡ false)
block_releases_example = block_releases flag busy_block false refl

-- A read-write lock as what its thread holds of it.
abbrev hold_rdlock : Hold → Option Hold
hold_rdlock free = some reading
hold_rdlock reading = some reading
hold_rdlock writing = some writing

abbrev hold_wrlock : Hold → Option Hold
hold_wrlock free = some writing
hold_wrlock reading = none
hold_wrlock writing = some writing

abbrev rw_hold : RwMutex Hold
rw_hold = record { rdlock = hold_rdlock; wrlock = hold_wrlock; unlock = λ s. some free }

wrlock_held : (s : Hold) → s ≡ writing → hold_wrlock s ≡ some s
wrlock_held free h = absurd (ground arith)
wrlock_held reading h = absurd (ground arith)
wrlock_held writing h = refl

abbrev rw_hold-RwLockable : RwLockable rw_hold
rw_hold-RwLockable = record {
  hold = λ s. s;
  rdlock_free = λ s h. (reading, ap hold_rdlock h, refl);
  wrlock_free = λ s h. (writing, ap hold_wrlock h, refl);
  wrlock_reading = λ s h. ap hold_wrlock h;
  wrlock_writing = wrlock_held;
}

rw_blocks_never_release_example :
    (read_block rw_hold busy_block free ≡ none)
    × ((t : Hold) × (write_block rw_hold busy_block free ≡ some t) × (t ≡ writing))
rw_blocks_never_release_example =
    rw_blocks_never_release rw_hold rw_hold-RwLockable busy_block free refl

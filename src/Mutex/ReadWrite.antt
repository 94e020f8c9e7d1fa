-- ===== src/Mutex/ReadWrite.antt =====
-- Blocks with a ReadScopeLockImp1 or a WriteScopeLockImp1 of libcocao/mutex.h, whose unlock calls wrlock.
use libcocao.Base.{◌≡◌, refl, ◌⊎◌, inl, inr, Bool, true, false, none, some, List, [], ◌∷◌}
use libcocao.Mutex.{
  Guard, Use, locks, unlocks, guard_new, guard_lock, guard_unlock, guard_use, guard_uses, block,
  RwMutex, read_block, write_block,
}

-- What a thread holds of a pthread_rwlock_t.
pub data Hold : Type 0 where
  free reading writing : Hold

-- The calls as glibc documents and implements them, for a lock that no other thread uses: on a free lock both
-- return with it taken, wrlock deadlocks on a lock that its thread holds for reading, and fails with
-- EDEADLK, which RWMutex ignores, where its thread holds it for writing.
pub record RwLockable {S : Type 0} (m : RwMutex S) : Type 0 where
  pub hold : S → Hold
  pub rdlock_free : (s : S) → hold s ≡ free → (t : S) × (m.rdlock s ≡ some t) × (hold t ≡ reading)
  pub wrlock_free : (s : S) → hold s ≡ free → (t : S) × (m.wrlock s ≡ some t) × (hold t ≡ writing)
  pub wrlock_reading : (s : S) → hold s ≡ reading → m.wrlock s ≡ none
  pub wrlock_writing : (s : S) → hold s ≡ writing → m.wrlock s ≡ some s

module _ {S : Type 0} (m : RwMutex S) (l : RwLockable m) where
  open l use {hold, rdlock_free, wrlock_free, wrlock_reading, wrlock_writing}

  taken : Bool → S → Guard S
  taken b s = record { mutex = s; locked = b }

  -- A guard that holds the lock for reading stays as it is until its unlock, which does not return.
  read_uses :
      (us : List Use) (s : S)
      → hold s ≡ reading
      → (guard_uses m.rdlock m.wrlock us (taken true s) ≡ none)
        ⊎ (guard_uses m.rdlock m.wrlock us (taken true s) ≡ some (taken true s))
  unfolding guard_uses guard_use guard_lock guard_unlock taken
  read_uses [] s h = inr refl
  read_uses (locks ∷ us) s h = read_uses us s h
  read_uses (unlocks ∷ us) s h = inl (rw (wrlock_reading s h) refl)

  -- A guard that holds the lock for writing may believe that it does not; the lock stays taken.
  write_uses :
      (us : List Use) (b : Bool) (s : S)
      → hold s ≡ writing
      → (b' : Bool) × (guard_uses m.wrlock m.wrlock us (taken b s) ≡ some (taken b' s))
  unfolding guard_uses guard_use guard_lock guard_unlock taken
  write_uses [] b s h = (b, refl)
  write_uses (locks ∷ us) true s h = write_uses us true s h
  write_uses (locks ∷ us) false s h =
      let (b', e) = write_uses us true s h in (b', rw (wrlock_writing s h) e)
  write_uses (unlocks ∷ us) false s h = write_uses us false s h
  write_uses (unlocks ∷ us) true s h =
      let (b', e) = write_uses us false s h in (b', rw (wrlock_writing s h) e)

  write_unlock :
      (b : Bool) (s : S)
      → hold s ≡ writing
      → guard_unlock m.wrlock m.wrlock (taken b s) ≡ some (taken false s)
  unfolding guard_unlock taken
  write_unlock true s h = rw (wrlock_writing s h) refl
  write_unlock false s h = refl

  read_ends :
      (us : List Use) (s t : S) → m.rdlock s ≡ some t → hold t ≡ reading → read_block m us s ≡ none
  unfolding read_block block guard_new guard_unlock taken
  read_ends us s t e h = elim (read_uses us t h) [
    | inl u ↦ rw (e, u) refl
    | inr u ↦ rw (e, u, wrlock_reading t h) refl
  ]

  write_ends :
      (us : List Use) (s t : S)
      → m.wrlock s ≡ some t
      → hold t ≡ writing
      → write_block m us s ≡ some t
  unfolding write_block block guard_new taken
  write_ends us s t e h = let (b, u) = write_uses us true t h in rw (e, u, write_unlock b t h) refl

  -- With calls that behave as glibc's, on a free lock that no other thread uses: a block with a
  -- ReadScopeLockImp1, whatever calls of lock and unlock it makes on its guard, never returns, since its
  -- first unlock deadlocks on the lock that it holds for reading. One with a WriteScopeLockImp1 returns,
  -- and leaves the lock taken for writing.
  pub rw_blocks_never_release :
      (us : List Use) (s : S)
      → hold s ≡ free
      → (read_block m us s ≡ none) × ((t : S) × (write_block m us s ≡ some t) × (hold t ≡ writing))
  rw_blocks_never_release us s h =
      let (t, e, k) = rdlock_free s h in
      let (t', e', k') = wrlock_free s h in
      (read_ends us s t e k, (t', write_ends us s t' e' k', k'))

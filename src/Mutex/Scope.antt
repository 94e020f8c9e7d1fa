-- ===== src/Mutex/Scope.antt =====
-- ScopeLockImp1 of libcocao/mutex.h: every block gives its lock back.
use libcocao.Base.{
  ◌≡◌, refl, ◌∙◌, Bool, true, false, Option, some, List, [], ◌∷◌, inl, inr, Bool-cases,
}
use libcocao.Mutex.{
  Guard, Use, locks, unlocks, guard_new, guard_unlock, guard_use, guard_uses, block,
}

-- A lock that is not recursive, as its thread sees it: lock returns on a lock that the thread does
-- not hold, and unlock on one that it holds. Nothing is said of any other call.
pub record Lockable (S : Type 0) : Type 0 where
  pub lock : S → Option S
  pub unlock : S → Option S
  pub held : S → Bool
  pub lock_free : (s : S) → held s ≡ false → (t : S) × (lock s ≡ some t) × (held t ≡ true)
  pub unlock_held : (s : S) → held s ≡ true → (t : S) × (unlock s ≡ some t) × (held t ≡ false)

module _ {S : Type 0} (l : Lockable S) where
  open l use {lock, unlock, held, lock_free, unlock_held}

  -- The guard knows whether the lock is held.
  abbrev Agrees : Guard S → Type 0
  Agrees g = held g.mutex ≡ g.locked

  guard_use-Agrees :
      (u : Use) (g : Guard S)
      → Agrees g
      → (g' : Guard S) × (guard_use lock unlock u g ≡ some g') × Agrees g'
  unfolding guard_use
  guard_use-Agrees locks g h = elim (Bool-cases g.locked) [
    | inl e ↦ (g, rw e refl, h)
    | inr e ↦
        let (t, q, k) = lock_free g.mutex (h ∙ e) in
        (record { mutex = t; locked = true }, rw (e, q) refl, k)
  ]
  guard_use-Agrees unlocks g h = elim (Bool-cases g.locked) [
    | inr e ↦ (g, rw e refl, h)
    | inl e ↦
        let (t, q, k) = unlock_held g.mutex (h ∙ e) in
        (record { mutex = t; locked = false }, rw (e, q) refl, k)
  ]

  guard_uses-Agrees :
      (us : List Use) (g : Guard S)
      → Agrees g
      → (g' : Guard S) × (guard_uses lock unlock us g ≡ some g') × Agrees g'
  unfolding guard_uses
  guard_uses-Agrees [] g h = (g, refl, h)
  guard_uses-Agrees (u ∷ us) g h =
      let (g1, e, k) = guard_use-Agrees u g h in
      let (g2, f, j) = guard_uses-Agrees us g1 k in (g2, rw e f, j)

  destroy_frees :
      (g : Guard S)
      → Agrees g
      → (g' : Guard S) × (guard_unlock lock unlock g ≡ some g') × (held g'.mutex ≡ false)
  unfolding guard_unlock
  destroy_frees g h = elim (Bool-cases g.locked) [
    | inr e ↦ (g, rw e refl, h ∙ e)
    | inl e ↦
        let (t, q, k) = unlock_held g.mutex (h ∙ e) in
        (record { mutex = t; locked = false }, rw (e, q) refl, k)
  ]

  -- A block with a ScopeLockImp1 on a lock that the thread does not hold, whatever calls of lock and
  -- unlock it makes on its guard, returns, and the thread does not hold the lock afterwards: the
  -- guard never locks a lock that is held and never unlocks one that is not.
  pub block_releases :
      (us : List Use) (s : S)
      → held s ≡ false
      → (t : S) × (block lock unlock us s ≡ some t) × (held t ≡ false)
  unfolding block guard_new
  block_releases us s h =
      let (t, e, k) = lock_free s h in
      let (g, f, j) = guard_uses-Agrees us (record { mutex = t; locked = true }) k in
      let (d, q, x) = destroy_frees g j in (d.mutex, rw (e, f, q) refl, x)

-- ===== src/Mutex.antt =====
-- libcocao/mutex.h: the scoped locks. A guard holds the lock's state and whether it thinks that the
-- lock is taken. The pthread calls are parameters; `none` is a call that never returns.
pub mod Scope
pub mod ReadWrite
mod Runs
use libcocao.Base.{
  ℕ, ◌≡◌, Bool, true, false, Option, none, some, List, [], ◌∷◌, if◌then◌else◌, ◌>>=◌,
}

pub record Guard (S : Type 0) : Type 0 where
  pub mutex : S
  pub locked : Bool

-- What a block does with its guard.
pub data Use : Type 0 where
  locks unlocks : Use

-- The three templates differ in the call that takes the lock and in the call that unlock makes.
module _ {S : Type 0} (acquire give_back : S → Option S) where
  -- The constructor.
  pub guard_new : S → Option (Guard S)
  guard_new s = do t ← acquire s; some (record { mutex = t; locked = true })

  pub guard_lock : Guard S → Option (Guard S)
  guard_lock g =
      let taken = do t ← acquire g.mutex; some (record { mutex = t; locked = true })
      in if g.locked then some g else taken

  pub guard_unlock : Guard S → Option (Guard S)
  guard_unlock g =
      let freed = do t ← give_back g.mutex; some (record { mutex = t; locked = false })
      in if g.locked then freed else some g

  pub guard_use : Use → Guard S → Option (Guard S)
  unfolding guard_lock guard_unlock
  guard_use locks g = guard_lock g
  guard_use unlocks g = guard_unlock g

  pub guard_uses : List Use → Guard S → Option (Guard S)
  guard_uses [] g = some g
  guard_uses (u ∷ us) g = do g' ← guard_use u g; guard_uses us g'

  -- A block: the constructor, any calls on the guard, and the destructor, which calls unlock.
  pub block : List Use → S → Option S
  block us s = do g ← guard_new s; g' ← guard_uses us g; g'' ← guard_unlock g'; some g''.mutex

-- RWMutex: its three calls.
pub record RwMutex (S : Type 0) : Type 0 where
  pub rdlock : S → Option S
  pub wrlock : S → Option S
  pub unlock : S → Option S

-- A block with a ReadScopeLockImp1: the constructor and lock call rdlock, unlock calls wrlock.
pub read_block : {S : Type 0} → RwMutex S → List Use → S → Option S
unfolding block
read_block m us s = block m.rdlock m.wrlock us s

-- A block with a WriteScopeLockImp1: all of them call wrlock.
pub write_block : {S : Type 0} → RwMutex S → List Use → S → Option S
unfolding block
write_block m us s = block m.wrlock m.wrlock us s

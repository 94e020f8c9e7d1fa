-- ===== src/FdManager.antt =====
-- libcocao/fd_manager.h and libcocao/fd_manager.cc: the table of file descriptors that the hooked
-- calls use. fstat and fcntl are parameters. A shared pointer from the table is the entry itself.
pub mod Table
mod Runs
use libcocao.Base.{
  ℕ, zero, suc, ◌+◌, ◌-◌, ◌*◌, ◌/◌, ◌^◌, Bool, true, false, not, ◌&&◌, ◌||◌, Option, none, some,
  List, [], ◌∷◌, ltb, ◌==◌, if◌then◌else◌, length, get_elem?, set, is_some,
}

-- An int: `negsuc n` is -(n + 1).
pub data ℤ : Type 0 where
  pos : ℕ → ℤ
  negsuc : ℕ → ℤ

-- (uint64_t)-1.
abbrev pub no_limit : ℕ
no_limit = 2 ^ 64 - 1

-- FdCtx.
pub record FdCtx : Type 0 where
  pub is_init : Bool
  pub is_socket : Bool
  pub sys_nonblock : Bool
  pub user_nonblock : Bool
  pub is_closed : Bool
  pub fd : ℕ
  pub recv_timeout : ℕ
  pub send_timeout : ℕ

-- What the system says of a descriptor: fstat's verdict, `none` where it fails and else whether it
-- is a socket, and whether the file status flags have O_NONBLOCK.
pub record System : Type 0 where
  pub fstat : ℕ → Option Bool
  pub nonblocking : ℕ → Bool

-- FdCtx::init: the context, and whether fcntl_f is called to set O_NONBLOCK.
pub fd_init : System → FdCtx → FdCtx × Bool
fd_init s c =
    let opened = is_some (s.fstat c.fd) in
    let socket = elim (s.fstat c.fd) as (λ _. Bool) [ none ↦ false | some b ↦ b ] in
    if c.is_init then (c, false) else (
      record c {
        is_init = opened;
        is_socket = socket;
        sys_nonblock = socket;
        user_nonblock = false;
        is_closed = false;
        recv_timeout = no_limit;
        send_timeout = no_limit;
      },
      socket && not (s.nonblocking c.fd),
    )

-- FdCtx::FdCtx.
pub fd_new : System → ℕ → FdCtx × Bool
unfolding fd_init
fd_new s fd = fd_init s (record {
  is_init = false;
  is_socket = false;
  sys_nonblock = false;
  user_nonblock = false;
  is_closed = false;
  fd = fd;
  recv_timeout = no_limit;
  send_timeout = no_limit;
})

-- The two socket options that carry a time limit.
pub data TimeoutType : Type 0 where
  rcvtimeo sndtimeo : TimeoutType

unfoldable pub set_timeout : FdCtx → TimeoutType → ℕ → FdCtx
set_timeout c rcvtimeo v = record c { recv_timeout = v }
set_timeout c sndtimeo v = record c { send_timeout = v }

unfoldable pub get_timeout : FdCtx → TimeoutType → ℕ
get_timeout c rcvtimeo = c.recv_timeout
get_timeout c sndtimeo = c.send_timeout

-- FdManager: m_datas.
abbrev pub Table : Type 0
Table = List (Option FdCtx)

-- `fault` is an access before the start of the vector or past its end.
pub data Outcome (A : Type 0) : Type 0 where
  ok : A → Outcome A
  fault : Outcome A

-- std::vector::resize, with null pointers for new places.
pub vector_resize : ℕ → Table → Table
vector_resize zero t = []
vector_resize (suc n) [] = none ∷ vector_resize n []
vector_resize (suc n) (x ∷ t) = x ∷ vector_resize n t

-- FdManager::FdManager.
pub manager_new : Table
unfolding vector_resize
manager_new = vector_resize 64 []

-- The write under the second lock of get.
pub create : System → Table → ℕ → Outcome (Table × Option FdCtx)
unfolding vector_resize fd_new
create s t fd =
    let ctx = (fd_new s fd).0 in
    let t' = if ltb fd (length t) then t else vector_resize (fd * 3 / 2) t in
    if ltb fd (length t') then ok (set t' fd (some ctx), some ctx) else fault

-- FdManager::get. A negative descriptor other than -1 passes the test of the size.
pub get : System → Table → ℤ → Bool → Outcome (Table × Option FdCtx)
get s t (negsuc zero) auto = ok (t, none)
get s t (negsuc (suc n)) auto = fault
get s t (pos fd) auto = elim (get_elem? t fd) [
  | none ↦ if auto then create s t fd else ok (t, none)
  | some x ↦ if is_some x || not auto then ok (t, x) else create s t fd
]

-- FdManager::del. A negative descriptor passes the test of the size here too.
pub del : Table → ℤ → Outcome Table
del t (negsuc n) = fault
del t (pos fd) = ok (if ltb fd (length t) then set t fd none else t)

-- ===== src/Hook/Calls/Waits.antt =====
-- do_io of libcocao/hook.cc, from the table to the loop.
use libcocao.Base.{ℕ, ◌≡◌, refl, true, false, some, List}
use libcocao.FdManager.{pos, FdCtx, System, TimeoutType, get_timeout, Table, ok}
use libcocao.FdManager.Table.{at, get_peek}
use libcocao.Hook.{Round, io_loop}
use libcocao.Hook.Calls.{do_io, io_on}

-- A socket that the program takes for a blocking one.
pub record Blocking (c : FdCtx) : Type 0 where
  pub unclosed : c.is_closed ≡ false
  pub socket : c.is_socket ≡ true
  pub blocks : c.user_nonblock ≡ false

pub do_io_waits :
    (s : System) (t : Table) (fd : ℕ) (so : TimeoutType) (rs : List Round) (c : FdCtx)
    → at t fd ≡ some c
    → Blocking c
    → do_io s true t (pos fd) so rs ≡ ok (io_loop (get_timeout c so) rs)
unfolding do_io io_on
do_io_waits s t fd so rs c e b =
    rw (get_peek s t fd, e, b.unclosed, b.socket, b.blocks, do_io, io_on) refl

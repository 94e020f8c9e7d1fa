-- ===== src/Hook/Calls/Close.antt =====
-- close and socket of libcocao/hook.cc: what becomes of a descriptor's context.
use libcocao.Base.{ℕ, ◌≡◌, refl, ◌∙◌, Bool, true, false, none, some, ==_self}
use libcocao.FdManager.{pos, FdCtx, System, Table, ok}
use libcocao.FdManager.Table.{at, IsLong, get_peek, get_lem, del_lem}
use libcocao.Hook.Calls.{socket, close}

-- close on a descriptor with a context, and a later call of socket that the system gives the same
-- descriptor. Where the hook is on, IOManager::cancelAll is not called, the table stays, and the new
-- socket gets the old context with its flags and limits. Where the hook is off the context is
-- removed, and cancelAll is called if the thread has an IOManager.
pub close_lem :
    (s s' : System) (has_iomanager : Bool) (t : Table) (fd : ℕ) (c : FdCtx)
    → IsLong t
    → at t fd ≡ some c
    → ((close s true has_iomanager t (pos fd) ≡ ok (t, false))
        × ((t' : Table) × (socket s' true t (pos fd) ≡ ok t') × (at t' fd ≡ some c)))
      × ((t' : Table) × (close s false has_iomanager t (pos fd) ≡ ok (t', has_iomanager))
          × (at t' fd ≡ none))
unfolding close socket
close_lem s s' has_iomanager t fd c h e =
    let (t1, q1, long1, at1) = get_lem s' t fd true h in
    let (t2, q2, long2, at2) = del_lem t fd h in
    (
      (refl, (t1, rw (q1, socket) refl, at1 fd ∙ rw (==_self fd, e) refl)),
      (t2, rw (get_peek s t fd, e, q2, close) refl, at2 fd ∙ rw (==_self fd) refl),
    )

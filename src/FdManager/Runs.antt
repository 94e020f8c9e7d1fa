-- ===== src/FdManager/Runs.antt =====
-- Runs of the table of libcocao/fd_manager.cc.
use libcocao.Base.{ℕ, ◌≡◌, refl, true, false, none, some, List, [], ◌∷◌}
use libcocao.FdManager.{
  negsuc, System, fd_new, no_limit, Table, ok, fault, manager_new, get, get_timeout, rcvtimeo,
}
use libcocao.FdManager.Table.{at, Call, gets, dels, run, spec_run, run_refines}

-- A system whose descriptors are blocking sockets.
abbrev sockets : System
sockets = record { fstat = λ _. some true; nonblocking = λ _. false }

abbrev nothing_open : System
nothing_open = record { fstat = λ _. none; nonblocking = λ _. false }

-- A new context of a blocking socket has no limit of time, and fcntl sets O_NONBLOCK.
new_context : (get_timeout (fd_new sockets 3).0 rcvtimeo ≡ no_limit) × ((fd_new sockets 3).1 ≡ true)
unfolding get_timeout fd_new
new_context = (refl, refl)

negative_faults : get sockets manager_new (negsuc 1) true ≡ fault
unfolding get
negative_faults = refl

abbrev calls : List Call
calls = gets sockets 3 true ∷ gets sockets 100 true ∷ dels 3 ∷ gets nothing_open 3 true ∷ []

run_refines_example :
    (t : Table) × (run manager_new calls ≡ ok t) × ((j : ℕ) → at t j ≡ spec_run (λ _. none) calls j)
run_refines_example = run_refines calls

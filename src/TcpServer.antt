-- ===== src/TcpServer.antt =====
-- TcpServer of libcocao/tcp_server.h and libcocao/tcp_server.cc. The scheduler of the accepting worker is a list
-- of the tasks that it is given; what the system answers comes with each address and each accept.
pub mod Binding
pub mod Accepting
mod Runs
use libcocao.Base.{
  ℕ, Bool, true, false, not, Option, none, some, List, [], ◌∷◌, ◌++◌, map, if◌then◌else◌, is_empty,
}
use libcocao.Log.{codes}
use libcocao.Socket.{Socket, Answers, SysCall, create_tcp, bind, listen, close, timeval_of}

-- What the accepting worker is given: startAccept on a socket, or the function of stop.
pub data Task (A : Type 0) : Type 0 where
  start_accept : Socket A → Task A
  close_all : Task A

-- TcpServer, with the tasks that it has scheduled on the accepting worker.
pub record TcpServer (A : Type 0) : Type 0 where
  pub socks : List (Socket A)
  pub recv_timeout : ℕ
  pub name : List ℕ
  pub type : List ℕ
  pub is_stop : Bool
  pub scheduled : List (Task A)

-- An address to bind, and what the system answers to bind, to the probe of a UnixAddress and to listen.
pub record Attempt (A : Type 0) : Type 0 where
  pub addr : A
  pub to_bind : Answers A
  pub to_probe : Answers A
  pub to_listen : Answers A

-- The loop of startAccept: whether it finds the server stopped and what accept gives each time, and the clients that are
-- given a receive timeout and are scheduled.
pub accept_loop : {C : Type 0} → ℕ → List (Bool × Option C) → List (C × (ℕ × ℕ))
accept_loop recv_timeout [] = []
accept_loop recv_timeout ((true, found) ∷ more) = []
accept_loop recv_timeout ((false, none) ∷ more) = accept_loop recv_timeout more
accept_loop recv_timeout ((false, some client) ∷ more) =
    (client, timeval_of recv_timeout) ∷ accept_loop recv_timeout more

module _ {A : Type 0} where
  -- TcpServer::TcpServer.
  pub server_new : TcpServer A
  server_new = record {
    socks = [];
    recv_timeout = 5000;
    name = codes "libcocao/1.0.1";
    type = codes "tcp";
    is_stop = true;
    scheduled = [];
  }

  -- TcpServer::start.
  pub start : TcpServer A → TcpServer A × Bool
  start s =
      if not s.is_stop
      then (s, true)
      else (record s { is_stop = false; scheduled = s.scheduled ++ map start_accept s.socks }, true)

  -- TcpServer::stop.
  pub stop : TcpServer A → TcpServer A
  stop s = record s { is_stop = true; scheduled = s.scheduled ++ close_all ∷ [] }

  -- The function that stop schedules: cancelAll is left out, and close gives its calls.
  pub close_each : List (Socket A) → List SysCall
  close_each [] = []
  close_each (s ∷ socks) = (close s).2 ++ close_each socks

  pub run_close_all : TcpServer A → TcpServer A × List SysCall
  unfolding close_each
  run_close_all s = (record s { socks = [] }, close_each s.socks)

  pub set_recv_timeout : ℕ → TcpServer A → TcpServer A
  set_recv_timeout v s = record s { recv_timeout = v }

  module _ (family_of : A → ℕ) (is_unix : A → Bool) where
    -- One turn of the loop of bind: whether it fails, and the calls, with those of the socket's destructor, since nothing
    -- keeps the socket.
    pub bind_one : Attempt A → Bool × List SysCall
    bind_one t =
        let (bound, good, calls) =
          bind family_of is_unix t.to_bind t.to_probe t.addr (create_tcp (family_of t.addr)) in
        let (listens, more) = listen t.to_listen bound in
        let (gone, result, last) = close bound in
        if not good
        then (true, calls ++ last)
        else if not listens
        then (true, calls ++ more ++ last)
        else (false, calls ++ more ++ last)

    -- The loop of bind: the addresses that fail.
    pub bind_each : List (Attempt A) → List A × List SysCall
    unfolding bind_one
    bind_each [] = ([], [])
    bind_each (t ∷ ts) =
        let (failed, calls) = bind_one t in
        let (fails, more) = bind_each ts in
        (if failed then t.addr ∷ fails else fails, calls ++ more)

    -- TcpServer::bind of several addresses, which adds to `fails`.
    pub bind_addresses :
        List (Attempt A) → List A → TcpServer A → TcpServer A × Bool × List A × List SysCall
    unfolding bind_each
    bind_addresses ts fails s =
        let (more, calls) = bind_each ts in
        if is_empty (fails ++ more)
        then (s, true, fails ++ more, calls)
        else (record s { socks = [] }, false, fails ++ more, calls)

    -- TcpServer::bind of one address.
    pub bind_address : Attempt A → TcpServer A → TcpServer A × Bool × List A × List SysCall
    unfolding bind_addresses
    bind_address t s = bind_addresses (t ∷ []) [] s

-- ===== src/Socket.antt =====
-- libcocao/socket.h and libcocao/socket.cc. The system's answers to the calls of one operation are a record, and an
-- operation gives the calls that it makes, in order. A descriptor is an option, with `none` for -1. Addresses are a
-- parameter, with their family and whether they are a UnixAddress.
pub mod Calls
pub mod State
pub mod History
mod Runs
use libcocao.Base.{
  ℕ, ◌*◌, ◌/◌, ◌%◌, ◌^◌, Bool, true, false, not, ◌&&◌, ◌||◌, Option, none, some, List, [], ◌∷◌,
  ◌++◌, ◌==◌, if◌then◌else◌, is_some, ltb, ◌+◌, ◌-◌,
}
use libcocao.Hook.Calls.{to_int}
use libcocao.FdManager.{ℤ, pos, negsuc}

-- Socket::Type and the family of UnixAddress.
abbrev pub tcp : ℕ
tcp = 1

abbrev pub udp : ℕ
udp = 2

abbrev pub unix : ℕ
unix = 1

-- Socket.
pub record Socket (A : Type 0) : Type 0 where
  pub sock : Option ℕ
  pub family : ℕ
  pub type : ℕ
  pub protocol : ℕ
  pub is_connected : Bool
  pub local : Option A
  pub remote : Option A

-- What the system answers to the calls of an operation: the descriptor of socket and of accept, whether connect,
-- bind and listen succeed, the addresses of getsockname and getpeername, and what a call that moves data returns.
pub record Answers (A : Type 0) : Type 0 where
  pub new_fd : Option ℕ
  pub accepted : Option ℕ
  pub connects : Bool
  pub binds : Bool
  pub listens : Bool
  pub sock_name : Option A
  pub peer_name : Option A
  pub moved : ℤ

-- The system calls, socket with its answer. `by_option` is setsockopt with SO_REUSEADDR or TCP_NODELAY, `by_data` a call of the send
-- or recv family.
pub data SysCall : Type 0 where
  by_socket : Option ℕ → SysCall
  by_option : ℕ → SysCall
  by_connect : ℕ → SysCall
  by_bind : ℕ → SysCall
  by_listen : ℕ → SysCall
  by_accept : Option ℕ → SysCall
  by_name : Option ℕ → SysCall
  by_data : Option ℕ → SysCall
  by_close : ℕ → SysCall

-- The timeval of setSendTimeout and setRecvTimeout: the seconds are cast to an int, and a negative one is, as a
-- time_t, a number of 64 bits again.
unfoldable pub timeval_of : ℕ → ℕ × ℕ
timeval_of v =
    let seconds = v / 1000 % 2 ^ 32 in
    (if ltb seconds (2 ^ 31) then seconds else seconds + (2 ^ 64 - 2 ^ 32), v % 1000 * 1000)

module _ {A : Type 0} where
  -- Socket::Socket.
  pub socket_new : ℕ → ℕ → ℕ → Socket A
  socket_new family type protocol = record {
    sock = none;
    family = family;
    type = type;
    protocol = protocol;
    is_connected = false;
    local = none;
    remote = none;
  }

  pub is_valid : Socket A → Bool
  is_valid s = is_some s.sock

  -- initSock.
  pub init_sock : Socket A → ℕ → List SysCall
  init_sock s fd = if s.type == tcp then by_option fd ∷ by_option fd ∷ [] else by_option fd ∷ []

  -- newSock.
  pub new_sock : Answers A → Socket A → Socket A × List SysCall
  unfolding init_sock
  new_sock o s = elim o.new_fd [
    | none ↦ (record s { sock = none }, by_socket none ∷ [])
    | some fd ↦ (record s { sock = some fd }, by_socket (some fd) ∷ init_sock s fd)
  ]

  -- getLocalAddress and getRemoteAddress: what they note down.
  pub get_local_address : Answers A → Socket A → Socket A × List SysCall
  get_local_address o s = elim s.local [
    | some a ↦ (s, [])
    | none ↦ elim o.sock_name [
      | none ↦ (s, by_name s.sock ∷ [])
      | some a ↦ (record s { local = some a }, by_name s.sock ∷ [])
    ]
  ]

  pub get_remote_address : Answers A → Socket A → Socket A × List SysCall
  get_remote_address o s = elim s.remote [
    | some a ↦ (s, [])
    | none ↦ elim o.peer_name [
      | none ↦ (s, by_name s.sock ∷ [])
      | some a ↦ (record s { remote = some a }, by_name s.sock ∷ [])
    ]
  ]

  -- Socket::close.
  pub close : Socket A → Socket A × Bool × List SysCall
  close s = if not s.is_connected && not (is_some s.sock) then (s, true, []) else elim s.sock [
    | none ↦ (record s { is_connected = false }, false, [])
    | some fd ↦ (record s { is_connected = false; sock = none }, false, by_close fd ∷ [])
  ]

  -- The first lines of bind and connect, where a socket is made if there is none.
  pub ensure_sock : Answers A → Socket A → Socket A × List SysCall
  unfolding is_valid new_sock
  ensure_sock o s = if is_valid s then (s, []) else new_sock o s

  -- createTCP and the like, and CreateUDP and the like.
  pub create_tcp : ℕ → Socket A
  unfolding socket_new
  create_tcp family = socket_new family tcp 0

  pub create_udp : Answers A → ℕ → Socket A × List SysCall
  unfolding socket_new new_sock
  create_udp o family =
      let (s, calls) = new_sock o (socket_new family udp 0) in
      (record s { is_connected = true }, calls)

  -- CreateUnixUDPSocket.
  pub create_unix_udp : Socket A
  unfolding socket_new
  create_unix_udp = socket_new unix udp 0

  -- Socket::listen.
  pub listen : Answers A → Socket A → Bool × List SysCall
  listen o s = elim s.sock [ none ↦ (false, []) | some fd ↦ (o.listens, by_listen fd ∷ []) ]

  -- send, sendTo, recv and recvFrom, in their two forms; what the call returns is cast to an int.
  pub transfer : Answers A → Socket A → ℤ × List SysCall
  transfer o s = if s.is_connected then (to_int o.moved, by_data s.sock ∷ []) else (negsuc 0, [])

  -- Socket::init, where `usable` is whether the table has an open context of a socket.
  pub init : Answers A → Bool → ℕ → Socket A → Socket A × Bool × List SysCall
  unfolding init_sock get_local_address get_remote_address
  init o usable fd s =
      if usable
      then (let opened = record s { sock = some fd; is_connected = true } in
          let (named, calls) = get_local_address o opened in
          let (known, more) = get_remote_address o named in
          (known, true, init_sock s fd ++ calls ++ more))
      else (s, false, [])

  -- Socket::accept. A socket that is not usable is dropped, and its descriptor is left open.
  pub accept : Answers A → (ℕ → Bool) → Socket A → Option (Socket A) × List SysCall
  unfolding socket_new init
  accept o usable s = elim o.accepted [
    | none ↦ (none, by_accept s.sock ∷ [])
    | some fd ↦
        let (client, ok, calls) = init o (usable fd) fd (socket_new s.family s.type s.protocol) in
        (if ok then some client else none, by_accept s.sock ∷ calls)
  ]

  module _ (family_of : A → ℕ) (is_unix : A → Bool) where
    -- Socket::connect, from the check of the family on; with a timeout it calls connect_with_timeout in place of
    -- connect.
    pub connect_on : Answers A → A → ℕ → Socket A → Socket A × Bool × List SysCall
    unfolding close get_local_address get_remote_address
    connect_on o addr fd s =
        if not (family_of addr == s.family)
        then (s, false, [])
        else if o.connects
        then (let (known, asked) = get_remote_address o (record s { is_connected = true }) in
            let (named, more) = get_local_address o known in
            (named, true, by_connect fd ∷ (asked ++ more)))
        else (let (closed, result, calls) = close s in (closed, false, by_connect fd ∷ calls))

    pub connect : Answers A → A → Socket A → Socket A × Bool × List SysCall
    unfolding ensure_sock connect_on
    connect o addr s =
        let (ready, made) = ensure_sock o (record s { remote = some addr }) in
        elim ready.sock [
          | none ↦ (ready, false, made)
          | some fd ↦
              let (after, result, calls) = connect_on o addr fd ready in
              (after, result, made ++ calls)
        ]

    -- The attempt of bind to connect to a UnixAddress with another socket, which is then dropped; `probe` answers its
    -- calls.
    pub probe_unix : Answers A → A → Bool × List SysCall
    unfolding connect create_tcp close
    probe_unix probe addr =
        let (other, found, tried) = connect probe addr (create_tcp unix) in
        let (gone, result, dropped) = close other in (found, tried ++ dropped)

    pub probed : Answers A → A → Bool × List SysCall
    unfolding probe_unix
    probed probe addr = if is_unix addr then probe_unix probe addr else (false, [])

    -- Socket::bind, from the check of the family on, with what the attempt has found.
    pub bind_on :
        Answers A → Bool → List SysCall → A → ℕ → Socket A → Socket A × Bool × List SysCall
    unfolding get_local_address
    bind_on o found tried addr fd s =
        if not (family_of addr == s.family)
        then (s, false, [])
        else if found
        then (s, false, tried)
        else if o.binds
        then (let (named, calls) = get_local_address o s in
            (named, true, tried ++ by_bind fd ∷ calls))
        else (s, false, tried ++ by_bind fd ∷ [])

    pub bind : Answers A → Answers A → A → Socket A → Socket A × Bool × List SysCall
    unfolding ensure_sock bind_on probed
    bind o probe addr s =
        let (ready, made) = ensure_sock o (record s { local = some addr }) in
        let (found, tried) = probed probe addr in
        elim ready.sock [
          | none ↦ (ready, false, made)
          | some fd ↦
              let (after, result, calls) = bind_on o found tried addr fd ready in
              (after, result, made ++ calls)
        ]

    -- Socket::reconnect.
    pub reconnect : Answers A → Socket A → Socket A × Bool × List SysCall
    unfolding connect
    reconnect o s = elim s.remote [
      | none ↦ (s, false, [])
      | some addr ↦ connect o addr (record s { local = none })
    ]

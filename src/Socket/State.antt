-- ===== src/Socket/State.antt =====
-- What one operation of Socket, libcocao/socket.cc, does to its descriptor.
use libcocao.Base.{
  ◌≡◌, ℕ, ◌+◌, refl, sym, ap, subst, ◌∙◌, ◌⊎◌, inl, inr, Bool, true, false, not, ◌&&◌, Option, none,
  some, List, [], ◌∷◌, ◌++◌, ◌==◌, is_some, Bool-cases, Option-cases, arith,
}
use libcocao.FdManager.{negsuc}
use libcocao.Socket.{
  Socket, Answers, SysCall, by_connect, by_bind, by_data, tcp, is_valid, new_sock,
  get_local_address, get_remote_address, close, ensure_sock, create_tcp, listen, transfer,
  socket_new, connect_on, connect,
}
use libcocao.Hook.Calls.{to_int}
use libcocao.Socket.Calls.{one_if_same, opens, closes, opens-append, closes-append}

and_false : (b : Bool) → (b && false) ≡ false
and_false true = refl
and_false false = refl

-- A connected socket has a descriptor.
unfoldable pub IsSound : {A : Type 0} → Socket A → Type 0
IsSound s = (s.is_connected && not (is_some s.sock)) ≡ false

-- A call that moves data is made on the descriptor of a connected socket.
pub transfer-cases :
    {A : Type 0} (o : Answers A) (s : Socket A)
    → IsSound s
    → (transfer o s ≡ (negsuc 0, []))
      ⊎ ((fd : ℕ) × (s.sock ≡ some fd) × (transfer o s ≡ (to_int o.moved, by_data (some fd) ∷ [])))
unfolding transfer IsSound
transfer-cases o s h = elim (Bool-cases s.is_connected) [
  | inr e ↦ inl (rw (e, transfer) refl)
  | inl e ↦ elim (Option-cases s.sock) [
    | inr (fd, f) ↦ inr (fd, f, rw (e, f, transfer) refl)
    | inl f ↦
        let clash : true ≡ false = (λ i. sym e i && not (is_some (sym f i))) ∙ h in
        absurd (ground (arith, clash))
  ]
]

-- How often a socket holds the descriptor n.
abbrev pub holds : ℕ → Option ℕ → ℕ
holds n fd = elim fd [ none ↦ 0 | some k ↦ one_if_same n k ]

unfoldable pub held : {A : Type 0} → ℕ → Socket A → ℕ
held n s = holds n s.sock

module _ {A : Type 0} (n : ℕ) where
  -- Calls that lead from a socket to a sound one and account for the descriptor n.
  pub record Effect (s r : Socket A) (calls : List SysCall) : Type 0 where
    pub sound : IsSound r
    pub balanced : opens n calls + held n s ≡ closes n calls + held n r

  pub then_also :
      (s m r : Socket A) (a b : List SysCall) → Effect s m a → Effect m r b → Effect s r (a ++ b)
  then_also s m r a b e f = record {
    sound = f.sound;
    balanced = omega (arith, e.balanced, f.balanced, opens-append n a b, closes-append n a b);
  }

  pub no_calls : (s : Socket A) → IsSound s → Effect s s []
  unfolding opens closes
  no_calls s h = record { sound = h; balanced = omega arith }

  connected :
      (s : Socket A) (fd fd2 : ℕ)
      → s.sock ≡ some fd
      → Effect s (record s { is_connected = true }) (by_connect fd2 ∷ [])
  unfolding IsSound held opens closes
  connected s fd fd2 e = record { sound = rw e refl; balanced = omega arith }

  pub neutral : (s : Socket A) (fd : ℕ) → IsSound s → Effect s s (by_connect fd ∷ [])
  unfolding opens closes
  neutral s fd h = record { sound = h; balanced = omega arith }

  pub bound : (s : Socket A) (fd : ℕ) → IsSound s → Effect s s (by_bind fd ∷ [])
  unfolding opens closes
  bound s fd h = record { sound = h; balanced = omega arith }

  pub close_effect : (s : Socket A) → IsSound s → Effect s (close s).0 (close s).2
  unfolding close IsSound held opens closes
  close_effect s h = elim (Option-cases s.sock) [
    | inl e ↦ elim (Bool-cases s.is_connected) [
      | inl f ↦ rw (e, f) (record { sound = refl; balanced = rw e (omega arith) })
      | inr f ↦ rw (e, f) (record { sound = refl; balanced = omega arith })
    ]
    | inr (fd, e) ↦ elim (Bool-cases s.is_connected) [
      | inl f ↦ rw (e, f) (record { sound = refl; balanced = omega arith })
      | inr f ↦ rw (e, f) (record { sound = refl; balanced = omega arith })
    ]
  ]

  -- What is said of the descriptors holds of another socket with the same one.
  pub for_same :
      (s t r : Socket A) (calls : List SysCall)
      → s.sock ≡ t.sock
      → Effect s r calls
      → Effect t r calls
  unfolding held
  for_same s t r calls e f = record {
    sound = f.sound;
    balanced = ap (λ fd. opens n calls + holds n fd) (sym e) ∙ f.balanced;
  }

  pub ensure_effect :
      (o : Answers A) (s : Socket A) → IsSound s → Effect s (ensure_sock o s).0 (ensure_sock o s).1
  unfolding ensure_sock is_valid new_sock IsSound held opens closes
  ensure_effect o s h = elim (Option-cases s.sock) [
    | inr (fd, e) ↦ rw e (record { sound = and_false s.is_connected; balanced = omega arith })
    | inl e ↦ elim (Option-cases o.new_fd) [
      | inl f ↦
          rw (e, f)
            (record {
              sound = subst (λ fd. (s.is_connected && not (is_some fd)) ≡ false) e h;
              balanced = omega arith;
            })
      | inr (fd, f) ↦
          rw (e, f)
            (record {
              sound = and_false s.is_connected;
              balanced = elim (Bool-cases (s.type == tcp)) [
                | inl g ↦ rw g (omega arith)
                | inr g ↦ rw g (omega arith)
              ];
            })
    ]
  ]

  -- The addresses that are noted down are not the socket's descriptor.
  pub local_effect :
      (o : Answers A) (s : Socket A)
      → IsSound s
      → Effect s (get_local_address o s).0 (get_local_address o s).1
  unfolding get_local_address IsSound held opens closes
  local_effect o s h = elim (Option-cases s.local) [
    | inr (a, e) ↦ rw (e, get_local_address) (record { sound = h; balanced = omega arith })
    | inl e ↦ elim (Option-cases o.sock_name) [
      | inl f ↦ rw (e, f, get_local_address) (record { sound = h; balanced = omega arith })
      | inr (a, f) ↦ rw (e, f, get_local_address) (record { sound = h; balanced = omega arith })
    ]
  ]

  pub remote_effect :
      (o : Answers A) (s : Socket A)
      → IsSound s
      → Effect s (get_remote_address o s).0 (get_remote_address o s).1
  unfolding get_remote_address IsSound held opens closes
  remote_effect o s h = elim (Option-cases s.remote) [
    | inr (a, e) ↦ rw (e, get_remote_address) (record { sound = h; balanced = omega arith })
    | inl e ↦ elim (Option-cases o.peer_name) [
      | inl f ↦ rw (e, f, get_remote_address) (record { sound = h; balanced = omega arith })
      | inr (a, f) ↦ rw (e, f, get_remote_address) (record { sound = h; balanced = omega arith })
    ]
  ]

  module _ (family_of : A → ℕ) (is_unix : A → Bool) where
    connect_on_effect :
        (o : Answers A) (addr : A) (fd : ℕ) (s : Socket A)
        → s.sock ≡ some fd
        → IsSound s
        → Effect s
            (connect_on family_of is_unix o addr fd s).0
            (connect_on family_of is_unix o addr fd s).2
    unfolding connect_on
    connect_on_effect o addr fd s e h = elim (Bool-cases (family_of addr == s.family)) [
      | inr f ↦ rw f (no_calls s h)
      | inl f ↦ elim (Bool-cases o.connects) [
        | inr g ↦
            rw (f, g)
              (then_also s s (close s).0 (by_connect fd ∷ []) (close s).2 (neutral s fd h)
                (close_effect s h))
        | inl g ↦
            let open_s : Socket A = record s { is_connected = true } in
            let known = get_remote_address o open_s in
            let first = connected s fd fd e in
            let second = remote_effect o open_s first.sound in
            let third = local_effect o known.0 second.sound in
            rw (f, g)
              (then_also s open_s (get_local_address o known.0).0 (by_connect fd ∷ [])
                (known.1 ++ (get_local_address o known.0).1) first
                (then_also open_s known.0 (get_local_address o known.0).0 known.1
                  (get_local_address o known.0).1 second third))
      ]
    ]

    pub connect_effect :
        (o : Answers A) (addr : A) (s : Socket A)
        → IsSound s
        → Effect s (connect family_of is_unix o addr s).0 (connect family_of is_unix o addr s).2
    unfolding connect IsSound
    connect_effect o addr s h =
        let start : Socket A = record s { remote = some addr } in
        let ready = (ensure_sock o start).0 in
        let made : Effect s ready (ensure_sock o start).1 =
          for_same start s ready _ refl (ensure_effect o start h) in
        elim (Option-cases ready.sock) [
          | inl e ↦ rw (e, connect) made
          | inr (fd, e) ↦
              rw (e, connect)
                (then_also s ready (connect_on family_of is_unix o addr fd ready).0 _ _ made
                  (connect_on_effect o addr fd ready e made.sound))
        ]

module _ {A : Type 0} (n : ℕ) where
  neutral_calls :
      (s : Socket A) (calls : List SysCall)
      → opens n calls ≡ 0
      → closes n calls ≡ 0
      → IsSound s
      → Effect n s s calls
  neutral_calls s calls o c h = record { sound = h; balanced = omega (arith, o, c) }

  listen_neutral :
      (o : Answers A) (s : Socket A) → (opens n (listen o s).1 ≡ 0) × (closes n (listen o s).1 ≡ 0)
  unfolding listen opens closes
  listen_neutral o s = elim (Option-cases s.sock) [
    | inl e ↦ rw (e, listen) (refl, refl)
    | inr (fd, e) ↦ rw (e, listen) (refl, refl)
  ]

  pub listen_effect : (o : Answers A) (s : Socket A) → IsSound s → Effect n s s (listen o s).1
  listen_effect o s h =
      neutral_calls s (listen o s).1 (listen_neutral o s).0 (listen_neutral o s).1 h

  pub transfer_effect : (o : Answers A) (s : Socket A) → IsSound s → Effect n s s (transfer o s).1
  unfolding opens closes
  transfer_effect o s h = elim (transfer-cases o s h) [
    | inl e ↦
        neutral_calls s (transfer o s).1 (ap (λ x. opens n x.1) e) (ap (λ x. closes n x.1) e) h
    | inr (fd, f, e) ↦
        neutral_calls s (transfer o s).1 (ap (λ x. opens n x.1) e) (ap (λ x. closes n x.1) e) h
  ]

  -- A closed socket holds nothing.
  pub close_held : (s : Socket A) → held n (close s).0 ≡ 0
  unfolding close held
  close_held s = elim (Option-cases s.sock) [
    | inl e ↦ elim (Bool-cases s.is_connected) [
      | inl f ↦ rw (e, f, e) refl
      | inr f ↦ rw (e, f) refl
    ]
    | inr (fd, e) ↦ elim (Bool-cases s.is_connected) [
      | inl f ↦ rw (e, f) refl
      | inr f ↦ rw (e, f) refl
    ]
  ]

-- A socket that was just made holds nothing.
pub create_tcp_lem :
    (A : Type 0) (n family : ℕ)
    → IsSound (create_tcp {A = A} family) × (held n (create_tcp {A = A} family) ≡ 0)
unfolding create_tcp socket_new IsSound held
create_tcp_lem A n family = (refl, refl)

-- ===== src/Socket/History.antt =====
-- Whatever is done to a socket of libcocao/socket.cc: its connection and its descriptors.
use libcocao.Base.{
  ◌≡◌, ℕ, refl, subst, inl, inr, Bool, some, List, [], ◌∷◌, ◌++◌, ◌==◌, Bool-cases, Option-cases,
  arith,
}
use mathlib.Core.List.{append-nil}
use libcocao.Socket.{
  Socket, Answers, SysCall, by_bind, unix, close, ensure_sock, create_tcp, socket_new, connect,
  probe_unix, probed, bind_on, bind, reconnect, get_local_address, listen, transfer,
}
use libcocao.Socket.Calls.{opens, closes, opens-append, closes-append}
use libcocao.Socket.State.{
  held, IsSound, Effect, then_also, no_calls, bound, close_effect, close_held, ensure_effect,
  local_effect, for_same, connect_effect,
}

module _ {A : Type 0} (n : ℕ) (family_of : A → ℕ) (is_unix : A → Bool) where
  -- The other socket of bind gives back its descriptor.
  probe_balanced :
      (o : Answers A) (addr : A)
      → opens n (probe_unix family_of is_unix o addr).1
        ≡ closes n (probe_unix family_of is_unix o addr).1
  unfolding probe_unix create_tcp socket_new held IsSound
  probe_balanced o addr =
      let fresh : Socket A = create_tcp unix in
      let first = connect_effect n family_of is_unix o addr fresh refl in
      let other = (connect family_of is_unix o addr fresh).0 in
      let second = close_effect n other first.sound in
      let both = then_also n fresh other (close other).0 _ _ first second in
      omega (arith, both.balanced, close_held n other)

  -- Calls that give back what they open.
  aside :
      (s r : Socket A) (a b : List SysCall)
      → opens n a ≡ closes n a
      → Effect n s r b
      → Effect n s r (a ++ b)
  aside s r a b h e = record {
    sound = e.sound;
    balanced = omega (arith, e.balanced, h, opens-append n a b, closes-append n a b);
  }

  probed_balanced :
      (o : Answers A) (addr : A)
      → opens n (probed family_of is_unix o addr).1 ≡ closes n (probed family_of is_unix o addr).1
  unfolding probed opens closes
  probed_balanced o addr = elim (Bool-cases (is_unix addr)) [
    | inl e ↦ rw (e, probed) (probe_balanced o addr)
    | inr e ↦ rw (e, probed) refl
  ]

  bind_on_effect :
      (o : Answers A) (found : Bool) (tried : List SysCall) (addr : A) (fd : ℕ) (s : Socket A)
      → opens n tried ≡ closes n tried
      → IsSound s
      → Effect n s
          (bind_on family_of is_unix o found tried addr fd s).0
          (bind_on family_of is_unix o found tried addr fd s).2
  unfolding bind_on
  bind_on_effect o found tried addr fd s even h = elim (Bool-cases (family_of addr == s.family)) [
    | inr f ↦ rw f (no_calls n s h)
    | inl f ↦ elim (Bool-cases found) [
      | inl g ↦
          rw (f, g)
            (subst (λ c. Effect n s s c) (append-nil tried)
              (aside s s tried [] even (no_calls n s h)))
      | inr g ↦ elim (Bool-cases o.binds) [
        | inl k ↦
            let named = get_local_address o s in
            rw (f, g, k)
              (aside s named.0 tried (by_bind fd ∷ named.1) even (
                then_also n s s named.0 (by_bind fd ∷ []) named.1 (bound n s fd h)
                  (local_effect n o s h)))
        | inr k ↦ rw (f, g, k) (aside s s tried (by_bind fd ∷ []) even (bound n s fd h))
      ]
    ]
  ]

  pub bind_effect :
      (o probe : Answers A) (addr : A) (s : Socket A)
      → IsSound s
      → Effect n s
          (bind family_of is_unix o probe addr s).0
          (bind family_of is_unix o probe addr s).2
  unfolding bind IsSound
  bind_effect o probe addr s h =
      let start : Socket A = record s { local = some addr } in
      let ready = (ensure_sock o start).0 in
      let other = probed family_of is_unix probe addr in
      let made : Effect n s ready (ensure_sock o start).1 =
        for_same n start s ready _ refl (ensure_effect n o start h) in
      elim (Option-cases ready.sock) [
        | inl e ↦ rw (e, bind) made
        | inr (fd, e) ↦
            rw (e, bind)
              (then_also n s ready (bind_on family_of is_unix o other.0 other.1 addr fd ready).0 _ _
                made
                (bind_on_effect o other.0 other.1 addr fd ready (probed_balanced probe addr)
                  made.sound))
      ]

-- What is done to a socket.
pub data Operation (A : Type 0) : Type 0 where
  to_bind : Answers A → Answers A → A → Operation A
  to_connect : Answers A → A → Operation A
  to_reconnect : Answers A → Operation A
  to_listen : Answers A → Operation A
  to_close : Operation A
  to_transfer : Answers A → Operation A

module _ {A : Type 0} (family_of : A → ℕ) (is_unix : A → Bool) where
  pub operate : Operation A → Socket A → Socket A × List SysCall
  unfolding bind connect reconnect listen close transfer
  operate (to_bind o probe addr) s =
      let (r, result, calls) = bind family_of is_unix o probe addr s in (r, calls)
  operate (to_connect o addr) s =
      let (r, result, calls) = connect family_of is_unix o addr s in (r, calls)
  operate (to_reconnect o) s =
      let (r, result, calls) = reconnect family_of is_unix o s in (r, calls)
  operate (to_listen o) s = (s, (listen o s).1)
  operate to_close s = let (r, result, calls) = close s in (r, calls)
  operate (to_transfer o) s = (s, (transfer o s).1)

  pub operate_all : List (Operation A) → Socket A → Socket A × List SysCall
  unfolding operate
  operate_all [] s = (s, [])
  operate_all (x ∷ xs) s =
      let (m, calls) = operate x s in let (r, more) = operate_all xs m in (r, calls ++ more)

-- ===== src/TcpServer/Binding.antt =====
-- What TcpServer::bind, libcocao/tcp_server.cc, leaves of the sockets that it binds, and what start then schedules.
use libcocao.Base.{
  ◌≡◌, ℕ, refl, sym, ap, subst, ◌∙◌, inl, inr, Bool, List, [], ◌∷◌, ◌++◌, map, is_empty, Bool-cases,
  All, arith,
}
use mathlib.Core.List.{append-nil}
use libcocao.Socket.{Socket, SysCall, create_tcp, bind, listen, close}
use libcocao.Socket.Calls.{opens, closes, opens-append, closes-append}
use libcocao.Socket.State.{then_also, close_effect, close_held, create_tcp_lem, listen_effect}
use libcocao.Socket.History.{bind_effect}
use libcocao.TcpServer.{
  Task, start_accept, close_all, TcpServer, Attempt, server_new, start, stop, close_each,
  run_close_all, set_recv_timeout, bind_one, bind_each, bind_addresses,
}

module _ {A : Type 0} (family_of : A → ℕ) (is_unix : A → Bool) where
  -- The descriptor of a turn is closed again.
  bind_one_balanced :
      (d : ℕ) (t : Attempt A)
      → opens d (bind_one family_of is_unix t).1 ≡ closes d (bind_one family_of is_unix t).1
  unfolding bind_one
  bind_one_balanced d t =
      let fresh : Socket A = create_tcp (family_of t.addr) in
      let result = bind family_of is_unix t.to_bind t.to_probe t.addr fresh in
      let first =
        bind_effect d family_of is_unix t.to_bind t.to_probe t.addr fresh
          (create_tcp_lem A d (family_of t.addr)).0 in
      let second = listen_effect d t.to_listen result.0 first.sound in
      let empty = (create_tcp_lem A d (family_of t.addr)).1 in
      let last = close_effect d result.0 first.sound in
      let failing =
        then_also d fresh result.0 (close result.0).0 result.2 (close result.0).2 first last in
      let asked =
        then_also d fresh result.0 result.0 result.2 (listen t.to_listen result.0).1 first second in
      let whole = then_also d fresh result.0 (close result.0).0 _ (close result.0).2 asked last in
      elim (Bool-cases result.1) [
        | inr e ↦ rw (e, bind_one) (omega (arith, failing.balanced, close_held d result.0, empty))
        | inl e ↦ elim (Bool-cases (listen t.to_listen result.0).0) [
          | inr f ↦
              rw (e, f, bind_one) (omega (arith, whole.balanced, close_held d result.0, empty))
          | inl f ↦
              rw (e, f, bind_one) (omega (arith, whole.balanced, close_held d result.0, empty))
        ]
      ]

  bind_each_balanced :
      (d : ℕ) (ts : List (Attempt A))
      → opens d (bind_each family_of is_unix ts).1 ≡ closes d (bind_each family_of is_unix ts).1
  unfolding bind_each opens closes
  bind_each_balanced d [] = refl
  bind_each_balanced d (t ∷ ts) =
      let one = (bind_one family_of is_unix t).1 in
      let more = (bind_each family_of is_unix ts).1 in
      omega (
        arith,
        bind_one_balanced d t,
        bind_each_balanced d ts,
        opens-append d one more,
        closes-append d one more,
      )

-- What is done to a server; `to_close` is the run of the function that stop schedules.
pub data Step (A : Type 0) : Type 0 where
  to_bind : List (Attempt A) → List A → Step A
  to_start : Step A
  to_stop : Step A
  to_close : Step A
  to_timeout : ℕ → Step A

module _ {A : Type 0} (family_of : A → ℕ) (is_unix : A → Bool) where
  pub step : Step A → TcpServer A → TcpServer A × List SysCall
  unfolding start stop run_close_all set_recv_timeout
  step (to_bind ts fails) s =
      let (r, ok, left, calls) = bind_addresses family_of is_unix ts fails s in (r, calls)
  step to_start s = ((start s).0, [])
  step to_stop s = (stop s, [])
  step to_close s = run_close_all s
  step (to_timeout v) s = (set_recv_timeout v s, [])

  pub steps : List (Step A) → TcpServer A → TcpServer A × List SysCall
  unfolding step
  steps [] s = (s, [])
  steps (x ∷ xs) s = let (m, calls) = step x s in let (r, more) = steps xs m in (r, calls ++ more)

  -- No socket, and no startAccept among the tasks.
  pub IsDeaf : TcpServer A → Type 0
  IsDeaf s = (s.socks ≡ []) × All (λ t. t ≡ close_all) s.scheduled

  All-last :
      (ts : List (Task A))
      → All (λ t. t ≡ close_all) ts
      → All (λ t. t ≡ close_all) (ts ++ close_all ∷ [])
  All-last [] h = (refl, tt)
  All-last (t ∷ ts) (e, h) = (e, All-last ts h)

  step_lem :
      (d : ℕ) (x : Step A) (s : TcpServer A)
      → IsDeaf s
      → IsDeaf (step x s).0 × (opens d (step x s).1 ≡ closes d (step x s).1)
  unfolding step IsDeaf bind_addresses start stop run_close_all set_recv_timeout close_each opens
      closes
  step_lem d (to_bind ts fails) s (n, h) =
      elim (Bool-cases (is_empty (fails ++ (bind_each family_of is_unix ts).0))) [
        | inl e ↦ rw (e, bind_addresses) ((n, h), bind_each_balanced family_of is_unix d ts)
        | inr e ↦ rw (e, bind_addresses) ((refl, h), bind_each_balanced family_of is_unix d ts)
      ]
  step_lem d to_start s (n, h) = elim (Bool-cases s.is_stop) [
    | inr e ↦ rw (e, start) ((n, h), refl)
    | inl e ↦
        rw (e, start)
          (
            (
              n,
              subst (All (λ t. t ≡ close_all))
                  (sym (ap (λ l. s.scheduled ++ map start_accept l) n ∙ append-nil s.scheduled)) h,
            ),
            refl,
          )
  ]
  step_lem d to_stop s (n, h) = ((n, All-last s.scheduled h), refl)
  step_lem d to_close s (n, h) = ((refl, h), rw n refl)
  step_lem d (to_timeout v) s (n, h) = ((n, h), refl)

  steps_lem :
      (d : ℕ) (xs : List (Step A)) (s : TcpServer A)
      → IsDeaf s
      → IsDeaf (steps xs s).0 × (opens d (steps xs s).1 ≡ closes d (steps xs s).1)
  unfolding steps opens closes
  steps_lem d [] s h = (h, refl)
  steps_lem d (x ∷ xs) s h =
      let (m, even) = step_lem d x s h in
      let (last, rest) = steps_lem d xs (step x s).0 m in
      (
        last,
        omega (
          arith,
          even,
          rest,
          opens-append d (step x s).1 (steps xs (step x s).0).1,
          closes-append d (step x s).1 (steps xs (step x s).0).1,
        ),
      )

  -- A server accepts nothing: from its constructor on, whatever is bound, started and stopped and whatever the system answers, no
  -- startAccept is scheduled, the server has no socket, and each descriptor d was closed as often as it was opened.
  pub server_accepts_nothing :
      (xs : List (Step A)) (d : ℕ)
      → let (s, calls) = steps xs server_new in
        (s.socks ≡ []) × All (λ t. t ≡ close_all) s.scheduled × (opens d calls ≡ closes d calls)
  unfolding IsDeaf server_new
  server_accepts_nothing xs d =
      let (h, even) = steps_lem d xs server_new (refl, tt) in (h.0, h.1, even)

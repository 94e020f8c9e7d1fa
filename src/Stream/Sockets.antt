-- ===== src/Stream/Sockets.antt =====
-- SocketStream of libcocao/streams/socket_stream.h and libcocao/streams/socket_stream.cc: the forms of read and
-- write with a buffer, close and the destructor. A null socket is `none`.
use libcocao.Base.{
  ◌≡◌, ℕ, ◌+◌, refl, ◌∙◌, ◌⊎◌, inl, inr, Bool, true, false, ◌&&◌, not, Option, none, some, List, [],
  ◌∷◌, if◌then◌else◌, is_some, Bool-cases, arith,
}
use libcocao.Hook.Calls.{to_int}
use libcocao.FdManager.{ℤ, negsuc}
use libcocao.Socket.{Socket, Answers, SysCall, by_data, transfer, close}
use libcocao.Socket.Calls.{opens, closes}
use libcocao.Socket.State.{held, IsSound, transfer-cases, close_effect, close_held}

-- SocketStream.
pub record SocketStream (A : Type 0) : Type 0 where
  pub socket : Option (Socket A)
  pub owner : Bool

module _ {A : Type 0} where
  pub stream_connected : SocketStream A → Bool
  stream_connected t = elim t.socket [ none ↦ false | some s ↦ s.is_connected ]

  -- SocketStream::read and SocketStream::write with a buffer; `o` says how many bytes were moved.
  pub stream_transfer : Answers A → SocketStream A → ℤ × List SysCall
  unfolding stream_connected
  stream_transfer o t =
      if not (stream_connected t)
      then (negsuc 0, [])
      else elim t.socket [ none ↦ (negsuc 0, []) | some s ↦ transfer o s ]

  -- SocketStream::close.
  pub stream_close : SocketStream A → SocketStream A × List SysCall
  stream_close t = elim t.socket [
    | none ↦ (t, [])
    | some s ↦ let (closed, result, calls) = close s in (record t { socket = some closed }, calls)
  ]

  -- SocketStream::~SocketStream.
  pub stream_destroy : SocketStream A → SocketStream A × List SysCall
  unfolding stream_close
  stream_destroy t = if t.owner && is_some t.socket then stream_close t else (t, [])

  -- A stream on a sound socket returns -1 without a call, or moves data on the socket's descriptor.
  pub stream_transfer-cases :
      (o : Answers A) (t : SocketStream A) (s : Socket A)
      → t.socket ≡ some s
      → IsSound s
      → (stream_transfer o t ≡ (negsuc 0, []))
        ⊎ ((fd : ℕ) × (s.sock ≡ some fd)
            × (stream_transfer o t ≡ (to_int o.moved, by_data (some fd) ∷ [])))
  unfolding stream_transfer stream_connected
  stream_transfer-cases o t s e h = elim (Bool-cases s.is_connected) [
    | inr f ↦ inl (rw (e, f, stream_transfer) refl)
    | inl f ↦
        let same : stream_transfer o t ≡ transfer o s = rw (e, f, stream_transfer) refl in
        elim (transfer-cases o s h) [
          | inl g ↦ inl (same ∙ g)
          | inr (fd, k, g) ↦ inr (fd, k, same ∙ g)
        ]
  ]

  -- The destructor of a stream that owns its sound socket closes the descriptor that the socket holds.
  pub stream_destroy_lem :
      (n : ℕ) (t : SocketStream A) (s : Socket A)
      → t.socket ≡ some s
      → t.owner ≡ true
      → IsSound s
      → closes n (stream_destroy t).1 ≡ opens n (stream_destroy t).1 + held n s
  unfolding stream_destroy stream_close
  stream_destroy_lem n t s e w h =
      rw (e, w, stream_destroy, stream_close)
        (omega (arith, (close_effect n s h).balanced, close_held n s))

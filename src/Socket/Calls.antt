-- ===== src/Socket/Calls.antt =====
-- The descriptors that the calls of libcocao/socket.cc open and close.
use libcocao.Base.{◌≡◌, ℕ, ◌==◌, if◌then◌else◌, ◌+◌, none, some, List, [], ◌∷◌, ◌++◌, arith}
use libcocao.Socket.{
  SysCall, by_socket, by_option, by_connect, by_bind, by_listen, by_accept, by_name, by_data,
  by_close,
}

-- Whether a descriptor is the one in question, as a number.
unfoldable pub one_if_same : ℕ → ℕ → ℕ
one_if_same n fd = if fd == n then 1 else 0

-- How often calls open the descriptor n, and how often they close it.
module _ (n : ℕ) where
  unfoldable pub opens : List SysCall → ℕ
  opens [] = 0
  opens (by_socket (some fd) ∷ calls) = one_if_same n fd + opens calls
  opens (by_socket none ∷ calls) = opens calls
  opens (by_option fd ∷ calls) = opens calls
  opens (by_connect fd ∷ calls) = opens calls
  opens (by_bind fd ∷ calls) = opens calls
  opens (by_listen fd ∷ calls) = opens calls
  opens (by_accept fd ∷ calls) = opens calls
  opens (by_name fd ∷ calls) = opens calls
  opens (by_data fd ∷ calls) = opens calls
  opens (by_close fd ∷ calls) = opens calls

  unfoldable pub closes : List SysCall → ℕ
  closes [] = 0
  closes (by_close fd ∷ calls) = one_if_same n fd + closes calls
  closes (by_socket fd ∷ calls) = closes calls
  closes (by_option fd ∷ calls) = closes calls
  closes (by_connect fd ∷ calls) = closes calls
  closes (by_bind fd ∷ calls) = closes calls
  closes (by_listen fd ∷ calls) = closes calls
  closes (by_accept fd ∷ calls) = closes calls
  closes (by_name fd ∷ calls) = closes calls
  closes (by_data fd ∷ calls) = closes calls

  pub opens-append : (a b : List SysCall) → opens (a ++ b) ≡ opens a + opens b
  unfolding opens
  opens-append [] b = omega arith
  opens-append (by_socket (some fd) ∷ a) b = omega (arith, opens-append a b)
  opens-append (by_socket none ∷ a) b = opens-append a b
  opens-append (by_option fd ∷ a) b = opens-append a b
  opens-append (by_connect fd ∷ a) b = opens-append a b
  opens-append (by_bind fd ∷ a) b = opens-append a b
  opens-append (by_listen fd ∷ a) b = opens-append a b
  opens-append (by_accept fd ∷ a) b = opens-append a b
  opens-append (by_name fd ∷ a) b = opens-append a b
  opens-append (by_data fd ∷ a) b = opens-append a b
  opens-append (by_close fd ∷ a) b = opens-append a b

  pub closes-append : (a b : List SysCall) → closes (a ++ b) ≡ closes a + closes b
  unfolding closes
  closes-append [] b = omega arith
  closes-append (by_close fd ∷ a) b = omega (arith, closes-append a b)
  closes-append (by_socket fd ∷ a) b = closes-append a b
  closes-append (by_option fd ∷ a) b = closes-append a b
  closes-append (by_connect fd ∷ a) b = closes-append a b
  closes-append (by_bind fd ∷ a) b = closes-append a b
  closes-append (by_listen fd ∷ a) b = closes-append a b
  closes-append (by_accept fd ∷ a) b = closes-append a b
  closes-append (by_name fd ∷ a) b = closes-append a b
  closes-append (by_data fd ∷ a) b = closes-append a b

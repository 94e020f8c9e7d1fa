-- ===== src/Address/Ipv6.antt =====
-- IPv6Address of libcocao/address.cc, its address the sixteen bytes in memory. inet_pton is a parameter.
pub mod Bytes
mod Fill
use Prim.Native.Nat.{bit_and, bit_or}
use libcocao.Base.{
  ℕ, zero, suc, ◌+◌, ◌-◌, ◌/◌, ◌%◌, Bool, true, false, Option, none, some, List, [], ◌∷◌, ◌++◌, ltb,
  if◌then◌else◌, replicate, set, get_elem?, not, ◌&&◌, ◌||◌, ◌==◌, ◌*◌,
}
use libcocao.ByteArray.Fixed.{le_bytes}
use libcocao.Address.{byteswap_on_little_endian, Made, made, null, undefined, create_mask}

-- sockaddr_in6.
pub record SockaddrIn6 : Type 0 where
  pub sin6_family : ℕ
  pub sin6_port : ℕ
  pub sin6_flowinfo : ℕ
  pub s6_addr : List ℕ
  pub sin6_scope_id : ℕ

abbrev af_inet6 : ℕ
af_inet6 = 10

-- IPv6Address().
pub ipv6_new : SockaddrIn6
ipv6_new = record {
  sin6_family = af_inet6;
  sin6_port = 0;
  sin6_flowinfo = 0;
  s6_addr = replicate 16 0;
  sin6_scope_id = 0;
}

-- IPv6Address(const uint8_t[16], uint16_t).
pub ipv6_of_bytes : List ℕ → ℕ → SockaddrIn6
unfolding ipv6_new
ipv6_of_bytes address port = record ipv6_new {
  sin6_port = byteswap_on_little_endian port;
  s6_addr = address;
}

-- IPv6Address::Create. inet_pton gives the sixteen bytes that it writes, or none.
pub create : (List ℕ → Option (List ℕ)) → List ℕ → ℕ → Option SockaddrIn6
unfolding ipv6_new
create inet_pton address port =
    let rt : SockaddrIn6 = record ipv6_new { sin6_port = byteswap_on_little_endian port } in
    elim (inet_pton address) [ none ↦ none | some bytes ↦ some (record rt { s6_addr = bytes }) ]

-- The bytes at getAddr(), as many as getAddrLen() says.
pub get_addr : SockaddrIn6 → List ℕ
unfolding le_bytes
get_addr a =
    le_bytes 2 a.sin6_family
    ++ (le_bytes 2 a.sin6_port
        ++ (le_bytes 4 a.sin6_flowinfo ++ (a.s6_addr ++ le_bytes 4 a.sin6_scope_id)))

-- The loops over the bytes: n rounds from the byte i.
pub fill : ℕ → ℕ → ℕ → List ℕ → List ℕ
fill zero i v bytes = bytes
fill (suc n) i v bytes = fill n (suc i) v (set bytes i v)

-- `bytes[prefix_len / 8] = change mask byte`: `undefined` is an index outside.
pub change_byte : (ℕ → ℕ → ℕ) → ℕ → List ℕ → Made (List ℕ)
change_byte change prefix_len bytes = elim (get_elem? bytes (prefix_len / 8)) [
  | none ↦ undefined
  | some byte ↦ elim (create_mask 8 (prefix_len % 8)) [
    | none ↦ undefined
    | some mask ↦ made (set bytes (prefix_len / 8) (change byte mask))
  ]
]

pub broadcast_address : SockaddrIn6 → ℕ → Made SockaddrIn6
broadcast_address a prefix_len = elim (change_byte bit_or prefix_len a.s6_addr) [
  | made bytes ↦
      let from : ℕ = prefix_len / 8 + 1 in
      made (record a { s6_addr = fill (16 - from) from 0xff bytes })
  | null ↦ null
  | undefined ↦ undefined
]

pub network_address : SockaddrIn6 → ℕ → Made SockaddrIn6
network_address a prefix_len = elim (change_byte bit_and prefix_len a.s6_addr) [
  | made bytes ↦
      let from : ℕ = prefix_len / 8 + 1 in
      made (record a { s6_addr = fill (16 - from) from 0x00 bytes })
  | null ↦ null
  | undefined ↦ undefined
]

-- `~` is taken on an int, and the assignment keeps its lower eight bits.
pub subnet_mask : ℕ → Made SockaddrIn6
subnet_mask prefix_len = elim (change_byte (λ byte mask. 0xff - mask) prefix_len (replicate 16 0)) [
  | made bytes ↦ made (record ipv6_new { s6_addr = fill (prefix_len / 8) 0 0xff bytes })
  | null ↦ null
  | undefined ↦ undefined
]

pub get_port : SockaddrIn6 → ℕ
get_port a = byteswap_on_little_endian a.sin6_port

pub set_port : ℕ → SockaddrIn6 → SockaddrIn6
set_port v a = record a { sin6_port = byteswap_on_little_endian v }

-- The eight numbers of sixteen bits that the host reads in the address.
unfoldable pub groups : List ℕ → List ℕ
groups (low ∷ high ∷ rest) = (low + 256 * high) ∷ groups rest
groups (low ∷ []) = []
groups [] = []

-- The loop of IPv6Address::insert: whether it is past the first group, the group before, used_zeros,
-- and the groups that are left. It gives the text with used_zeros at the end.
unfoldable pub insert_loop : (ℕ → List ℕ) → Bool → ℕ → Bool → List ℕ → List ℕ × Bool
insert_loop hex past before used_zeros [] = ([], used_zeros)
insert_loop hex past before used_zeros (g ∷ rest) =
    let skip : Bool = g == 0 && not used_zeros in
    let starts : Bool = past && before == 0 && not used_zeros in
    let next = insert_loop hex true g (if skip then used_zeros else used_zeros || starts) rest in
    if skip then next else (
      (if starts then b':' ∷ [] else [])
          ++ ((if past then b':' ∷ [] else []) ++ (hex (byteswap_on_little_endian g) ++ next.0)),
      next.1,
    )

-- `addr[7] == 0`.
unfoldable pub last_is_zero : List ℕ → Bool
last_is_zero [] = false
last_is_zero (g ∷ []) = g == 0
last_is_zero (g ∷ (h ∷ rest)) = last_is_zero (h ∷ rest)

-- IPv6Address::insert. The texts of a number in hexadecimal and in decimal are parameters.
unfoldable pub insert : (ℕ → List ℕ) → (ℕ → List ℕ) → SockaddrIn6 → List ℕ
unfolding groups insert_loop last_is_zero
insert hex text a =
    let addr = groups a.s6_addr in
    let printed = insert_loop hex false 0 false addr in
    b'['
    ∷ (printed.0
        ++ ((if not printed.1 && last_is_zero addr then b':' ∷ b':' ∷ [] else [])
            ++ b']' ∷ b':' ∷ text (byteswap_on_little_endian a.sin6_port)))

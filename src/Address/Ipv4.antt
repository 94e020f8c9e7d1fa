-- ===== src/Address/Ipv4.antt =====
-- IPv4Address of libcocao/address.cc. inet_pton and the printing of a number are parameters.
pub mod Networks
pub mod Text
use Prim.Native.Nat.{bit_and, bit_or}
use libcocao.Base.{
  ℕ, ◌+◌, ◌-◌, ◌/◌, ◌%◌, ◌^◌, Option, none, some, List, [], ◌∷◌, ◌++◌, ltb, if◌then◌else◌,
  replicate,
}
use libcocao.ByteArray.Fixed.{le_bytes, of_le}
use libcocao.Address.{byteswap_on_little_endian, Made, made, null, undefined, create_mask}

-- sockaddr_in, its fields the numbers that the host reads in memory.
pub record SockaddrIn : Type 0 where
  pub sin_family : ℕ
  pub sin_port : ℕ
  pub s_addr : ℕ
  pub sin_zero : List ℕ

abbrev af_inet : ℕ
af_inet = 2

-- IPv4Address(uint32_t, uint16_t).
pub ipv4_new : ℕ → ℕ → SockaddrIn
ipv4_new address port = record {
  sin_family = af_inet;
  sin_port = byteswap_on_little_endian port;
  s_addr = byteswap_on_little_endian address;
  sin_zero = replicate 8 0;
}

-- The bytes at getAddr(), as many as getAddrLen() says.
pub get_addr : SockaddrIn → List ℕ
unfolding le_bytes
get_addr a =
    le_bytes 2 a.sin_family ++ (le_bytes 2 a.sin_port ++ (le_bytes 4 a.s_addr ++ a.sin_zero))

-- IPv4Address::Create. inet_pton gives the four bytes that it writes, or none.
pub create : (List ℕ → Option (List ℕ)) → List ℕ → ℕ → Option SockaddrIn
unfolding ipv4_new of_le
create inet_pton address port =
    let rt : SockaddrIn = record (ipv4_new 0 0) { sin_port = byteswap_on_little_endian port } in
    elim (inet_pton address) [
      | none ↦ none
      | some bytes ↦ some (record rt { s_addr = of_le bytes })
    ]

-- IPv4Address::insert. The text of a number is a parameter.
pub insert : (ℕ → List ℕ) → SockaddrIn → List ℕ
insert text a =
    let addr : ℕ = byteswap_on_little_endian a.s_addr in
    text (addr / 2 ^ 24 % 256)
    ++ b'.'
      ∷ (text (addr / 2 ^ 16 % 256)
          ++ b'.'
            ∷ (text (addr / 2 ^ 8 % 256)
                ++ b'.'
                  ∷ (text (addr % 256) ++ b':' ∷ text (byteswap_on_little_endian a.sin_port))))

pub broadcast_address : SockaddrIn → ℕ → Made SockaddrIn
broadcast_address a prefix_len =
    if ltb 32 prefix_len then null else elim (create_mask 32 prefix_len) [
      | none ↦ undefined
      | some mask ↦ made (record a { s_addr = bit_or a.s_addr (byteswap_on_little_endian mask) })
    ]

pub network_address : SockaddrIn → ℕ → Made SockaddrIn
network_address a prefix_len =
    if ltb 32 prefix_len then null else elim (create_mask 32 prefix_len) [
      | none ↦ undefined
      | some mask ↦
          made
            (record a { s_addr = bit_and a.s_addr (byteswap_on_little_endian (2 ^ 32 - 1 - mask)) })
    ]

pub subnet_mask : ℕ → Made SockaddrIn
subnet_mask prefix_len = elim (create_mask 32 prefix_len) [
  | none ↦ undefined
  | some mask ↦ made (record {
    sin_family = af_inet;
    sin_port = 0;
    s_addr = 2 ^ 32 - 1 - byteswap_on_little_endian mask;
    sin_zero = replicate 8 0;
  })
]

pub get_port : SockaddrIn → ℕ
get_port a = byteswap_on_little_endian a.sin_port

pub set_port : ℕ → SockaddrIn → SockaddrIn
set_port v a = record a { sin_port = byteswap_on_little_endian v }

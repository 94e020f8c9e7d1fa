-- ===== src/Address/Lookup.antt =====
-- Address::Create, the lookups and the interface addresses of libcocao/address.cc. getaddrinfo and
-- getifaddrs are parameters; a sockaddr is its bytes in memory.
pub mod Split
use libcocao.Base.{
  ℕ, zero, suc, ◌+◌, ◌-◌, ◌%◌, ◌^◌, Bool, true, false, not, ◌&&◌, ◌||◌, Option, none, some, List,
  [], ◌∷◌, ◌++◌, map, ◌==◌, if◌then◌else◌, is_empty, take, drop, ◌>>=◌,
}
use libcocao.ByteArray.Fixed.{of_le}
use libcocao.Address.{count_bytes}
use libcocao.Address.Ipv4
use libcocao.Address.Ipv4.{SockaddrIn}
use libcocao.Address.Ipv6
use libcocao.Address.Ipv6.{SockaddrIn6}
use libcocao.Log.{text_eq}

-- The classes of addresses that Create makes.
pub data Address : Type 0 where
  ipv4 : SockaddrIn → Address
  ipv6 : SockaddrIn6 → Address
  unknow : List ℕ → Address

-- A field of n bytes at an offset.
field_at : ℕ → ℕ → List ℕ → List ℕ
field_at n offset memory = take n (drop offset memory)

sa_family : List ℕ → ℕ
unfolding of_le field_at
sa_family memory = of_le (field_at 2 0 memory)

sockaddr_in : List ℕ → SockaddrIn
unfolding of_le field_at
sockaddr_in memory = record {
  sin_family = of_le (field_at 2 0 memory);
  sin_port = of_le (field_at 2 2 memory);
  s_addr = of_le (field_at 4 4 memory);
  sin_zero = field_at 8 8 memory;
}

sockaddr_in6 : List ℕ → SockaddrIn6
unfolding of_le field_at
sockaddr_in6 memory = record {
  sin6_family = of_le (field_at 2 0 memory);
  sin6_port = of_le (field_at 2 2 memory);
  sin6_flowinfo = of_le (field_at 4 4 memory);
  s6_addr = field_at 16 8 memory;
  sin6_scope_id = of_le (field_at 4 24 memory);
}

-- Address::Create of a pointer that is not null. UnknowAddress keeps a sockaddr, which has 16 bytes.
pub create : List ℕ → Address
unfolding sa_family sockaddr_in sockaddr_in6 field_at
create memory =
    if sa_family memory == 2
    then ipv4 (sockaddr_in memory)
    else if sa_family memory == 10
    then ipv6 (sockaddr_in6 memory)
    else unknow (field_at 16 0 memory)

-- The hints of a lookup: flags, family, type and protocol.
pub record Hints : Type 0 where
  pub ai_flags : ℕ
  pub ai_family : ℕ
  pub ai_socktype : ℕ
  pub ai_protocol : ℕ

-- getaddrinfo: `none` is an error, and else there is a first result.
abbrev pub Resolver : Type 0
Resolver = List ℕ → Option (List ℕ) → Hints → Option (List ℕ × List (List ℕ))

-- memchr of a colon: what stands before it and after it.
pub find_colon : List ℕ → Option (List ℕ × List ℕ)
find_colon [] = none
find_colon (c ∷ s) =
    let rest = find_colon s in if c == b':' then some ([], s) else do r ← rest; some (c ∷ r.0, r.1)

-- The node and the service of a host.
pub split_host : List ℕ → List ℕ × Option (List ℕ)
unfolding find_colon
split_host host = elim (find_colon host) [
  | none ↦ (host, none)
  | some (node, service) ↦ elim (find_colon service) [
    | none ↦ (if is_empty node then host else node, some service)
    | some again ↦ (host, some (b':' ∷ service))
  ]
]

-- Lookup, with the vector that it appends to.
pub lookup : Resolver → List Address → List ℕ → ℕ → ℕ → ℕ → List Address × Bool
unfolding create
lookup getaddrinfo result host family socktype protocol =
    let hints : Hints = record {
      ai_flags = 0;
      ai_family = family;
      ai_socktype = socktype;
      ai_protocol = protocol;
    } in
    let split = split_host host in
    elim (getaddrinfo split.0 split.1 hints) [
      | none ↦ (result, false)
      | some (first, rest) ↦
          let all : List Address = result ++ map create (first ∷ rest) in (all, not (is_empty all))
    ]

-- `result[0]` of a vector that is not empty.
head : List Address → Option Address
head [] = none
head (a ∷ rest) = some a

pub lookup_any : Resolver → List ℕ → ℕ → ℕ → ℕ → Option Address
unfolding lookup head
lookup_any getaddrinfo host family socktype protocol =
    let r = lookup getaddrinfo [] host family socktype protocol in if r.1 then head r.0 else none

-- The first IPAddress: dynamic_pointer_cast refuses the others.
first_ip : List Address → Option Address
first_ip [] = none
first_ip (ipv4 a ∷ rest) = some (ipv4 a)
first_ip (ipv6 a ∷ rest) = some (ipv6 a)
first_ip (unknow a ∷ rest) = first_ip rest

pub lookup_any_ip_address : Resolver → List ℕ → ℕ → ℕ → ℕ → Option Address
unfolding lookup first_ip
lookup_any_ip_address getaddrinfo host family socktype protocol =
    let r = lookup getaddrinfo [] host family socktype protocol in
    if r.1 then first_ip r.0 else none

-- setPort of an IPAddress.
pub set_port : ℕ → Address → Address
set_port port (ipv4 a) = ipv4 (Ipv4.set_port port a)
set_port port (ipv6 a) = ipv6 (Ipv6.set_port port a)
set_port port (unknow a) = unknow a

-- IPAddress::Create, with the flag AI_NUMERICHOST.
pub ip_create : Resolver → List ℕ → ℕ → Option Address
unfolding create first_ip set_port
ip_create getaddrinfo address port =
    let hints : Hints = record { ai_flags = 4; ai_family = 0; ai_socktype = 0; ai_protocol = 0 } in
    do
      results ← getaddrinfo address none hints
      result ← first_ip (create results.0 ∷ [])
      some (set_port port result)

-- An entry of getifaddrs.
pub record IfAddr : Type 0 where
  pub ifa_name : List ℕ
  pub ifa_addr : Option (List ℕ)
  pub ifa_netmask : Option (List ℕ)

abbrev pub Interfaces : Type 0
Interfaces = List (List ℕ × (Address × ℕ))

-- The prefix of sixteen bytes of a mask.
count_all : List ℕ → ℕ → Option ℕ
unfolding count_bytes
count_all [] prefix_len = some prefix_len
count_all (b ∷ mask) prefix_len = do n ← count_bytes 9 b 0; count_all mask (prefix_len + n)

-- An entry's address with its prefix: a null pointer that is read is the outer `none`, and a family
-- that makes no address is the inner.
entry : List ℕ → Option (List ℕ) → Option (Option (Address × ℕ))
unfolding create count_all of_le field_at sa_family
entry addr netmask =
    if sa_family addr == 2
    then (do
      mask ← netmask
      n ← count_bytes 33 (of_le (field_at 4 4 mask)) 0
      some (some (create addr, n)))
    else if sa_family addr == 10
    then (do mask ← netmask; n ← count_all (field_at 16 8 mask) 0; some (some (create addr, n)))
    else some none

-- The loop over the entries. The multimap is the list of what is inserted, in that order.
pub interfaces : ℕ → List IfAddr → Interfaces → Option Interfaces
unfolding entry sa_family
interfaces family [] result = some result
interfaces family (next ∷ rest) result = do
  addr ← next.ifa_addr
  made ←
      if not (family == 0) && not (family == sa_family addr)
      then some none
      else entry addr next.ifa_netmask
  interfaces family rest (elim made [ none ↦ result | some a ↦ result ++ (next.ifa_name, a) ∷ [] ])

-- GetInterfaceAddresses: `none` is a fault.
pub get_interface_addresses : Option (List IfAddr) → Interfaces → ℕ → Option (Interfaces × Bool)
unfolding interfaces
get_interface_addresses none result family = some (result, false)
get_interface_addresses (some entries) result family = do
  all ← interfaces family entries result
  some (all, not (is_empty all))

equal_range : List ℕ → Interfaces → List (Address × ℕ)
equal_range iface [] = []
equal_range iface ((name, a) ∷ rest) =
    if text_eq name iface then a ∷ equal_range iface rest else equal_range iface rest

-- The addresses of any interface, for an empty name or a star.
wildcard : ℕ → List (Address × ℕ)
wildcard family =
    (if family == 2 || family == 0 then (ipv4 (Ipv4.ipv4_new 0 0), 0) ∷ [] else [])
    ++ (if family == 10 || family == 0 then (ipv6 Ipv6.ipv6_new, 0) ∷ [] else [])

-- GetInterfaceAddresses of one interface, with the vector that it appends to.
pub get_interface_addresses_of :
    Option (List IfAddr) → List (Address × ℕ) → List ℕ → ℕ → Option (List (Address × ℕ) × Bool)
unfolding get_interface_addresses equal_range wildcard
get_interface_addresses_of entries result iface family =
    let start : List (Address × ℕ) =
      if is_empty iface || text_eq iface (b'*' ∷ []) then result ++ wildcard family else result in
    do
      found ← get_interface_addresses entries [] family
      let all = start ++ equal_range iface found.0
      some (if found.1 then (all, not (is_empty all)) else (start, false))

-- ===== src/Address/Ipv4/Text.antt =====
-- What IPv4Address of libcocao/address.cc prints and hands to the system, in either way of making one.
use libcocao.Base.{
  ℕ, ◌+◌, ◌*◌, ◌/◌, ◌%◌, ◌^◌, ◌<◌, ◌≡◌, refl, ap, ◌↔◌, Option, some, List, [], ◌∷◌, ◌++◌, take,
  drop, replicate, arith,
}
use libcocao.ByteArray.Fixed.{le_bytes, of_le}
use libcocao.Base.Bits.{bit_and-high_mask}
use libcocao.Address.{made, create_mask}
use libcocao.Address.Ipv4.{
  SockaddrIn, ipv4_new, get_addr, create, insert, network_address, get_port, set_port,
}

-- A number in network order: its bytes from the high one.
abbrev pub of_be : List ℕ → ℕ
of_be [] = 0
of_be (b ∷ bs) = of_be_from b bs
  where
    of_be_from : ℕ → List ℕ → ℕ
    of_be_from acc [] = acc
    of_be_from acc (c ∷ cs) = of_be_from (acc * 256 + c) cs

-- The octets of a text from the first to the last, and the port.
abbrev pub dotted : (ℕ → List ℕ) → ℕ → ℕ → ℕ → ℕ → ℕ → List ℕ
dotted text a b c d port =
    text a ++ b'.' ∷ (text b ++ b'.' ∷ (text c ++ b'.' ∷ (text d ++ b':' ∷ text port)))

-- The port that the system reads, in network order, is the one given exactly if the two bytes of the
-- port are the same, while getPort gives the one given.
port_order :
    (a : SockaddrIn) (port : ℕ)
    → port < 2 ^ 16
    → (get_port (set_port port a) ≡ port)
      × ((of_be (take 2 (drop 2 (get_addr (set_port port a)))) ≡ port) ↔ (port / 256 ≡ port % 256))
unfolding get_addr set_port get_port le_bytes
port_order a port h = (refl, ((λ e. omega arith), (λ e. omega arith)))

insert_lem :
    (text : ℕ → List ℕ) (a : SockaddrIn) (b0 b1 b2 b3 : ℕ)
    → a.s_addr / 2 ^ 24 % 256 ≡ b3
    → a.s_addr / 2 ^ 16 % 256 ≡ b2
    → a.s_addr / 2 ^ 8 % 256 ≡ b1
    → a.s_addr % 256 ≡ b0
    → insert text a ≡ dotted text b3 b2 b1 b0 a.sin_port
unfolding insert
insert_lem text a b0 b1 b2 b3 p3 p2 p1 p0 = λ i. dotted text (p3 i) (p2 i) (p1 i) (p0 i) a.sin_port

four :
    (a b c d a' b' c' d' : ℕ)
    → a ≡ a'
    → b ≡ b'
    → c ≡ c'
    → d ≡ d'
    → ◌≡◌ {A = List ℕ} (a ∷ b ∷ c ∷ d ∷ []) (a' ∷ b' ∷ c' ∷ d' ∷ [])
four a b c d a' b' c' d' p q r t = λ i. p i ∷ q i ∷ r i ∷ t i ∷ []

-- An address that Create takes from the four octets of a text prints them in reverse, and its network
-- of 24 bits has the first of them cleared, and not the last. The port that the system reads, in
-- network order, has its two bytes swapped.
pub create_reversed :
    (text : ℕ → List ℕ) (inet_pton : List ℕ → Option (List ℕ)) (address : List ℕ)
    (port b0 b1 b2 b3 : ℕ)
    → inet_pton address ≡ some (b0 ∷ b1 ∷ b2 ∷ b3 ∷ [])
    → b0 < 256
    → b1 < 256
    → b2 < 256
    → b3 < 256
    → (a n : SockaddrIn) × (create inet_pton address port ≡ some a)
      × (insert text a ≡ dotted text b3 b2 b1 b0 port)
      × (of_be (take 2 (drop 2 (get_addr a))) ≡ port % 256 * 256 + port / 256 % 256)
      × (network_address a 24 ≡ made n)
      × (insert text n ≡ dotted text b3 b2 b1 0 port)
      × (take 4 (drop 4 (get_addr n)) ≡ 0 ∷ b1 ∷ b2 ∷ b3 ∷ [])
unfolding create insert get_addr of_le le_bytes ipv4_new network_address create_mask
create_reversed text inet_pton address port b0 b1 b2 b3 e h0 h1 h2 h3 =
    let v : ℕ = of_le (b0 ∷ b1 ∷ b2 ∷ b3 ∷ []) in
    let a : SockaddrIn = record {
      sin_family = 2;
      sin_port = port;
      s_addr = v;
      sin_zero = replicate 8 0;
    } in
    let n : SockaddrIn = record a { s_addr = v / 256 * 256 } in
    (
      a,
      n,
      rw (e, create) refl,
      insert_lem text a b0 b1 b2 b3 (omega arith) (omega arith) (omega arith) (omega arith),
      refl,
      ap (λ (w : ℕ). made (record a { s_addr = w }))
          (bit_and-high_mask 32 8 v (omega arith) (omega arith)),
      insert_lem text n 0 b1 b2 b3 (omega arith) (omega arith) (omega arith) (omega arith),
      four _ _ _ _ _ _ _ _ (omega arith) (omega arith) (omega arith) (omega arith),
    )

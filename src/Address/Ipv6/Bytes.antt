-- ===== src/Address/Ipv6/Bytes.antt =====
-- The networks of an IPv6 address in libcocao/address.cc, byte by byte.
use native.Mathlib.Decide.{dec_lt}
use native.Mathlib.Nat.{pow-le-pow_right, mod-eq_of_lt}
use Prim.Native.Nat.{bit_and, bit_or}
use libcocao.Base.{
  ℕ, ◌+◌, ◌-◌, ◌*◌, ◌/◌, ◌%◌, ◌^◌, ◌≤◌, ◌<◌, ◌≡◌, refl, ◌⊎◌, inl, inr, none, some, List, ltb, ◌==◌,
  if◌then◌else◌, length, get_elem?, set, replicate, get_elem?-lt, get_elem?-replicate, arith,
}
use libcocao.Base.Bits.{pow_pos, bit_or-low_mask, bit_and-low_mask}
use libcocao.Address.{create_mask, made, undefined}
use libcocao.Address.Ipv6.{
  SockaddrIn6, ipv6_new, fill, change_byte, broadcast_address, network_address, subnet_mask,
}
use libcocao.Address.Ipv6.Fill.{get_elem?-past, tail_bytes, prefix_bytes}

create_mask_lem : (p : ℕ) → create_mask 8 (p % 8) ≡ some (2 ^ (8 - p % 8) - 1)
unfolding create_mask
create_mask_lem p =
    let fewer : 8 - p % 8 ≤ 8 = omega arith in
    let bound : 2 ^ (8 - p % 8) ≤ 2 ^ 8 = pow-le-pow_right {n = 2} (omega arith) fewer in
    let small : (2 ^ (8 - p % 8) - 1) % 2 ^ 8 ≡ 2 ^ (8 - p % 8) - 1 = mod-eq_of_lt (omega arith) in
    ground (arith, small)

change_byte_lem :
    (change : ℕ → ℕ → ℕ) (p : ℕ) (bs : List ℕ) (b : ℕ)
    → get_elem? bs (p / 8) ≡ some b
    → change_byte change p bs ≡ made (set bs (p / 8) (change b (2 ^ (8 - p % 8) - 1)))
unfolding change_byte
change_byte_lem change p bs b e = rw (e, create_mask_lem p, change_byte) refl

change_byte_out :
    (change : ℕ → ℕ → ℕ) (p : ℕ) (bs : List ℕ)
    → length bs ≤ p / 8
    → change_byte change p bs ≡ undefined
unfolding change_byte
change_byte_out change p bs h =
    let e : get_elem? bs (p / 8) ≡ none = get_elem?-past bs (p / 8) h in rw (e, change_byte) refl

-- The sixteen bytes that networkAddress, broadcastAddress and subnetMask leave.
network_bytes : List ℕ → ℕ → ℕ → List ℕ
network_bytes bs p b = fill (16 - (p / 8 + 1)) (p / 8 + 1) 0 (set bs (p / 8) (b % 2 ^ (8 - p % 8)))

broadcast_bytes : List ℕ → ℕ → ℕ → List ℕ
broadcast_bytes bs p b =
    fill (16 - (p / 8 + 1)) (p / 8 + 1) 255
      (set bs (p / 8) (b / 2 ^ (8 - p % 8) * 2 ^ (8 - p % 8) + (2 ^ (8 - p % 8) - 1)))

mask_bytes : ℕ → List ℕ
mask_bytes p = fill (p / 8) 0 255 (set (replicate 16 0) (p / 8) (256 - 2 ^ (8 - p % 8)))

network_eq :
    (a : SockaddrIn6) (p b : ℕ)
    → get_elem? a.s6_addr (p / 8) ≡ some b
    → network_address a p ≡ made (record a { s6_addr = network_bytes a.s6_addr p b })
unfolding network_address network_bytes
network_eq a p b e =
    rw (change_byte_lem bit_and p a.s6_addr b e, bit_and-low_mask (8 - p % 8) b, network_address)
      refl

broadcast_eq :
    (a : SockaddrIn6) (p b : ℕ)
    → get_elem? a.s6_addr (p / 8) ≡ some b
    → broadcast_address a p ≡ made (record a { s6_addr = broadcast_bytes a.s6_addr p b })
unfolding broadcast_address broadcast_bytes
broadcast_eq a p b e =
    rw (change_byte_lem bit_or p a.s6_addr b e, bit_or-low_mask (8 - p % 8) b, broadcast_address)
      refl

mask_eq : (p : ℕ) → p < 128 → subnet_mask p ≡ made (record ipv6_new { s6_addr = mask_bytes p })
unfolding subnet_mask mask_bytes
mask_eq p h =
    let flip : 255 - (2 ^ (8 - p % 8) - 1) ≡ 256 - 2 ^ (8 - p % 8) =
      omega (arith, pow_pos (8 - p % 8)) in
    rw
      (
        change_byte_lem (λ byte mask. 0xff - mask) p (replicate 16 0) 0
            (get_elem?-replicate {A = ℕ} 16 0 (p / 8) (omega arith)),
        flip,
        subnet_mask,
      )
      refl

-- For a prefix below 128 bits, at each of the sixteen bytes: all three leave or set the bytes before
-- the one that the prefix ends in, and clear or set those behind it. In that byte broadcastAddress
-- sets the bits of the host, subnetMask has those of the prefix, but networkAddress keeps the bits of
-- the host and clears those of the prefix. From 128 bits on all three write outside the sixteen bytes.
pub networks6_lem :
    (a : SockaddrIn6) (p j : ℕ)
    → length a.s6_addr ≡ 16
    → j < 16
    → ((p < 128)
        × ((b : ℕ) × (n c m : SockaddrIn6) × (get_elem? a.s6_addr (p / 8) ≡ some b)
            × (network_address a p ≡ made n)
            × (broadcast_address a p ≡ made c)
            × (subnet_mask p ≡ made m)
            × (get_elem? n.s6_addr j ≡ (
                if ltb j (p / 8)
                then get_elem? a.s6_addr j
                else if j == p / 8
                then some (b % 2 ^ (8 - p % 8))
                else some 0))
            × (get_elem? c.s6_addr j ≡ (
                if ltb j (p / 8)
                then get_elem? a.s6_addr j
                else if j == p / 8
                then some (b / 2 ^ (8 - p % 8) * 2 ^ (8 - p % 8) + (2 ^ (8 - p % 8) - 1))
                else some 255))
            × (get_elem? m.s6_addr j ≡ (
                if ltb j (p / 8)
                then some 255
                else if j == p / 8
                then some (256 - 2 ^ (8 - p % 8))
                else some 0))))
      ⊎ ((128 ≤ p)
          × (network_address a p ≡ undefined)
          × (broadcast_address a p ≡ undefined)
          × (subnet_mask p ≡ undefined))
unfolding network_bytes broadcast_bytes mask_bytes network_address broadcast_address subnet_mask
networks6_lem a p j full h = elim (dec_lt p 128) [
  | yes low ↦
      let found = get_elem?-lt a.s6_addr (p / 8) (omega arith) in
      let b = found.0 in
      inl (
        low,
        (
          b,
          record a { s6_addr = network_bytes a.s6_addr p b },
          record a { s6_addr = broadcast_bytes a.s6_addr p b },
          record ipv6_new { s6_addr = mask_bytes p },
          found.1,
          network_eq a p b found.1,
          broadcast_eq a p b found.1,
          mask_eq p low,
          tail_bytes a.s6_addr (p / 8) _ 0 j full (omega arith) h,
          tail_bytes a.s6_addr (p / 8) _ 255 j full (omega arith) h,
          prefix_bytes (p / 8) _ 255 j (omega arith) h,
        ),
      )
  | no high ↦ inr (
    omega arith,
    rw (change_byte_out bit_and p a.s6_addr (omega arith), network_address) refl,
    rw (change_byte_out bit_or p a.s6_addr (omega arith), broadcast_address) refl,
    rw (change_byte_out (λ byte mask. 0xff - mask) p (replicate 16 0) (omega arith), subnet_mask)
        refl,
  )
]

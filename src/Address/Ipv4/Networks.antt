-- ===== src/Address/Ipv4/Networks.antt =====
-- The networks of an IPv4 address in libcocao/address.cc, by the number that the host reads.
use native.Mathlib.Nat.{pow-le-pow_right, mod-eq_of_lt}
use native.Mathlib.Decide.{dec_lt}
use libcocao.Base.{
  ℕ, ◌+◌, ◌-◌, ◌*◌, ◌/◌, ◌%◌, ◌^◌, ◌≤◌, ◌<◌, ◌≡◌, refl, ap, ◌⊎◌, inl, inr, false, none, some, ltb,
  replicate, arith,
}
use libcocao.Base.Bits.{pow_pos, bit_or-low_mask, bit_and-high_mask}
use libcocao.Address.{create_mask, made, null, undefined}
use libcocao.Address.Ipv4.{SockaddrIn, broadcast_address, network_address, subnet_mask}

mask_lt : (p : ℕ) → 2 ^ (32 - p) ≤ 2 ^ 32
mask_lt p = let fewer : 32 - p ≤ 32 = omega arith in pow-le-pow_right {n = 2} (omega arith) fewer

create_mask_lem : (p : ℕ) → 2 ≤ p → p ≤ 32 → create_mask 32 p ≡ some (2 ^ (32 - p) - 1)
unfolding create_mask
create_mask_lem p h l =
    let small : (2 ^ (32 - p) - 1) % 2 ^ 32 ≡ 2 ^ (32 - p) - 1 =
      mod-eq_of_lt (omega (arith, mask_lt p)) in
    ground (arith, small)

create_mask_short : (p : ℕ) → p < 2 → create_mask 32 p ≡ none
unfolding create_mask
create_mask_short p h = ground arith

create_mask_long : (p : ℕ) → 32 < p → create_mask 32 p ≡ none
unfolding create_mask
create_mask_long p h = ground arith

in_range : (p : ℕ) → p ≤ 32 → ltb 32 p ≡ false
in_range p h = ground arith

-- For a prefix of 2 to 32 bits, networkAddress clears the bits of the host integer below the prefix,
-- broadcastAddress sets them, and subnetMask has just the bits of the prefix. For more than 32 bits the
-- first two give nullptr, and for fewer than 2 all three shift out of an int.
pub networks_lem :
    (a : SockaddrIn) (p : ℕ)
    → a.s_addr < 2 ^ 32
    → let host = 2 ^ (32 - p) in
      ((2 ≤ p)
        × (p ≤ 32)
        × (network_address a p ≡ made (record a { s_addr = a.s_addr / host * host }))
        × (broadcast_address a p ≡ made (record a { s_addr = a.s_addr / host * host + (host - 1) }))
        × (subnet_mask p
            ≡ made (record {
              sin_family = 2;
              sin_port = 0;
              s_addr = 2 ^ 32 - host;
              sin_zero = replicate 8 0;
            })))
      ⊎ ((32 < p)
          × (network_address a p ≡ null)
          × (broadcast_address a p ≡ null)
          × (subnet_mask p ≡ undefined))
      ⊎ ((p < 2)
          × (network_address a p ≡ undefined)
          × (broadcast_address a p ≡ undefined)
          × (subnet_mask p ≡ undefined))
unfolding network_address broadcast_address subnet_mask
networks_lem a p h = elim (dec_lt p 2) [
  | yes low ↦
      let none_yet : create_mask 32 p ≡ none = create_mask_short p low in
      inr (
        inr (
          low,
          rw (none_yet, in_range p (omega arith), network_address) refl,
          rw (none_yet, in_range p (omega arith), broadcast_address) refl,
          rw (none_yet, subnet_mask) refl,
        ))
  | no two ↦ elim (dec_lt 32 p) [
    | yes high ↦
        inr (inl (high, ground arith, ground arith, rw (create_mask_long p high, subnet_mask) refl))
    | no low ↦
        let mask : create_mask 32 p ≡ some (2 ^ (32 - p) - 1) =
          create_mask_lem p (omega arith) (omega arith) in
        let inside : ltb 32 p ≡ false = in_range p (omega arith) in
        let flip : 2 ^ 32 - 1 - (2 ^ (32 - p) - 1) ≡ 2 ^ 32 - 2 ^ (32 - p) =
          omega (arith, mask_lt p, pow_pos (32 - p)) in
        inl (
          omega arith,
          omega arith,
          rw (inside, mask, flip, network_address)
              (ap (λ (v : ℕ). made (record a { s_addr = v }))
                (bit_and-high_mask 32 (32 - p) a.s_addr (omega arith) h)),
          rw (inside, mask, broadcast_address)
              (ap (λ (v : ℕ). made (record a { s_addr = v })) (bit_or-low_mask (32 - p) a.s_addr)),
          rw (mask, flip, subnet_mask) refl,
        )
  ]
]

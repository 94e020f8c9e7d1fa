-- ===== src/Address/Runs.antt =====
-- Runs of the addresses of libcocao/address.cc.
use libcocao.Base.{
  ℕ, ◌+◌, ◌-◌, ◌*◌, ◌/◌, ◌%◌, ◌^◌, ◌≤◌, ◌<◌, ◌≡◌, refl, ◌⊎◌, Option, none, some, List, [], ◌∷◌,
  ◌++◌, if◌then◌else◌, is_empty, take, drop, get_elem?, replicate, arith,
}
use libcocao.Log.{codes}
use libcocao.Address.{made, null, undefined, count_bytes}
use libcocao.Address.Ipv4
use libcocao.Address.Ipv4.{SockaddrIn, ipv4_new}
use libcocao.Address.Ipv4.Networks.{networks_lem}
use libcocao.Address.Ipv4.Text.{of_be, dotted, create_reversed}
use libcocao.Address.Ipv6
use libcocao.Address.Ipv6.{SockaddrIn6, ipv6_of_bytes}
use libcocao.Address.Ipv6.Bytes.{networks6_lem}
use libcocao.Address.Count.{ones, count_bytes_lem}
use libcocao.Address.Lookup.{Hints, Resolver, lookup}
use libcocao.Address.Lookup.Split.{has_colon, with_answer, lookup_lem}

-- 192.168.1.7 as a number, and its port.
abbrev host : SockaddrIn
host = record { sin_family = 2; sin_port = 8020; s_addr = 0xc0a80107; sin_zero = replicate 8 0 }

abbrev show : ℕ → List ℕ
show n = n ∷ []

abbrev answer : List ℕ → Option (List ℕ)
answer address = some (192 ∷ 168 ∷ 1 ∷ 7 ∷ [])

abbrev host6 : SockaddrIn6
host6 = record {
  sin6_family = 10;
  sin6_port = 80;
  sin6_flowinfo = 0;
  s6_addr = replicate 16 0xab;
  sin6_scope_id = 0;
}

-- A resolver that knows one host.
abbrev resolver : Resolver
resolver node service hints = some (2 ∷ 0 ∷ 0 ∷ 80 ∷ 127 ∷ 0 ∷ 0 ∷ 1 ∷ replicate 8 0, [])

networks_lem_example :
    ((2 ≤ 24)
      × (24 ≤ 32)
      × (Ipv4.network_address host 24 ≡ made (record host { s_addr = host.s_addr / 2 ^ 8 * 2 ^ 8 }))
      × (Ipv4.broadcast_address host 24
          ≡ made (record host { s_addr = host.s_addr / 2 ^ 8 * 2 ^ 8 + (2 ^ 8 - 1) }))
      × (Ipv4.subnet_mask 24
          ≡ made (record {
            sin_family = 2;
            sin_port = 0;
            s_addr = 2 ^ 32 - 2 ^ 8;
            sin_zero = replicate 8 0;
          })))
    ⊎ ((32 < 24)
        × (Ipv4.network_address host 24 ≡ null)
        × (Ipv4.broadcast_address host 24 ≡ null)
        × (Ipv4.subnet_mask 24 ≡ undefined))
    ⊎ ((24 < 2)
        × (Ipv4.network_address host 24 ≡ undefined)
        × (Ipv4.broadcast_address host 24 ≡ undefined)
        × (Ipv4.subnet_mask 24 ≡ undefined))
networks_lem_example = networks_lem host 24 (omega arith)

create_reversed_example :
    (a n : SockaddrIn) × (Ipv4.create answer (codes "192.168.1.7") 80 ≡ some a)
    × (Ipv4.insert show a ≡ dotted show 7 1 168 192 80)
    × (of_be (take 2 (drop 2 (Ipv4.get_addr a))) ≡ 80 % 256 * 256 + 80 / 256 % 256)
    × (Ipv4.network_address a 24 ≡ made n)
    × (Ipv4.insert show n ≡ dotted show 7 1 168 0 80)
    × (take 4 (drop 4 (Ipv4.get_addr n)) ≡ 0 ∷ 168 ∷ 1 ∷ 7 ∷ [])
create_reversed_example =
    create_reversed show answer (codes "192.168.1.7") 80 192 168 1 7 refl (omega arith)
      (omega arith) (omega arith) (omega arith)

count_bytes_lem_example : count_bytes 33 0xffffff 0 ≡ some (ones 32 0xffffff)
count_bytes_lem_example = count_bytes_lem 32 33 0xffffff (omega arith) (omega arith)

lookup_lem_example :
    let hints : Hints = record { ai_flags = 0; ai_family = 2; ai_socktype = 1; ai_protocol = 0 } in
    (lookup resolver [] (codes "a") 2 1 0 ≡ with_answer [] (resolver (codes "a") none hints))
    × (lookup resolver [] (codes "a:80") 2 1 0
        ≡ with_answer [] (
            if has_colon (codes "80")
            then resolver (codes "a:80") (some (codes ":80")) hints
            else resolver
                (if is_empty (codes "a") then codes ":80" else codes "a")
                (some (codes "80"))
                hints))
lookup_lem_example = lookup_lem resolver [] (codes "a") (codes "80") 2 1 0 (omega arith)

networks6_lem_example :
    ((20 < 128)
      × ((b : ℕ) × (n c m : SockaddrIn6) × (get_elem? host6.s6_addr 2 ≡ some b)
          × (Ipv6.network_address host6 20 ≡ made n)
          × (Ipv6.broadcast_address host6 20 ≡ made c)
          × (Ipv6.subnet_mask 20 ≡ made m)
          × (get_elem? n.s6_addr 2 ≡ some (b % 2 ^ 4))
          × (get_elem? c.s6_addr 2 ≡ some (b / 2 ^ 4 * 2 ^ 4 + (2 ^ 4 - 1)))
          × (get_elem? m.s6_addr 2 ≡ some (256 - 2 ^ 4))))
    ⊎ ((128 ≤ 20)
        × (Ipv6.network_address host6 20 ≡ undefined)
        × (Ipv6.broadcast_address host6 20 ≡ undefined)
        × (Ipv6.subnet_mask 20 ≡ undefined))
networks6_lem_example = networks6_lem host6 20 2 refl (omega arith)

-- A run of zeros is left out of the text once, and the groups are read with their bytes swapped.
short_text :
    Ipv6.insert show show (record {
      sin6_family = 10;
      sin6_port = 80;
      sin6_flowinfo = 0;
      s6_addr = 32 ∷ 1 ∷ (replicate 10 0 ++ 0 ∷ 7 ∷ 0 ∷ 0 ∷ []);
      sin6_scope_id = 0;
    })
    ≡ b'[' ∷ 288 ∷ b':' ∷ b':' ∷ 1792 ∷ b':' ∷ 0 ∷ b']' ∷ b':' ∷ 80 ∷ []
unfolding Ipv6.insert
short_text = refl

-- ===== src/ByteArray/Blocks/Seek.antt =====
-- The search of ByteArray::setPosition in libcocao/bytearray.cc, on blocks that have memory.
use libcocao.Base.{
  ℕ, suc, ◌+◌, ◌-◌, ◌*◌, ◌≤◌, ◌<◌, ◌≡◌, refl, ap, inl, inr, true, false, some, List, [], ◌∷◌, ltb,
  ◌==◌, if◌then◌else◌, Bool-cases, List-cases, length, arith, All,
}
use libcocao.ByteArray.Blocks.{Node, seek}
use libcocao.ByteArray.Blocks.Loops.{HasMemory, block_full}

seek_past :
    (base v k : ℕ) (n : Node) (ns : List Node)
    → n.size ≡ base
    → ltb base v ≡ true
    → seek (v - base) ns ≡ some k
    → seek v (n ∷ ns) ≡ some (suc k)
unfolding seek
seek_past base v k n ns q e found = rw (q, e, found, seek) refl

seek_here :
    (base v : ℕ) (n : Node) (ns : List Node)
    → n.size ≡ base
    → ltb base v ≡ false
    → seek v (n ∷ ns) ≡ some (if base == v then 1 else 0)
unfolding seek
seek_here base v n ns q e = rw (q, e, same, seek) refl
  where
    same : (v == base) ≡ (base == v)
    same = ground arith

-- The search of setPosition finds the block of a position.
pub seek_lem :
    (base v : ℕ) (ns : List Node)
    → 1 ≤ base
    → All (HasMemory base) ns
    → 1 ≤ length ns
    → v ≤ base * length ns
    → (k : ℕ) × (seek v ns ≡ some k) × (base * k ≤ v) × (v < base * k + base)
unfolding seek
seek_lem base v [] p h q fits = absurd (omega arith)
seek_lem base v (n ∷ ns) p (h, hs) q fits = elim (Bool-cases (ltb base v)) [
  | inl e ↦
      let past : base < v = ground (arith, e) in
      let (k, found, low, high) =
        seek_lem base (v - base) ns p hs (more past) (omega (arith, fits, past)) in
      (
        suc k,
        seek_past base v k n ns h.node_size e found,
        omega (arith, low, past),
        omega (arith, high, past),
      )
  | inr e ↦
      let full = block_full base v (ground (arith, e)) p in
      (if base == v then 1 else 0, seek_here base v n ns h.node_size e, full.0, full.1)
]
  where
    more : base < v → 1 ≤ length ns
    more past = elim (List-cases ns) [
      | inl e ↦ absurd (omega (arith, ap (λ l. base * length l) e, fits, past))
      | inr (m, ms, e) ↦ rw e (omega arith)
    ]

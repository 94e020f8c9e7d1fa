-- ===== src/ByteArray/Blocks/Loops.antt =====
-- The loops over blocks in libcocao/bytearray.cc, on blocks that have memory: they write and read the
-- sequence of all bytes, whatever the size of a block.
use libcocao.Base.{
  ℕ, suc, ◌+◌, ◌-◌, ◌*◌, ◌≤◌, ◌<◌, ◌≡◌, refl, ◌∙◌, ap, sym, inl, inr, true, none, some, List, [],
  ◌∷◌, ◌++◌, leb, ◌==◌, ==_iff, if◌then◌else◌, Bool-cases, subst, length, take, drop, length-append,
  arith, All,
}
use mathlib.Core.List.{append_assoc}
use libcocao.ByteArray.Blocks.{Node, minus, overwrite, copy_in, copy_out, write_loop, read_loop}
use libcocao.ByteArray.Blocks.Copy.{
  length-drop, length-take, length-overwrite, overwrite-append_fits, overwrite-append_over,
  take-append, drop-append, take-append_past, take_all,
}

-- A block of the given size with its memory.
pub record HasMemory (base : ℕ) (n : Node) : Type 0 where
  pub block : List ℕ
  pub has_block : n.ptr ≡ some block
  pub block_size : length block ≡ base
  pub node_size : n.size ≡ base

-- The bytes of a block, and of all blocks.
pub bytes : Node → List ℕ
bytes n = elim n.ptr [ none ↦ [] | some b ↦ b ]

pub flat : List Node → List ℕ
unfolding bytes
flat [] = []
flat (n ∷ ns) = bytes n ++ flat ns

pub length-bytes : (base : ℕ) (n : Node) → HasMemory base n → length (bytes n) ≡ base
unfolding bytes
length-bytes base n h = rw h.has_block h.block_size

pub length-flat :
    (base : ℕ) (ns : List Node) → All (HasMemory base) ns → length (flat ns) ≡ base * length ns
unfolding flat
length-flat base [] h = omega arith
length-flat base (n ∷ ns) h =
    omega
      (arith, length-append (bytes n) (flat ns), length-bytes base n h.0, length-flat base ns h.1)

pub flat-append : (ms ns : List Node) → flat (ms ++ ns) ≡ flat ms ++ flat ns
unfolding flat
flat-append [] ns = refl
flat-append (m ∷ ms) ns =
    ap (λ l. bytes m ++ l) (flat-append ms ns) ∙ sym (append_assoc (bytes m) (flat ms) (flat ns))

-- memcpy into a block that has room.
copy_in_lem :
    (base npos : ℕ) (n : Node) (d : List ℕ)
    → HasMemory base n
    → npos + length d ≤ base
    → (n' : Node) × (copy_in n npos d ≡ some n')
      × HasMemory base n'
      × (bytes n' ≡ overwrite (bytes n) npos d)
unfolding copy_in bytes
copy_in_lem base npos n d h fits =
    let block' = overwrite h.block npos d in
    (
      record n { ptr = some block' },
      rw (h.has_block, room) refl,
      record {
        block = block';
        has_block = refl;
        block_size = length-overwrite h.block npos d ∙ h.block_size;
        node_size = h.node_size;
      },
      rw h.has_block refl,
    )
  where
    room : leb (npos + length d) (length h.block) ≡ true
    room = ground (arith, h.block_size, fits)

copy_out_lem :
    (base npos len : ℕ) (n : Node)
    → HasMemory base n
    → npos + len ≤ base
    → copy_out n npos len ≡ some (take len (drop npos (bytes n)))
unfolding copy_out bytes
copy_out_lem base npos len n h fits = rw (h.has_block, room) refl
  where
    room : leb (npos + len) (length h.block) ≡ true
    room = ground (arith, h.block_size, fits)

pub minus_le : (a b : ℕ) → b ≤ a → minus a b ≡ a - b
minus_le a b h = ground (arith, h)

-- A block is left where its last byte is used.
pub block_full :
    (base s : ℕ)
    → s ≤ base
    → 1 ≤ base
    → let k : ℕ = if base == s then 1 else 0 in (base * k ≤ s) × (s < base * k + base)
block_full base s h q = elim (Bool-cases (base == s)) [
  | inl e ↦ rw e (omega (arith, (==_iff base s).0 e), omega (arith, (==_iff base s).0 e))
  | inr e ↦ rw e (omega arith, ground (arith, e, h))
]

-- The loop of write puts the bytes at their place, and counts the blocks that it has filled.
pub write_loop_lem :
    (base npos : ℕ) (ns : List Node) (d : List ℕ)
    → npos < base
    → All (HasMemory base) ns
    → 1 ≤ length d
    → npos + length d ≤ base * length ns
    → (ns' : List Node) × (k : ℕ) × (write_loop npos ns d ≡ some (ns', k))
      × All (HasMemory base) ns'
      × (length ns' ≡ length ns)
      × (flat ns' ≡ overwrite (flat ns) npos d)
      × (base * k ≤ npos + length d)
      × (npos + length d < base * k + base)
unfolding write_loop flat
write_loop_lem base npos [] d p h q fits = absurd (omega arith)
write_loop_lem base npos (n ∷ ns) d p (h, hs) q fits =
    elim (Bool-cases (leb (length d) (base - npos))) [
      | inl e ↦
          let (n', wrote, good, is) = copy_in_lem base npos n d h (ground (arith, e, p)) in
          let full = block_full base (npos + length d) (ground (arith, e, p)) (omega arith) in
          (
            n' ∷ ns,
            if base == npos + length d then 1 else 0,
            rw (cap, e, wrote, h.node_size, write_loop) refl,
            (good, hs),
            refl,
            ap (λ l. l ++ flat ns) is
                ∙ sym
                    (overwrite-append_fits (bytes n) (flat ns) npos d (ground (arith, e, p, size))),
            full.0,
            full.1,
          )
      | inr e ↦
          let room = base - npos in
          let more : room < length d = ground (arith, e) in
          let first = length-take room d (omega (arith, more)) in
          let rest = length-drop room d in
          let (n', wrote, good, is) =
            copy_in_lem base npos n (take room d) h (omega (arith, first, p)) in
          let (ns', k, loop, goods, long, flats, low, high) =
            write_loop_lem base 0 ns (drop room d) (omega arith) hs (omega (arith, rest, more))
              (omega (arith, rest, fits, p)) in
          (
            n' ∷ ns',
            suc k,
            rw (cap, e, wrote, loop, write_loop) refl,
            (good, goods),
            ap suc long,
            ap (λ l. l ++ flat ns') is
                ∙ ap (λ l. overwrite (bytes n) npos (take room d) ++ l) flats
                ∙ sym (
                    split room (omega (arith, size)) (
                      overwrite-append_over (bytes n) (flat ns) npos d (omega (arith, size, p))
                        (omega (arith, size, more)))),
            omega (arith, low, rest, more, p),
            omega (arith, high, rest, more, p),
          )
    ]
  where
    cap : minus n.size npos ≡ base - npos
    cap = rw h.node_size (minus_le base npos (omega arith))

    size : length (bytes n) ≡ base
    size = length-bytes base n h

    split :
        (room : ℕ)
        → length (bytes n) - npos ≡ room
        → overwrite (bytes n ++ flat ns) npos d
          ≡ overwrite (bytes n) npos (take (length (bytes n) - npos) d)
            ++ overwrite (flat ns) 0 (drop (length (bytes n) - npos) d)
        → overwrite (bytes n ++ flat ns) npos d
          ≡ overwrite (bytes n) npos (take room d) ++ overwrite (flat ns) 0 (drop room d)
    split room e h = rw (sym e) h

-- The loop of read gives the bytes at their place.
pub read_loop_lem :
    (base npos : ℕ) (ns : List Node) (len : ℕ)
    → npos < base
    → All (HasMemory base) ns
    → 1 ≤ len
    → npos + len ≤ base * length ns
    → (k : ℕ) × (read_loop npos ns len ≡ some (take len (drop npos (flat ns)), k))
      × (base * k ≤ npos + len)
      × (npos + len < base * k + base)
unfolding read_loop flat
read_loop_lem base npos [] len p h q fits = absurd (omega arith)
read_loop_lem base npos (n ∷ ns) len p (h, hs) q fits = elim (Bool-cases (leb len (base - npos))) [
  | inl e ↦
      let inside : npos + len ≤ base = ground (arith, e, p) in
      let full = block_full base (npos + len) inside (omega arith) in
      (
        if base == npos + len then 1 else 0,
        rw (cap, e, copy_out_lem base npos len n h inside, h.node_size, skipped, read_loop)
            (ap (λ l. some (l, if base == npos + len then 1 else 0))
              (sym
                (take-append len (drop npos (bytes n)) (flat ns) (omega (arith, left, inside))))),
        full.0,
        full.1,
      )
  | inr e ↦
      let more : base - npos < len = ground (arith, e) in
      let (k, loop, low, high) =
        read_loop_lem base 0 ns (len - (base - npos)) (omega arith) hs (omega (arith, more))
          (omega (arith, more, fits, p)) in
      (
        suc k,
        rw
            (
              cap,
              e,
              copy_out_lem base npos (base - npos) n h (omega (arith, p)),
              loop,
              skipped,
              read_loop,
            )
            (ap (λ l. some (l, suc k))
              (ap (λ l. l ++ take (len - (base - npos)) (flat ns)) whole
                ∙ sym (
                    take-append_past len (len - (base - npos)) (drop npos (bytes n)) (flat ns)
                      (omega (arith, left, more))))),
        omega (arith, low, more, p),
        omega (arith, high, more, p),
      )
]
  where
    cap : minus n.size npos ≡ base - npos
    cap = rw h.node_size (minus_le base npos (omega arith))

    size : length (bytes n) ≡ base
    size = length-bytes base n h

    left : length (drop npos (bytes n)) ≡ base - npos
    left = length-drop npos (bytes n) ∙ ap (λ x. x - npos) size

    skipped : drop npos (bytes n ++ flat ns) ≡ drop npos (bytes n) ++ flat ns
    skipped = drop-append npos (bytes n) (flat ns) (omega (arith, size, p))

    whole : take (base - npos) (drop npos (bytes n)) ≡ drop npos (bytes n)
    whole =
        subst (λ i. take i (drop npos (bytes n)) ≡ drop npos (bytes n)) left
          (take_all (drop npos (bytes n)))

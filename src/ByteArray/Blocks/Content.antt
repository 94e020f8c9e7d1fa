-- ===== src/ByteArray/Blocks/Content.antt =====
-- ByteArray::write and read of libcocao/bytearray.cc on a byte array whose blocks have memory: what they
-- do to the sequence of its bytes.
use libcocao.Base.{
  ℕ, ◌+◌, ◌-◌, ◌*◌, ◌%◌, ◌≤◌, ◌<◌, ◌≡◌, refl, ◌∙◌, ap, sym, inl, inr, ◌⊎◌, true, false, some, List,
  ◌++◌, ltb, leb, ◌==◌, if◌then◌else◌, Bool-cases, List-cases, length, take, drop, length-append,
  arith, ◌||◌, is_empty,
}
use libcocao.ByteArray.Blocks.{
  Node, ByteArray, done, out_of_range, get_capacity, get_read_size, add_capacity, overwrite,
  write_loop, write, read_loop, read, set_position,
}
use libcocao.ByteArray.Blocks.Copy.{
  drop-append_past, read-overwrite, overwrite-append_past, All-append,
}
use libcocao.ByteArray.Blocks.Inv.{Inv, contents, place_lem, cur_lt, Parts, parts, set_position_lem}
use libcocao.ByteArray.Blocks.Loops.{
  HasMemory, flat, flat-append, write_loop_lem, read_loop_lem, minus_le, length-flat,
}

-- Where there is room nothing is added.
add_capacity_enough : (n : ℕ) (b : ByteArray) → b.position + n ≤ b.capacity → add_capacity n b ≡ b
unfolding add_capacity get_capacity
add_capacity_enough n b h =
    rw (minus_le b.capacity b.position (omega arith), enough, or_true, add_capacity) refl
  where
    enough : leb n (b.capacity - b.position) ≡ true
    enough = ground arith

    or_true : ((n == 0) || true) ≡ true
    or_true = ground arith

-- The bytes from the current block on, at the place of the position.
at_position :
    (b : ByteArray) (i : Inv b) (p : Parts b)
    → (contents b ≡ flat p.before ++ flat p.from)
      × (b.position ≡ length (flat p.before) + b.position % b.base_size)
at_position b i p =
    (ap flat p.whole ∙ flat-append p.before p.from, omega (arith, (place_lem b i).0, p.size_before))

write_step :
    (b : ByteArray) (d : List ℕ) (before from ns' : List Node) (k : ℕ)
    → add_capacity (length d) b ≡ b
    → is_empty d ≡ false
    → ltb b.cur (length b.nodes) ≡ true
    → take b.cur b.nodes ≡ before
    → drop b.cur b.nodes ≡ from
    → write_loop (b.position % b.base_size) from d ≡ some (ns', k)
    → write d b
      ≡ done (record b {
        nodes = before ++ ns';
        cur = b.cur + k;
        position = b.position + length d;
        size = if ltb b.size (b.position + length d) then b.position + length d else b.size;
      })
unfolding write
write_step b d before from ns' k enough full there taken dropped loop =
    rw (enough, full, there, taken, dropped, loop, write) refl

-- Where the bytes fit, write puts them at the position and moves it past them. No other byte
-- changes, and the size is at least the position.
pub write_lem :
    (b : ByteArray) (d : List ℕ)
    → Inv b
    → 1 ≤ length d
    → b.position + length d ≤ b.capacity
    → (b' : ByteArray) × (write d b ≡ done b')
      × Inv b'
      × (contents b' ≡ overwrite (contents b) b.position d)
      × (b'.position ≡ b.position + length d)
      × (b'.capacity ≡ b.capacity)
      × (b'.base_size ≡ b.base_size)
unfolding write
write_lem b d i q fits =
    let p = parts b i in
    let (place, inside) = place_lem b i in
    let (ns', k, loop, all, long, flats, low, high) =
      write_loop_lem b.base_size (b.position % b.base_size) p.from d inside p.all_from q
        (omega (arith, p.room, place, fits)) in
    let (whole, offset) = at_position b i p in
    let position = b.position + length d in
    let there : ltb b.cur (length b.nodes) ≡ true = ground (arith, cur_lt b i) in
    let same_length : length (p.before ++ ns') ≡ length b.nodes =
      omega (
        arith,
        length-append p.before ns',
        length-append p.before p.from,
        long,
        ap length p.whole,
      ) in
    (
      record b {
        nodes = p.before ++ ns';
        cur = b.cur + k;
        position = position;
        size = if ltb b.size position then position else b.size;
      },
      write_step b d p.before p.from ns' k (add_capacity_enough (length d) b fits)
          (ground (arith, List-cases d, q)) there p.taken p.dropped loop,
      record {
        base_pos = i.base_pos;
        memory = All-append (HasMemory b.base_size) p.before ns' p.all_before all;
        root = omega (arith, same_length, i.root);
        capacity = i.capacity ∙ ap (λ n. b.base_size * n) (sym same_length);
        position_le = ground arith;
        size_le = ground (arith, i.size_le, fits);
        cur_low = omega (arith, low, place);
        cur_high = omega (arith, high, place);
      },
      flat-append p.before ns'
          ∙ ap (λ l. flat p.before ++ l) flats
          ∙ sym (
              overwrite-append_past (flat p.before) (flat p.from) b.position
                (b.position % b.base_size) d offset)
          ∙ ap (λ l. overwrite l b.position d) (sym whole),
      refl,
      refl,
      refl,
    )

read_step :
    (b : ByteArray) (len k : ℕ) (from : List Node) (got : List ℕ)
    → ltb (get_read_size b) len ≡ false
    → (len == 0) ≡ false
    → drop b.cur b.nodes ≡ from
    → read_loop (b.position % b.base_size) from len ≡ some (got, k)
    → read len b ≡ done (got, record b { cur = b.cur + k; position = b.position + len })
unfolding read
read_step b len k from got enough some_bytes dropped loop =
    rw (enough, some_bytes, dropped, loop, read) refl

-- read throws where less is left than is asked for. Else it gives the bytes at the position and moves
-- it past them, and no byte changes.
pub read_lem :
    (b : ByteArray) (len : ℕ)
    → Inv b
    → 1 ≤ len
    → ((b.size < b.position + len) × (read len b ≡ out_of_range))
      ⊎ ((b' : ByteArray) × (read len b ≡ done (take len (drop b.position (contents b)), b'))
          × Inv b'
          × (b'.nodes ≡ b.nodes)
          × (b'.position ≡ b.position + len))
unfolding read get_read_size
read_lem b len i q = elim (Bool-cases (ltb (get_read_size b) len)) [
  | inl e ↦ inl (ground (arith, e, minus_le b.size b.position i.position_le), rw e refl)
  | inr e ↦
      let fits : b.position + len ≤ b.size =
        ground (arith, e, minus_le b.size b.position i.position_le) in
      let p = parts b i in
      let (place, inside) = place_lem b i in
      let (k, loop, low, high) =
        read_loop_lem b.base_size (b.position % b.base_size) p.from len inside p.all_from q
          (omega (arith, p.room, place, fits, i.size_le)) in
      let (whole, offset) = at_position b i p in
      let same : drop b.position (contents b) ≡ drop (b.position % b.base_size) (flat p.from) =
        ap (drop b.position) whole
        ∙ drop-append_past b.position (b.position % b.base_size) (flat p.before) (flat p.from)
            offset in
      inr (
        record b { cur = b.cur + k; position = b.position + len },
        read_step b len k p.from (take len (drop (b.position % b.base_size) (flat p.from))) e
              (ground (arith, q)) p.dropped loop
            ∙ ap (λ l. done (take len l, record b { cur = b.cur + k; position = b.position + len }))
                (sym same),
        record {
          base_pos = i.base_pos;
          memory = i.memory;
          root = i.root;
          capacity = i.capacity;
          position_le = fits;
          size_le = i.size_le;
          cur_low = omega (arith, low, place);
          cur_high = omega (arith, high, place);
        },
        refl,
        refl,
      )
]

-- Bytes that fit are read back as they were written, after setPosition to where they were written.
pub write-read_roundtrip :
    (b : ByteArray) (d : List ℕ)
    → Inv b
    → 1 ≤ length d
    → b.position + length d ≤ b.capacity
    → (b1 : ByteArray) × (b2 : ByteArray) × (b3 : ByteArray) × (write d b ≡ done b1)
      × (set_position b.position b1 ≡ done b2)
      × (read (length d) b2 ≡ done (d, b3))
write-read_roundtrip b d i q fits =
    let (b1, wrote, i1, content, moved, cap, base) = write_lem b d i q fits in
    elim (set_position_lem b1 b.position i1) [
      | inl (past, e) ↦ absurd (omega (arith, past, cap, fits))
      | inr (b2, back, i2, pos, same, grown) ↦ elim (read_lem b2 (length d) i2 q) [
        | inl (past, e) ↦ absurd (omega (arith, past, pos, grown, i1.position_le, moved))
        | inr (b3, got, i3, nodes, pos3) ↦ (
          b1,
          b2,
          b3,
          wrote,
          back,
          got ∙ ap (λ l. done (l, b3)) (is_back b1 b2 pos (ap flat same ∙ content)),
        )
      ]
    ]
  where
    contents_size : length (contents b) ≡ b.capacity
    contents_size = length-flat b.base_size b.nodes i.memory ∙ sym i.capacity

    is_back :
        (b1 b2 : ByteArray)
        → b2.position ≡ b.position
        → contents b2 ≡ overwrite (contents b) b.position d
        → take (length d) (drop b2.position (contents b2)) ≡ d
    is_back b1 b2 pos same =
        ap (λ n. take (length d) (drop n (contents b2))) pos
        ∙ ap (λ l. take (length d) (drop b.position l)) same
        ∙ read-overwrite (contents b) b.position d (omega (arith, fits, contents_size))

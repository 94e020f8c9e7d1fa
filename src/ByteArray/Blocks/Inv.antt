-- ===== src/ByteArray/Blocks/Inv.antt =====
-- The byte array of libcocao/bytearray.cc with memory in its blocks, as one sequence of bytes.
use libcocao.Base.{
  ℕ, ◌+◌, ◌-◌, ◌*◌, ◌%◌, ◌≤◌, ◌<◌, ◌≡◌, refl, ◌∙◌, ap, sym, inl, inr, ◌⊎◌, List, ◌++◌, ltb,
  if◌then◌else◌, Bool-cases, length, take, drop, arith, All,
}
use native.Mathlib.Decide.{dec_lt}
use native.Mathlib.Nat.{mod-eq_of_lt, mul-add-mod_self_left, le_of_mul-le-mul_left}
use libcocao.ByteArray.Blocks.{Node, ByteArray, done, out_of_range, set_position}
use libcocao.ByteArray.Blocks.Copy.{length-drop, length-take, take-drop, All-take, All-drop}
use libcocao.ByteArray.Blocks.Seek.{seek_lem}
use libcocao.ByteArray.Blocks.Loops.{HasMemory, flat, length-flat}

-- A byte array whose blocks have memory: the capacity is that of the blocks, the position and the
-- size are within it, and the current block is that of the position.
pub record Inv (b : ByteArray) : Type 0 where
  pub base_pos : 1 ≤ b.base_size
  pub memory : All (HasMemory b.base_size) b.nodes
  pub root : 1 ≤ length b.nodes
  pub capacity : b.capacity ≡ b.base_size * length b.nodes
  pub position_le : b.position ≤ b.size
  pub size_le : b.size ≤ b.capacity
  pub cur_low : b.base_size * b.cur ≤ b.position
  pub cur_high : b.position < b.base_size * b.cur + b.base_size

-- Its bytes.
abbrev pub contents : ByteArray → List ℕ
contents b = flat b.nodes

-- setPosition moves to any place within the capacity, throws past it, and never faults. The bytes
-- stay, and the size is at least the position.
pub set_position_lem :
    (b : ByteArray) (v : ℕ)
    → Inv b
    → ((b.capacity < v) × (set_position v b ≡ out_of_range))
      ⊎ ((b' : ByteArray) × (set_position v b ≡ done b')
          × Inv b'
          × (b'.position ≡ v)
          × (b'.nodes ≡ b.nodes)
          × (b.size ≤ b'.size))
unfolding set_position
set_position_lem b v i = elim (Bool-cases (ltb b.capacity v)) [
  | inl e ↦ inl (ground (arith, e), rw e refl)
  | inr e ↦
      let (k, found, low, high) =
        seek_lem b.base_size v b.nodes i.base_pos i.memory i.root (ground (arith, e, i.capacity)) in
      inr (
        record b { position = v; size = if ltb b.size v then v else b.size; cur = k },
        rw (e, found, set_position) refl,
        record {
          base_pos = i.base_pos;
          memory = i.memory;
          root = i.root;
          capacity = i.capacity;
          position_le = ground arith;
          size_le = ground (arith, e, i.size_le);
          cur_low = low;
          cur_high = high;
        },
        refl,
        refl,
        ground arith,
      )
]

-- The place of the position in its block.
pub place_lem :
    (b : ByteArray)
    → Inv b
    → (b.base_size * b.cur + b.position % b.base_size ≡ b.position)
      × (b.position % b.base_size < b.base_size)
place_lem b i =
    let r = b.position - b.base_size * b.cur in
    let split : b.position ≡ b.base_size * b.cur + r = omega (arith, i.cur_low) in
    let small : r < b.base_size = omega (arith, i.cur_high, i.cur_low, i.base_pos) in
    let rem : b.position % b.base_size ≡ r =
      ap (λ p. p % b.base_size) split
      ∙ mul-add-mod_self_left b.base_size b.cur r
      ∙ mod-eq_of_lt small in
    (omega (arith, rem, split), omega (arith, rem, small))

-- The blocks before the current one and those from it on.
pub record Parts (b : ByteArray) : Type 0 where
  pub before : List Node
  pub from : List Node
  pub whole : b.nodes ≡ before ++ from
  pub taken : take b.cur b.nodes ≡ before
  pub dropped : drop b.cur b.nodes ≡ from
  pub all_before : All (HasMemory b.base_size) before
  pub all_from : All (HasMemory b.base_size) from
  pub size_before : length (flat before) ≡ b.base_size * b.cur
  pub room : b.base_size * b.cur + b.base_size * length from ≡ b.capacity

cur_le : (b : ByteArray) → Inv b → b.cur ≤ length b.nodes
cur_le b i =
    le_of_mul-le-mul_left {k = b.base_size}
      (omega (arith, i.cur_low, i.position_le, i.size_le, i.capacity)) (omega (arith, i.base_pos))

split : (b : ByteArray) → Inv b → length b.nodes ≡ b.cur + (length b.nodes - b.cur)
split b i = omega (arith, cur_le b i)

pub parts : (b : ByteArray) → Inv b → Parts b
parts b i =
    let all = All-take (HasMemory b.base_size) b.cur b.nodes i.memory in
    let long = length-take b.cur b.nodes (cur_le b i) in
    record {
      before = take b.cur b.nodes;
      from = drop b.cur b.nodes;
      whole = sym (take-drop b.cur b.nodes);
      taken = refl;
      dropped = refl;
      all_before = all;
      all_from = All-drop (HasMemory b.base_size) b.cur b.nodes i.memory;
      size_before =
          length-flat b.base_size (take b.cur b.nodes) all ∙ ap (λ k. b.base_size * k) long;
      room = omega (
        arith,
        i.capacity,
        ap (λ k. b.base_size * k) (length-drop b.cur b.nodes),
        ap (λ k. b.base_size * k) (split b i),
      );
    }

-- Short of the capacity the current block is there.
pub cur_lt : (b : ByteArray) → Inv b → b.position < b.capacity → b.cur < length b.nodes
cur_lt b i h = elim (dec_lt b.cur (length b.nodes)) [
  | yes there ↦ there
  | no past ↦
      let over : b.cur ≡ length b.nodes + (b.cur - length b.nodes) = omega arith in
      absurd (omega (arith, ap (λ k. b.base_size * k) over, i.cur_low, i.capacity, h))
]

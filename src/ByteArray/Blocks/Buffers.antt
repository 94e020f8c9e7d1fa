-- ===== src/ByteArray/Blocks/Buffers.antt =====
-- getReadBuffers and getWriteBUffers of libcocao/bytearray.cc: the iovecs of the bytes in the blocks.
use libcocao.Base.{
  ℕ, zero, suc, ◌-◌, ◌/◌, ◌%◌, ◌≤◌, ◌≡◌, refl, ap, sym, inl, inr, false, Option, none, some, List,
  [], ◌∷◌, ◌++◌, ltb, leb, ◌==◌, if◌then◌else◌, ◌>>=◌, Bool-cases, Option-cases, length, drop,
  get_elem?, arith,
}
use mathlib.Core.List.{append-nil}
use libcocao.ByteArray.Blocks.{
  Node, ByteArray, Access, done, out_of_range, fault, no_fault, minus, get_read_size, add_capacity,
  copy_out, read_loop, read,
}

-- iovec: its base is an offset in a block, named by its place.
pub record Iovec : Type 0 where
  pub node : ℕ
  pub offset : ℕ
  pub iov_len : ℕ

-- The loop of the three functions, from the block at a place on.
unfoldable pub buffers_loop : ℕ → ℕ → List Node → ℕ → Option (List Iovec)
buffers_loop place npos [] len = none
buffers_loop place npos (n ∷ ns) len =
    let ncap = minus n.size npos in
    let rest = buffers_loop (suc place) 0 ns (len - ncap) in
    let last : Option (List Iovec) =
      some (record { node = place; offset = npos; iov_len = len } ∷ []) in
    let first = rest >>= λ vs. some (record { node = place; offset = npos; iov_len = ncap } ∷ vs) in
    if leb len ncap then last else first

-- `len > getReadSize() ? getReadSize() : len`.
unfoldable pub clamp : ℕ → ByteArray → ℕ
clamp len b = if ltb (get_read_size b) len then get_read_size b else len

-- getReadBuffers, with the vector that it appends to.
unfoldable pub get_read_buffers : List Iovec → ℕ → ByteArray → Access (List Iovec × ℕ)
unfolding buffers_loop
get_read_buffers buffers len b =
    let size = clamp len b in
    let found = buffers_loop b.cur (b.position % b.base_size) (drop b.cur b.nodes) size >>= λ vs.
    some (buffers ++ vs, size) in
    if size == 0 then done (buffers, 0) else no_fault found

-- getReadBuffers from a position on, which counts the blocks from m_root.
pub get_read_buffers_at : List Iovec → ℕ → ℕ → ByteArray → Access (List Iovec × ℕ)
unfolding buffers_loop
get_read_buffers_at buffers len position b =
    let size = clamp len b in
    let count = position / b.base_size in
    let found = buffers_loop count (position % b.base_size) (drop count b.nodes) size >>= λ vs.
    some (buffers ++ vs, size) in
    if size == 0 then done (buffers, 0) else no_fault found

-- getWriteBUffers. A m_cur that is null stays null when blocks are added.
pub get_write_buffers : List Iovec → ℕ → ByteArray → Access (List Iovec × (ℕ × ByteArray))
unfolding add_capacity buffers_loop
get_write_buffers buffers len b =
    let b1 = add_capacity len b in
    let found =
      buffers_loop b1.cur (b1.position % b1.base_size) (drop b1.cur b1.nodes) len >>= λ vs.
      some (buffers ++ vs, (len, b1)) in
    if len == 0
    then done (buffers, (0, b))
    else if ltb b.cur (length b.nodes)
    then no_fault found
    else fault

-- The bytes that a reader of the iovecs takes.
pub gather : List Node → List Iovec → Option (List ℕ)
unfolding copy_out
gather nodes [] = some []
gather nodes (v ∷ vs) = do
  n ← get_elem? nodes v.node
  d ← copy_out n v.offset v.iov_len
  ds ← gather nodes vs
  some (d ++ ds)

pub gathered : ByteArray → Access (List Iovec × ℕ) → Access (List ℕ)
gathered b (done r) = no_fault (gather b.nodes r.0)
gathered b out_of_range = out_of_range
gathered b fault = fault

pub only_bytes : Access (List ℕ × ByteArray) → Access (List ℕ)
only_bytes (done r) = done r.0
only_bytes out_of_range = out_of_range
only_bytes fault = fault

get_elem?-drop :
    (nodes ns : List Node) (n : Node) (place : ℕ)
    → drop place nodes ≡ n ∷ ns
    → (get_elem? nodes place ≡ some n) × (drop (suc place) nodes ≡ ns)
get_elem?-drop [] ns n zero e = absurd (ground arith)
get_elem?-drop [] ns n (suc place) e = absurd (ground arith)
get_elem?-drop (m ∷ nodes) ns n zero e = (cc e, cc e)
get_elem?-drop (m ∷ nodes) ns n (suc place) e = get_elem?-drop nodes ns n place e

none_after : (r : Option (List ℕ × ℕ)) → (r >>= λ x. some x.0) ≡ none → r ≡ none
none_after none e = refl
none_after (some x) e = absurd (ground arith)

-- The iovecs of the blocks hold what the loop of read reads from them.
buffers_loop_lem :
    (nodes ns : List Node) (place npos len : ℕ)
    → drop place nodes ≡ ns
    → (buffers_loop place npos ns len >>= gather nodes) ≡ (read_loop npos ns len >>= λ r. some r.0)
unfolding buffers_loop gather read_loop
buffers_loop_lem nodes [] place npos len e = refl
buffers_loop_lem nodes (n ∷ ns) place npos len e =
    let (here, later) = get_elem?-drop nodes ns n place e in
    let ncap = minus n.size npos in
    let ih = buffers_loop_lem nodes ns (suc place) 0 (len - ncap) later in
    elim (Bool-cases (leb len ncap)) [
      | inl t ↦ elim (Option-cases (copy_out n npos len)) [
        | inl c ↦ rw (t, here, c, buffers_loop, read_loop, gather) refl
        | inr (d, c) ↦ rw (t, here, c, buffers_loop, read_loop, gather) (ap some (append-nil d))
      ]
      | inr t ↦ elim (Option-cases (buffers_loop (suc place) 0 ns (len - ncap))) [
        | inl g ↦
            let f = none_after (read_loop 0 ns (len - ncap)) (sym (rw g at ih)) in
            elim (Option-cases (copy_out n npos ncap)) [
              | inl c ↦ rw (t, g, f, c, buffers_loop, read_loop) refl
              | inr (d, c) ↦ rw (t, g, f, c, buffers_loop, read_loop) refl
            ]
        | inr (vs, g) ↦ elim (Option-cases (copy_out n npos ncap)) [
          | inl c ↦ rw (t, g, here, c, buffers_loop, read_loop, gather) refl
          | inr (d, c) ↦ elim (Option-cases (read_loop 0 ns (len - ncap))) [
            | inl f ↦
                let lost : gather nodes vs ≡ none = rw (g, f) at ih in
                rw (t, g, here, c, f, lost, buffers_loop, read_loop, gather) refl
            | inr (r, f) ↦
                let got : gather nodes vs ≡ some r.0 = rw (g, f) at ih in
                rw (t, g, here, c, f, got, buffers_loop, read_loop, gather) refl
          ]
        ]
      ]
    ]

clamp_bounds :
    (len : ℕ) (b : ByteArray)
    → 1 ≤ len
    → 1 ≤ get_read_size b
    → (1 ≤ clamp len b) × (clamp len b ≤ get_read_size b)
unfolding clamp
clamp_bounds len b p q = ground arith

-- Where bytes are asked for and bytes are left, getReadBuffers gives iovecs that hold just the bytes
-- that read gives for as many as are left at most, and faults or has a null pointer among them just if
-- read faults.
pub read_buffers_lem :
    (len : ℕ) (b : ByteArray)
    → 1 ≤ len
    → 1 ≤ get_read_size b
    → gathered b (get_read_buffers [] len b) ≡ only_bytes (read (clamp len b) b)
unfolding get_read_buffers gathered only_bytes read
read_buffers_lem len b p q =
    let bounds = clamp_bounds len b p q in
    let asked : (clamp len b == 0) ≡ false = ground arith in
    let enough : ltb (get_read_size b) (clamp len b) ≡ false = ground arith in
    let same =
      buffers_loop_lem b.nodes (drop b.cur b.nodes) b.cur (b.position % b.base_size) (clamp len b)
        refl in
    elim (Option-cases
      (buffers_loop b.cur (b.position % b.base_size) (drop b.cur b.nodes) (clamp len b))) [
        | inl g ↦
            let f =
              none_after (read_loop (b.position % b.base_size) (drop b.cur b.nodes) (clamp len b))
                (sym (rw g at same)) in
            rw (asked, enough, g, f, get_read_buffers, read) refl
        | inr (vs, g) ↦
            elim (Option-cases
              (read_loop (b.position % b.base_size) (drop b.cur b.nodes) (clamp len b))) [
                | inl f ↦
                    let lost : gather b.nodes vs ≡ none = rw (g, f) at same in
                    rw (asked, enough, g, f, lost, get_read_buffers, read, gathered) refl
                | inr (r, f) ↦
                    let got : gather b.nodes vs ≡ some r.0 = rw (g, f) at same in
                    rw (asked, enough, g, f, got, get_read_buffers, read, gathered) refl
              ]
      ]

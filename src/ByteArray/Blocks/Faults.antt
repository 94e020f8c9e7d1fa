-- ===== src/ByteArray/Blocks/Faults.antt =====
-- The blocks of libcocao/bytearray.cc as its constructors make them: without memory, and too few.
use libcocao.Base.{
  ℕ, zero, suc, ◌+◌, ◌-◌, ◌*◌, ◌/◌, ◌%◌, ◌≤◌, ◌<◌, ◌≡◌, refl, ◌∙◌, subst, inl, inr, ◌↔◌, false,
  none, List, [], ◌∷◌, ltb, leb, ◌==◌, Bool-cases, Option-cases, length, take, drop, replicate,
  arith, All, ◌||◌, is_empty, if◌then◌else◌,
}
use native.Mathlib.Nat.{div-add-mod'}
use libcocao.ByteArray.Blocks.{
  Node, node_new, ByteArray, byte_array_new, Access, done, out_of_range, fault, minus, get_capacity,
  get_read_size, add_capacity, copy_in, copy_out, write_loop, write, read_loop, read, seek,
  set_position, clear,
}
use libcocao.ByteArray.Blocks.Copy.{All-take, All-drop, All-append}
use libcocao.ByteArray.Blocks.Loops.{minus_le}

-- What a program does with a byte array.
pub data Call : Type 0 where
  writes : List ℕ → Call
  reads moves : ℕ → Call
  clears : Call

unfoldable pub step : Call → ByteArray → Access ByteArray
step (writes d) b = write d b
step (reads n) b = elim (read n b) [
  | done r ↦ done r.1
  | out_of_range ↦ out_of_range
  | fault ↦ fault
]
step (moves v) b = set_position v b
step clears b = done (clear b)

unfoldable pub run : List Call → ByteArray → Access ByteArray
unfolding step
run [] b = done b
run (c ∷ cs) b = elim (step c b) [
  | done b' ↦ run cs b'
  | out_of_range ↦ out_of_range
  | fault ↦ fault
]

-- No block has memory.
abbrev Bare : ByteArray → Type 0
Bare b = All (λ n. n.ptr ≡ none) b.nodes

copy_in_faults : (n : Node) (npos : ℕ) (d : List ℕ) → n.ptr ≡ none → copy_in n npos d ≡ none
unfolding copy_in
copy_in_faults n npos d h = rw h refl

write_loop_faults :
    (npos : ℕ) (ns : List Node) (d : List ℕ)
    → All (λ n. n.ptr ≡ none) ns
    → write_loop npos ns d ≡ none
unfolding write_loop
write_loop_faults npos [] d h = refl
write_loop_faults npos (n ∷ ns) d (h, hs) =
    let room = minus n.size npos in
    elim (Bool-cases (leb (length d) room)) [
      | inl e ↦ rw (e, copy_in_faults n npos d h, write_loop) refl
      | inr e ↦ rw (e, copy_in_faults n npos (take room d) h, write_loop) refl
    ]

Bare-replicate : (k base : ℕ) → All (λ n. n.ptr ≡ none) (replicate k (node_new base))
unfolding node_new
Bare-replicate zero base = tt
Bare-replicate (suc k) base = (refl, Bare-replicate k base)

-- The number of blocks that addCapacity adds where the room is short.
abbrev added : ℕ → ByteArray → ℕ
added n b = minus n (get_capacity b) / b.base_size

add_capacity-Bare : (n : ℕ) (b : ByteArray) → Bare b → Bare (add_capacity n b)
unfolding add_capacity
add_capacity-Bare n b h = elim (Bool-cases ((n == 0) || leb n (get_capacity b))) [
  | inl e ↦ rw (e, add_capacity) h
  | inr e ↦
      rw (e, add_capacity)
        (All-append (λ n. n.ptr ≡ none) b.nodes (replicate (added n b) (node_new b.base_size)) h
          (Bare-replicate (added n b) b.base_size))
]

write_faults : (b : ByteArray) (d : List ℕ) → Bare b → is_empty d ≡ false → write d b ≡ fault
unfolding write
write_faults b d h q =
    let b1 = add_capacity (length d) b in
    let lost =
      write_loop_faults (b1.position % b1.base_size) (drop b1.cur b1.nodes) d
        (All-drop (λ n. n.ptr ≡ none) b1.cur b1.nodes (add_capacity-Bare (length d) b h)) in
    elim (Bool-cases (ltb b.cur (length b.nodes))) [
      | inl e ↦ rw (q, e, lost, write) refl
      | inr e ↦ rw (q, e, write) refl
    ]

-- A call that succeeds keeps the blocks without memory.
BareAfter : Access ByteArray → Type 0
BareAfter (done b) = Bare b
BareAfter out_of_range = Unit
BareAfter fault = Unit

set_position-Bare : (v : ℕ) (b : ByteArray) → Bare b → BareAfter (set_position v b)
unfolding BareAfter set_position
set_position-Bare v b h = elim (Bool-cases (ltb b.capacity v)) [
  | inl e ↦ rw (e, set_position) tt
  | inr e ↦ elim (Option-cases (seek v b.nodes)) [
    | inl q ↦ rw (e, q, set_position) tt
    | inr (k, q) ↦ rw (e, q, set_position) h
  ]
]

read-Bare : (n : ℕ) (b : ByteArray) → Bare b → BareAfter (step (reads n) b)
unfolding BareAfter step read
read-Bare n b h = elim (Bool-cases (ltb (get_read_size b) n)) [
  | inl e ↦ rw (e, read, BareAfter) tt
  | inr e ↦ elim (Bool-cases (n == 0)) [
    | inl q ↦ elim (Bool-cases (ltb b.cur (length b.nodes))) [
      | inl c ↦ rw (e, q, c, read, BareAfter) h
      | inr c ↦ rw (e, q, c, read, BareAfter) tt
    ]
    | inr q ↦ elim (Option-cases (read_loop (b.position % b.base_size) (drop b.cur b.nodes) n)) [
      | inl r ↦ rw (e, q, r, read, BareAfter) tt
      | inr (r, f) ↦ rw (e, q, f, read, BareAfter) h
    ]
  ]
]

step-Bare : (c : Call) (b : ByteArray) → Bare b → BareAfter (step c b)
unfolding BareAfter step write clear
step-Bare (writes d) b h = elim (Bool-cases (is_empty d)) [
  | inl q ↦ rw (q, write) h
  | inr q ↦ rw (write_faults b d h q) tt
]
step-Bare (reads n) b h = read-Bare n b h
step-Bare (moves v) b h = set_position-Bare v b h
step-Bare clears b h = All-take (λ n. n.ptr ≡ none) 1 b.nodes h

Bare-next :
    (cs : List Call) (b' : ByteArray) (x : Access ByteArray)
    → ((b1 : ByteArray) → Bare b1 → run cs b1 ≡ done b' → Bare b')
    → BareAfter x
    → elim x as (λ _. Access ByteArray) [
      | done b1 ↦ run cs b1
      | out_of_range ↦ out_of_range
      | fault ↦ fault
    ]
      ≡ done b'
    → Bare b'
unfolding BareAfter
Bare-next cs b' (done b1) f k e = f b1 k e
Bare-next cs b' out_of_range f k e = absurd (ground arith)
Bare-next cs b' fault f k e = absurd (ground arith)

run-Bare : (cs : List Call) (b b' : ByteArray) → Bare b → run cs b ≡ done b' → Bare b'
unfolding run
run-Bare [] b b' h e = subst Bare (done-injective b b' e) h
  where
    done-injective : (b b' : ByteArray) → done b ≡ done b' → b ≡ b'
    done-injective b b' e = cc e
run-Bare (c ∷ cs) b b' h e =
    Bare-next cs b' (step c b) (λ b1. run-Bare cs b1 b') (step-Bare c b h) e

-- After any history of calls on a new byte array, a write of at least one byte goes through a null
-- pointer: the blocks get no memory.
pub run-write_faults :
    (base : ℕ) (cs : List Call) (b : ByteArray) (d : List ℕ)
    → run cs (byte_array_new base) ≡ done b
    → is_empty d ≡ false
    → write d b ≡ fault
unfolding byte_array_new node_new
run-write_faults base cs b d e q =
    write_faults b d (run-Bare cs (byte_array_new base) b (refl, tt) e) q

copy_out_faults : (n : Node) (npos k : ℕ) → n.ptr ≡ none → copy_out n npos k ≡ none
unfolding copy_out
copy_out_faults n npos k h = rw h refl

read_loop_faults :
    (npos : ℕ) (ns : List Node) (k : ℕ) → All (λ n. n.ptr ≡ none) ns → read_loop npos ns k ≡ none
unfolding read_loop
read_loop_faults npos [] k h = refl
read_loop_faults npos (n ∷ ns) k (h, hs) =
    let room = minus n.size npos in
    elim (Bool-cases (leb k room)) [
      | inl e ↦ rw (e, copy_out_faults n npos k h, read_loop) refl
      | inr e ↦ rw (e, copy_out_faults n npos room h, read_loop) refl
    ]

-- After any history of calls on a new byte array, a read of at least one byte gives no bytes: it
-- throws where fewer bytes than that are between the position and the size, and else goes through a
-- null pointer.
pub run-read_faults :
    (base : ℕ) (cs : List Call) (b : ByteArray) (n : ℕ)
    → run cs (byte_array_new base) ≡ done b
    → 1 ≤ n
    → read n b ≡ (if ltb (get_read_size b) n then out_of_range else fault)
unfolding byte_array_new node_new read
run-read_faults base cs b n e q =
    let bare = run-Bare cs (byte_array_new base) b (refl, tt) e in
    let lost =
      read_loop_faults (b.position % b.base_size) (drop b.cur b.nodes) n
        (All-drop (λ n. n.ptr ≡ none) b.cur b.nodes bare) in
    elim (Bool-cases (ltb (get_read_size b) n)) [
      | inl r ↦ rw (r, read) refl
      | inr r ↦ rw (r, some_bytes, lost, read) refl
    ]
  where
    some_bytes : (n == 0) ≡ false
    some_bytes = ground (arith, q)

old_capacity : (b : ByteArray) → b.position ≤ b.capacity → get_capacity b ≡ b.capacity - b.position
unfolding get_capacity
old_capacity b p = minus_le b.capacity b.position p

capacity_after :
    (n : ℕ) (b : ByteArray)
    → b.position ≤ b.capacity
    → b.capacity < b.position + n
    → get_capacity (add_capacity n b)
      ≡ b.capacity - b.position + (n - (b.capacity - b.position)) / b.base_size * b.base_size
unfolding add_capacity get_capacity
capacity_after n b p q =
    rw
      (
        minus_le b.capacity b.position p,
        short,
        minus_le n (b.capacity - b.position) (omega arith),
        add_capacity,
        get_capacity,
      )
      (minus_le (b.capacity + more) b.position (omega (arith, p)) ∙ omega (arith, p))
  where
    more : ℕ
    more = (n - (b.capacity - b.position)) / b.base_size * b.base_size

    short : ((n == 0) || leb n (b.capacity - b.position)) ≡ false
    short = ground (arith, p, q)

-- Where the room is short, addCapacity makes enough of it exactly if the missing bytes are a
-- multiple of the size of a block, since the number of blocks is cut off.
pub add_capacity_short :
    (n : ℕ) (b : ByteArray)
    → 1 ≤ b.base_size
    → b.position ≤ b.capacity
    → b.capacity < b.position + n
    → (n ≤ get_capacity (add_capacity n b)) ↔ ((n - get_capacity b) % b.base_size ≡ 0)
add_capacity_short n b h p q =
    rw (capacity_after n b p q, old)
      (
        omega (arith, div-add-mod' rest b.base_size, q, p),
        omega (arith, div-add-mod' rest b.base_size, q, p),
      )
  where
    rest : ℕ
    rest = n - (b.capacity - b.position)

    old : get_capacity b ≡ b.capacity - b.position
    old = old_capacity b p

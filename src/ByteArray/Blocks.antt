-- ===== src/ByteArray/Blocks.antt =====
-- libcocao/bytearray.cc: the list of blocks. The blocks are a list, m_cur is a place in it, and a place
-- past its end is the null pointer. Bytes are numbers below 256.
pub mod Buffers
pub mod Content
pub mod Copy
pub mod Faults
pub mod Inv
pub mod Loops
pub mod Seek
mod Runs
use libcocao.Base.{
  ℕ, zero, suc, ◌+◌, ◌-◌, ◌*◌, ◌/◌, ◌%◌, ◌^◌, Bool, true, false, ◌||◌, Option, none, some, List, [],
  ◌∷◌, ◌++◌, ltb, leb, ◌==◌, if◌then◌else◌, ◌>>=◌, length, take, drop, replicate, is_empty,
}

-- ByteArray::Node without its next. `none` is the null pointer.
pub record Node : Type 0 where
  pub ptr : Option (List ℕ)
  pub size : ℕ

-- ByteArray::Node::Node(size_t): the block gets no memory.
pub node_new : ℕ → Node
node_new s = record { ptr = none; size = s }

pub record ByteArray : Type 0 where
  pub base_size : ℕ
  pub position : ℕ
  pub capacity : ℕ
  pub size : ℕ
  pub is_little_endian : Bool
  pub nodes : List Node
  pub cur : ℕ

-- ByteArray::ByteArray.
pub byte_array_new : ℕ → ByteArray
unfolding node_new
byte_array_new base_size = record {
  base_size = base_size;
  position = 0;
  capacity = base_size;
  size = 0;
  is_little_endian = false;
  nodes = node_new base_size ∷ [];
  cur = 0;
}

-- How a call ends: an access through a null pointer or outside a block is a fault.
pub data Access (A : Type 0) : Type 0 where
  done : A → Access A
  out_of_range fault : Access A

abbrev pub no_fault : {A : Type 0} → Option A → Access A
no_fault none = fault
no_fault (some a) = done a

-- A size_t difference.
abbrev pub minus : ℕ → ℕ → ℕ
minus a b = if leb b a then a - b else 2 ^ 64 + a - b

-- ByteArray::getCapacity.
pub get_capacity : ByteArray → ℕ
get_capacity b = minus b.capacity b.position

-- ByteArray::getReadSize.
pub get_read_size : ByteArray → ℕ
get_read_size b = minus b.size b.position

-- ByteArray::addCapacity. The quotient of doubles is cut off to count.
pub add_capacity : ℕ → ByteArray → ByteArray
unfolding get_capacity node_new
add_capacity n b =
    let count = minus n (get_capacity b) / b.base_size in
    if n == 0 || leb n (get_capacity b) then b else record b {
      nodes = b.nodes ++ replicate count (node_new b.base_size);
      capacity = b.capacity + count * b.base_size;
    }

-- What memcpy does to the bytes from a place on.
pub overwrite : List ℕ → ℕ → List ℕ → List ℕ
overwrite [] n d = []
overwrite (x ∷ xs) (suc n) d = x ∷ overwrite xs n d
overwrite (x ∷ xs) zero [] = x ∷ xs
overwrite (x ∷ xs) zero (v ∷ d) = v ∷ overwrite xs zero d

-- memcpy into a block.
pub copy_in : Node → ℕ → List ℕ → Option Node
unfolding overwrite
copy_in n npos d = elim n.ptr [
  | none ↦ none
  | some block ↦
      if leb (npos + length d) (length block)
      then some (record n { ptr = some (overwrite block npos d) })
      else none
]

-- memcpy out of a block.
pub copy_out : Node → ℕ → ℕ → Option (List ℕ)
copy_out n npos len = elim n.ptr [
  | none ↦ none
  | some block ↦ if leb (npos + len) (length block) then some (take len (drop npos block)) else none
]

-- The loop of ByteArray::write from the current block on: the blocks afterwards, and how many blocks
-- m_cur goes on.
pub write_loop : ℕ → List Node → List ℕ → Option (List Node × ℕ)
unfolding copy_in
write_loop npos [] d = none
write_loop npos (n ∷ ns) d =
    let ncap = minus n.size npos in
    let rest = write_loop 0 ns (drop ncap d) in
    let last =
      copy_in n npos d >>= λ n'. some (n' ∷ ns, if n.size == npos + length d then 1 else 0) in
    let first = copy_in n npos (take ncap d) >>= λ n'. rest >>= λ r. some (n' ∷ r.0, suc r.1) in
    if leb (length d) ncap then last else first

-- ByteArray::write. A m_cur that is null stays null when blocks are added.
pub write : List ℕ → ByteArray → Access ByteArray
unfolding add_capacity write_loop
write d b =
    let b1 = add_capacity (length d) b in
    let position = b1.position + length d in
    let wrote = write_loop (b1.position % b1.base_size) (drop b1.cur b1.nodes) d >>= λ r.
    some (record b1 {
      nodes = take b1.cur b1.nodes ++ r.0;
      cur = b1.cur + r.1;
      position = position;
      size = if ltb b1.size position then position else b1.size;
    }) in
    if is_empty d then done b else if ltb b.cur (length b.nodes) then no_fault wrote else fault

-- The loops of both functions ByteArray::read: the bytes, and how many blocks the pointer goes on.
pub read_loop : ℕ → List Node → ℕ → Option (List ℕ × ℕ)
unfolding copy_out
read_loop npos [] len = none
read_loop npos (n ∷ ns) len =
    let ncap = minus n.size npos in
    let rest = read_loop 0 ns (len - ncap) in
    let last = copy_out n npos len >>= λ d. some (d, if n.size == npos + len then 1 else 0) in
    let first = copy_out n npos ncap >>= λ d. rest >>= λ r. some (d ++ r.0, suc r.1) in
    if leb len ncap then last else first

-- ByteArray::read. The code's subtraction for `ncap` looks at the current block also for no bytes.
pub read : ℕ → ByteArray → Access (List ℕ × ByteArray)
unfolding get_read_size read_loop
read len b =
    let got = read_loop (b.position % b.base_size) (drop b.cur b.nodes) len >>= λ r.
    some (r.0, record b { cur = b.cur + r.1; position = b.position + len }) in
    if ltb (get_read_size b) len
    then out_of_range
    else if len == 0
    then no_fault (node_at b)
    else no_fault got
  where
    node_at : ByteArray → Option (List ℕ × ByteArray)
    node_at b = if ltb b.cur (length b.nodes) then some ([], b) else none

-- ByteArray::read at a position, which starts in the current block all the same.
pub read_at : ℕ → ℕ → ByteArray → Access (List ℕ)
unfolding read_loop
read_at len position b =
    let got = read_loop (position % b.base_size) (drop b.cur b.nodes) len >>= λ r. some r.0 in
    if ltb (minus b.size position) len
    then out_of_range
    else if len == 0
    then no_fault (if ltb b.cur (length b.nodes) then some [] else none)
    else no_fault got

-- ByteArray::toString.
pub to_string : ByteArray → Access (List ℕ)
unfolding get_read_size read_at
to_string b = if get_read_size b == 0 then done [] else read_at (get_read_size b) b.position b

-- The search of setPosition for the block: how many blocks it goes on from m_root.
pub seek : ℕ → List Node → Option ℕ
seek v [] = none
seek v (n ∷ ns) =
    let rest = seek (v - n.size) ns >>= λ k. some (suc k) in
    if ltb n.size v then rest else some (if v == n.size then 1 else 0)

-- ByteArray::setPosition.
pub set_position : ℕ → ByteArray → Access ByteArray
unfolding seek
set_position v b =
    let moved = seek v b.nodes >>= λ k.
    some (record b { position = v; size = if ltb b.size v then v else b.size; cur = k }) in
    if ltb b.capacity v then out_of_range else no_fault moved

-- ByteArray::clear.
pub clear : ByteArray → ByteArray
clear b = record b {
  position = 0;
  size = 0;
  capacity = b.base_size;
  nodes = take 1 b.nodes;
  cur = 0;
}

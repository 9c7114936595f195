-- ===== src/Rt/RandomOrder.antt =====
-- src/rt/sched.c: RandomOrder, the orders in which a P without work asks the others for some, and
-- the Array of that file, in which it keeps its steps.
pub mod Bezout
pub mod Residues
pub mod Bytes
pub mod Visits
pub mod Inside
use colang.Prelude.{
  ℕ, zero, suc, ◌+◌, ◌-◌, ◌*◌, ◌%◌, ◌^◌, Bool, true, false, Option, none, some, List, [], ◌∷◌,
  if◌then◌else◌, ◌==◌, ltb,
}

-- Array: `ptr` is the byte at each offset of the buffer. What memrealloc adds is not written, and
-- has the bytes that `ptr` has there from the start, whichever they are.
pub record ByteArray : Type 0 where
  pub ptr : ℕ → ℕ
  pub cap : ℕ
  pub len : ℕ
  pub elemsize : ℕ

unfoldable pub array_grow : ByteArray → ℕ → ByteArray
array_grow a nelem = record a { cap = (a.cap + nelem) % 2 ^ 32 }

-- The index counts elements of `elemsize` bytes, and one byte is read.
unfoldable pub array_get : ByteArray → ℕ → ℕ
array_get a index = a.ptr (a.elemsize * index % 2 ^ 32)

-- One byte is written at the offset `len`.
unfoldable pub array_append : ByteArray → ℕ → ByteArray
unfolding array_grow
array_append a v =
    let b = if a.cap == a.len then array_grow a (if a.cap == 0 then 16 else a.cap) else a in
    record b { ptr = (λ i. if i == b.len then v % 2 ^ 8 else b.ptr i); len = (b.len + 1) % 2 ^ 32 }

unfoldable pub array_reserve : ByteArray → ℕ → ByteArray
unfolding array_grow
array_reserve a nelem =
    let avail = (a.cap + 2 ^ 32 - a.len) % 2 ^ 32 in
    if ltb avail nelem then array_grow a (nelem - avail) else a

-- The loop of gcd, with fuel for its rounds.
unfoldable pub gcd : ℕ → ℕ → ℕ → Option ℕ
gcd zero a b = none
gcd (suc fuel) a b = elim (b == 0) [ true ↦ some a | false ↦ gcd fuel b (a % b) ]

pub record RandomOrder : Type 0 where
  pub count : ℕ
  pub coprimes : ByteArray

pub record RandomEnum : Type 0 where
  pub i : ℕ
  pub count : ℕ
  pub pos : ℕ
  pub inc : ℕ

abbrev pub is_one : Option ℕ → Bool
is_one none = false
is_one (some n) = n == 1

-- `sizeof(u32)`
unfoldable pub randord_init : RandomOrder → RandomOrder
randord_init ord = record ord { coprimes = record (ord.coprimes) { elemsize = 4 } }

-- The loop of randord_reset, up to `i`.
unfoldable pub coprimes_up_to : ℕ → ℕ → ByteArray → ByteArray
coprimes_up_to count zero a = a
coprimes_up_to count (suc i) a =
    let b = coprimes_up_to count i a in
    if is_one (gcd (suc count) (suc i) count) then array_append b (suc i) else b

unfoldable pub randord_reset : RandomOrder → ℕ → RandomOrder
randord_reset ord count = record {
  count = count;
  coprimes = coprimes_up_to count count (array_reserve (record (ord.coprimes) { len = 0 }) count);
}

-- `none` is a remainder by 0.
unfoldable pub randord_start : RandomOrder → ℕ → Option RandomEnum
randord_start ord i =
    if ord.coprimes.len == 0
    then none
    else some (record {
      i = 0;
      count = ord.count;
      pos = i % ord.count;
      inc = array_get ord.coprimes (i % ord.coprimes.len);
    })

unfoldable pub randenum_done : RandomEnum → Bool
randenum_done e = e.i == e.count

unfoldable pub randenum_next : RandomEnum → RandomEnum
randenum_next e = record e { i = (e.i + 1) % 2 ^ 32; pos = (e.pos + e.inc) % 2 ^ 32 % e.count }

abbrev pub with_pos : ℕ → Option (List ℕ) → Option (List ℕ)
with_pos p none = none
with_pos p (some ps) = some (p ∷ ps)

-- `for (; !randenum_done(&e); randenum_next(&e))`: the positions that the loop sees.
unfoldable pub positions : ℕ → RandomEnum → Option (List ℕ)
unfolding randenum_done randenum_next
positions zero e = none
positions (suc fuel) e = elim (randenum_done e) [
  | true ↦ some []
  | false ↦ with_pos e.pos (positions fuel (randenum_next e))
]

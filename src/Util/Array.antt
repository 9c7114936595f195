-- ===== src/Util/Array.antt =====
-- src/co/util/array.h and array.c: the growable array of pointers. `v` is the storage with its
-- `cap` places, of which the first `len` are in use; what stands in a place that was never written
-- is 0. `align2` and the allocator are the base library's: `align2(x, 32)` is the next multiple.
pub mod Growth
pub mod Edit
pub mod Search
use colang.Prelude.{
  ℕ, zero, suc, ◌+◌, ◌-◌, ◌*◌, ◌/◌, ◌%◌, ◌^◌, max, Bool, true, false, ◌||◌, Option, none, some,
  List, [], ◌∷◌, ◌++◌, if◌then◌else◌, ◌==◌, ltb, get_or, set, take, replicate, length,
}

pub record Array : Type 0 where
  pub v : List ℕ
  pub cap : ℕ
  pub len : ℕ
  pub onstack : Bool

unfoldable pub array_init : Array
array_init = record { v = []; cap = 0; len = 0; onstack = false }

unfoldable pub array_init_with_storage : List ℕ → Array
array_init_with_storage storage = record {
  v = storage;
  cap = length storage;
  len = 0;
  onstack = true;
}

unfoldable pub array_clear : Array → Array
array_clear a = record a { len = 0 }

-- ARRAY_CAP_STEP
abbrev pub cap_step : ℕ
cap_step = 32

-- `u32 cap = align2(reqcap, ARRAY_CAP_STEP)`
unfoldable pub aligned_cap : ℕ → ℕ
aligned_cap reqcap = (reqcap + (cap_step - 1)) / cap_step * cap_step % 2 ^ 32

-- The storage after a move to one of `cap` places: `memrealloc` keeps all old places that fit, and
-- the copy from the stack keeps the first `used`.
unfoldable pub moved : List ℕ → ℕ → ℕ → List ℕ
moved v used cap = take cap (take used v ++ replicate (cap - used) 0)

unfoldable pub array_grow : Array → ℕ → Array
array_grow a addl =
    let cap = aligned_cap ((a.cap + addl) % 2 ^ 32) in
    if a.onstack
    then record { v = moved a.v a.len cap; cap = cap; len = a.len; onstack = false }
    else record { v = moved a.v a.cap cap; cap = cap; len = a.len; onstack = false }

unfoldable pub array_push : Array → ℕ → Array
array_push a x =
    let room = if a.len == a.cap then array_grow a 1 else a in
    record room { v = set room.v room.len x; len = room.len + 1 }

-- ArrayPop asserts that the array is not empty.
unfoldable pub array_pop : Array → Option (Array × ℕ)
array_pop a =
    if ltb 0 a.len then some (record a { len = a.len - 1 }, get_or a.v (a.len - 1) 0) else none

-- ArrayIndexOf: from index `i` on, with the entries left; `none` is -1.
unfoldable pub index_from : List ℕ → ℕ → ℕ → ℕ → Option ℕ
index_from v zero i entry = none
index_from v (suc left) i entry =
    let rest = index_from v left (i + 1) entry in if get_or v i 0 == entry then some i else rest

unfoldable pub array_index_of : Array → ℕ → Option ℕ
array_index_of a entry = index_from a.v a.len 0 entry

-- ArrayLastIndexOf: from the entry before `i` down.
unfoldable pub last_index_below : List ℕ → ℕ → ℕ → Option ℕ
last_index_below v zero entry = none
last_index_below v (suc i) entry =
    let rest = last_index_below v i entry in if get_or v i 0 == entry then some i else rest

unfoldable pub array_last_index_of : Array → ℕ → Option ℕ
array_last_index_of a entry = last_index_below a.v a.len entry

-- The loop of ArrayRemove, with the rounds left.
unfoldable pub close_gap : ℕ → ℕ → ℕ → List ℕ → List ℕ
close_gap zero i count v = v
close_gap (suc left) i count v = close_gap left (i + 1) count (set v (i - count) (get_or v i 0))

-- ArrayRemove asserts that the range lies inside.
unfoldable pub array_remove : Array → ℕ → ℕ → Option Array
array_remove a start count =
    if ltb a.len (start + count)
    then none
    else some (record a {
      v = close_gap (a.len - (start + count)) (start + count) count a.v;
      len = a.len - count;
    })

-- `memcpy(&a->v[start], src, …)`
unfoldable pub write_at : List ℕ → ℕ → List ℕ → List ℕ
write_at v start [] = v
write_at v start (x ∷ src) = write_at (set v start x) (start + 1) src

-- ArrayCopy. With no storage yet it allocates what is needed and no more.
unfoldable pub array_reserve : Array → ℕ → Array
array_reserve a needed =
    if ltb a.cap needed
    then (if length a.v == 0
        then record { v = replicate needed 0; cap = needed; len = a.len; onstack = false }
        else array_grow a (needed - a.cap))
    else a

unfoldable pub array_copy : Array → ℕ → List ℕ → Array
array_copy a start src =
    let needed = (start + length src) % 2 ^ 32 in
    let room = array_reserve a needed in
    record room { v = write_at room.v start src; len = max room.len needed }

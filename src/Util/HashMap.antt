-- ===== src/Util/HashMap.antt =====
-- src/co/util/hashmap.c.h: the hash map that PtrMap (ptrmap.c) and SymMap (symmap.c) are made from.
-- Keys and values are pointers, compared as such: numbers, with 0 for NULL. A deleted entry keeps
-- its key and has no value. `hash` is HASHMAP_KEY_HASH. Memory from `memalloc` is zeroed.
pub mod Bucket
pub mod Tidy
pub mod Map
use colang.Prelude.{
  ℕ, zero, suc, ◌+◌, ◌-◌, ◌*◌, ◌%◌, ◌^◌, Bool, true, false, Option, none, some, List, [], ◌∷◌,
  if◌then◌else◌, ◌==◌, get_or, set, replicate,
}

pub record Entry : Type 0 where
  pub key : ℕ
  pub value : ℕ

abbrev pub Bucket : Type 0
Bucket = List Entry

abbrev pub free_entry : Entry
free_entry = record { key = 0; value = 0 }

-- HASHMAP_BUCKET_ENTRIES
abbrev pub bucket_entries : ℕ
bucket_entries = 8

abbrev pub free_bucket : Bucket
free_bucket = replicate bucket_entries free_entry

-- `dense` is the flag HMFlagBucketMemoryDense: the buckets lie inside the map's own memory.
pub record HashMap : Type 0 where
  pub cap : ℕ
  pub len : ℕ
  pub dense : Bool
  pub buckets : List Bucket

-- Init; New sets the flag.
unfoldable pub map_init : ℕ → HashMap
map_init initbuckets = record {
  cap = initbuckets;
  len = 0;
  dense = false;
  buckets = replicate initbuckets free_bucket;
}

unfoldable pub map_new : ℕ → HashMap
map_new initbuckets = record (map_init initbuckets) { dense = true }

-- The loop of Get over the entries of a bucket.
unfoldable pub bucket_get : Bucket → ℕ → ℕ
bucket_get [] k = 0
bucket_get (e ∷ b) k = if e.key == k then e.value else if e.key == 0 then 0 else bucket_get b k

-- What a loop that passes an entry by comes back with.
abbrev pub behind : Entry → Option (Bucket × ℕ) → Option (Bucket × ℕ)
behind e none = none
behind e (some (b, old)) = some (e ∷ b, old)

-- The loop of Set: the bucket and the replaced value, or `none` where no entry was free.
unfoldable pub bucket_set : Bucket → ℕ → ℕ → Option (Bucket × ℕ)
bucket_set [] k v = none
bucket_set (e ∷ b) k v =
    if e.value == 0
    then some (record { key = k; value = v } ∷ b, 0)
    else if e.key == k
    then some (record e { value = v } ∷ b, e.value)
    else behind e (bucket_set b k v)

-- The loop of Del: the bucket and the deleted value, NULL where there is none.
unfoldable pub bucket_del : Bucket → ℕ → Bucket × ℕ
bucket_del [] k = ([], 0)
bucket_del (e ∷ b) k =
    let (b', old) = bucket_del b k in
    if e.key == k
    then (if e.value == 0 then (e ∷ b, 0) else (record e { value = 0 } ∷ b, e.value))
    else (e ∷ b', old)

-- The innermost loop of mapGrow: the first entry with no key takes `e`.
unfoldable pub bucket_put : Bucket → Entry → Option Bucket
bucket_put [] e = none
bucket_put (f ∷ b) e =
    if f.key == 0
    then some (e ∷ b)
    else elim (bucket_put b e) [ none ↦ none | some b' ↦ some (f ∷ b') ]

module _ (hash : ℕ → ℕ) where
  -- One entry of the old buckets moves; `none` is the jump to `rehash`.
  unfoldable pub move_entry : ℕ → Entry → List Bucket → Option (List Bucket)
  move_entry cap e fresh =
      let index = hash e.key % cap in
      elim (bucket_put (get_or fresh index []) e) [
        | none ↦ none
        | some b ↦ some (set fresh index b)
      ]

  unfoldable pub move_bucket : ℕ → Bucket → List Bucket → Option (List Bucket)
  move_bucket cap [] fresh = some fresh
  move_bucket cap (e ∷ b) fresh =
      if e.key == 0
      then some fresh
      else if e.value == 0
      then move_bucket cap b fresh
      else elim (move_entry cap e fresh) [ none ↦ none | some fresh' ↦ move_bucket cap b fresh' ]

  unfoldable pub move_buckets : ℕ → List Bucket → List Bucket → Option (List Bucket)
  move_buckets cap [] fresh = some fresh
  move_buckets cap (b ∷ bs) fresh = elim (move_bucket cap b fresh) [
    | none ↦ none
    | some fresh' ↦ move_buckets cap bs fresh'
  ]

  -- mapGrow from its label `rehash` on, with fuel for the jumps back to it; `cap` is the local.
  unfoldable pub rehash : ℕ → HashMap → ℕ → Option HashMap
  rehash zero m cap = none
  rehash (suc fuel) m cap = elim (move_buckets cap m.buckets (replicate cap free_bucket)) [
    | none ↦ rehash fuel m (cap * 2)
    | some fresh ↦ some (record m { cap = cap; dense = false; buckets = fresh })
  ]

  unfoldable pub map_grow : ℕ → HashMap → Option HashMap
  map_grow fuel m = rehash fuel m (m.cap * 2)

  unfoldable pub bucket_of : HashMap → ℕ → Bucket
  bucket_of m k = get_or m.buckets (hash k % m.cap) []

  -- Get cuts the hash to a u32, where Set and Del do not.
  unfoldable pub map_get : HashMap → ℕ → ℕ
  map_get m k = bucket_get (get_or m.buckets (hash k % 2 ^ 32 % m.cap) []) k

  -- The loop of Set, with fuel for its rounds and for those of mapGrow in each.
  unfoldable pub set_loop : ℕ → HashMap → ℕ → ℕ → Option (HashMap × ℕ)
  set_loop zero m k v = none
  set_loop (suc fuel) m k v = elim (bucket_set (bucket_of m k) k v) [
    | some (b, old) ↦ some (
      record m {
        len = (if old == 0 then m.len + 1 else m.len);
        buckets = set m.buckets (hash k % m.cap) b;
      },
      old,
    )
    | none ↦ elim (map_grow fuel m) [ none ↦ none | some m' ↦ set_loop fuel m' k v ]
  ]

  -- Set; `none` is also its assertion that the value is not NULL.
  unfoldable pub map_set : ℕ → HashMap → ℕ → ℕ → Option (HashMap × ℕ)
  map_set fuel m k v = elim (v == 0) [ true ↦ none | false ↦ set_loop fuel m k v ]

  unfoldable pub map_del : HashMap → ℕ → HashMap × ℕ
  map_del m k =
      let (b, old) = bucket_del (bucket_of m k) k in
      if old == 0
      then (m, 0)
      else (record m { len = m.len - 1; buckets = set m.buckets (hash k % m.cap) b }, old)

unfoldable pub map_clear : HashMap → HashMap
map_clear m = record m { len = 0; buckets = replicate m.cap free_bucket }

-- `if (stop) { return; }`
abbrev pub stop_or {ℓ} : {S : Type ℓ} → S × Bool → (S → S × Bool) → S × Bool
stop_or (s, true) next = (s, true)
stop_or (s, false) next = next s

-- Iter, with a callback that changes the user's data and may set `*stop`.
module _ {ℓ} {S : Type ℓ} (it : ℕ → ℕ → S → S × Bool) where
  unfoldable pub iter_bucket : Bucket → S → S × Bool
  iter_bucket [] s = (s, false)
  iter_bucket (e ∷ b) s =
      if e.key == 0
      then (s, false)
      else if e.value == 0
      then iter_bucket b s
      else stop_or (it e.key e.value s) (iter_bucket b)

  unfoldable pub map_iter : List Bucket → S → S × Bool
  map_iter [] s = (s, false)
  map_iter (b ∷ bs) s = stop_or (iter_bucket b s) (map_iter bs)

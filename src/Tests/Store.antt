-- ===== src/Tests/Store.antt =====
-- The hash map and the constant cache on small inputs.
use colang.Prelude.{ℕ, zero, suc, ◌≡◌, refl, false, none, some, [], ◌∷◌, arith, get_or}
use colang.Util.KeyOrder.{word_order}
use colang.Util.HashMap.{
  Entry, free_entry, Bucket, HashMap, bucket_get, bucket_set, bucket_del, bucket_of, map_get,
  map_set, map_del,
}
use colang.Util.HashMap.Bucket.{IsTidy, OnBucket}
use colang.Util.HashMap.Tidy.{CanSet, bucket_revives}
use colang.Util.HashMap.Map.{IsMap, map_get-map_set, map_get-map_del}
use colang.Ir.Bits.{popcount}
use colang.Ir.ConstCache.{IrConstCache, const_cache_get, const_cache_add}
use colang.Ir.ConstCache.Valid.{IsValid, or_empty, const_cache_add_valid}
use colang.Ir.ConstCache.Map.{const_cache_get-add_hint}

abbrev low_hash : ℕ → ℕ
low_hash k = k

abbrev filled : Bucket
filled = record { key = 3; value = 30 } ∷ free_entry ∷ free_entry ∷ []

filled-IsTidy : IsTidy filled
filled-IsTidy = (
  (λ e. absurd (ground arith)),
  (λ e. ((λ f. absurd (ground arith)), ((λ f. absurd (ground arith)), tt))),
  (
    (λ e. (refl, (refl, refl, tt))),
    (λ e. absurd (e refl)),
    ((λ e. (refl, tt)), (λ e. absurd (e refl)), tt),
  ),
)

abbrev small_map : HashMap
small_map = record { cap = 1; len = 1; dense = false; buckets = filled ∷ [] }

small_map-IsTidy : (i : ℕ) → IsTidy (get_or small_map.buckets i [])
small_map-IsTidy zero = filled-IsTidy
small_map-IsTidy (suc n) = tt

small_map-IsMap : IsMap low_hash small_map
small_map-IsMap = record {
  some_buckets = omega arith;
  sized = refl;
  tidy = small_map-IsTidy;
  narrow = λ k. omega arith;
}

map_get-map_set_example :
    (r : HashMap × ℕ) × (map_set low_hash 1 small_map 5 50 ≡ some r) × (map_get low_hash r.0 5 ≡ 50)
unfolding bucket_of bucket_set
map_get-map_set_example =
    map_get-map_set low_hash 0 small_map 5 5 50 small_map-IsMap (λ e. absurd (ground arith))
      (λ e. absurd (ground arith)) (λ e. absurd (ground arith)) (λ e. absurd (ground arith))

map_get-map_del_example : map_get low_hash (map_del low_hash small_map 3).0 3 ≡ 0
map_get-map_del_example =
    map_get-map_del low_hash small_map 3 3 small_map-IsMap (λ e. absurd (ground arith))
      (λ e. absurd (ground arith))

filled-CanSet : CanSet 5 filled
filled-CanSet = (
  (λ e. absurd (ground arith)),
  (λ e f. ((λ g. ((λ h. absurd (ground arith)), tt)), (λ g. absurd (g refl)))),
)

bucket_revives_example :
    let deleted : Entry = record { key = 2; value = 0 } in
    OnBucket
      (λ b₁.
        OnBucket
          (λ b₂. bucket_get b₂ 3 ≡ bucket_get filled 3)
          (bucket_set (bucket_del b₁ 3).0 4 40))
      (bucket_set (deleted ∷ filled) 3 31)
bucket_revives_example =
    bucket_revives 2 3 4 31 40 filled (λ e. absurd (ground arith)) (λ e. absurd (ground arith))
      (λ e. absurd (ground arith)) (λ e. absurd (ground arith))

empty_cache : IsValid {V = ℕ} (or_empty none)
unfolding popcount
empty_cache = record { dense = refl; branches_ok = tt }

abbrev small_cache : IrConstCache ℕ
small_cache = const_cache_add none 4 100 7 0

small_cache-IsValid : IsValid small_cache
small_cache-IsValid = const_cache_add_valid none 4 100 7 empty_cache (omega arith)

const_cache_add_valid_example : IsValid (const_cache_add (some small_cache) 6 200 8 0)
const_cache_add_valid_example =
    const_cache_add_valid (some small_cache) 6 200 8 small_cache-IsValid (omega arith)

const_cache_get-add_hint_example :
    (const_cache_get
      (some
        (const_cache_add (some small_cache) 4 200 8 (const_cache_get (some small_cache) 4 200).1))
      4
      200).0
    ≡ some 8
const_cache_get-add_hint_example =
    const_cache_get-add_hint (some small_cache) 4 4 200 200 200 8 small_cache-IsValid (omega arith)
      (omega arith)

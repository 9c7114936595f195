-- ===== src/Util/HashMap/Map.antt =====
-- The map as a whole: Get, Set and Del, while the buckets have room.
use native.Mathlib.Nat.{mod-lt}
use colang.Prelude.{
  ℕ, suc, ◌+◌, ◌-◌, ◌%◌, ◌^◌, ◌<◌, ◌≡◌, ◌≢◌, refl, sym, ◌∙◌, true, false, Option, none, some, [],
  arith, if◌then◌else◌, ◌==◌, ==_iff, Bool-cases, inl, inr, get_or, set, length, length-set,
  get_or-set_self, get_or-set_ne,
}
use colang.Util.HashMap.{
  Bucket, HashMap, bucket_get, bucket_set, bucket_del, bucket_of, map_get, set_loop, map_set,
  map_del,
}
use colang.Util.HashMap.Bucket.{
  IsTidy, OnBucket, bucket_get-set, bucket_get-del, bucket_del-old, bucket_del-IsTidy,
}

slots_apart : (i j k p : ℕ) → i == j ≡ false → (k ≡ p → i ≡ j) → k == p ≡ false
slots_apart i j k p h e = ground arith

module _ (hash : ℕ → ℕ) where
  -- `cap` buckets, at least one, all tidy; and Get, which cuts the hash to 32 bits, looks where Set
  -- and Del do. That is so for hashes of 32 bits, and where `cap` is a power of two.
  pub record IsMap (m : HashMap) : Type 0 where
    pub some_buckets : 0 < m.cap
    pub sized : length m.buckets ≡ m.cap
    pub tidy : (i : ℕ) → IsTidy (get_or m.buckets i [])
    pub narrow : (k : ℕ) → hash k % 2 ^ 32 % m.cap ≡ hash k % m.cap

  slot_lt : (m : HashMap) (k : ℕ) → IsMap m → hash k % m.cap < length m.buckets
  slot_lt m k h = rw h.sized (mod-lt (hash k) h.some_buckets)

  IsTidy-bucket : (m : HashMap) (k : ℕ) → IsMap m → IsTidy (bucket_of hash m k)
  unfolding bucket_of
  IsTidy-bucket m k h = h.tidy (hash k % m.cap)

  map_get-bucket_of :
      (m : HashMap) (k : ℕ) → IsMap m → map_get hash m k ≡ bucket_get (bucket_of hash m k) k
  unfolding map_get bucket_of
  map_get-bucket_of m k h = rw (h.narrow k) refl

  -- Where Del finds nothing, the key reads NULL already.
  absent :
      (m : HashMap) (k p : ℕ)
      → IsMap m
      → k ≢ 0
      → (bucket_del (bucket_of hash m k) k).1 == 0 ≡ true
      → map_get hash m p ≡ (if k == p then 0 else map_get hash m p)
  absent m k p h hk e = elim (Bool-cases (k == p)) [
    | inl same ↦
        let reads : bucket_get (bucket_of hash m k) k ≡ 0 =
          sym (bucket_del-old (bucket_of hash m k) k hk (IsTidy-bucket m k h)) ∙ (==_iff _ 0).0 e in
        rw (same, map_get-bucket_of m p h, ← (==_iff k p).0 same) reads
    | inr other ↦ rw other refl
  ]

  -- A map whose bucket of `k` is replaced reads there what the bucket does.
  get_or-slot :
      (m : HashMap) (k p : ℕ) (b : Bucket)
      → IsMap m
      → hash p % m.cap ≡ hash k % m.cap
      → get_or (set m.buckets (hash k % m.cap) b) (hash p % m.cap) [] ≡ b
  get_or-slot m k p b h e = rw e (get_or-set_self m.buckets (hash k % m.cap) b [] (slot_lt m k h))

  IsTidy-slot :
      (m : HashMap) (k : ℕ) (b : Bucket)
      → IsMap m
      → IsTidy b
      → (i : ℕ) → IsTidy (get_or (set m.buckets (hash k % m.cap) b) i [])
  IsTidy-slot m k b h t i = elim (Bool-cases (hash k % m.cap == i)) [
    | inl e ↦ rw (← (==_iff (hash k % m.cap) i).0 e, get_or-slot m k k b h refl) t
    | inr e ↦
        rw (get_or-set_ne m.buckets (hash k % m.cap) i b [] (other (hash k % m.cap) i e)) (h.tidy i)
  ]
    where
      other : (a c : ℕ) → a == c ≡ false → a ≢ c
      other a c ne = ground arith

  -- A write to the bucket of `k` that changes what `k` reads changes nothing else of the map.
  map_get-slot :
      (m : HashMap) (k p v n : ℕ) (b : Bucket)
      → IsMap m
      → bucket_get b p ≡ (if k == p then v else bucket_get (bucket_of hash m k) p)
      → map_get hash (record m { len = n; buckets = set m.buckets (hash k % m.cap) b }) p
        ≡ (if k == p then v else map_get hash m p)
  unfolding map_get bucket_of
  map_get-slot m k p v n b h e = elim (Bool-cases (hash p % m.cap == hash k % m.cap)) [
    | inl same ↦
        let slots : hash p % m.cap ≡ hash k % m.cap = (==_iff _ _).0 same in
        rw (h.narrow p, get_or-slot m k p b h slots, slots) e
    | inr other ↦
        let apart : k == p ≡ false =
          slots_apart (hash p % m.cap) (hash k % m.cap) k p other (λ q. rw q refl) in
        rw
          (
            h.narrow p,
            get_or-set_ne m.buckets (hash k % m.cap) (hash p % m.cap) b [] (ground arith),
            apart,
          )
          refl
  ]

  -- For a map with tidy buckets in which Get looks where Del does, and keys that are not NULL,
  -- after Del the key reads NULL, and every other key what it read before.
  pub map_get-map_del :
      (m : HashMap) (k p : ℕ)
      → IsMap m
      → k ≢ 0
      → p ≢ 0
      → map_get hash (map_del hash m k).0 p ≡ (if k == p then 0 else map_get hash m p)
  unfolding map_del
  map_get-map_del m k p h hk hp =
      let b = bucket_of hash m k in
      elim (Bool-cases ((bucket_del b k).1 == 0)) [
        | inl nothing ↦ rw nothing (absent m k p h hk nothing)
        | inr there ↦ rw there (
            map_get-slot m k p 0 (m.len - 1) (bucket_del b k).0 h
              (bucket_get-del b k p (IsTidy-bucket m k h) hk hp))
      ]

  -- For a map with tidy buckets in which Get looks where Set does, and keys and a value that are
  -- not NULL, where the bucket of the key has room, Set needs no growing and returns a map in
  -- which the key reads the new value and every other key what it read before.
  pub map_get-map_set :
      (fuel : ℕ) (m : HashMap) (k p v : ℕ)
      → IsMap m
      → k ≢ 0
      → p ≢ 0
      → v ≢ 0
      → bucket_set (bucket_of hash m k) k v ≢ none
      → (r : HashMap × ℕ) × (map_set hash (suc fuel) m k v ≡ some r)
        × (map_get hash r.0 p ≡ (if k == p then v else map_get hash m p))
  map_get-map_set fuel m k p v h hk hp hv room =
      set_room (bucket_set (bucket_of hash m k) k v) refl
        (bucket_get-set (bucket_of hash m k) k p v (IsTidy-bucket m k h) hk hp)
    where
      set_room :
          (o : Option (Bucket × ℕ))
          → bucket_set (bucket_of hash m k) k v ≡ o
          → OnBucket
              (λ b. bucket_get b p ≡ (if k == p then v else bucket_get (bucket_of hash m k) p))
              o
          → (r : HashMap × ℕ) × (map_set hash (suc fuel) m k v ≡ some r)
            × (map_get hash r.0 p ≡ (if k == p then v else map_get hash m p))
      set_room none e g = absurd (room e)
      set_room (some (b, old)) e g = (
        (
          record m {
            len = (if old == 0 then m.len + 1 else m.len);
            buckets = set m.buckets (hash k % m.cap) b;
          },
          old,
        ),
        (let there : (v == 0) ≡ false = ground arith in
            unfold map_set set_loop in rw (there, map_set, set_loop, e) refl),
        map_get-slot m k p v _ b h g,
      )

  -- Del of a key that is not NULL keeps the map in order: some buckets, as many as `cap` says, and
  -- every bucket tidy.
  pub map_del-IsMap : (m : HashMap) (k : ℕ) → IsMap m → k ≢ 0 → IsMap (map_del hash m k).0
  unfolding map_del
  map_del-IsMap m k h hk =
      let b = bucket_of hash m k in
      elim (Bool-cases ((bucket_del b k).1 == 0)) [
        | inl nothing ↦ rw nothing h
        | inr there ↦ rw there (record {
          some_buckets = h.some_buckets;
          sized = length-set m.buckets (hash k % m.cap) (bucket_del b k).0 ∙ h.sized;
          narrow = h.narrow;
          tidy =
              IsTidy-slot m k (bucket_del b k).0 h (bucket_del-IsTidy b k (IsTidy-bucket m k h) hk);
        })
      ]

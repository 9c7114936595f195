-- ===== src/Util/HashMap/Tidy.antt =====
-- Where Set keeps a bucket tidy, and what happens where it does not.
use colang.Prelude.{
  ℕ, ◌≡◌, ◌≢◌, refl, sym, true, false, Option, none, some, [], ◌∷◌, arith, ◌==◌, Bool-cases, ==_iff,
  inl, inr,
}
use colang.Util.HashMap.{Entry, Bucket, bucket_get, bucket_set, bucket_del, behind}
use colang.Util.HashMap.Bucket.{
  Lacks, IsBlank, IsTidy, OnBucket, bucket_set_free, bucket_set_same, bucket_set_later,
}

-- Set finds no entry of the key behind the first free one.
abbrev pub CanSet : ℕ → Bucket → Type 0
CanSet k [] = Unit
CanSet k (e ∷ b) = (e.value ≡ 0 → Lacks k b) × (e.value ≢ 0 → e.key ≢ k → CanSet k b)

Lacks-behind :
    (e : Entry) (j : ℕ) (r : Option (Bucket × ℕ))
    → e.key ≢ j
    → OnBucket (Lacks j) r
    → OnBucket (Lacks j) (behind e r)
Lacks-behind e j none h l = tt
Lacks-behind e j (some (b, old)) h l = (h, l)

Lacks-set : (b : Bucket) (k v j : ℕ) → j ≢ k → Lacks j b → OnBucket (Lacks j) (bucket_set b k v)
Lacks-set [] k v j h l = unfold bucket_set in tt
Lacks-set (e ∷ b) k v j h l = elim (Bool-cases (e.value == 0)) [
  | inl free ↦ rw (bucket_set_free e b k v free) ((λ q. h (sym q)), l.1)
  | inr used ↦ elim (Bool-cases (e.key == k)) [
    | inl same ↦ rw (bucket_set_same e b k v used same) l
    | inr other ↦
        rw (bucket_set_later e b k v used other)
          (Lacks-behind e j (bucket_set b k v) l.0 (Lacks-set b k v j h l.1))
  ]
]

IsTidy-behind :
    (e : Entry) (r : Option (Bucket × ℕ))
    → e.key ≢ 0
    → OnBucket (Lacks e.key) r
    → OnBucket IsTidy r
    → OnBucket IsTidy (behind e r)
IsTidy-behind e none h l t = tt
IsTidy-behind e (some (b, old)) h l t = ((λ z. absurd (h z)), (λ _. l), t)

IsBlank-IsTidy : (b : Bucket) → IsBlank b → IsTidy b
IsBlank-IsTidy [] h = tt
IsBlank-IsTidy (e ∷ b) h = ((λ _. (h.1, h.2)), (λ n. absurd (n h.0)), IsBlank-IsTidy b h.2)

named_of : (e : Entry) (b : Bucket) → IsTidy (e ∷ b) → e.value == 0 ≡ false → e.key ≢ 0
named_of e b t used = ground arith

-- Set of a key that is not NULL, where it fits, keeps a tidy bucket tidy, if no free entry stands
-- before an entry of the key.
pub bucket_set-IsTidy :
    (b : Bucket) (k v : ℕ) → IsTidy b → CanSet k b → k ≢ 0 → OnBucket IsTidy (bucket_set b k v)
bucket_set-IsTidy [] k v t c hk = unfold bucket_set in tt
bucket_set-IsTidy (e ∷ b) k v t c hk = elim (Bool-cases (e.value == 0)) [
  | inl free ↦
      rw (bucket_set_free e b k v free)
        ((λ z. absurd (hk z)), (λ _. c.0 ((==_iff e.value 0).0 free)), t.2)
  | inr used ↦
      let named : e.key ≢ 0 = λ z. named_of e b t used z in
      elim (Bool-cases (e.key == k)) [
        | inl same ↦ rw (bucket_set_same e b k v used same) ((λ z. absurd (named z)), t.1, t.2)
        | inr other ↦ rw (bucket_set_later e b k v used other) (
            IsTidy-behind e (bucket_set b k v) named
              (Lacks-set b k v e.key (ground arith) (t.1 named))
              (bucket_set-IsTidy b k v t.2 (c.1 (ground arith) (ground arith)) hk))
      ]
]

-- Where a deleted entry stands first in a bucket, Set of a key there, Del of the key and Set of
-- another key, with keys and a value that are not NULL, leave the key with what it read in the
-- rest of the bucket before the first Set: an older value is read again.
pub bucket_revives :
    (q k j v w : ℕ) (b : Bucket)
    → k ≢ 0
    → j ≢ 0
    → k ≢ j
    → v ≢ 0
    → let deleted : Entry = record { key = q; value = 0 } in
      OnBucket
        (λ b₁.
          OnBucket (λ b₂. bucket_get b₂ k ≡ bucket_get b k) (bucket_set (bucket_del b₁ k).0 j w))
        (bucket_set (deleted ∷ b) k v)
unfolding bucket_set bucket_get bucket_del
bucket_revives q k j v w b hk hj hkj hv =
    let own : k == k ≡ true = ground arith in
    let kept : v == 0 ≡ false = ground arith in
    let other : j == k ≡ false = ground arith in
    let named : j == 0 ≡ false = ground arith in rw (own, kept) (rw (other, named) refl)

-- ===== src/Util/HashMap/Bucket.antt =====
-- One bucket as a map from keys to values.
use colang.Prelude.{
  ℕ, ◌≡◌, ◌≢◌, refl, true, false, Option, none, some, [], ◌∷◌, arith, if◌then◌else◌, ◌==◌,
  Bool-cases, inl, inr,
}
use colang.Util.HashMap.{Entry, Bucket, bucket_get, bucket_set, bucket_del, behind}

-- No entry has the key `k`.
abbrev pub Lacks : ℕ → Bucket → Type 0
Lacks k [] = Unit
Lacks k (e ∷ b) = (e.key ≢ k) × Lacks k b

abbrev pub IsBlank : Bucket → Type 0
IsBlank [] = Unit
IsBlank (e ∷ b) = (e.key ≡ 0) × (e.value ≡ 0) × IsBlank b

-- Entries that were never used stand at the end, and a key stands at one place.
abbrev pub IsTidy : Bucket → Type 0
IsTidy [] = Unit
IsTidy (e ∷ b) = (e.key ≡ 0 → (e.value ≡ 0) × IsBlank b) × (e.key ≢ 0 → Lacks e.key b) × IsTidy b

bucket_get-Lacks : (b : Bucket) (k : ℕ) → Lacks k b → bucket_get b k ≡ 0
unfolding bucket_get
bucket_get-Lacks [] k h = refl
bucket_get-Lacks (e ∷ b) k h = ground (arith, bucket_get-Lacks b k h.1)

bucket_get-IsBlank : (b : Bucket) (k : ℕ) → IsBlank b → bucket_get b k ≡ 0
unfolding bucket_get
bucket_get-IsBlank [] k h = refl
bucket_get-IsBlank (e ∷ b) k h = ground arith

module _ (e : Entry) (b : Bucket) (k v : ℕ) where
  -- The three branches of the loop of Set.
  pub bucket_set_free :
      e.value == 0 ≡ true → bucket_set (e ∷ b) k v ≡ some (record { key = k; value = v } ∷ b, 0)
  unfolding bucket_set
  bucket_set_free h = rw h refl

  pub bucket_set_same :
      e.value == 0 ≡ false
      → e.key == k ≡ true
      → bucket_set (e ∷ b) k v ≡ some (record e { value = v } ∷ b, e.value)
  unfolding bucket_set
  bucket_set_same h same = rw (h, same) refl

  pub bucket_set_later :
      e.value == 0 ≡ false
      → e.key == k ≡ false
      → bucket_set (e ∷ b) k v ≡ behind e (bucket_set b k v)
  unfolding bucket_set
  bucket_set_later h other = rw (h, other) refl

-- Of a result, if there is one.
abbrev pub OnBucket {κ} : (Bucket → Type κ) → Option (Bucket × ℕ) → Type κ
OnBucket P none = Unit
OnBucket P (some (b, old)) = P b

abbrev ReadsAs : Bucket → ℕ → ℕ → ℕ → Bucket → Type 0
ReadsAs b k p v b' = bucket_get b' p ≡ (if k == p then v else bucket_get b p)

ReadsAs-behind :
    (e : Entry) (b : Bucket) (k p v : ℕ)
    → e.key == k ≡ false
    → e.key ≢ 0
    → (r : Option (Bucket × ℕ)) → OnBucket (ReadsAs b k p v) r
    → OnBucket (ReadsAs (e ∷ b) k p v) (behind e r)
unfolding bucket_get
ReadsAs-behind e b k p v other ne none h = tt
ReadsAs-behind e b k p v other ne (some (b', old)) h = ground arith

-- Set in a bucket that has room: the key reads the new value, every other key what it did.
pub bucket_get-set :
    (b : Bucket) (k p v : ℕ)
    → IsTidy b
    → k ≢ 0
    → p ≢ 0
    → OnBucket (ReadsAs b k p v) (bucket_set b k v)
bucket_get-set [] k p v t hk hp = unfold bucket_set in tt
bucket_get-set (e ∷ b) k p v t hk hp = elim (Bool-cases (e.value == 0)) [
  | inl free ↦
      rw (bucket_set_free e b k v free)
        (unfold bucket_get in ground (arith, bucket_get-IsBlank b p, bucket_get-Lacks b p))
  | inr used ↦ elim (Bool-cases (e.key == k)) [
    | inl same ↦ rw (bucket_set_same e b k v used same) (unfold bucket_get in ground arith)
    | inr other ↦ rw (bucket_set_later e b k v used other) (
        ReadsAs-behind e b k p v other (ground arith) (bucket_set b k v)
          (bucket_get-set b k p v t.2 hk hp))
  ]
]

-- Del: the key is gone, every other key reads what it did.
pub bucket_get-del :
    (b : Bucket) (k p : ℕ)
    → IsTidy b
    → k ≢ 0
    → p ≢ 0
    → bucket_get (bucket_del b k).0 p ≡ (if k == p then 0 else bucket_get b p)
unfolding bucket_get bucket_del
bucket_get-del [] k p t hk hp = ground arith
bucket_get-del (e ∷ b) k p t hk hp =
    ground (arith, bucket_get-del b k p t.2 hk hp, bucket_get-IsBlank b p)

bucket_del-IsBlank : (b : Bucket) (k : ℕ) → k ≢ 0 → IsBlank b → (bucket_del b k).1 ≡ 0
unfolding bucket_del
bucket_del-IsBlank [] k hk h = refl
bucket_del-IsBlank (e ∷ b) k hk h = ground (arith, bucket_del-IsBlank b k hk h.2)

-- Del returns what Get would.
pub bucket_del-old : (b : Bucket) (k : ℕ) → k ≢ 0 → IsTidy b → (bucket_del b k).1 ≡ bucket_get b k
unfolding bucket_get bucket_del
bucket_del-old [] k hk t = refl
bucket_del-old (e ∷ b) k hk t =
    ground (arith, bucket_del-old b k hk t.2, bucket_del-IsBlank b k, bucket_get-IsBlank b k)

Lacks-del : (b : Bucket) (k j : ℕ) → Lacks j b → Lacks j (bucket_del b k).0
unfolding bucket_del
Lacks-del [] k j h = tt
Lacks-del (e ∷ b) k j h = ground (arith, Lacks-del b k j h.1)

IsBlank-del : (b : Bucket) (k : ℕ) → k ≢ 0 → IsBlank b → IsBlank (bucket_del b k).0
unfolding bucket_del
IsBlank-del [] k hk h = tt
IsBlank-del (e ∷ b) k hk h = ground (arith, IsBlank-del b k hk h.2)

-- Del keeps a bucket tidy.
pub bucket_del-IsTidy : (b : Bucket) (k : ℕ) → IsTidy b → k ≢ 0 → IsTidy (bucket_del b k).0
unfolding bucket_del
bucket_del-IsTidy [] k t hk = tt
bucket_del-IsTidy (e ∷ b) k t hk =
    ground (arith, bucket_del-IsTidy b k t.2 hk, IsBlank-del b k, Lacks-del b k e.key)

-- ===== src/Util/Array/Growth.antt =====
-- Growing, pushing and popping.
use colang.Prelude.{
  ℕ, zero, suc, ◌+◌, ◌-◌, ◌*◌, ◌/◌, ◌%◌, ◌^◌, ◌≤◌, ◌<◌, ◌≡◌, refl, ◌∙◌, true, false, some, List, [],
  ◌∷◌, ◌++◌, arith, if◌then◌else◌, ◌==◌, ltb, get_or, set, take, replicate, length, Bool-cases, inl,
  inr, length-append, length-take, length-replicate, length-set, get_or-set,
}
use colang.Util.Array.{Array, aligned_cap, moved, array_grow, array_push, array_pop}

-- `len` entries in a storage of `cap` places.
pub record IsArray (a : Array) : Type 0 where
  pub stored : length a.v ≡ a.cap
  pub fits : a.len ≤ a.cap

-- The entry at an index.
abbrev pub entry_at : Array → ℕ → ℕ
entry_at a i = get_or a.v i 0

get_or-take : (n i : ℕ) (xs : List ℕ) → i < n → get_or (take n xs) i 0 ≡ get_or xs i 0
get_or-take zero i xs h = elim h [ ]
get_or-take (suc n) i [] h = refl
get_or-take (suc n) zero (x ∷ xs) h = refl
get_or-take (suc n) (suc i) (x ∷ xs) h = get_or-take n i xs (omega arith)

get_or-append : (xs ys : List ℕ) (i : ℕ) → i < length xs → get_or (xs ++ ys) i 0 ≡ get_or xs i 0
get_or-append [] ys i h = elim h [ ]
get_or-append (x ∷ xs) ys zero h = refl
get_or-append (x ∷ xs) ys (suc i) h = get_or-append xs ys i (omega arith)

length-moved :
    (v : List ℕ) (used cap : ℕ) → used ≤ length v → used ≤ cap → length (moved v used cap) ≡ cap
unfolding moved
length-moved v used cap h le = omega (
  arith,
  length-take cap (take used v ++ replicate (cap - used) 0),
  length-append (take used v) (replicate (cap - used) 0),
  length-take used v,
  length-replicate {A = ℕ} (cap - used) 0,
)

get_or-moved :
    (v : List ℕ) (used cap i : ℕ)
    → used ≤ length v
    → used ≤ cap
    → i < used
    → get_or (moved v used cap) i 0 ≡ get_or v i 0
unfolding moved
get_or-moved v used cap i h le lt =
    get_or-take cap i (take used v ++ replicate (cap - used) 0) (omega arith)
    ∙ get_or-append (take used v) (replicate (cap - used) 0) i (omega (arith, length-take used v))
    ∙ get_or-take used i v lt

-- Growing makes room for `addl` more, keeps the entries, and moves them off the stack.
pub record IsGrown (a : Array) (addl : ℕ) (b : Array) : Type 0 where
  pub valid : IsArray b
  pub same_len : b.len ≡ a.len
  pub roomy : a.cap + addl ≤ b.cap
  pub on_heap : b.onstack ≡ false
  pub kept : (i : ℕ) → i < a.len → entry_at b i ≡ entry_at a i

-- For an array in order, where the old capacity, the added one and 31 are together below 2 ^ 32,
-- ArrayGrow leaves an array in order of the same length with the same entries, and with room for
-- the added entries beyond the old capacity.
pub array_grow-IsGrown :
    (a : Array) (addl : ℕ)
    → IsArray a
    → a.cap + addl + 31 < 2 ^ 32
    → IsGrown a addl (array_grow a addl)
unfolding array_grow aligned_cap
array_grow-IsGrown a addl h fit =
    let reqcap : (a.cap + addl) % 2 ^ 32 ≡ a.cap + addl = omega arith in
    let cap = (a.cap + addl + 31) / 32 * 32 % 2 ^ 32 in
    let big : a.cap + addl ≤ cap = omega arith in
    elim (Bool-cases a.onstack) [
      | inl stack ↦
          rw (stack, reqcap)
            (record {
              valid = record {
                stored = length-moved a.v a.len cap (omega (arith, h)) (omega (arith, h));
                fits = omega (arith, h);
              };
              same_len = refl;
              roomy = big;
              on_heap = refl;
              kept = λ i lt. get_or-moved a.v a.len cap i (omega (arith, h)) (omega (arith, h)) lt;
            })
      | inr heap ↦
          rw (heap, reqcap)
            (record {
              valid = record {
                stored = length-moved a.v a.cap cap (omega (arith, h)) (omega (arith, h));
                fits = omega (arith, h);
              };
              same_len = refl;
              roomy = big;
              on_heap = refl;
              kept = λ i lt.
                  get_or-moved a.v a.cap cap i (omega (arith, h)) (omega (arith, h))
                    (omega (arith, h));
            })
    ]

-- Room for one more entry, with the entries as they were.
record HasRoom (a b : Array) : Type 0 where
  valid : IsArray b
  same_len : b.len ≡ a.len
  roomy : b.len < b.cap
  kept : (i : ℕ) → i < a.len → entry_at b i ≡ entry_at a i

push_room :
    (a : Array)
    → IsArray a
    → a.cap + 32 < 2 ^ 32
    → HasRoom a (if a.len == a.cap then array_grow a 1 else a)
push_room a h fit = elim (Bool-cases (a.len == a.cap)) [
  | inl full ↦
      let g = array_grow-IsGrown a 1 h (omega arith) in
      rw full (record {
        valid = g.valid;
        same_len = g.same_len;
        roomy = omega (arith, g.same_len, g.roomy, h);
        kept = g.kept;
      })
  | inr room ↦
      rw room
        (record { valid = h; same_len = refl; roomy = ground (arith, h.fits); kept = λ i lt. refl })
]

same_index : (i j : ℕ) → i ≡ j → i == j ≡ true
same_index i j e = ground arith

other_index : (i j : ℕ) → j < i → i == j ≡ false
other_index i j h = ground arith

-- ArrayPush appends: the entries before stay, and the new one is the last.
pub record IsPushed (a : Array) (x : ℕ) (b : Array) : Type 0 where
  pub valid : IsArray b
  pub longer : b.len ≡ a.len + 1
  pub last : entry_at b a.len ≡ x
  pub kept : (i : ℕ) → i < a.len → entry_at b i ≡ entry_at a i

push_into :
    (a b : Array) (x : ℕ)
    → HasRoom a b
    → IsPushed a x (record b { v = set b.v b.len x; len = b.len + 1 })
push_into a b x r =
    let inside : b.len < length b.v = omega (arith, r.roomy, r.valid.stored) in
    record {
      valid = record {
        stored = length-set b.v b.len x ∙ r.valid.stored;
        fits = omega (arith, r.roomy);
      };
      longer = omega (arith, r.same_len);
      last = get_or-set b.v b.len a.len x 0 inside ∙ rw (same_index b.len a.len r.same_len) refl;
      kept = λ i lt.
          get_or-set b.v b.len i x 0 inside
          ∙ rw (other_index b.len i (omega (arith, r.same_len))) (r.kept i lt);
    }

pop_last :
    (a b : Array) (x : ℕ)
    → IsPushed a x b
    → (c : Array) × (array_pop b ≡ some (c, x))
      × (c.len ≡ a.len)
      × ((i : ℕ) → i < a.len → entry_at c i ≡ entry_at a i)
unfolding array_pop
pop_last a b x p =
    let some_entry : ltb 0 b.len ≡ true = ground (arith, p.longer) in
    let before : b.len - 1 ≡ a.len = omega (arith, p.longer) in
    (record b { len = b.len - 1 }, rw (some_entry, before) (rw p.last refl), before, p.kept)

-- For an array in order whose capacity is more than 32 below 2 ^ 32, ArrayPush leaves an array in
-- order, longer by the new entry at its end, with the old entries at their places.
pub array_push-IsPushed :
    (a : Array) (x : ℕ) → IsArray a → a.cap + 32 < 2 ^ 32 → IsPushed a x (array_push a x)
unfolding array_push
array_push-IsPushed a x h fit =
    push_into a (if a.len == a.cap then array_grow a 1 else a) x (push_room a h fit)

-- For an array in order whose capacity is more than 32 below 2 ^ 32, ArrayPop after ArrayPush
-- returns the entry that was pushed, and leaves an array of the old length with the old entries.
pub pop-push :
    (a : Array) (x : ℕ)
    → IsArray a
    → a.cap + 32 < 2 ^ 32
    → (b : Array) × (array_pop (array_push a x) ≡ some (b, x))
      × (b.len ≡ a.len)
      × ((i : ℕ) → i < a.len → entry_at b i ≡ entry_at a i)
pop-push a x h fit = pop_last a (array_push a x) x (array_push-IsPushed a x h fit)

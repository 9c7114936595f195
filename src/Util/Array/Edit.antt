-- ===== src/Util/Array/Edit.antt =====
-- ArrayRemove and ArrayCopy.
use colang.Prelude.{
  ℕ, zero, suc, ◌+◌, ◌-◌, ◌%◌, ◌^◌, ◌≤◌, ◌<◌, max, ◌≡◌, ◌⊎◌, refl, ◌∙◌, false, ◌&&◌, some, List, [],
  ◌∷◌, arith, if◌then◌else◌, ◌==◌, ltb, leb, get_or, set, length, Bool-cases, inl, inr, length-set,
  get_or-set, length-replicate,
}
use colang.Util.Array.{Array, close_gap, array_remove, write_at, array_reserve, array_copy}
use colang.Util.Array.Growth.{IsArray, entry_at, array_grow-IsGrown}

length-close_gap : (left i count : ℕ) (v : List ℕ) → length (close_gap left i count v) ≡ length v
unfolding close_gap
length-close_gap zero i count v = refl
length-close_gap (suc left) i count v =
    length-close_gap left (i + 1) count (set v (i - count) (get_or v i 0))
    ∙ length-set v (i - count) (get_or v i 0)

-- After the loop the entries from `i` on stand `count` places lower.
close_gap_lem :
    (left i count j : ℕ) (v : List ℕ)
    → count ≤ i
    → i + left ≤ length v
    → get_or (close_gap left i count v) j 0 ≡ (
        if leb i (j + count) && ltb (j + count) (i + left)
        then get_or v (j + count) 0
        else get_or v j 0)
unfolding close_gap
close_gap_lem zero i count j v le fit = ground arith
close_gap_lem (suc left) i count j v le fit =
    let x = get_or v i 0 in
    let w = set v (i - count) x in
    ground (
      arith,
      close_gap_lem left (i + 1) count j w,
      length-set v (i - count) x,
      get_or-set v (i - count) j x 0,
      get_or-set v (i - count) (j + count) x 0,
    )

-- ArrayRemove of a range inside the array: what follows the range moves up to its start.
pub record IsRemoved (a : Array) (start count : ℕ) (b : Array) : Type 0 where
  pub valid : IsArray b
  pub shorter : b.len + count ≡ a.len
  pub before : (j : ℕ) → j < start → entry_at b j ≡ entry_at a j
  pub after : (j : ℕ) → start ≤ j → j < b.len → entry_at b j ≡ entry_at a (j + count)

-- For an array in order and a range inside it, ArrayRemove closes the gap: the array is in order
-- and shorter by the range, the entries before the range stay, and those behind it move down by
-- its length.
pub array_remove-IsRemoved :
    (a : Array) (start count : ℕ)
    → IsArray a
    → start + count ≤ a.len
    → (b : Array) × (array_remove a start count ≡ some b) × IsRemoved a start count b
unfolding array_remove
array_remove-IsRemoved a start count h inside =
    let left = a.len - (start + count) in
    let v = close_gap left (start + count) count a.v in
    let asserted : ltb a.len (start + count) ≡ false = ground arith in
    (
      record a { v = v; len = a.len - count },
      rw asserted refl,
      record {
        valid = record {
          stored = length-close_gap left (start + count) count a.v ∙ h.stored;
          fits = omega (arith, h);
        };
        shorter = omega arith;
        before = λ j lt.
            ground (arith, close_gap_lem left (start + count) count j a.v, h.stored, h.fits);
        after = λ j le lt.
            ground (arith, close_gap_lem left (start + count) count j a.v, h.stored, h.fits);
      },
    )

length-write_at : (v : List ℕ) (start : ℕ) (src : List ℕ) → length (write_at v start src) ≡ length v
unfolding write_at
length-write_at v start [] = refl
length-write_at v start (x ∷ src) =
    length-write_at (set v start x) (start + 1) src ∙ length-set v start x

write_at-outside :
    (v : List ℕ) (start : ℕ) (src : List ℕ) (j : ℕ)
    → start + length src ≤ length v
    → (j < start) ⊎ (start + length src ≤ j)
    → get_or (write_at v start src) j 0 ≡ get_or v j 0
unfolding write_at
write_at-outside v start [] j fit out = refl
write_at-outside v start (x ∷ src) j fit out = ground (
  arith,
  write_at-outside (set v start x) (start + 1) src j,
  length-set v start x,
  get_or-set v start j x 0,
)

write_at-inside :
    (v : List ℕ) (start : ℕ) (src : List ℕ) (i : ℕ)
    → start + length src ≤ length v
    → i < length src
    → get_or (write_at v start src) (start + i) 0 ≡ get_or src i 0
unfolding write_at
write_at-inside v start [] i fit lt = elim lt [ ]
write_at-inside v start (x ∷ src) zero fit lt =
    let here : start + 0 ≡ start = omega arith in
    rw here (
      write_at-outside (set v start x) (start + 1) src start (omega (arith, length-set v start x))
        (inl (omega arith))
      ∙ get_or-set v start start x 0 (omega arith)
      ∙ ground arith)
write_at-inside v start (x ∷ src) (suc i) fit lt =
    let there : start + suc i ≡ start + 1 + i = omega arith in
    rw there (
      write_at-inside (set v start x) (start + 1) src i (omega (arith, length-set v start x))
        (omega arith))

-- ArrayCopy of `src` to index `start` of an array that has storage: the entries of `src` stand
-- there, the others stay, and the array ends where the later of the two did.
pub record IsCopied (a : Array) (start : ℕ) (src : List ℕ) (b : Array) : Type 0 where
  pub valid : IsArray b
  pub reaches : b.len ≡ max a.len (start + length src)
  pub copied : (i : ℕ) → i < length src → entry_at b (start + i) ≡ get_or src i 0
  pub kept :
      (j : ℕ) → j < a.len → (j < start) ⊎ (start + length src ≤ j) → entry_at b j ≡ entry_at a j

record IsReserved (a : Array) (needed : ℕ) (b : Array) : Type 0 where
  valid : IsArray b
  same_len : b.len ≡ a.len
  roomy : needed ≤ b.cap
  kept : (i : ℕ) → i < a.len → entry_at b i ≡ entry_at a i

array_reserve-IsReserved :
    (a : Array) (needed : ℕ)
    → IsArray a
    → needed + 31 < 2 ^ 32
    → IsReserved a needed (array_reserve a needed)
unfolding array_reserve
array_reserve-IsReserved a needed h fit = elim (Bool-cases (ltb a.cap needed)) [
  | inr enough ↦
      rw enough (record { valid = h; same_len = refl; roomy = ground arith; kept = λ i lt. refl })
  | inl short ↦ elim (Bool-cases (length a.v == 0)) [
    | inl fresh ↦
        rw (short, fresh)
          (record {
            valid = record {
              stored = length-replicate {A = ℕ} needed 0;
              fits = ground (arith, h.stored, h.fits);
            };
            same_len = refl;
            roomy = omega arith;
            kept = λ i lt. absurd (ground (arith, h.stored, h.fits));
          })
    | inr used ↦
        let less : a.cap < needed = ground arith in
        let g = array_grow-IsGrown a (needed - a.cap) h (omega arith) in
        rw (short, used)
          (record {
            valid = g.valid;
            same_len = g.same_len;
            roomy = omega (arith, g.roomy);
            kept = g.kept;
          })
  ]
]

-- For an array in order, where the start, the number of entries to copy and 31 are together below
-- 2 ^ 32, ArrayCopy puts the entries at their places and leaves the others, and the length reaches
-- the end of what was copied at least.
pub array_copy-IsCopied :
    (a : Array) (start : ℕ) (src : List ℕ)
    → IsArray a
    → start + length src + 31 < 2 ^ 32
    → IsCopied a start src (array_copy a start src)
unfolding array_copy
array_copy-IsCopied a start src h fit =
    let needed : (start + length src) % 2 ^ 32 ≡ start + length src = omega arith in
    let r = array_reserve-IsReserved a (start + length src) h fit in
    let b = array_reserve a (start + length src) in
    let room : start + length src ≤ length b.v = omega (arith, r.roomy, r.valid.stored) in
    rw needed (record {
      valid = record {
        stored = length-write_at b.v start src ∙ r.valid.stored;
        fits = omega (arith, r.valid.fits, r.roomy);
      };
      reaches = omega (arith, r.same_len);
      copied = λ i lt. write_at-inside b.v start src i room lt;
      kept = λ j lt out. write_at-outside b.v start src j room out ∙ r.kept j lt;
    })

-- ===== src/Pos/SourceMap.antt =====
-- PosMap: sources by their origin number. Origin 0 is NULL, the unknown source.
use colang.Prelude.{
  ℕ, ◌+◌, ◌<◌, ◌^◌, ◌≡◌, ◌≢◌, refl, sym, ap, ◌∙◌, Option, some, none, false, arith, get_or,
  replicate, set, if◌then◌else◌, ◌==◌,
}
use native.Mathlib.Decide.{dec_lt}
use colang.Util.Array.{Array, array_init_with_storage, array_push, array_index_of}
use colang.Util.Array.Growth.{IsArray, entry_at, array_push-IsPushed}
use colang.Util.Array.Search.{IsFirst, array_index_of-IsFirst}
use colang.Pos.{pos_origin}

-- The 32 places of `a_storage`, the first of them set to NULL.
unfoldable pub posmap_init : Array
posmap_init =
    let a = array_init_with_storage (replicate 32 0) in
    record a { v = set a.v 0 0; len = a.len + 1 }

-- The loop of posmap_origin is the one of ArrayIndexOf.
unfoldable pub origin_from : Array → ℕ → Array × ℕ
origin_from pm source = elim (array_index_of pm source) [
  | some i ↦ (pm, i)
  | none ↦ (array_push pm source, pm.len)
]

-- `none` is the assertion that the source is not NULL.
unfoldable pub posmap_origin : Array → ℕ → Option (Array × ℕ)
posmap_origin pm source = if source == 0 then none else some (origin_from pm source)

-- pos_source reads `pm->a.v` at the origin and does not check it.
unfoldable pub pos_source : Array → ℕ → ℕ
pos_source pm p = get_or pm.v (pos_origin p) 0

pub posmap_init-IsArray : IsArray posmap_init
unfolding posmap_init array_init_with_storage
posmap_init-IsArray = record { stored = refl; fits = omega arith }

-- The origin of a source is a number in use at which the source stands; all origins given out before
-- stand for the sources that they did, and the same source has the same origin again.
pub record IsOrigin (pm : Array) (source : ℕ) (pm' : Array) (i : ℕ) : Type 0 where
  pub valid : IsArray pm'
  pub inside : i < pm'.len
  pub found : entry_at pm' i ≡ source
  pub first : (j : ℕ) → j < i → entry_at pm' j ≢ source
  pub kept : (j : ℕ) → j < pm.len → entry_at pm' j ≡ entry_at pm j

origin_from-IsOrigin :
    (pm : Array) (source : ℕ)
    → IsArray pm
    → pm.cap + 32 < 2 ^ 32
    → IsOrigin pm source (origin_from pm source).0 (origin_from pm source).1
unfolding origin_from
origin_from-IsOrigin pm source h fit =
    by_search (array_index_of pm source) (array_index_of-IsFirst pm source)
  where
    by_search :
        (o : Option ℕ)
        → IsFirst pm source o
        → let r : Array × ℕ = elim o [ some i ↦ (pm, i) | none ↦ (array_push pm source, pm.len) ] in
          IsOrigin pm source r.0 r.1
    by_search (some i) first = record {
      valid = h;
      inside = first.0;
      found = first.1;
      first = first.2;
      kept = λ j lt. refl;
    }
    by_search none first =
        let p = array_push-IsPushed pm source h fit in
        record {
          valid = p.valid;
          inside = omega (arith, p.longer);
          found = p.last;
          first = λ j lt e. first j lt (sym (p.kept j lt) ∙ e);
          kept = p.kept;
        }

found_there :
    (pm : Array) (source i : ℕ)
    → array_index_of pm source ≡ some i
    → origin_from pm source ≡ (pm, i)
unfolding origin_from
found_there pm source i e = rw (e, origin_from) refl

first_unique :
    (a : Array) (entry i : ℕ) (o : Option ℕ)
    → IsFirst a entry o
    → i < a.len
    → entry_at a i ≡ entry
    → ((j : ℕ) → j < i → entry_at a j ≢ entry)
    → o ≡ some i
first_unique a entry i none h lt e first = absurd (h i lt e)
first_unique a entry i (some k) h lt e first = elim (dec_lt k i) [
  | yes below ↦ absurd (first k below h.1)
  | no above ↦ elim (dec_lt i k) [
    | yes over ↦ absurd (h.2 i over e)
    | no under ↦ ap some (omega arith)
  ]
]

origin_from_twice :
    (pm : Array) (source : ℕ)
    → IsArray pm
    → pm.cap + 32 < 2 ^ 32
    → origin_from (origin_from pm source).0 source ≡ origin_from pm source
origin_from_twice pm source h fit =
    let r = origin_from-IsOrigin pm source h fit in
    let (pm', i) = origin_from pm source in
    found_there pm' source i (
      first_unique pm' source i (array_index_of pm' source) (array_index_of-IsFirst pm' source)
        r.inside r.found r.first)

-- For a source map in order whose capacity is more than 32 below 2 ^ 32 and a source that is not
-- NULL, posmap_origin returns the first place at which the map then has the source, and leaves a
-- map in order in which the earlier sources stand at their places; a second query for the source
-- changes nothing and returns the same place, and pos_source of a position with it as its origin
-- is the source.
pub posmap_origin-IsOrigin :
    (pm : Array) (source : ℕ)
    → IsArray pm
    → pm.cap + 32 < 2 ^ 32
    → source ≢ 0
    → (pm' : Array) × ((i : ℕ) × (posmap_origin pm source ≡ some (pm', i))
        × IsOrigin pm source pm' i
        × (posmap_origin pm' source ≡ some (pm', i))
        × ((p : ℕ) → pos_origin p ≡ i → pos_source pm' p ≡ source))
unfolding posmap_origin pos_source
posmap_origin-IsOrigin pm source h fit named =
    let there : (source == 0) ≡ false = ground arith in
    let r = origin_from-IsOrigin pm source h fit in
    (
      (origin_from pm source).0,
      (
        (origin_from pm source).1,
        rw there refl,
        r,
        rw there (ap some (origin_from_twice pm source h fit)),
        λ p e. rw e r.found,
      ),
    )

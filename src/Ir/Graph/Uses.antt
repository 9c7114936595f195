-- ===== src/Ir/Graph/Uses.antt =====
-- The use counts of the values: each appearance as an argument or as the control of a block counts
-- once.
pub mod Counted
pub mod Edits
pub mod Stores
pub mod Keep
pub mod Reach
use colang.Prelude.{
  ℕ, zero, suc, ◌+◌, ◌-◌, ◌%◌, ◌^◌, ◌≤◌, ◌<◌, ◌≡◌, refl, ◌∙◌, Bool, true, false, Option, none, some,
  List, [], ◌∷◌, ◌++◌, arith, take, drop, if◌then◌else◌, ◌==◌, get_or, ap, set, length, length-set,
  length-append, get_or-set, count, count-append, Bool-cases, inl, inr,
}
use colang.Ir.Graph.{
  Value, Block, Fun, no_value, no_block, value_at, block_at, put_value, put_block, use_more,
  use_less,
}

abbrev pub control_count : ℕ → Option ℕ → ℕ
control_count a none = 0
control_count a (some x) = if x == a then 1 else 0

abbrev pub arg_uses : ℕ → List Value → ℕ
arg_uses a [] = 0
arg_uses a (x ∷ xs) = count a x.args + arg_uses a xs

abbrev pub control_uses : ℕ → List Block → ℕ
control_uses a [] = 0
control_uses a (x ∷ xs) = control_count a x.control + control_uses a xs

abbrev pub appearances : Fun → ℕ → ℕ
appearances f a = arg_uses a f.value_store + control_uses a f.block_store

abbrev pub uses_of : Fun → ℕ → ℕ
uses_of f a = (value_at f a).uses

pub count-set :
    (a : ℕ) (xs : List ℕ) (i v : ℕ)
    → i < length xs
    → count a (set xs i v) + count a (get_or xs i 0 ∷ []) ≡ count a xs + count a (v ∷ [])
count-set a [] i v h = elim h [ ]
count-set a (x ∷ xs) zero v h = ground arith
count-set a (x ∷ xs) (suc i) v h = ground (arith, count-set a xs i v)

pub count-remove :
    (a : ℕ) (xs : List ℕ) (i : ℕ)
    → i < length xs
    → count a (take i xs ++ drop (suc i) xs) + count a (get_or xs i 0 ∷ []) ≡ count a xs
count-remove a [] i h = elim h [ ]
count-remove a (x ∷ xs) zero h = ground arith
count-remove a (x ∷ xs) (suc i) h = ground (arith, count-remove a xs i)

pub arg_uses-append :
    (a : ℕ) (xs ys : List Value) → arg_uses a (xs ++ ys) ≡ arg_uses a xs + arg_uses a ys
arg_uses-append a [] ys = omega arith
arg_uses-append a (x ∷ xs) ys = omega (arith, arg_uses-append a xs ys)

pub control_uses-append :
    (a : ℕ) (xs ys : List Block) → control_uses a (xs ++ ys) ≡ control_uses a xs + control_uses a ys
control_uses-append a [] ys = omega arith
control_uses-append a (x ∷ xs) ys = omega (arith, control_uses-append a xs ys)

arg_uses-set :
    (a : ℕ) (xs : List Value) (i : ℕ) (x : Value)
    → i < length xs
    → arg_uses a (set xs i x) + count a (get_or xs i no_value).args ≡ arg_uses a xs + count a x.args
arg_uses-set a [] i x h = elim h [ ]
arg_uses-set a (y ∷ xs) zero x h = omega arith
arg_uses-set a (y ∷ xs) (suc i) x h = omega (arith, arg_uses-set a xs i x (omega arith))

control_uses-set :
    (a : ℕ) (xs : List Block) (i : ℕ) (x : Block)
    → i < length xs
    → control_uses a (set xs i x) + control_count a (get_or xs i no_block).control
      ≡ control_uses a xs + control_count a x.control
control_uses-set a [] i x h = elim h [ ]
control_uses-set a (y ∷ xs) zero x h = omega arith
control_uses-set a (y ∷ xs) (suc i) x h = omega (arith, control_uses-set a xs i x (omega arith))

module _ (f : Fun) (v : ℕ) (x : Value) (h : v < length f.value_store) where
  pub appearances-put_value :
      (a : ℕ)
      → appearances (put_value f v x) a + count a (value_at f v).args
        ≡ appearances f a + count a x.args
  appearances-put_value a = omega (arith, arg_uses-set a f.value_store v x h)

  pub uses_of-put_value :
      (a : ℕ) → uses_of (put_value f v x) a ≡ (if v == a then x.uses else uses_of f a)
  uses_of-put_value a = ground (arith, get_or-set f.value_store v a x no_value h)

pub appearances-put_block :
    (f : Fun) (b : ℕ) (x : Block) (a : ℕ)
    → b < length f.block_store
    → appearances (put_block f b x) a + control_count a (block_at f b).control
      ≡ appearances f a + control_count a x.control
appearances-put_block f b x a h = omega (arith, control_uses-set a f.block_store b x h)

-- A write of the count only.
module _ (f : Fun) (v : ℕ) (h : v < length f.value_store) where
  pub uses_of-use_more :
      (a : ℕ)
      → uses_of (use_more f v) a ≡ (if v == a then (uses_of f v + 1) % 2 ^ 32 else uses_of f a)
  unfolding use_more
  uses_of-use_more a = uses_of-put_value f v _ h a

  pub uses_of-use_less :
      (a : ℕ)
      → uses_of (use_less f v) a
        ≡ (if v == a then (uses_of f v + (2 ^ 32 - 1)) % 2 ^ 32 else uses_of f a)
  unfolding use_less
  uses_of-use_less a = uses_of-put_value f v _ h a

  pub appearances-use_more : (a : ℕ) → appearances (use_more f v) a ≡ appearances f a
  unfolding use_more
  appearances-use_more a = omega (
    arith,
    appearances-put_value f v (record (value_at f v) { uses = (uses_of f v + 1) % 2 ^ 32 }) h a,
  )

  pub appearances-use_less : (a : ℕ) → appearances (use_less f v) a ≡ appearances f a
  unfolding use_less
  appearances-use_less a = omega (
    arith,
    appearances-put_value f v
        (record (value_at f v) { uses = (uses_of f v + (2 ^ 32 - 1)) % 2 ^ 32 }) h a,
  )

  pub args-use_more : (a : ℕ) → (value_at (use_more f v) a).args ≡ (value_at f a).args
  unfolding use_more
  args-use_more a = ground (
    arith,
    get_or-set f.value_store v a (record (value_at f v) { uses = (uses_of f v + 1) % 2 ^ 32 })
        no_value h,
  )

  pub args-use_less : (a : ℕ) → (value_at (use_less f v) a).args ≡ (value_at f a).args
  unfolding use_less
  args-use_less a = ground (
    arith,
    get_or-set f.value_store v a
        (record (value_at f v) { uses = (uses_of f v + (2 ^ 32 - 1)) % 2 ^ 32 }) no_value h,
  )

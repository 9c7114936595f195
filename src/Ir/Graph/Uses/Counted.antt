-- ===== src/Ir/Graph/Uses/Counted.antt =====
-- A ledger for the use counts: what was counted and does not appear yet, and what appears no more
-- and is still counted.
use colang.Prelude.{
  count, ℕ, ◌+◌, ◌%◌, ◌^◌, ◌≤◌, ◌<◌, ◌≡◌, List, [], ◌∷◌, arith, length, length-set,
}
use colang.Ir.Graph.{Value, Fun, value_at, put_value, use_more, use_less}
use colang.Ir.Graph.Uses.{
  appearances, uses_of, appearances-put_value, uses_of-put_value, uses_of-use_more,
  uses_of-use_less, appearances-use_more, appearances-use_less,
}

pub record Balanced (early late : List ℕ) (f : Fun) : Type 0 where
  pub even :
      (a : ℕ) → (uses_of f a + count a late) % 2 ^ 32 ≡ (appearances f a + count a early) % 2 ^ 32
  pub small : (a : ℕ) → uses_of f a < 2 ^ 32
  pub present : (a : ℕ) → length f.value_store ≤ a → appearances f a + count a early ≡ 0

pub length-use_more : (f : Fun) (v : ℕ) → length (use_more f v).value_store ≡ length f.value_store
unfolding use_more
length-use_more f v = length-set f.value_store v _

pub length-use_less : (f : Fun) (v : ℕ) → length (use_less f v).value_store ≡ length f.value_store
unfolding use_less
length-use_less f v = length-set f.value_store v _

module _ {f : Fun} (v : ℕ) (early late : List ℕ) (h : v < length f.value_store) where
  pub use_more-Balanced : Balanced early late f → Balanced (v ∷ early) late (use_more f v)
  use_more-Balanced b = record {
    even = λ a. ground (arith, b.even a, uses_of-use_more f v h a, appearances-use_more f v h a);
    small = λ a. ground (arith, b.small a, uses_of-use_more f v h a);
    present =
        λ a le. ground (arith, b.present a, length-use_more f v, appearances-use_more f v h a);
  }

  pub use_less-Balanced : Balanced early late f → Balanced early (v ∷ late) (use_less f v)
  use_less-Balanced b = record {
    even = λ a.
        ground (arith, b.even a, b.small a, uses_of-use_less f v h a, appearances-use_less f v h a);
    small = λ a. ground (arith, b.small a, uses_of-use_less f v h a);
    present =
        λ a le. ground (arith, b.present a, length-use_less f v, appearances-use_less f v h a);
  }

  -- The count catches up with what appears already, or no more.
  pub use_more-pays : Balanced early (v ∷ late) f → Balanced early late (use_more f v)
  use_more-pays b = record {
    even = λ a. ground (arith, b.even a, uses_of-use_more f v h a, appearances-use_more f v h a);
    small = λ a. ground (arith, b.small a, uses_of-use_more f v h a);
    present =
        λ a le. ground (arith, b.present a, length-use_more f v, appearances-use_more f v h a);
  }

  pub use_less-pays : Balanced (v ∷ early) late f → Balanced early late (use_less f v)
  use_less-pays b = record {
    even = λ a.
        ground (arith, b.even a, b.small a, uses_of-use_less f v h a, appearances-use_less f v h a);
    small = λ a. ground (arith, b.small a, uses_of-use_less f v h a);
    present =
        λ a le. ground (arith, b.present a, length-use_less f v, appearances-use_less f v h a);
  }

-- A write of arguments settles the ledger.
pub put_value-Balanced :
    (f : Fun) (v : ℕ) (x : Value) (early late : List ℕ)
    → v < length f.value_store
    → x.uses ≡ uses_of f v
    → ((a : ℕ) → count a x.args + count a late ≡ count a (value_at f v).args + count a early)
    → Balanced early late f
    → Balanced [] [] (put_value f v x)
put_value-Balanced f v x early late h same moved b = record {
  even = λ a.
      ground
        (arith, b.even a, moved a, appearances-put_value f v x h a, uses_of-put_value f v x h a);
  small = λ a. ground (arith, b.small a, uses_of-put_value f v x h a);
  present = λ a le.
      ground (
        arith,
        b.present a,
        moved a,
        length-set f.value_store v x,
        appearances-put_value f v x h a,
      );
}

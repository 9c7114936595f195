-- ===== src/Ir/Graph/Uses/Stores.antt =====
-- The controls of blocks, the allocations and the copies of values keep the use counts right.
use colang.Prelude.{
  count, ℕ, zero, suc, ◌≤◌, ◌<◌, ◌≡◌, refl, Option, none, some, List, [], ◌∷◌, ◌++◌, arith,
  if◌then◌else◌, ◌==◌, ltb, ltb→lt, get_or, length, length-append, Bool-cases, inl, inr,
}
use colang.Ir.Graph.{
  BlockKind, Value, Fun, no_value, no_block, block_at, put_block, use_control, drop_control,
  block_new, value_alloc, block_set_control,
}
use colang.Ir.Graph.Uses.{
  control_count, arg_uses-append, control_uses-append, appearances-put_block,
}
use colang.Ir.Graph.Uses.Counted.{Balanced, use_more-pays, use_less-pays, length-use_more}
use colang.Ir.Graph.Uses.Edits.{IsCounted, Balanced-IsCounted}

abbrev listed : Option ℕ → List ℕ
listed none = []
listed (some v) = v ∷ []

-- A pointer that is NULL, or leads into the store.
abbrev pub InStore : Fun → Option ℕ → Type 0
InStore f none = Unit
InStore f (some v) = v < length f.value_store

count-listed : (a : ℕ) (c : Option ℕ) → count a (listed c) ≡ control_count a c
count-listed a none = refl
count-listed a (some v) = refl

use_control-pays :
    {f : Fun} (c : Option ℕ) (early : List ℕ)
    → InStore f c
    → Balanced early (listed c) f
    → Balanced early [] (use_control c f)
use_control-pays none early h b = b
use_control-pays (some v) early h b = use_more-pays v early [] h b

drop_control-pays :
    {f : Fun} (c : Option ℕ)
    → InStore f c
    → Balanced (listed c) [] f
    → Balanced [] [] (drop_control c f)
drop_control-pays none h b = b
drop_control-pays (some v) h b = use_less-pays v [] [] h b

length-use_control :
    (f : Fun) (c : Option ℕ) → length (use_control c f).value_store ≡ length f.value_store
length-use_control f none = refl
length-use_control f (some v) = length-use_more f v

early-InStore : {f : Fun} (c : Option ℕ) (late : List ℕ) → Balanced (listed c) late f → InStore f c
early-InStore none late b = tt
early-InStore {f} (some v) late b = elim (Bool-cases (ltb v (length f.value_store))) [
  | inl e ↦ ltb→lt v (length f.value_store) e
  | inr e ↦ ground (arith, b.present v)
]

put_control-Balanced :
    {f : Fun} (b : ℕ) (v : Option ℕ)
    → b < length f.block_store
    → InStore f v
    → IsCounted f
    → Balanced
        (listed (block_at f b).control)
        (listed v)
        (put_block f b (record (block_at f b) { control = v }))
put_control-Balanced {f} b v h k c =
    let x = record (block_at f b) { control = v } in
    record {
      even = λ a. omega (
        arith,
        c.counted a,
        count-listed a v,
        count-listed a (block_at f b).control,
        appearances-put_block f b x a h,
      );
      small = λ a. omega (arith, c.counted a);
      present = λ a le. omega (
        arith,
        c.present a le,
        outside v k a le,
        count-listed a (block_at f b).control,
        appearances-put_block f b x a h,
      );
    }
  where
    outside :
        (v : Option ℕ) → InStore f v → (a : ℕ) → length f.value_store ≤ a → control_count a v ≡ 0
    outside none k a le = refl
    outside (some v) k a le = ground arith

pub block_set_control-IsCounted :
    {f : Fun} (b : ℕ) (v : Option ℕ)
    → b < length f.block_store
    → InStore f v
    → IsCounted f
    → IsCounted (block_set_control f b v)
unfolding block_set_control
block_set_control-IsCounted {f} b v h k c =
    let put = put_control-Balanced b v h k c in
    let old = (block_at f b).control in
    let used = use_control-pays v (listed old) (InStore-put v k) put in
    Balanced-IsCounted (drop_control-pays old (early-InStore old [] used) used)
  where
    InStore-put :
        (v : Option ℕ)
        → InStore f v
        → InStore (put_block f b (record (block_at f b) { control = v })) v
    InStore-put none k = tt
    InStore-put (some w) k = k

get_or-append :
    (xs : List Value) (x : Value) (i : ℕ)
    → (get_or (xs ++ (x ∷ [])) i no_value).uses
      ≡ (if length xs == i then x.uses else (get_or xs i no_value).uses)
get_or-append [] x zero = ground arith
get_or-append [] x (suc i) = ground arith
get_or-append (y ∷ xs) x zero = ground arith
get_or-append (y ∷ xs) x (suc i) = ground (arith, get_or-append xs x i)

-- A new value that nobody uses and that uses nobody.
abbrev pub with_value : Fun → Value → Fun
with_value f x = record f { value_store = f.value_store ++ (x ∷ []) }

pub with_value-IsCounted :
    {f : Fun} (x : Value) → x.uses ≡ 0 → x.args ≡ [] → IsCounted f → IsCounted (with_value f x)
with_value-IsCounted {f} x unused leaf c = record {
  counted = λ a. ground (
    arith,
    c.counted a,
    c.present a,
    get_or-append f.value_store x a,
    arg_uses-append a f.value_store (x ∷ []),
  );
  present = λ a le. ground (
    arith,
    c.present a,
    length-append f.value_store (x ∷ []),
    arg_uses-append a f.value_store (x ∷ []),
  );
}

pub value_alloc-IsCounted :
    {f : Fun} (op code pos : ℕ) → IsCounted f → IsCounted (value_alloc f op code pos).0
unfolding value_alloc
value_alloc-IsCounted op code pos c =
    with_value-IsCounted (record no_value { op = op; code = code; pos = pos }) refl refl c

abbrev pub KeepsNew : Option (Fun × ℕ) → Type 0
KeepsNew none = Unit
KeepsNew (some r) = IsCounted r.0

pub block_new-KeepsNew :
    {f : Fun} (kind : BlockKind) (pos : ℕ) → IsCounted f → KeepsNew (block_new f kind pos)
unfolding block_new
block_new-KeepsNew {f} kind pos c = elim (Bool-cases (ltb f.bid 0xFFFFFFFF)) [
  | inr e ↦ rw e tt
  | inl e ↦ rw e (record {
    counted = λ a. omega (
      arith,
      c.counted a,
      control_uses-append a f.block_store
          (record no_block { id = f.bid; kind = kind; pos = pos } ∷ []),
    );
    present = λ a le. omega (
      arith,
      c.present a le,
      control_uses-append a f.block_store
          (record no_block { id = f.bid; kind = kind; pos = pos } ∷ []),
    );
  })
]

-- ===== src/Ir/Graph/Uses/Keep.antt =====
-- Numbers, copies and edges keep the use counts right.
use colang.Prelude.{
  count, ℕ, ◌+◌, ◌<◌, ◌≡◌, refl, ap, Option, none, some, List, [], ◌∷◌, ◌++◌, arith, ◌==◌, ltb,
  ltb→lt, length, length-set, length-append, Bool-cases, Option-cases, inl, inr,
}
use colang.Ir.Graph.{
  Block, Fun, value_at, block_at, put_value, put_block, use_more, block_add_value, value_add_arg,
  value_add_args, value_clone, value_no_id,
}
use colang.Ir.Graph.Flow.{block_add_succ, block_add_pred, fill_slot}
use colang.Ir.Graph.Uses.{control_count, appearances-put_block}
use colang.Ir.Graph.Uses.Counted.{put_value-Balanced, length-use_more}
use colang.Ir.Graph.Uses.Edits.{
  IsCounted, IsCounted-Balanced, Balanced-IsCounted, value_add_arg-IsCounted, count-le-arg_uses,
}
use colang.Ir.Graph.Uses.Stores.{with_value, with_value-IsCounted}

pub put_block-IsCounted :
    {f : Fun} (b : ℕ) (x : Block)
    → b < length f.block_store
    → x.control ≡ (block_at f b).control
    → IsCounted f
    → IsCounted (put_block f b x)
put_block-IsCounted {f} b x h same c = record {
  counted =
      λ a. omega (arith, c.counted a, ap (control_count a) same, appearances-put_block f b x a h);
  present = λ a le.
      omega (arith, c.present a le, ap (control_count a) same, appearances-put_block f b x a h);
}

-- What an operation leaves, where its assertions hold.
abbrev pub Keeps : Option Fun → Type 0
Keeps none = Unit
Keeps (some g) = IsCounted g

numbered :
    {f : Fun} (v n next : ℕ)
    → v < length f.value_store
    → IsCounted f
    → IsCounted (record (put_value f v (record (value_at f v) { id = n })) { vid = next })
numbered {f} v n next h c =
    let b = Balanced-IsCounted (
      put_value-Balanced f v (record (value_at f v) { id = n }) [] [] h refl (λ a. refl)
        (IsCounted-Balanced c)) in
    record { counted = b.counted; present = b.present }

pub block_add_value-Keeps :
    {f : Fun} (b v : ℕ)
    → b < length f.block_store
    → v < length f.value_store
    → IsCounted f
    → Keeps (block_add_value f b v)
unfolding block_add_value
block_add_value-Keeps {f} b v h k c = elim (Bool-cases ((value_at f v).id == value_no_id)) [
  | inr e ↦ rw e (put_block-IsCounted b _ h refl c)
  | inl e ↦ rw e (elim (Bool-cases (f.vid == value_no_id)) [
    | inl e' ↦ rw e' tt
    | inr e' ↦ rw e' (put_block-IsCounted b _ h refl (numbered v f.vid (f.vid + 1) k c))
  ])
]

length-value_add_arg :
    (f : Fun) (v arg : ℕ) → length (value_add_arg f v arg).value_store ≡ length f.value_store
unfolding value_add_arg
length-value_add_arg f v arg =
    omega (arith, length-set (use_more f arg).value_store v _, length-use_more f arg)

value_add_args-IsCounted :
    (f : Fun) (v : ℕ) (args : List ℕ)
    → v < length f.value_store
    → ((a : ℕ) → 0 < count a args → a < length f.value_store)
    → IsCounted f
    → IsCounted (value_add_args f v args)
unfolding value_add_args
value_add_args-IsCounted f v [] h inside c = c
value_add_args-IsCounted f v (arg ∷ args) h inside c =
    let g = value_add_arg f v arg in
    let same = length-value_add_arg f v arg in
    value_add_args-IsCounted g v args (rw same h) (λ a lt. rw same (inside a (ground arith)))
      (value_add_arg-IsCounted v arg h (inside arg (ground arith)) c)

pub value_clone-IsCounted :
    {f : Fun} (v : ℕ) → v < length f.value_store → IsCounted f → IsCounted (value_clone f v).0
unfolding value_clone
value_clone-IsCounted {f} v h c =
    let x = value_at f v in
    let g = with_value f (record x { uses = 0; args = [] }) in
    value_add_args-IsCounted g (length f.value_store) x.args
      (omega (arith, length-append f.value_store (record x { uses = 0; args = [] } ∷ [])))
      (λ a lt. inside a lt) (with_value-IsCounted (record x { uses = 0; args = [] }) refl refl c)
  where
    inside :
        (a : ℕ)
        → 0 < count a (value_at f v).args
        → a < length (f.value_store ++ (record (value_at f v) { uses = 0; args = [] } ∷ []))
    inside a lt = elim (Bool-cases (ltb a (length f.value_store))) [
      | inl e ↦ omega (
        arith,
        ltb→lt a (length f.value_store) e,
        length-append f.value_store (record (value_at f v) { uses = 0; args = [] } ∷ []),
      )
      | inr e ↦ ground (arith, c.present a, count-le-arg_uses a f.value_store v h)
    ]

pub block_add_succ-Keeps :
    {f : Fun} (b succ : ℕ)
    → b < length f.block_store
    → IsCounted f
    → Keeps (block_add_succ f b succ)
unfolding block_add_succ
block_add_succ-Keeps {f} b succ h c = elim (Option-cases (fill_slot (block_at f b).succs succ)) [
  | inl e ↦ rw (e, block_add_succ) tt
  | inr (s, e) ↦ rw (e, block_add_succ) (put_block-IsCounted b _ h refl c)
]

pub block_add_pred-Keeps :
    {f : Fun} (b pred : ℕ)
    → b < length f.block_store
    → IsCounted f
    → Keeps (block_add_pred f b pred)
unfolding block_add_pred
block_add_pred-Keeps {f} b pred h c = elim (Bool-cases (block_at f b).sealed) [
  | inl e ↦ rw e tt
  | inr e ↦ rw e (elim (Option-cases (fill_slot (block_at f b).preds pred)) [
    | inl e' ↦ rw (e', block_add_pred) tt
    | inr (s, e') ↦ rw (e', block_add_pred) (put_block-IsCounted b _ h refl c)
  ])
]

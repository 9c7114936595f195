-- ===== src/Ir/Graph/Uses/Edits.antt =====
-- Each operation of ir.c that changes arguments, controls or the stores keeps the use counts right.
use colang.Prelude.{
  count, count-append, ℕ, zero, suc, ◌%◌, ◌^◌, ◌≤◌, ◌<◌, ◌≡◌, refl, List, [], ◌∷◌, arith, ltb,
  ltb→lt, lt→ltb, get_or, length, Bool-cases, inl, inr,
}
use colang.Ir.Graph.{
  Value, Fun, no_value, value_at, use_more, value_add_arg, value_set_arg, value_clear_arg, drop_arg,
}
use colang.Ir.Graph.Uses.{
  arg_uses, appearances, uses_of, count-set, count-remove, args-use_more, args-use_less,
}
use colang.Ir.Graph.Uses.Counted.{
  Balanced, use_more-Balanced, use_less-Balanced, put_value-Balanced, length-use_more,
  length-use_less,
}

-- The counts are right, and no pointer leads outside the store.
pub record IsCounted (f : Fun) : Type 0 where
  pub counted : (a : ℕ) → uses_of f a ≡ appearances f a % 2 ^ 32
  pub present : (a : ℕ) → length f.value_store ≤ a → appearances f a ≡ 0

pub IsCounted-Balanced : {f : Fun} → IsCounted f → Balanced [] [] f
IsCounted-Balanced h = record {
  even = λ a. omega (arith, h.counted a);
  small = λ a. omega (arith, h.counted a);
  present = λ a le. omega (arith, h.present a le);
}

pub Balanced-IsCounted : {f : Fun} → Balanced [] [] f → IsCounted f
Balanced-IsCounted b = record {
  counted = λ a. omega (arith, b.even a, b.small a);
  present = λ a le. omega (arith, b.present a le);
}

count-get_or : (xs : List ℕ) (i : ℕ) → i < length xs → 0 < count (get_or xs i 0) xs
count-get_or [] i h = elim h [ ]
count-get_or (x ∷ xs) zero h = ground arith
count-get_or (x ∷ xs) (suc i) h = ground (arith, count-get_or xs i)

pub count-le-arg_uses :
    (a : ℕ) (xs : List Value) (i : ℕ)
    → i < length xs
    → count a (get_or xs i no_value).args ≤ arg_uses a xs
count-le-arg_uses a [] i h = elim h [ ]
count-le-arg_uses a (x ∷ xs) zero h = omega arith
count-le-arg_uses a (x ∷ xs) (suc i) h = omega (arith, count-le-arg_uses a xs i (omega arith))

-- An argument is in the store.
arg-present :
    (f : Fun) (v i : ℕ) (early late : List ℕ)
    → Balanced early late f
    → v < length f.value_store
    → i < length (value_at f v).args
    → get_or (value_at f v).args i 0 < length f.value_store
arg-present f v i early late b h lt =
    let a = get_or (value_at f v).args i 0 in
    elim (Bool-cases (ltb a (length f.value_store))) [
      | inl e ↦ ltb→lt a (length f.value_store) e
      | inr e ↦ ground (
        arith,
        b.present a,
        count-get_or (value_at f v).args i lt,
        count-le-arg_uses a f.value_store v h,
      )
    ]

pub value_add_arg-IsCounted :
    {f : Fun} (v arg : ℕ)
    → v < length f.value_store
    → arg < length f.value_store
    → IsCounted f
    → IsCounted (value_add_arg f v arg)
unfolding value_add_arg
value_add_arg-IsCounted {f} v arg h k c =
    let g = use_more f arg in
    Balanced-IsCounted (
      put_value-Balanced g v _ (arg ∷ []) [] (rw (length-use_more f arg) h) refl
        (λ a. omega (arith, count-append a (value_at g v).args (arg ∷ [])))
        (use_more-Balanced arg [] [] k (IsCounted-Balanced c)))

pub value_set_arg-IsCounted :
    {f : Fun} (v index arg : ℕ)
    → v < length f.value_store
    → arg < length f.value_store
    → index < length (value_at f v).args
    → IsCounted f
    → IsCounted (value_set_arg f v index arg)
unfolding value_set_arg
value_set_arg-IsCounted {f} v index arg h k lt c =
    let g = use_more f arg in
    let b = use_more-Balanced arg [] [] k (IsCounted-Balanced c) in
    let h' : v < length g.value_store = rw (length-use_more f arg) h in
    let lt' : index < length (value_at g v).args = rw (args-use_more f arg k v) lt in
    let old = get_or (value_at g v).args index 0 in
    let inside = arg-present g v index (arg ∷ []) [] b h' lt' in
    rw (lt→ltb index (length (value_at g v).args) lt') (
      Balanced-IsCounted (
        put_value-Balanced (drop_arg g v index) v _ (arg ∷ []) (old ∷ [])
          (rw (length-use_less g old) h') refl
          (λ a. rw (args-use_less g old inside v) (count-set a (value_at g v).args index arg lt'))
          (use_less-Balanced old (arg ∷ []) [] inside b)))

pub value_clear_arg-IsCounted :
    {f : Fun} (v index : ℕ)
    → v < length f.value_store
    → IsCounted f
    → IsCounted (value_clear_arg f v index)
unfolding value_clear_arg
value_clear_arg-IsCounted {f} v index h c =
    elim (Bool-cases (ltb index (length (value_at f v).args))) [
      | inr e ↦ rw e c
      | inl e ↦
          let b = IsCounted-Balanced c in
          let lt = ltb→lt index (length (value_at f v).args) e in
          let old = get_or (value_at f v).args index 0 in
          let inside = arg-present f v index [] [] b h lt in
          rw e (
            Balanced-IsCounted (
              put_value-Balanced (drop_arg f v index) v _ [] (old ∷ [])
                (rw (length-use_less f old) h) refl
                (λ a.
                  rw (args-use_less f old inside v)
                    (omega (arith, count-remove a (value_at f v).args index lt)))
                (use_less-Balanced old [] [] inside b)))
    ]

-- ===== src/Ir/Graph/Consts/New.antt =====
-- What IRValueNew gives: a value at the end of the store.
use colang.Prelude.{
  ℕ, zero, suc, ◌+◌, ◌<◌, ◌≡◌, refl, ap, ◌∙◌, Option, none, some, List, [], ◌∷◌, ◌++◌, arith, ◌==◌,
  get_or, length, length-set, length-append, get_or-set, Bool-cases, ==_iff, inl, inr,
}
use colang.Ir.Graph.{
  Value, Fun, no_value, value_at, put_value, block_add_value, value_alloc, value_new, value_no_id,
}

get_or-new : (xs : List Value) (x : Value) → get_or (xs ++ (x ∷ [])) (length xs) no_value ≡ x
get_or-new [] x = refl
get_or-new (y ∷ xs) x = get_or-new xs x

get_or-old :
    (xs : List Value) (x : Value) (i : ℕ)
    → i < length xs
    → get_or (xs ++ (x ∷ [])) i no_value ≡ get_or xs i no_value
get_or-old [] x i h = elim h [ ]
get_or-old (y ∷ xs) x zero h = refl
get_or-old (y ∷ xs) x (suc i) h = get_or-old xs x i (omega arith)

-- A new value at the end of the store, whose number may be given later.
pub record IsNew (f : Fun) (op code : ℕ) (g : Fun) (v : ℕ) : Type 0 where
  pub last : v ≡ length f.value_store
  pub longer : length g.value_store ≡ length f.value_store + 1
  pub same_consts : g.consts ≡ f.consts
  pub kept : (w : ℕ) → w < length f.value_store → value_at g w ≡ value_at f w
  pub has_op : (value_at g v).op ≡ op
  pub has_code : (value_at g v).code ≡ code

abbrev pub NewIn : Fun → ℕ → ℕ → Option (Fun × ℕ) → Type 0
NewIn f op code none = f.vid ≡ value_no_id
NewIn f op code (some (g, v)) = IsNew f op code g v

value_alloc-IsNew :
    (f : Fun) (op code pos : ℕ)
    → IsNew f op code (value_alloc f op code pos).0 (value_alloc f op code pos).1
unfolding value_alloc
value_alloc-IsNew f op code pos =
    let x = record no_value { op = op; code = code; pos = pos } in
    record {
      last = refl;
      longer = length-append f.value_store (x ∷ []);
      same_consts = refl;
      kept = λ w h. get_or-old f.value_store x w h;
      has_op = ap (λ y. y.op) (get_or-new f.value_store x);
      has_code = ap (λ y. y.code) (get_or-new f.value_store x);
    }

-- A write to the new value that keeps what it computes.
pub IsNew-put_value :
    (f : Fun) (op code : ℕ) (g : Fun) (v : ℕ) (x : Value)
    → x.op ≡ (value_at g v).op
    → x.code ≡ (value_at g v).code
    → IsNew f op code g v
    → IsNew f op code (put_value g v x) v
IsNew-put_value f op code g v x same_op same_code n =
    let inside : v < length g.value_store = omega (arith, n.last, n.longer) in
    record {
      last = n.last;
      longer = length-set g.value_store v x ∙ n.longer;
      same_consts = n.same_consts;
      kept =
          λ w h. ground (arith, n.last, n.kept w, get_or-set g.value_store v w x no_value inside);
      has_op = ground (arith, same_op, n.has_op, get_or-set g.value_store v v x no_value inside);
      has_code =
          ground (arith, same_code, n.has_code, get_or-set g.value_store v v x no_value inside);
    }

abbrev NewOn : Fun → ℕ → ℕ → Fun → ℕ → Option Fun → Type 0
NewOn f op code g v none = g.vid ≡ value_no_id
NewOn f op code g v (some h) = IsNew f op code h v

block_add_value-NewOn :
    (f : Fun) (op code : ℕ) (g : Fun) (b v : ℕ)
    → IsNew f op code g v
    → NewOn f op code g v (block_add_value g b v)
unfolding block_add_value
block_add_value-NewOn f op code g b v n = elim (Bool-cases ((value_at g v).id == value_no_id)) [
  | inr e ↦ rw e (record {
    last = n.last;
    longer = n.longer;
    same_consts = n.same_consts;
    kept = n.kept;
    has_op = n.has_op;
    has_code = n.has_code;
  })
  | inl e ↦ rw e (elim (Bool-cases (g.vid == value_no_id)) [
    | inl e' ↦ rw e' ((==_iff g.vid value_no_id).0 e')
    | inr e' ↦
        let m = IsNew-put_value f op code g v (record (value_at g v) { id = g.vid }) refl refl n in
        rw e' (record {
          last = m.last;
          longer = m.longer;
          same_consts = m.same_consts;
          kept = m.kept;
          has_op = m.has_op;
          has_code = m.has_code;
        })
  ])
]

pub value_new-NewIn :
    (f : Fun) (b : Option ℕ) (op code pos : ℕ) → NewIn f op code (value_new f b op code pos)
unfolding value_new value_alloc
value_new-NewIn f none op code pos = value_alloc-IsNew f op code pos
value_new-NewIn f (some b) op code pos =
    let r = value_alloc f op code pos in
    given (block_add_value r.0 b r.1)
      (block_add_value-NewOn f op code r.0 b r.1 (value_alloc-IsNew f op code pos))
  where
    given :
        (o : Option Fun)
        → NewOn f op code (value_alloc f op code pos).0 (value_alloc f op code pos).1 o
        → NewIn f op code
            (elim o [ none ↦ none | some g ↦ some (g, (value_alloc f op code pos).1) ])
    given none h = h
    given (some g) h = h

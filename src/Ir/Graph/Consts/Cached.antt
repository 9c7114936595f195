-- ===== src/Ir/Graph/Consts/Cached.antt =====
-- getConst64 gives one value for each constant.
use colang.Prelude.{
  ℕ, true, ◌<◌, ◌≡◌, ◌≢◌, refl, sym, subst, ap, ◌∙◌, ◌&&◌, Option, none, some, arith, if◌then◌else◌,
  ◌==◌, get_or, length, get_or-set, Bool-cases, Option-cases, inl, inr,
}
use colang.Ir.ConstCache.{const_cache_get, const_cache_add, word_bits}
use colang.Ir.ConstCache.Valid.{IsValid, or_empty, const_cache_add_valid, const_cache_add_hint}
use colang.Ir.ConstCache.Map.{const_cache_get-add_hint}
use colang.Ir.Graph.{Fun, no_value, value_at, put_value, value_new, value_no_id}
use colang.Ir.Graph.Consts.{num_end, aux_none, can_make, get_const64}
use colang.Ir.Graph.Consts.New.{IsNew, NewIn, IsNew-put_value, value_new-NewIn}

module _ (const_from_ast aux_of : ℕ → ℕ) where
  -- The value is the constant `value` of the type `code`.
  pub record IsConst (f : Fun) (code value v : ℕ) : Type 0 where
    pub stored : v < length f.value_store
    pub op_right : (value_at f v).op ≡ const_from_ast code
    pub code_right : (value_at f v).code ≡ code
    pub aux_right : (value_at f v).aux ≡ value

  -- Every value in the cache is the constant that it is filed under.
  pub record HasConsts (f : Fun) : Type 0 where
    pub valid : IsValid (or_empty f.consts)
    pub filed :
        (code value v : ℕ)
        → code < word_bits
        → (const_cache_get f.consts code value).0 ≡ some v
        → IsConst f code value v

  -- The numbers for values are used up, or the value is the constant, a second call gives it
  -- again, and the cache is right as before.
  abbrev pub ConstGiven : Fun → ℕ → ℕ → Option (Fun × ℕ) → Type 0
  ConstGiven f code value none = f.vid ≡ value_no_id
  ConstGiven f code value (some (g, v)) =
      HasConsts g
      × IsConst g code value v
      × (get_const64 const_from_ast aux_of g code value ≡ some (g, v))

  cached_again :
      (g : Fun) (code value v : ℕ)
      → (const_cache_get g.consts code value).0 ≡ some v
      → get_const64 const_from_ast aux_of g code value ≡ some (g, v)
  unfolding get_const64
  cached_again g code value v e = rw (e, get_const64)

  abbrev with_aux : Fun → ℕ → ℕ → Fun
  with_aux g v value = put_value g v (record (value_at g v) { aux = value })

  abbrev filed_in : Fun → ℕ → ℕ → ℕ → ℕ → Fun
  filed_in h code value v hint = record h {
    consts = some (const_cache_add h.consts code value v hint);
  }

  module _ (f : Fun) (code value : ℕ) (fits : code < word_bits) (c : HasConsts f) (g : Fun) (v : ℕ)
      (n : IsNew f (const_from_ast code) code g v) where
    hint : ℕ
    hint = (const_cache_get f.consts code value).1

    filed : Fun
    filed = filed_in (with_aux g v value) code value v hint

    get-filed :
        (u other : ℕ)
        → u < word_bits
        → (const_cache_get filed.consts u other).0
          ≡ (if code == u && value == other then some v else (const_cache_get f.consts u other).0)
    unfolding filed hint
    get-filed u other h =
        rw n.same_consts
          (const_cache_get-add_hint f.consts code u value value other v c.valid fits h)

    filed-IsConst : IsConst filed code value v
    unfolding filed
    filed-IsConst =
        let x = record (value_at g v) { aux = value } in
        let m = IsNew-put_value f (const_from_ast code) code g v x refl refl n in
        let inside : v < length g.value_store = omega (arith, n.last, n.longer) in
        record {
          stored = omega (arith, m.last, m.longer);
          op_right = m.has_op;
          code_right = m.has_code;
          aux_right = ground (arith, get_or-set g.value_store v v x no_value inside);
        }

    old-IsConst : (u other w : ℕ) → IsConst f u other w → IsConst filed u other w
    unfolding filed
    old-IsConst u other w k =
        let x = record (value_at g v) { aux = value } in
        let m = IsNew-put_value f (const_from_ast code) code g v x refl refl n in
        let same = m.kept w k.stored in
        record {
          stored = omega (arith, k.stored, m.longer);
          op_right = ap (λ y. y.op) same ∙ k.op_right;
          code_right = ap (λ y. y.code) same ∙ k.code_right;
          aux_right = ap (λ y. y.aux) same ∙ k.aux_right;
        }

    filed_for :
        (u other w : ℕ)
        → u < word_bits
        → (const_cache_get filed.consts u other).0 ≡ some w
        → IsConst filed u other w
    filed_for u other w h e = elim (Bool-cases (code == u && value == other)) [
      | inl s ↦
          let found : some v ≡ some w = sym (get-filed u other h ∙ rw s) ∙ e in
          let here : (code ≡ u) × (value ≡ other) × (v ≡ w) = ground arith in
          subst (λ a. IsConst filed a other w) here.0
            (subst (λ a. IsConst filed code a w) here.1
              (subst (λ a. IsConst filed code value a) here.2 filed-IsConst))
      | inr s ↦ old-IsConst u other w (c.filed u other w h (sym (get-filed u other h ∙ rw s) ∙ e))
    ]

    filed-HasConsts : HasConsts filed
    unfolding filed hint
    filed-HasConsts = record {
      valid =
          rw (n.same_consts, const_cache_add_hint f.consts code value value v)
            (const_cache_add_valid f.consts code value v c.valid fits);
      filed = filed_for;
    }

    found_again : (const_cache_get filed.consts code value).0 ≡ some v
    found_again = get-filed code value fits ∙ ground arith

  given :
      (f : Fun) (code value : ℕ)
      → code < word_bits
      → HasConsts f
      → (o : Option (Fun × ℕ)) → NewIn f (const_from_ast code) code o
      → ConstGiven f code value (elim o [
        | none ↦ none
        | some (g, v) ↦
            some (
              filed_in (with_aux g v value) code value v (const_cache_get f.consts code value).1,
              v,
            )
      ])
  unfolding filed hint
  given f code value fits c none n = n
  given f code value fits c (some (g, v)) n = (
    filed-HasConsts f code value fits c g v n,
    filed-IsConst f code value fits c g v n,
    cached_again (filed f code value fits c g v n) code value v
        (found_again f code value fits c g v n),
  )

  -- For the code of a basic type, below TypeCode_NUM_END, whose operation for constants takes a
  -- number, and a function whose constant cache is right, getConst64 fails only where the numbers
  -- for values are used up; otherwise it returns a value with the op, the type and the number of
  -- the constant, the cache is right again, and a second call changes nothing and returns the same
  -- value.
  pub get_const64-ConstGiven :
      (f : Fun) (code value : ℕ)
      → code < num_end
      → aux_of (const_from_ast code) ≢ aux_none
      → HasConsts f
      → ConstGiven f code value (get_const64 const_from_ast aux_of f code value)
  unfolding get_const64
  get_const64-ConstGiven f code value basic takes c =
      let fits : code < word_bits = omega (arith, basic) in
      let made : can_make const_from_ast aux_of code ≡ true = ground (arith, basic, takes) in
      elim (Option-cases (const_cache_get f.consts code value).0) [
        | inr (v, e) ↦
            rw (e, get_const64) (c, c.filed code value v fits e, cached_again f code value v e)
        | inl e ↦
            rw (e, get_const64, made)
              (given f code value fits c
                (value_new f (some (get_or f.blocks 0 0)) (const_from_ast code) code 0)
                (value_new-NewIn f (some (get_or f.blocks 0 0)) (const_from_ast code) code 0))
      ]

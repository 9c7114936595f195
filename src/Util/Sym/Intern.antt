-- ===== src/Util/Sym/Intern.antt =====
-- sym.c: interning. One symbol stands for one text.
use Prim.Native.Nat.Ordering.{eq}
use colang.Prelude.{
  ℕ, ◌<◌, ◌^◌, ◌≡◌, ◌≢◌, refl, ap, sym, ◌∙◌, true, false, Option, none, some, List, [], ◌∷◌, arith,
  length, leb, take, if◌then◌else◌, is_some, inl, inr, Option-cases,
}
use colang.Util.KeyOrder.{Ordering-cases}
use colang.Util.RbTree.{RbNode, null, node, rb_get, rb_has, rb_set}
use colang.Util.RbTree.Inorder.{written}
use colang.Util.RbTree.Lookup.{IsOrdered, rb_get-rb_set, rb_set-IsOrdered, rb_has-rb_get}
use colang.Util.RbTree.KeySet.{kept, rb_add_key_lem}
use native.Mathlib.Nat.{mod-eq_of_lt}
use colang.Util.Sym.Header.{sym_makelen-fields}
use colang.Util.Sym.Order.{sym_cmp, sym_order, sym_cmp_refl, eq_of_sym_cmp}
use colang.Util.Sym.{
  SymPool, sym_key, stored_key, symlen, sym_makelen, symlookup, lookup_chain, added_or_found,
  symaddh, symfind, found_or_added, symget,
}

take_all : (xs : List ℕ) → take (length xs) xs ≡ xs
take_all [] = refl
take_all (x ∷ xs) = ap (λ ys. x ∷ ys) (take_all xs)

-- A length of 27 bits is stored as it is.
stored_key-sym_key :
    (hash : ℕ) (text : List ℕ) → length text < 2 ^ 27 → stored_key hash text ≡ sym_key hash text
unfolding stored_key
stored_key-sym_key hash text fits =
    let len : symlen (sym_makelen (length text) 0) ≡ length text =
      (sym_makelen-fields (length text) 0).0 ∙ mod-eq_of_lt fits in
    rw (len, take_all text) refl

-- The loop of symlookup is RBGet's.
pub symlookup-rb_get : (t : RbNode (List ℕ) ℕ) (q : List ℕ) → symlookup t q ≡ rb_get t q
unfolding symlookup rb_get
symlookup-rb_get null q = refl
symlookup-rb_get (node c l b s r) q = ground (arith, symlookup-rb_get l q, symlookup-rb_get r q)

-- The tree after RBInsert.
abbrev pub added_root : (t : RbNode (List ℕ) ℕ) (q : List ℕ) (s : ℕ) → RbNode (List ℕ) ℕ
added_root t q s = rb_set true t q (kept (rb_get t q) s)

get_after :
    (t : RbNode (List ℕ) ℕ) (q : List ℕ) (s : ℕ)
    → IsOrdered t
    → rb_get (added_root t q s) q ≡ some (kept (rb_get t q) s)
get_after t q s h = rw (rb_get-rb_set t q q (kept (rb_get t q) s) h, sym_cmp_refl q) refl

found_here :
    (t : RbNode (List ℕ) ℕ) (q : List ℕ) (s : ℕ)
    → IsOrdered t
    → added_or_found s (added_root t q s) q (if rb_has t q then false else true)
      ≡ some (kept (rb_get t q) s)
unfolding added_or_found
found_here t q s h = elim (Option-cases (rb_get t q)) [
  | inl e ↦ rw (rb_has-rb_get t q, e) refl
  | inr (v, e) ↦
      rw (rb_has-rb_get t q, symlookup-rb_get (added_root t q s) q, get_after t q s h, e) refl
]

-- For a length of 27 bits, symaddh adds the symbol where the tree has none for its text, and returns the symbol that the
-- tree has then: its assertion holds.
pub symaddh_lem :
    (p : SymPool) (hash : ℕ) (text : List ℕ) (s : ℕ)
    → length text < 2 ^ 27
    → IsOrdered p.root
    → let q = sym_key hash text in
      symaddh p hash text s
      ≡ (record p { root = added_root p.root q s }, some (kept (rb_get p.root q) s))
unfolding symaddh
symaddh_lem p hash text s fits h =
    let q = sym_key hash text in
    let short : leb (length text) 0xFFFFFFFF ≡ true = ground (arith, fits) in
    rw
      (
        short,
        stored_key-sym_key hash text fits,
        rb_add_key_lem true p.root q s,
        found_here p.root q s h,
      )
      refl

chain_here :
    (root : RbNode (List ℕ) ℕ) (bases : List (RbNode (List ℕ) ℕ)) (q : List ℕ) (s : ℕ)
    → symlookup root q ≡ some s
    → lookup_chain (root ∷ bases) q ≡ some s
unfolding lookup_chain
chain_here root bases q s e = rw (e, lookup_chain) refl

chain_past :
    (root : RbNode (List ℕ) ℕ) (bases : List (RbNode (List ℕ) ℕ)) (q : List ℕ)
    → symlookup root q ≡ none
    → lookup_chain (root ∷ bases) q ≡ lookup_chain bases q
unfolding lookup_chain
chain_past root bases q e = ground arith

-- A lookup in the tree after an addition.
lookup_after :
    (t : RbNode (List ℕ) ℕ) (q q' : List ℕ) (s : ℕ)
    → IsOrdered t
    → symlookup (added_root t q s) q'
      ≡ written (sym_cmp q' q) (kept (symlookup t q) s) (symlookup t q')
lookup_after t q q' s h =
    rw
      (
        symlookup-rb_get (added_root t q s) q',
        symlookup-rb_get t q,
        symlookup-rb_get t q',
        rb_get-rb_set t q q' (kept (rb_get t q) s) h,
      )
      refl

-- What a tree has, it has after an addition.
lookup_kept :
    (t : RbNode (List ℕ) ℕ) (q q' : List ℕ) (s v : ℕ)
    → IsOrdered t
    → symlookup t q' ≡ some v
    → symlookup (added_root t q s) q' ≡ some v
lookup_kept t q q' s v h e = elim (Ordering-cases (sym_cmp q' q)) [
  | inl c ↦ rw (lookup_after t q q' s h, c, e) refl
  | inr (inl c) ↦ rw (lookup_after t q q' s h, c, ← eq_of_sym_cmp q' q c, e) refl
  | inr (inr c) ↦ rw (lookup_after t q q' s h, c, e) refl
]

-- A tree has nothing new but the text that was added.
lookup_missing :
    (t : RbNode (List ℕ) ℕ) (q q' : List ℕ) (s : ℕ)
    → IsOrdered t
    → symlookup t q' ≡ none
    → sym_cmp q' q ≢ eq
    → symlookup (added_root t q s) q' ≡ none
lookup_missing t q q' s h e ne = elim (Ordering-cases (sym_cmp q' q)) [
  | inl c ↦ rw (lookup_after t q q' s h, c, e) refl
  | inr (inl c) ↦ absurd (ne c)
  | inr (inr c) ↦ rw (lookup_after t q q' s h, c, e) refl
]

none_not_some : (v : ℕ) (o : Option ℕ) → o ≡ none → o ≢ some v
none_not_some v o e f = absurd (ground arith)

-- What a pool has, it has after the addition of a text that it did not have.
find_kept :
    (t : RbNode (List ℕ) ℕ) (bases : List (RbNode (List ℕ) ℕ)) (q q' : List ℕ) (s v : ℕ)
    → IsOrdered t
    → lookup_chain (t ∷ bases) q ≡ none
    → lookup_chain (t ∷ bases) q' ≡ some v
    → lookup_chain (added_root t q s ∷ bases) q' ≡ some v
find_kept t bases q q' s v h none_yet e = elim (Option-cases (symlookup t q')) [
  | inr (w, f) ↦
      chain_here (added_root t q s) bases q' w (lookup_kept t q q' s w h f)
      ∙ (sym (chain_here t bases q' w f) ∙ e)
  | inl f ↦
      chain_past (added_root t q s) bases q' (
        lookup_missing t q q' s h f (λ c.
          none_not_some v (lookup_chain (t ∷ bases) q) none_yet
            (ap (λ k. lookup_chain (t ∷ bases) k) (sym (eq_of_sym_cmp q' q c)) ∙ e)))
      ∙ (sym (chain_past t bases q' f) ∙ e)
]

module _ (hash : List ℕ → ℕ) where
  pub record IsInterned (p : SymPool) (text : List ℕ) (r : SymPool × Option ℕ) : Type 0 where
    pub given : is_some r.1 ≡ true
    pub found : symfind hash r.0 text ≡ r.1
    pub ordered : IsOrdered r.0.root
    pub kept :
        (text' : List ℕ) (s : ℕ) → symfind hash p text' ≡ some s → symfind hash r.0 text' ≡ some s

  by_found :
      (p : SymPool) (text : List ℕ) (addr : ℕ) (o : Option ℕ)
      → length text < 2 ^ 27
      → IsOrdered p.root
      → symfind hash p text ≡ o
      → IsInterned p text (found_or_added hash o p text addr)
  unfolding symfind found_or_added
  by_found p text addr (some s) fits h e = record {
    given = refl;
    found = e;
    ordered = h;
    kept = λ text' s' e'. e';
  }
  by_found p text addr none fits h e =
      let q = sym_key (hash text) text in
      rw (symaddh_lem p (hash text) text addr fits h) (record {
        given = refl;
        found =
            chain_here (added_root p.root q addr) p.bases q (kept (rb_get p.root q) addr)
              (symlookup-rb_get (added_root p.root q addr) q ∙ get_after p.root q addr h);
        ordered = rb_set-IsOrdered p.root q (kept (rb_get p.root q) addr) h;
        kept =
            λ text' s' e'. find_kept p.root p.bases q (sym_key (hash text') text') addr s' h e e';
      })

  -- Of a pool with an ordered tree, for a text of a length below 2 ^ 27, symget returns a symbol,
  -- which symfind finds in the pool from then on; the tree stays ordered, and every symbol that
  -- symfind found before it finds after.
  pub symget-IsInterned :
      (p : SymPool) (text : List ℕ) (addr : ℕ)
      → length text < 2 ^ 27
      → IsOrdered p.root
      → IsInterned p text (symget hash p text addr)
  unfolding symget
  symget-IsInterned p text addr fits h = by_found p text addr (symfind hash p text) fits h refl

  again_by :
      (p : SymPool) (text : List ℕ) (addr : ℕ) (o : Option ℕ)
      → is_some o ≡ true
      → symfind hash p text ≡ o
      → symget hash p text addr ≡ (p, o)
  unfolding symget found_or_added
  again_by p text addr (some s) g e = rw e refl
  again_by p text addr none g e = absurd (ground arith)

  -- After symget on a pool with an ordered tree, with a text of a length below 2 ^ 27, a second
  -- call with the same text changes nothing and returns the same symbol, wherever the allocator
  -- stands.
  pub symget_twice :
      (p : SymPool) (text : List ℕ) (addr addr' : ℕ)
      → length text < 2 ^ 27
      → IsOrdered p.root
      → symget hash (symget hash p text addr).0 text addr' ≡ symget hash p text addr
  symget_twice p text addr addr' fits h =
      let i = symget-IsInterned p text addr fits h in
      again_by (symget hash p text addr).0 text addr' (symget hash p text addr).1 i.given i.found

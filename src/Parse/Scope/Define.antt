-- ===== src/Parse/Scope/Define.antt =====
-- What defsym does to the names.
use colang.Prelude.{
  ℕ, suc, ◌+◌, ◌-◌, ◌≤◌, ◌≡◌, ◌≢◌, refl, ap, subst, true, false, Option, none, some, List, ◌∷◌,
  arith, if◌then◌else◌, ◌==◌, ltb, Bool-cases, inl, inr,
}
use colang.Util.HashMap.{HashMap, map_get, map_set, bucket_of, bucket_set}
use colang.Util.HashMap.Map.{IsMap, map_get-map_set}
use colang.Parse.Scope.{
  ScopeStack, ParserScopes, scopestack_grow, scopestack_push, scope_lookup, scope_assoc, defsym,
}
use colang.Parse.Scope.Frames.{Frame, lookup_frames}
use colang.Parse.Scope.Stack.{IsScopes, scopestack_grow-IsScopes, scopestack_push-IsScopes}
use colang.Parse.Scope.Names.{or_package, visible}

module _ (hash : ℕ → ℕ) where
  -- At the top level the map of the package takes the name without growing, and the node is not
  -- NULL, as Set asserts.
  abbrev pub CanDefine : ParserScopes → ℕ → ℕ → Type 0
  CanDefine p key value =
      p.stack.base ≡ 0
      → (m : HashMap) × ((parents : List HashMap) × (p.pkgscope ≡ m ∷ parents)
          × IsMap hash m
          × (value ≢ 0)
          × (bucket_set (bucket_of hash m key) key value ≢ none))

  pub record IsDefined (p : ParserScopes) (f : Frame) (fs : List Frame) (key value : ℕ)
      (q : ParserScopes) : Type 0 where
    pub stacked : IsScopes q.stack ((key, value) ∷ f) fs
    pub names :
        (k : ℕ)
        → k ≢ 0
        → visible hash q.pkgscope ((key, value) ∷ f) fs k
          ≡ (if key == k then value else visible hash p.pkgscope f fs k)
    pub inner : p.stack.base ≢ 0 → q.pkgscope ≡ p.pkgscope
    pub outer : p.stack.base ≡ 0 → scope_lookup hash q.pkgscope key ≡ value

  with_room : ScopeStack → ScopeStack
  with_room s = if ltb (s.cap - s.len) 2 then scopestack_grow s else s

  with_room-IsScopes :
      (s : ScopeStack) (f : Frame) (fs : List Frame)
      → IsScopes s f fs
      → IsScopes (with_room s) f fs
        × ((with_room s).len + 2 ≤ (with_room s).cap)
        × ((with_room s).base ≡ s.base)
  unfolding with_room scopestack_grow
  with_room-IsScopes s f fs h = elim (Bool-cases (ltb (s.cap - s.len) 2)) [
    | inr free ↦ rw free (h, ground (arith, h.fits), refl)
    | inl full ↦
        rw full (scopestack_grow-IsScopes s f fs h, ground (arith, h.fits, h.some_room), refl)
  ]

  -- A name of the package map that is not bound on the stack.
  scope_lookup_assoc :
      (m r : HashMap) (parents : List HashMap) (key k value : ℕ)
      → map_get hash r k ≡ (if key == k then value else map_get hash m k)
      → (key == k) ≡ false
      → scope_lookup hash (r ∷ parents) k ≡ scope_lookup hash (m ∷ parents) k
  unfolding scope_lookup
  scope_lookup_assoc m r parents key k value e differs = rw (e, differs) refl

  -- One map that every name reads from.
  map_set-reads :
      (fuel : ℕ) (m : HashMap) (key value : ℕ)
      → IsMap hash m
      → key ≢ 0
      → value ≢ 0
      → bucket_set (bucket_of hash m key) key value ≢ none
      → (r : HashMap × ℕ) × (map_set hash (suc fuel) m key value ≡ some r)
        × ((k : ℕ) → k ≢ 0 → map_get hash r.0 k ≡ (if key == k then value else map_get hash m k))
  map_set-reads fuel m key value is_map hk hv room =
      let (r, set_ok, reads_key) = map_get-map_set hash fuel m key key value is_map hk hk hv room in
      (
        r,
        set_ok,
        λ k ne.
            let (r', set_ok', reads) =
              map_get-map_set hash fuel m key k value is_map hk ne hv room in
            let same : r' ≡ r = cc in
            subst (λ x. map_get hash x.0 k ≡ (if key == k then value else map_get hash m k)) same
              reads,
      )

  abbrev DefinedAt : ParserScopes → Frame → List Frame → ℕ → ℕ → Option ParserScopes → Type 0
  DefinedAt p f fs key value none = ⊥
  DefinedAt p f fs key value (some q) = IsDefined p f fs key value q

  defined :
      (p : ParserScopes) (f : Frame) (fs : List Frame) (key value : ℕ) (o : Option ParserScopes)
      → DefinedAt p f fs key value o
      → (q : ParserScopes) × (o ≡ some q) × IsDefined p f fs key value q
  defined p f fs key value none d = absurd d
  defined p f fs key value (some q) d = (q, refl, d)

  define_outer :
      (fuel : ℕ) (p : ParserScopes) (f : Frame) (fs : List Frame) (key value : ℕ) (s : ScopeStack)
      (m : HashMap) (parents : List HashMap)
      → p.stack.base ≡ 0
      → p.pkgscope ≡ m ∷ parents
      → IsMap hash m
      → key ≢ 0
      → value ≢ 0
      → bucket_set (bucket_of hash m key) key value ≢ none
      → IsScopes s ((key, value) ∷ f) fs
      → DefinedAt p f fs key value (elim (scope_assoc hash (suc fuel) p.pkgscope key value) [
        | none ↦ none
        | some scopes ↦ some (record p { stack = s; pkgscope = scopes })
      ])
  unfolding scope_assoc
  define_outer fuel p f fs key value s m parents top chain is_map hk hv room h =
      let (r, set_ok, reads) = map_set-reads fuel m key value is_map hk hv room in
      let here : (key == key) ≡ true = ground arith in
      rw (chain, scope_assoc, set_ok)
        (record {
          stacked = h;
          names = λ k ne. elim (Bool-cases (key == k)) [
            | inl same ↦ rw same refl
            | inr differs ↦ rw differs (
                ap (or_package (lookup_frames k f fs))
                  (scope_lookup_assoc m r.0 parents key k value (reads k ne) differs))
          ];
          inner = λ ne. absurd (ne top);
          outer = λ t.
              unfold scope_lookup in
              let filled : (value == 0) ≡ false = ground arith in
              rw (reads key hk, here, filled) refl;
        })

  -- On a stack of scopes in order, for a name that is not NULL, and at the top level a node that
  -- is not NULL and room for the name in the map of the package, defsym returns; then the name
  -- means the new node and every other name what it meant, the package is changed at the top level
  -- only, and there it has the new node.
  pub defsym-IsDefined :
      (fuel : ℕ) (p : ParserScopes) (f : Frame) (fs : List Frame) (key value : ℕ)
      → IsScopes p.stack f fs
      → key ≢ 0
      → CanDefine p key value
      → (q : ParserScopes) × (defsym hash (suc fuel) p key value ≡ some q)
        × IsDefined p f fs key value q
  unfolding defsym with_room
  defsym-IsDefined fuel p f fs key value h hk can =
      let (ready, space, same_base) = with_room-IsScopes p.stack f fs h in
      let s = scopestack_push (with_room p.stack) key value in
      let pushed = scopestack_push-IsScopes (with_room p.stack) key value f fs space ready in
      elim (Bool-cases ((with_room p.stack).base == 0)) [
        | inr e ↦ (
          record p { stack = s },
          rw e refl,
          record {
            stacked = pushed;
            names = λ k ne. elim (Bool-cases (key == k)) [
              | inl same ↦ rw same refl
              | inr differs ↦ rw differs refl
            ];
            inner = λ ne. refl;
            outer = λ t. absurd (ground arith);
          },
        )
        | inl e ↦
            let top : p.stack.base ≡ 0 = ground arith in
            let (m, (parents, chain, is_map, hv, room)) = can top in
            rw e (
              defined p f fs key value _
                (define_outer fuel p f fs key value s m parents top chain is_map hk hv room pushed))
      ]

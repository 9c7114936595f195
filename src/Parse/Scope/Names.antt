-- ===== src/Parse/Scope/Names.antt =====
-- What a name means: the innermost binding on the stack, or else what the package has for it.
use colang.Prelude.{
  ℕ, ◌-◌, ◌≡◌, ◌≢◌, refl, sym, ◌∙◌, false, Option, none, some, List, ◌∷◌, arith, if◌then◌else◌,
  ◌==◌, ltb, Bool-cases, Option-cases, inl, inr, ==_iff,
}
use colang.Util.HashMap.{HashMap}
use colang.Parse.Scope.{ParserScopes, scope_lookup, lookupsym_pkg, lookupsym}
use colang.Parse.Scope.Frames.{Frame, lookup_frames, search-lookup}
use colang.Parse.Scope.Stack.{IsScopes, scopestack_push-IsScopes}

abbrev pub or_package : Option ℕ → ℕ → ℕ
or_package none n = n
or_package (some v) n = v

module _ (hash : ℕ → ℕ) where
  -- The node that a name stands for, NULL where it is not defined.
  abbrev pub visible : List HashMap → Frame → List Frame → ℕ → ℕ
  visible scopes f fs key = or_package (lookup_frames key f fs) (scope_lookup hash scopes key)

  -- The frames after a lookup; they may have the name once more, with the meaning it had.
  pub record IsLookedUp (p : ParserScopes) (f : Frame) (fs : List Frame) (key : ℕ)
      (q : ParserScopes) (n : ℕ) : Type 0 where
    pub found : n ≡ visible p.pkgscope f fs key
    pub top : Frame
    pub stacked : IsScopes q.stack top fs
    pub same_names : (k : ℕ) → visible q.pkgscope top fs k ≡ visible p.pkgscope f fs k
    pub used : (a : ℕ) → a ≢ 0 → q.unused a ≡ (if n == a then false else p.unused a)
    pub same_package : q.pkgscope ≡ p.pkgscope

  cached-visible :
      (scopes : List HashMap) (f : Frame) (fs : List Frame) (key k : ℕ)
      → lookup_frames key f fs ≡ none
      → visible scopes ((key, scope_lookup hash scopes key) ∷ f) fs k ≡ visible scopes f fs k
  cached-visible scopes f fs key k e = elim (Bool-cases (key == k)) [
    | inr differs ↦ rw differs refl
    | inl same ↦ rw (same, ← (==_iff key k).0 same, e) refl
  ]

  lookupsym_pkg-IsLookedUp :
      (p : ParserScopes) (f : Frame) (fs : List Frame) (key : ℕ)
      → IsScopes p.stack f fs
      → lookup_frames key f fs ≡ none
      → IsLookedUp p f fs key (lookupsym_pkg hash p key).0 (lookupsym_pkg hash p key).1
  unfolding lookupsym_pkg
  lookupsym_pkg-IsLookedUp p f fs key h e =
      let n = scope_lookup hash p.pkgscope key in
      let means : n ≡ visible p.pkgscope f fs key = rw e refl in
      elim (Bool-cases (n == 0)) [
        | inl absent ↦ rw absent (record {
          found = sym ((==_iff n 0).0 absent) ∙ means;
          top = f;
          stacked = h;
          same_names = λ k. refl;
          used = λ a ne. ground arith;
          same_package = refl;
        })
        | inr there ↦ rw there (elim (Bool-cases (ltb 1 (p.stack.cap - p.stack.len))) [
          | inr full ↦ rw full (record {
            found = means;
            top = f;
            stacked = h;
            same_names = λ k. refl;
            used = λ a ne. refl;
            same_package = refl;
          })
          | inl free ↦ rw free (record {
            found = means;
            top = (key, n) ∷ f;
            stacked = scopestack_push-IsScopes p.stack key n f fs (ground arith) h;
            same_names = λ k. cached-visible p.pkgscope f fs key k e;
            used = λ a ne. refl;
            same_package = refl;
          })
        ])
      ]

  -- On a stack of scopes in order, lookupsym returns the node of the innermost binding of the
  -- name, or else what the package and the universe have for it, and clears its unused flag only;
  -- what it may put on the stack leaves the stack in order and changes the meaning of no name.
  pub lookupsym-IsLookedUp :
      (p : ParserScopes) (f : Frame) (fs : List Frame) (key : ℕ)
      → IsScopes p.stack f fs
      → IsLookedUp p f fs key (lookupsym hash p key).0 (lookupsym hash p key).1
  unfolding lookupsym
  lookupsym-IsLookedUp p f fs key h =
      let e = search-lookup p.stack.ptr key p.stack.base p.stack.len f fs h.frames in
      elim (Option-cases (lookup_frames key f fs)) [
        | inl absent ↦ rw (e ∙ absent, lookupsym) (lookupsym_pkg-IsLookedUp p f fs key h absent)
        | inr (n, there) ↦
            rw (e ∙ there, lookupsym)
              (record {
                found = rw there refl;
                top = f;
                stacked = h;
                same_names = λ k. refl;
                used = λ a ne. refl;
                same_package = refl;
              })
      ]

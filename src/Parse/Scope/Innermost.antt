-- ===== src/Parse/Scope/Innermost.antt =====
-- What is asked of the innermost scope only: lookupsymShallow and scopestackCheckUnused.
use colang.Prelude.{
  ℕ, zero, suc, ◌+◌, ◌-◌, ◌≤◌, ◌≡◌, ◌≢◌, refl, ap, subst, ◌∙◌, Bool, true, false, not, ◌&&◌, Option,
  none, some, List, [], ◌∷◌, arith, get_or, ltb, if◌then◌else◌, ◌==◌, Bool-cases, inl, inr,
}
use colang.Parse.Scope.{
  ScopeStack, ParserScopes, clear_unused, search_shallow, lookupsym_shallow, scope_lookup,
  lookupsym, lookupsym_pkg, scopestack_push, check_from, pop_and_check, pop_scope,
}
use colang.Parse.Scope.Frames.{Frame, IsStack, frame_lookup, lookup_frames, base-le, search-lookup}
use colang.Parse.Scope.Stack.{IsScopes, scopestack_push-IsScopes}

-- A binding on top, seen through a length that is two more.
module _ (ptr : List ℕ) (base j k v : ℕ) (f : Frame) (fs : List Frame)
    (s : IsStack ptr base (suc (suc j)) ((k, v) ∷ f) fs) where
  below : IsStack ptr base j f fs
  below =
      let two : suc (suc j) - 2 ≡ j = omega arith in subst (λ n. IsStack ptr base n f fs) two s.3

  key-top : get_or ptr (suc j) 0 ≡ k
  key-top =
      let one : suc (suc j) - 1 ≡ suc j = omega arith in subst (λ n. get_or ptr n 0 ≡ k) one s.1

  value-top : get_or ptr j 0 ≡ v
  value-top = let two : suc (suc j) - 2 ≡ j = omega arith in subst (λ n. get_or ptr n 0 ≡ v) two s.2

  base-below : base ≤ j
  base-below = base-le ptr base j f fs below

search_shallow-lookup :
    (ptr : List ℕ) (key base len : ℕ) (f : Frame) (fs : List Frame)
    → IsStack ptr base len f fs
    → search_shallow ptr key len base ≡ frame_lookup key f
unfolding search_shallow
search_shallow-lookup ptr key base len [] [] s = rw s.1 refl
search_shallow-lookup ptr key zero len [] (g ∷ fs) s = rw s.0 refl
search_shallow-lookup ptr key (suc j) len [] (g ∷ fs) s =
    let here : (suc j == suc j) ≡ true = ground arith in
    let size : len ≡ suc (suc j) = omega (arith, s.0) in rw (size, search_shallow, here) refl
search_shallow-lookup ptr key base zero ((k, v) ∷ f) fs s = absurd (omega (arith, s.0))
search_shallow-lookup ptr key base (suc zero) ((k, v) ∷ f) fs s = absurd (omega (arith, s.0))
search_shallow-lookup ptr key base (suc (suc j)) ((k, v) ∷ f) fs s =
    let other : (suc j == base) ≡ false = ground (arith, base-below ptr base j k v f fs s) in
    let ek = key-top ptr base j k v f fs s in
    let ev = value-top ptr base j k v f fs s in
    elim (Bool-cases (k == key)) [
      | inl same ↦ rw (search_shallow, other, ek, same, ev) refl
      | inr differs ↦
          rw (search_shallow, other, ek, differs)
            (search_shallow-lookup ptr key base j f fs (below ptr base j k v f fs s))
    ]

-- The bindings of a frame to warn of, the newest first.
abbrev pub unreferenced : (ℕ → Bool) → ℕ → Frame → List ℕ
unreferenced is_unreferenced blank [] = []
unreferenced is_unreferenced blank ((k, v) ∷ f) =
    let rest = unreferenced is_unreferenced blank f in
    if not (k == blank) && is_unreferenced v then v ∷ rest else rest

module _ (is_unreferenced : ℕ → Bool) (blank : ℕ) where
  check_from-unreferenced :
      (ptr : List ℕ) (base len : ℕ) (f g : Frame) (fs : List Frame)
      → IsStack ptr base len f (g ∷ fs)
      → check_from is_unreferenced blank ptr len base ≡ unreferenced is_unreferenced blank f
  unfolding check_from
  check_from-unreferenced ptr zero len [] g fs s = rw s.0 refl
  check_from-unreferenced ptr (suc j) len [] g fs s =
      let ended : ltb (suc j) (suc j) ≡ false = ground arith in
      let size : len ≡ suc (suc j) = omega (arith, s.0) in rw (size, check_from, ended) refl
  check_from-unreferenced ptr base zero ((k, v) ∷ f) g fs s = absurd (omega (arith, s.0))
  check_from-unreferenced ptr base (suc zero) ((k, v) ∷ f) g fs s = absurd (omega (arith, s.0))
  check_from-unreferenced ptr base (suc (suc j)) ((k, v) ∷ f) g fs s =
      let inside : ltb base (suc j) ≡ true =
        ground (arith, base-below ptr base j k v f (g ∷ fs) s) in
      rw
        (
          check_from,
          inside,
          key-top ptr base j k v f (g ∷ fs) s,
          value-top ptr base j k v f (g ∷ fs) s,
          check_from-unreferenced ptr base j f g fs (below ptr base j k v f (g ∷ fs) s),
        )
        refl

  -- For a stack of scopes in order inside at least one scope, popScopeAndCheckUnused closes the
  -- innermost scope; in a debug build it warns of the bindings in it, newest first, whose name is
  -- not `_` and whose variable is not referenced, and of no other, and otherwise of none.
  pub pop_and_check_lem :
      (debug : Bool) (s : ScopeStack) (f g : Frame) (fs : List Frame)
      → IsScopes s f (g ∷ fs)
      → pop_and_check debug is_unreferenced blank s
        ≡ (pop_scope s, if debug then unreferenced is_unreferenced blank f else [])
  unfolding pop_and_check
  pop_and_check_lem false s f g fs h = refl
  pop_and_check_lem true s [] g fs h =
      let few : ltb 1 (s.len - s.base) ≡ false = ground (arith, h.frames.0) in rw few refl
  pop_and_check_lem true s ((k, v) ∷ f) g fs h =
      let bottom = base-le s.ptr s.base (s.len - 2) f (g ∷ fs) h.frames.3 in
      let some_words : ltb 1 (s.len - s.base) ≡ true = ground (arith, bottom, h.frames.0) in
      rw some_words (
        ap (λ ns. (pop_scope s, ns))
          (check_from-unreferenced s.ptr s.base s.len ((k, v) ∷ f) g fs h.frames))

abbrev or_null : Option ℕ → ℕ
or_null none = 0
or_null (some n) = n

shallow-frame :
    (p : ParserScopes) (f : Frame) (fs : List Frame) (key : ℕ)
    → IsScopes p.stack f fs
    → (lookupsym_shallow p key).1 ≡ or_null (frame_lookup key f)
unfolding lookupsym_shallow
shallow-frame p f fs key h =
    let e = search_shallow-lookup p.stack.ptr key p.stack.base p.stack.len f fs h.frames in
    given (search_shallow p.stack.ptr key p.stack.len p.stack.base) ∙ ap or_null e
  where
    given :
        (o : Option ℕ)
        → (elim o as (λ x. ParserScopes × ℕ) [ none ↦ (p, 0) | some n ↦ (clear_unused n p, n) ]).1
          ≡ or_null o
    given none = refl
    given (some n) = refl

unbound-frame :
    (key : ℕ) (f : Frame) (fs : List Frame)
    → lookup_frames key f fs ≡ none
    → frame_lookup key f ≡ none
unbound-frame key [] fs e = refl
unbound-frame key ((k, v) ∷ f) fs e = elim (Bool-cases (k == key)) [
  | inr differs ↦ rw differs (unbound-frame key f fs (rw differs at e))
  | inl same ↦ absurd (ground arith)
]

-- For a name that is not bound on a stack of scopes in order with room for two words, and that the
-- package has, lookupsymShallow finds nothing before lookupsym of the name, and the node of the
-- package after it, as if the innermost scope defined it.
pub lookupsym_shallow-lookupsym :
    (hash : ℕ → ℕ) (p : ParserScopes) (f : Frame) (fs : List Frame) (key : ℕ)
    → IsScopes p.stack f fs
    → lookup_frames key f fs ≡ none
    → scope_lookup hash p.pkgscope key ≢ 0
    → p.stack.len + 2 ≤ p.stack.cap
    → ((lookupsym_shallow p key).1 ≡ 0)
      × ((lookupsym_shallow (lookupsym hash p key).0 key).1 ≡ scope_lookup hash p.pkgscope key)
unfolding lookupsym lookupsym_pkg
lookupsym_shallow-lookupsym hash p f fs key h unbound there room =
    let n = scope_lookup hash p.pkgscope key in
    let missed = search-lookup p.stack.ptr key p.stack.base p.stack.len f fs h.frames ∙ unbound in
    let found : (n == 0) ≡ false = ground arith in
    let free : ltb 1 (p.stack.cap - p.stack.len) ≡ true = ground arith in
    let q : ParserScopes = record (clear_unused n p) { stack = scopestack_push p.stack key n } in
    let cached : (lookupsym hash p key).0 ≡ q =
      rw (lookupsym, missed, lookupsym_pkg, found, free) refl in
    let here : (key == key) ≡ true = ground arith in
    (
      shallow-frame p f fs key h ∙ ap or_null (unbound-frame key f fs unbound),
      ap (λ r. (lookupsym_shallow r key).1) cached
          ∙ shallow-frame q ((key, n) ∷ f) fs key
              (scopestack_push-IsScopes p.stack key n f fs room h)
          ∙ rw here refl,
    )

-- ===== src/Parse/Scope/Nested.antt =====
-- A scope that is opened and closed again leaves every name as it was.
use colang.Prelude.{
  ℕ, suc, ◌+◌, ◌-◌, ◌<◌, ◌≡◌, ◌≢◌, refl, ap, sym, ◌∙◌, Option, none, some, List, [], ◌∷◌, arith,
  get_or,
}
use colang.Parse.Scope.{ScopeStack, ParserScopes, push_scope, pop_scope, lookupsym, defsym}
use colang.Parse.Scope.Frames.{Frame, IsStack, base-le}
use colang.Parse.Scope.Stack.{IsScopes, IsStack-outer, push_scope-IsScopes, pop_scope-IsScopes}
use colang.Parse.Scope.Names.{visible, lookupsym-IsLookedUp}
use colang.Parse.Scope.Define.{defsym-IsDefined}

-- How many words the frames take.
words_of : Frame → List Frame → ℕ
words_of [] [] = 0
words_of [] (g ∷ fs) = words_of g fs + 1
words_of (b ∷ f) fs = words_of f fs + 2

len-words_of :
    (ptr : List ℕ) (base len : ℕ) (f : Frame) (fs : List Frame)
    → IsStack ptr base len f fs
    → len ≡ words_of f fs
unfolding words_of
len-words_of ptr base len [] [] s = s.1
len-words_of ptr base len [] (g ∷ fs) s =
    omega (arith, s.0, len-words_of ptr (get_or ptr base 0) base g fs s.1)
len-words_of ptr base len ((k, v) ∷ f) fs s =
    omega (arith, s.0, len-words_of ptr base (len - 2) f fs s.3)

-- The base of a scope is where the frames around it end.
base-words_of :
    (s : ScopeStack) (f g : Frame) (fs : List Frame)
    → IsScopes s f (g ∷ fs)
    → s.base ≡ words_of g fs
base-words_of s f g fs h =
    len-words_of s.ptr (get_or s.ptr s.base 0) s.base g fs
      (IsStack-outer s.ptr s.base s.len f g fs h.frames)

-- What the parser does with names inside a scope, and with the scopes inside it.
pub data Body : Type 0 where
  ends : Body
  defines : (key value : ℕ) → Body → Body
  looks : (key : ℕ) → Body → Body
  nests : Body → Body → Body

abbrev pub on_stack : (ScopeStack → ScopeStack) → ParserScopes → ParserScopes
on_stack change p = record p { stack = change p.stack }

infixl 5 ◌>>=◌
abbrev pub ◌>>=◌ : Option ParserScopes → (ParserScopes → Option ParserScopes) → Option ParserScopes
none >>= next = none
some p >>= next = next p

module _ (hash : ℕ → ℕ) (fuel : ℕ) where
  unfoldable pub run_body : ParserScopes → Body → Option ParserScopes
  run_body p ends = some p
  run_body p (defines key value b) = defsym hash (suc fuel) p key value >>= λ q. run_body q b
  run_body p (looks key b) = run_body (lookupsym hash p key).0 b
  run_body p (nests inner b) =
      run_body (on_stack push_scope p) inner >>= λ q. run_body (on_stack pop_scope q) b

  -- Keys are not NULL.
  abbrev pub HasKeys : Body → Type 0
  HasKeys ends = Unit
  HasKeys (defines key value b) = (key ≢ 0) × HasKeys b
  HasKeys (looks key b) = HasKeys b
  HasKeys (nests inner b) = HasKeys inner × HasKeys b

  -- The frames around the innermost one, and the package, are as they were.
  abbrev Around : ParserScopes → List Frame → Option ParserScopes → Type 0
  Around p fs none = ⊥
  Around p fs (some q) = ((f : Frame) × IsScopes q.stack f fs) × (q.pkgscope ≡ p.pkgscope)

  -- The scope is left behind, and what was around it is the innermost again.
  leave :
      (p : ParserScopes) (f : Frame) (fs : List Frame) (rest : List Frame) (o : Option ParserScopes)
      (next : ParserScopes → Option ParserScopes)
      → Around (on_stack push_scope p) (f ∷ fs) o
      → ((q : ParserScopes)
          → IsScopes q.stack f fs
          → q.pkgscope ≡ p.pkgscope
          → Around p rest (next q))
      → Around p rest (o >>= λ q. next (on_stack pop_scope q))
  leave p f fs rest none next a step = absurd a
  leave p f fs rest (some q) next ((top, h), same) step =
      step (on_stack pop_scope q) (pop_scope-IsScopes q.stack top f fs h) same

  pushed-base :
      (p : ParserScopes) (f : Frame) (fs : List Frame)
      → IsScopes p.stack f fs
      → 0 < p.stack.len
      → (push_scope p.stack).base ≢ 0
  pushed-base p f fs h some_words z =
      let size = len-words_of p.stack.ptr p.stack.base p.stack.len f fs h.frames in
      let start = base-words_of (push_scope p.stack) [] f fs (push_scope-IsScopes p.stack f fs h) in
      absurd (omega (arith, size, start, some_words, z))

  Around-from :
      (p q : ParserScopes) (fs : List Frame) (o : Option ParserScopes)
      → q.pkgscope ≡ p.pkgscope
      → Around q fs o
      → Around p fs o
  Around-from p q fs none e a = a
  Around-from p q fs (some r) e a = (a.0, a.1 ∙ e)

  body-Around :
      (p : ParserScopes) (b : Body) (f g : Frame) (fs : List Frame)
      → IsScopes p.stack f (g ∷ fs)
      → p.stack.base ≢ 0
      → HasKeys b
      → Around p (g ∷ fs) (run_body p b)
  unfolding run_body
  body-Around p ends f g fs h ne keys = ((f, h), refl)
  body-Around p (defines key value b) f g fs h ne keys =
      let (q, e, d) =
        defsym-IsDefined hash fuel p f (g ∷ fs) key value h keys.0 (λ z. absurd (ne z)) in
      let same : q.stack.base ≡ p.stack.base =
        base-words_of q.stack ((key, value) ∷ f) g fs d.stacked
        ∙ sym (base-words_of p.stack f g fs h) in
      rw e (
        Around-from p q (g ∷ fs) (run_body q b) (d.inner ne)
          (body-Around q b ((key, value) ∷ f) g fs d.stacked (λ z. ne (sym same ∙ z)) keys.1))
  body-Around p (looks key b) f g fs h ne keys =
      let q = (lookupsym hash p key).0 in
      let d = lookupsym-IsLookedUp hash p f (g ∷ fs) key h in
      let same : q.stack.base ≡ p.stack.base =
        base-words_of q.stack d.top g fs d.stacked ∙ sym (base-words_of p.stack f g fs h) in
      Around-from p q (g ∷ fs) (run_body q b) d.same_package
        (body-Around q b d.top g fs d.stacked (λ z. ne (sym same ∙ z)) keys)
  body-Around p (nests inner b) f g fs h ne keys =
      let bottom = base-le p.stack.ptr p.stack.base p.stack.len f (g ∷ fs) h.frames in
      leave p f (g ∷ fs) (g ∷ fs) (run_body (on_stack push_scope p) inner) (λ q. run_body q b)
        (body-Around (on_stack push_scope p) inner [] f (g ∷ fs)
          (push_scope-IsScopes p.stack f (g ∷ fs) h)
          (pushed-base p f (g ∷ fs) h (ground (arith, bottom))) keys.0)
        (λ q i e.
          let same : q.stack.base ≡ p.stack.base =
            base-words_of q.stack f g fs i ∙ sym (base-words_of p.stack f g fs h) in
          Around-from p q (g ∷ fs) (run_body q b) e
            (body-Around q b f g fs i (λ z. ne (sym same ∙ z)) keys.1))

  -- The stack is that of before, and every name means what it meant.
  pub record IsRestored (p : ParserScopes) (f : Frame) (fs : List Frame) (q : ParserScopes)
      : Type 0 where
    pub stacked : IsScopes q.stack f fs
    pub same_names : (k : ℕ) → visible hash q.pkgscope f fs k ≡ visible hash p.pkgscope f fs k

  abbrev pub RestoredBy : ParserScopes → Frame → List Frame → Option ParserScopes → Type 0
  RestoredBy p f fs none = ⊥
  RestoredBy p f fs (some q) = IsRestored p f fs q

  left-restored :
      (p : ParserScopes) (f : Frame) (fs : List Frame) (o : Option ParserScopes)
      → Around (on_stack push_scope p) (f ∷ fs) o
      → RestoredBy p f fs (o >>= λ q. some (on_stack pop_scope q))
  left-restored p f fs none a = absurd a
  left-restored p f fs (some q) ((top, h), same) = record {
    stacked = pop_scope-IsScopes q.stack top f fs h;
    same_names = λ k. ap (λ scopes. visible hash scopes f fs k) same;
  }

  -- Where some name is already defined, opening a scope, any definitions and lookups in it and any
  -- scopes inside it, with keys that are not NULL, and closing it again come to an end, and leave
  -- the stack in order with the bindings of before, so that every name means what it meant.
  pub nests-RestoredBy :
      (p : ParserScopes) (inner : Body) (f : Frame) (fs : List Frame)
      → IsScopes p.stack f fs
      → 0 < p.stack.len
      → HasKeys inner
      → RestoredBy p f fs (run_body p (nests inner ends))
  unfolding run_body
  nests-RestoredBy p inner f fs h some_words keys =
      left-restored p f fs (run_body (on_stack push_scope p) inner) (
        body-Around (on_stack push_scope p) inner [] f fs (push_scope-IsScopes p.stack f fs h)
          (pushed-base p f fs h some_words) keys)

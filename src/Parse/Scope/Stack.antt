-- ===== src/Parse/Scope/Stack.antt =====
-- What the writes to the stack of scopes keep.
use colang.Prelude.{
  ℕ, zero, suc, ◌+◌, ◌-◌, ◌≤◌, ◌<◌, ◌≡◌, refl, sym, subst, ◌∙◌, true, List, [], ◌∷◌, ◌++◌, arith,
  ◌==◌, get_or, set, length, length-set, length-append, length-replicate, replicate, get_or-set,
  Bool-cases, inl, inr,
}
use colang.Parse.Scope.{ScopeStack, scopestack_grow, scopestack_push, push_scope, pop_scope}
use colang.Parse.Scope.Frames.{Frame, IsStack, base-le}

-- Words that agree below `len` are the same frames.
pub IsStack-agree :
    (ptr words : List ℕ) (base len : ℕ) (f : Frame) (fs : List Frame)
    → ((i : ℕ) → i < len → get_or words i 0 ≡ get_or ptr i 0)
    → IsStack ptr base len f fs
    → IsStack words base len f fs
IsStack-agree ptr words base len [] [] same s = s
IsStack-agree ptr words base len [] (g ∷ fs) same s =
    let saved = same base (omega (arith, s.0)) in
    (
      s.0,
      subst (λ n. IsStack words n base g fs) (sym saved)
          (IsStack-agree ptr words (get_or ptr base 0) base g fs
            (λ i h. same i (omega (arith, h, s.0))) s.1),
    )
IsStack-agree ptr words base len ((k, v) ∷ f) fs same s = (
  s.0,
  same (len - 1) (omega (arith, s.0)) ∙ s.1,
  same (len - 2) (omega (arith, s.0)) ∙ s.2,
  IsStack-agree ptr words base (len - 2) f fs (λ i h. same i (omega (arith, h, s.0))) s.3,
)

get_or-append : (xs ys : List ℕ) (i : ℕ) → i < length xs → get_or (xs ++ ys) i 0 ≡ get_or xs i 0
get_or-append [] ys i h = elim h [ ]
get_or-append (x ∷ xs) ys zero h = refl
get_or-append (x ∷ xs) ys (suc i) h = get_or-append xs ys i (omega arith)

-- The stack holds the frames in memory that has its capacity.
pub record IsScopes (s : ScopeStack) (f : Frame) (fs : List Frame) : Type 0 where
  pub words : length s.ptr ≡ s.cap
  pub fits : s.len ≤ s.cap
  pub some_room : 2 ≤ s.cap
  pub frames : IsStack s.ptr s.base s.len f fs

pub scopestack_grow-IsScopes :
    (s : ScopeStack) (f : Frame) (fs : List Frame)
    → IsScopes s f fs
    → IsScopes (scopestack_grow s) f fs
unfolding scopestack_grow
scopestack_grow-IsScopes s f fs h = record {
  words =
      omega
        (arith, length-append s.ptr (replicate s.cap 0), length-replicate {A = ℕ} s.cap 0, h.words);
  fits = omega (arith, h.fits);
  some_room = omega (arith, h.some_room);
  frames =
      IsStack-agree s.ptr (s.ptr ++ replicate s.cap 0) s.base s.len f fs
        (λ i lt. get_or-append s.ptr (replicate s.cap 0) i (omega (arith, lt, h.words, h.fits)))
        h.frames;
}

pub scopestack_push-IsScopes :
    (s : ScopeStack) (key value : ℕ) (f : Frame) (fs : List Frame)
    → s.len + 2 ≤ s.cap
    → IsScopes s f fs
    → IsScopes (scopestack_push s key value) ((key, value) ∷ f) fs
unfolding scopestack_push
scopestack_push-IsScopes s key value f fs room h =
    let with_value = set s.ptr s.len value in
    let all = set with_value (s.len + 1) key in
    let first = length-set s.ptr s.len value in
    let size = length-set with_value (s.len + 1) key in
    let reads = λ (i : ℕ). get_or-set s.ptr s.len i value 0 (omega (arith, h.words, room)) in
    let reads_all =
      λ (i : ℕ). get_or-set with_value (s.len + 1) i key 0 (omega (arith, first, h.words, room)) in
    let one : s.len + 2 - 1 ≡ s.len + 1 = omega arith in
    let two : s.len + 2 - 2 ≡ s.len = omega arith in
    record {
      words = size ∙ first ∙ h.words;
      fits = room;
      some_room = h.some_room;
      frames = (
        omega arith,
        ground (arith, reads_all (s.len + 1)),
        ground (arith, reads_all s.len, reads s.len),
        subst (λ n. IsStack all s.base n f fs) (sym two)
            (IsStack-agree s.ptr all s.base s.len f fs
              (λ i lt. ground (arith, reads_all i, reads i)) h.frames),
      );
    }

pub push_scope-IsScopes :
    (s : ScopeStack) (f : Frame) (fs : List Frame)
    → IsScopes s f fs
    → IsScopes (push_scope s) [] (f ∷ fs)
unfolding push_scope scopestack_grow
push_scope-IsScopes s f fs h = elim (Bool-cases (s.cap - s.len == 0)) [
  | inl full ↦ rw full (marked (scopestack_grow s) (scopestack_grow-IsScopes s f fs h) (grown full))
  | inr free ↦ rw free (marked s h (ground (arith, h.fits)))
]
  where
    grown : (s.cap - s.len == 0) ≡ true → (scopestack_grow s).len < (scopestack_grow s).cap
    grown full = ground (arith, h.fits, h.some_room)

    marked :
        (t : ScopeStack)
        → IsScopes t f fs
        → t.len < t.cap
        → IsScopes
            (record t { ptr = set t.ptr t.len t.base; len = t.len + 1; base = t.len })
            []
            (f ∷ fs)
    marked t i room =
        let all = set t.ptr t.len t.base in
        let reads = λ (j : ℕ). get_or-set t.ptr t.len j t.base 0 (omega (arith, i.words, room)) in
        record {
          words = length-set t.ptr t.len t.base ∙ i.words;
          fits = omega (arith, room);
          some_room = i.some_room;
          frames = (
            refl,
            subst (λ n. IsStack all n t.len f fs) (sym (ground (arith, reads t.len)))
                (IsStack-agree t.ptr all t.base t.len f fs (λ j lt. ground (arith, reads j))
                  i.frames),
          );
        }

-- Whatever the frame holds, the one around it lies below the base.
pub IsStack-outer :
    (ptr : List ℕ) (base len : ℕ) (f g : Frame) (fs : List Frame)
    → IsStack ptr base len f (g ∷ fs)
    → IsStack ptr (get_or ptr base 0) base g fs
IsStack-outer ptr base len [] g fs s = s.1
IsStack-outer ptr base len ((k, v) ∷ f) g fs s = IsStack-outer ptr base (len - 2) f g fs s.3

pub pop_scope-IsScopes :
    (s : ScopeStack) (f g : Frame) (fs : List Frame)
    → IsScopes s f (g ∷ fs)
    → IsScopes (pop_scope s) g fs
unfolding pop_scope
pop_scope-IsScopes s f g fs h = record {
  words = h.words;
  fits = omega (arith, h.fits, base-le s.ptr s.base s.len f (g ∷ fs) h.frames);
  some_room = h.some_room;
  frames = IsStack-outer s.ptr s.base s.len f g fs h.frames;
}

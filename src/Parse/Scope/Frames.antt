-- ===== src/Parse/Scope/Frames.antt =====
-- The stack of scopes as a list of frames, the innermost first, each with its newest binding first.
use colang.Prelude.{
  ℕ, zero, suc, ◌+◌, ◌-◌, ◌≤◌, ◌≡◌, refl, sym, subst, true, false, Option, none, some, List, [],
  ◌∷◌, arith, if◌then◌else◌, ◌==◌, get_or, Bool-cases, inl, inr,
}
use colang.Parse.Scope.{search}

abbrev pub Frame : Type 0
Frame = List (ℕ × ℕ)

-- The words below `len` are the frame `f`, and under its saved base the frames `fs`.
abbrev pub IsStack : List ℕ → ℕ → ℕ → Frame → List Frame → Type 0
IsStack ptr base len [] [] = (base ≡ 0) × (len ≡ 0)
IsStack ptr base len [] (g ∷ fs) = (len ≡ base + 1) × IsStack ptr (get_or ptr base 0) base g fs
IsStack ptr base len ((key, value) ∷ f) fs =
    (2 ≤ len)
    × (get_or ptr (len - 1) 0 ≡ key)
    × (get_or ptr (len - 2) 0 ≡ value)
    × IsStack ptr base (len - 2) f fs

abbrev pub frame_lookup : ℕ → Frame → Option ℕ
frame_lookup key [] = none
frame_lookup key ((k, v) ∷ f) = if k == key then some v else frame_lookup key f

-- The innermost binding of a key.
abbrev pub lookup_frames : ℕ → Frame → List Frame → Option ℕ
lookup_frames key [] [] = none
lookup_frames key [] (g ∷ fs) = lookup_frames key g fs
lookup_frames key ((k, v) ∷ f) fs = if k == key then some v else lookup_frames key f fs

pub base-le :
    (ptr : List ℕ) (base len : ℕ) (f : Frame) (fs : List Frame)
    → IsStack ptr base len f fs
    → base ≤ len
base-le ptr base len [] [] s = omega arith
base-le ptr base len [] (g ∷ fs) s = omega (arith, s.0)
base-le ptr base len ((k, v) ∷ f) fs s = omega (arith, s.0, base-le ptr base (len - 2) f fs s.3)

lookup-empty :
    (ptr : List ℕ) (base : ℕ) (f : Frame) (fs : List Frame) (key : ℕ)
    → IsStack ptr base 0 f fs
    → lookup_frames key f fs ≡ none
lookup-empty ptr base [] [] key s = refl
lookup-empty ptr base [] (g ∷ fs) key s = absurd (omega (arith, s.0))
lookup-empty ptr base ((k, v) ∷ f) fs key s = absurd (omega (arith, s.0))

-- One pair of words, passed or taken.
search-pair :
    (ptr : List ℕ) (key base j k v : ℕ) (rest : Option ℕ)
    → base ≤ j
    → get_or ptr (suc j) 0 ≡ k
    → get_or ptr j 0 ≡ v
    → search ptr key j base ≡ rest
    → search ptr key (suc (suc j)) base ≡ (if k == key then some v else rest)
unfolding search
search-pair ptr key base j k v rest h ek ev e =
    let other : (suc j == base) ≡ false = ground arith in
    elim (Bool-cases (k == key)) [
      | inl same ↦ rw (search, other, ek, same, ev) refl
      | inr differs ↦ rw (search, other, ek, differs, e) refl
    ]

pub search-lookup :
    (ptr : List ℕ) (key base len : ℕ) (f : Frame) (fs : List Frame)
    → IsStack ptr base len f fs
    → search ptr key len base ≡ lookup_frames key f fs
unfolding search
search-lookup ptr key base len [] [] s = rw s.1 refl
search-lookup ptr key zero len [] (g ∷ fs) s =
    rw s.0 (sym (lookup-empty ptr (get_or ptr 0 0) g fs key s.1))
search-lookup ptr key (suc j) len [] (g ∷ fs) s =
    let here : (suc j == suc j) ≡ true = ground arith in
    let size : len ≡ suc (suc j) = omega (arith, s.0) in
    rw (size, search, here) (search-lookup ptr key (get_or ptr (suc j) 0) (suc j) g fs s.1)
search-lookup ptr key base zero ((k, v) ∷ f) fs s = absurd (omega (arith, s.0))
search-lookup ptr key base (suc zero) ((k, v) ∷ f) fs s = absurd (omega (arith, s.0))
search-lookup ptr key base (suc (suc j)) ((k, v) ∷ f) fs s =
    let one : suc (suc j) - 1 ≡ suc j = omega arith in
    let two : suc (suc j) - 2 ≡ j = omega arith in
    let below = subst (λ n. IsStack ptr base n f fs) two s.3 in
    search-pair ptr key base j k v (lookup_frames key f fs) (base-le ptr base j f fs below)
      (subst (λ n. get_or ptr n 0 ≡ k) one s.1) (subst (λ n. get_or ptr n 0 ≡ v) two s.2)
      (search-lookup ptr key base j f fs below)

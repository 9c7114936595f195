-- ===== src/Parse/TypeId/Decode.antt =====
-- Reading a type identifier back: it determines the shape of the type.
pub mod Injective
use colang.Prelude.{
  ℕ, zero, suc, ◌+◌, ◌≤◌, ◌<◌, ◌≡◌, refl, ap, ◌∙◌, sym, Bool, true, false, Option, none, some, List,
  [], ◌∷◌, ◌++◌, arith, if◌then◌else◌, ◌==◌,
}
use mathlib.Core.List.{append_assoc, append-nil}
use colang.Parse.TypeId.Shape.{
  Shape, leaf, ref, array, tuple, struct, fun, Shapes, no_shapes, and_shape, shape_text,
  shapes_text,
}

-- What a byte starts, or ends.
pub data Kind : Type 0 where
  is_leaf is_ref is_array is_tuple is_struct is_fun is_end : Kind

unfoldable pub kind_of : ℕ → Kind
kind_of c =
    if c == 38
    then is_ref
    else (if c == 91
        then is_array
        else (if c == 40
            then is_tuple
            else (if c == 123
                then is_struct
                else (if c == 94
                    then is_fun
                    else (if c == 41 then is_end else (if c == 125 then is_end else is_leaf))))))

abbrev ends : Kind → Bool
ends is_end = true
ends _ = false

-- The text of a number, up to the `x` behind it, and the rest.
unfoldable split_x : List ℕ → List ℕ × List ℕ
split_x [] = ([], [])
split_x (c ∷ xs) = let (l, r) = split_x xs in if c == 120 then ([], xs) else (c ∷ l, r)

abbrev and_then {ℓ κ} :
    {A : Type ℓ} {B : Type κ} → Option (A × List ℕ) → (A → List ℕ → Option B) → Option B
and_then none k = none
and_then (some (a, rest)) k = k a rest

module _ (read_size : List ℕ → ℕ) where
  module _ (one : List ℕ → Option (Shape × List ℕ)) (more : List ℕ → Option (Shapes × List ℕ)) where
    unfoldable read_kind : Kind → ℕ → List ℕ → Option (Shape × List ℕ)
    read_kind is_leaf c xs = some (leaf c, xs)
    read_kind is_ref c xs = and_then (one xs) (λ s rest. some (ref s, rest))
    read_kind is_array c xs =
        and_then (one (split_x xs).1) (λ s rest. some (array (read_size (split_x xs).0) s, rest))
    read_kind is_tuple c xs = and_then (more xs) (λ ss rest. some (tuple ss, rest))
    read_kind is_struct c xs = and_then (more xs) (λ ss rest. some (struct ss, rest))
    read_kind is_fun c xs =
        and_then (one xs) (λ p rest. and_then (one rest) (λ r rest'. some (fun p r, rest')))
    read_kind is_end c xs = none

    unfoldable read_more : Kind → ℕ → List ℕ → Option (Shapes × List ℕ)
    read_more k c xs =
        if ends k
        then some (no_shapes, xs)
        else and_then (one (c ∷ xs))
            (λ s rest. and_then (more rest) (λ ss rest'. some (and_shape s ss, rest')))

  unfoldable mutual
    read_shape : ℕ → List ℕ → Option (Shape × List ℕ)
    read_shape zero xs = none
    read_shape (suc fuel) [] = none
    read_shape (suc fuel) (c ∷ xs) = read_kind (read_shape fuel) (read_shapes fuel) (kind_of c) c xs

    read_shapes : ℕ → List ℕ → Option (Shapes × List ℕ)
    read_shapes zero xs = none
    read_shapes (suc fuel) [] = none
    read_shapes (suc fuel) (c ∷ xs) =
        read_more (read_shape fuel) (read_shapes fuel) (kind_of c) c xs

abbrev pub AllPlain : List ℕ → Type 0
AllPlain [] = Unit
AllPlain (c ∷ xs) = (c == 120 ≡ false) × AllPlain xs

-- The text of a number has no `x` and can be read.
pub record IsNumeral (appendu64 : ℕ → List ℕ) (read_size : List ℕ → ℕ) : Type 0 where
  pub reads : (n : ℕ) → read_size (appendu64 n) ≡ n
  pub splits : (n : ℕ) → AllPlain (appendu64 n)

split_x-append : (l r : List ℕ) → AllPlain l → split_x (l ++ (120 ∷ r)) ≡ (l, r)
unfolding split_x
split_x-append [] r h = refl
split_x-append (c ∷ l) r h = rw (h.0, split_x-append l r h.1) refl

-- The codes in a shape are those of basic types.
unfoldable mutual
  pub HasLeaves : Shape → Type 0
  HasLeaves (leaf c) = kind_of c ≡ is_leaf
  HasLeaves (ref s) = HasLeaves s
  HasLeaves (array size s) = HasLeaves s
  HasLeaves (tuple ss) = HaveLeaves ss
  HasLeaves (struct ss) = HaveLeaves ss
  HasLeaves (fun p r) = HasLeaves p × HasLeaves r

  pub HaveLeaves : Shapes → Type 0
  HaveLeaves no_shapes = Unit
  HaveLeaves (and_shape s ss) = HasLeaves s × HaveLeaves ss

mutual
  size : Shape → ℕ
  size (leaf c) = 1
  size (ref s) = suc (size s)
  size (array n s) = suc (size s)
  size (tuple ss) = suc (sizes ss)
  size (struct ss) = suc (sizes ss)
  size (fun p r) = suc (size p + size r)

  sizes : Shapes → ℕ
  sizes no_shapes = 1
  sizes (and_shape s ss) = suc (size s + sizes ss)

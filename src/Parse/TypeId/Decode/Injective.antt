-- ===== src/Parse/TypeId/Decode/Injective.antt =====
-- A type identifier determines the shape of the type: it can be read back.
use colang.Prelude.{
  ℕ, zero, suc, ◌+◌, ◌≤◌, ◌<◌, ◌≡◌, refl, ap, ◌∙◌, sym, false, Option, none, some, List, [], ◌∷◌,
  ◌++◌, arith,
}
use mathlib.Core.List.{append_assoc, append-nil}
use colang.Parse.TypeId.Shape.{
  Shape, leaf, ref, array, tuple, struct, fun, Shapes, no_shapes, and_shape, shape_text,
  shapes_text,
}
use colang.Parse.TypeId.Decode.{
  is_ref, is_array, is_tuple, is_struct, is_fun, is_end, kind_of, ends, and_then, read_kind,
  read_more, read_shape, read_shapes, IsNumeral, split_x-append, HasLeaves, HaveLeaves, size, sizes,
}

-- The text of a shape does not start with a byte that ends a list.
abbrev Starts : List ℕ → Type 0
Starts [] = ⊥
Starts (c ∷ xs) = ends (kind_of c) ≡ false

Starts-shape : (appendu64 : ℕ → List ℕ) (s : Shape) → HasLeaves s → Starts (shape_text appendu64 s)
unfolding shape_text kind_of HasLeaves
Starts-shape appendu64 (leaf c) h = rw h refl
Starts-shape appendu64 (ref s) h = refl
Starts-shape appendu64 (array n s) h = refl
Starts-shape appendu64 (tuple ss) h = refl
Starts-shape appendu64 (struct ss) h = refl
Starts-shape appendu64 (fun p r) h = refl

kind_ref : kind_of 38 ≡ is_ref
unfolding kind_of
kind_ref = refl

kind_array : kind_of 91 ≡ is_array
unfolding kind_of
kind_array = refl

kind_tuple : kind_of 40 ≡ is_tuple
unfolding kind_of
kind_tuple = refl

kind_struct : kind_of 123 ≡ is_struct
unfolding kind_of
kind_struct = refl

kind_fun : kind_of 94 ≡ is_fun
unfolding kind_of
kind_fun = refl

ends_tuple : kind_of 41 ≡ is_end
unfolding kind_of
ends_tuple = refl

ends_struct : kind_of 125 ≡ is_end
unfolding kind_of
ends_struct = refl

size_positive : (s : Shape) → 0 < size s
unfolding size
size_positive (leaf c) = omega arith
size_positive (ref s) = omega arith
size_positive (array n s) = omega arith
size_positive (tuple ss) = omega arith
size_positive (struct ss) = omega arith
size_positive (fun p r) = omega arith

sizes_positive : (ss : Shapes) → 0 < sizes ss
unfolding size
sizes_positive no_shapes = omega arith
sizes_positive (and_shape s ss) = omega arith

module _ (appendu64 : ℕ → List ℕ) (read_size : List ℕ → ℕ)
    (numeral : IsNumeral appendu64 read_size) where
  read_shapes-more :
      (fuel : ℕ) (text : List ℕ) (s : Shape) (rest : List ℕ)
      → Starts text
      → read_shape read_size fuel (text ++ rest) ≡ some (s, rest)
      → read_shapes read_size (suc fuel) (text ++ rest)
        ≡ and_then (read_shapes read_size fuel rest) (λ ss rest'. some (and_shape s ss, rest'))
  unfolding read_shapes read_more
  read_shapes-more fuel [] s rest h e = elim h [ ]
  read_shapes-more fuel (c ∷ xs) s rest h e = rw (h, e) refl

  mutual
    unfolding read_shape read_kind read_more shape_text HasLeaves size

    read_shape-shape_text :
        (fuel : ℕ) (s : Shape) (rest : List ℕ)
        → HasLeaves s
        → size s ≤ fuel
        → read_shape read_size fuel (shape_text appendu64 s ++ rest) ≡ some (s, rest)
    read_shape-shape_text zero s rest h le = absurd (omega (arith, size_positive s))
    read_shape-shape_text (suc fuel) (leaf c) rest h le = rw h refl
    read_shape-shape_text (suc fuel) (ref s) rest h le =
        rw (kind_ref, read_shape-shape_text fuel s rest h (omega arith)) refl
    read_shape-shape_text (suc fuel) (array n s) rest h le =
        rw
          (
            kind_array,
            append_assoc (appendu64 n) (120 ∷ shape_text appendu64 s) rest,
            split_x-append (appendu64 n) (shape_text appendu64 s ++ rest) (numeral.splits n),
            read_shape-shape_text fuel s rest h (omega arith),
            numeral.reads n,
          )
          refl
    read_shape-shape_text (suc fuel) (tuple ss) rest h le =
        rw
          (
            kind_tuple,
            append_assoc (shapes_text appendu64 ss) (41 ∷ []) rest,
            read_shapes-shapes_text fuel ss 41 rest h ends_tuple (omega arith),
          )
          refl
    read_shape-shape_text (suc fuel) (struct ss) rest h le =
        rw
          (
            kind_struct,
            append_assoc (shapes_text appendu64 ss) (125 ∷ []) rest,
            read_shapes-shapes_text fuel ss 125 rest h ends_struct (omega arith),
          )
          refl
    read_shape-shape_text (suc fuel) (fun p r) rest h le =
        rw
          (
            kind_fun,
            append_assoc (shape_text appendu64 p) (shape_text appendu64 r) rest,
            read_shape-shape_text fuel p (shape_text appendu64 r ++ rest) h.0 (omega arith),
            read_shape-shape_text fuel r rest h.1 (omega arith),
          )
          refl

    read_shapes-shapes_text :
        (fuel : ℕ) (ss : Shapes) (c : ℕ) (rest : List ℕ)
        → HaveLeaves ss
        → kind_of c ≡ is_end
        → sizes ss ≤ fuel
        → read_shapes read_size fuel (shapes_text appendu64 ss ++ (c ∷ rest)) ≡ some (ss, rest)
    read_shapes-shapes_text zero ss c rest h e le = absurd (omega (arith, sizes_positive ss))
    read_shapes-shapes_text (suc fuel) no_shapes c rest h e le = rw e refl
    read_shapes-shapes_text (suc fuel) (and_shape s ss) c rest h e le =
        rw
          (
            append_assoc (shape_text appendu64 s) (shapes_text appendu64 ss) (c ∷ rest),
            read_shapes-more fuel (shape_text appendu64 s) s
                (shapes_text appendu64 ss ++ (c ∷ rest)) (Starts-shape appendu64 s h.0)
                (read_shape-shape_text fuel s (shapes_text appendu64 ss ++ (c ∷ rest)) h.0
                  (omega arith)),
            read_shapes-shapes_text fuel ss c rest h.1 e (omega arith),
          )
          refl

  read_text :
      (fuel : ℕ) (s : Shape)
      → HasLeaves s
      → size s ≤ fuel
      → read_shape read_size fuel (shape_text appendu64 s) ≡ some (s, [])
  read_text fuel s h le =
      ap (λ text. read_shape read_size fuel text) (sym (append-nil (shape_text appendu64 s)))
      ∙ read_shape-shape_text fuel s [] h le

  abbrev first_or : Shape → Option (Shape × List ℕ) → Shape
  first_or d none = d
  first_or d (some (s, rest)) = s

  -- Two shapes of basic types with the same text are the same.
  pub shape_text-injective :
      (s t : Shape)
      → HasLeaves s
      → HasLeaves t
      → shape_text appendu64 s ≡ shape_text appendu64 t
      → s ≡ t
  shape_text-injective s t h g e = ap (first_or s) (
      sym (read_text (size s + size t) s h (omega arith))
      ∙ (ap (λ text. read_shape read_size (size s + size t) text) e
          ∙ read_text (size s + size t) t g (omega arith)))

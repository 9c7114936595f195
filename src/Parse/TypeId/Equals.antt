-- ===== src/Parse/TypeId/Equals.antt =====
-- typeid.c: _TypeEquals and InternASTType decide the equality of shapes.
use colang.Prelude.{ℕ, ◌≡◌, refl, Option, none, some, List}
use colang.Parse.TypeId.{
  Node, basic_type, ref_type, array_type, tuple_type, struct_type, fun_type, mktypestr, id_of,
  id_or_new, get_type_id,
}
use colang.Parse.TypeId.Shape.{
  Shape, leaf, ref, array, tuple, struct, fun, shape_of, shape_text, IdIs, IsNamed,
  mktypestr-shape_text,
}

-- The kind of the nodes with a shape.
abbrev shape_kind : Shape → ℕ
shape_kind (leaf c) = 0
shape_kind (ref s) = 1
shape_kind (array n s) = 2
shape_kind (tuple ss) = 3
shape_kind (struct ss) = 4
shape_kind (fun p r) = 5

module _ (appendu64 : ℕ → List ℕ) where
  id_or_new-shape_text :
      (o : Option (List ℕ)) (n : Node)
      → IdIs appendu64 o (shape_text appendu64 (shape_of n))
      → mktypestr appendu64 n ≡ shape_text appendu64 (shape_of n)
      → (id_or_new appendu64 o n).1 ≡ shape_text appendu64 (shape_of n)
  unfolding id_or_new
  id_or_new-shape_text none n h e = e
  id_or_new-shape_text (some id) n h e = h

  id_of-IdIs :
      (n : Node)
      → IsNamed appendu64 n
      → IdIs appendu64 (id_of n) (shape_text appendu64 (shape_of n))
  unfolding id_of shape_of shape_text IsNamed
  id_of-IdIs (basic_type tc) h = refl
  id_of-IdIs (ref_type id n) h = h.0
  id_of-IdIs (array_type id size n) h = h.0
  id_of-IdIs (tuple_type id ns) h = h.0
  id_of-IdIs (struct_type id ns) h = h.0
  id_of-IdIs (fun_type id p r) h = h.0

  -- Where the identifiers inside a type are those of its parts, GetTypeID gives the text of its
  -- shape, computed or not.
  pub get_type_id-shape_text :
      (n : Node)
      → IsNamed appendu64 n
      → (get_type_id appendu64 n).1 ≡ shape_text appendu64 (shape_of n)
  unfolding get_type_id
  get_type_id-shape_text n h =
      id_or_new-shape_text (id_of n) n (id_of-IdIs n h) (mktypestr-shape_text appendu64 n h)

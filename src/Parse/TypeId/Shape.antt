-- ===== src/Parse/TypeId/Shape.antt =====
-- What a type identifier stands for: the shape of the type, without identifiers and names. `0`, the
-- code of `nil`, stands where a function has no parameters or no result.
use colang.Prelude.{ℕ, ◌≡◌, refl, Option, none, some, List, [], ◌∷◌, ◌++◌}
use colang.Parse.TypeCode.{type_code_encoding}
use colang.Parse.TypeId.{
  Node, basic_type, ref_type, array_type, tuple_type, struct_type, fun_type, Nodes, no_nodes,
  and_node, OptNode, no_node, a_node, mktypestr, mktypestrs, mktypestr_or_nil,
}

mutual
  pub data Shape : Type 0 where
    leaf : ℕ → Shape
    ref : Shape → Shape
    array : ℕ → Shape → Shape
    tuple struct : Shapes → Shape
    fun : Shape → Shape → Shape

  pub data Shapes : Type 0 where
    no_shapes : Shapes
    and_shape : Shape → Shapes → Shapes

unfoldable mutual
  pub shape_of : Node → Shape
  shape_of (basic_type tc) = leaf (type_code_encoding tc)
  shape_of (ref_type id n) = ref (shape_of n)
  shape_of (array_type id size n) = array size (shape_of n)
  shape_of (tuple_type id ns) = tuple (shapes_of ns)
  shape_of (struct_type id ns) = struct (shapes_of ns)
  shape_of (fun_type id params result) = fun (shape_or_nil params) (shape_or_nil result)

  pub shapes_of : Nodes → Shapes
  shapes_of no_nodes = no_shapes
  shapes_of (and_node n ns) = and_shape (shape_of n) (shapes_of ns)

  pub shape_or_nil : OptNode → Shape
  shape_or_nil no_node = leaf 48
  shape_or_nil (a_node n) = shape_of n

module _ (appendu64 : ℕ → List ℕ) where
  unfoldable mutual
    pub shape_text : Shape → List ℕ
    shape_text (leaf c) = c ∷ []
    shape_text (ref s) = 38 ∷ shape_text s
    shape_text (array size s) = 91 ∷ (appendu64 size ++ (120 ∷ shape_text s))
    shape_text (tuple ss) = 40 ∷ (shapes_text ss ++ (41 ∷ []))
    shape_text (struct ss) = 123 ∷ (shapes_text ss ++ (125 ∷ []))
    shape_text (fun p r) = 94 ∷ (shape_text p ++ shape_text r)

    pub shapes_text : Shapes → List ℕ
    shapes_text no_shapes = []
    shapes_text (and_shape s ss) = shape_text s ++ shapes_text ss

  -- An identifier that is there is the text of its shape.
  abbrev pub IdIs : Option (List ℕ) → List ℕ → Type 0
  IdIs none text = Unit
  IdIs (some id) text = id ≡ text

  -- Every identifier inside a node is the one of its type.
  unfoldable mutual
    pub IsNamed : Node → Type 0
    IsNamed (basic_type tc) = Unit
    IsNamed (ref_type id n) = IdIs id (shape_text (ref (shape_of n))) × IsNamed n
    IsNamed (array_type id size n) = IdIs id (shape_text (array size (shape_of n))) × IsNamed n
    IsNamed (tuple_type id ns) = IdIs id (shape_text (tuple (shapes_of ns))) × AreNamed ns
    IsNamed (struct_type id ns) = IdIs id (shape_text (struct (shapes_of ns))) × AreNamed ns
    IsNamed (fun_type id p r) =
        IdIs id (shape_text (fun (shape_or_nil p) (shape_or_nil r))) × (IsNamedOr p × IsNamedOr r)

    pub AreNamed : Nodes → Type 0
    AreNamed no_nodes = Unit
    AreNamed (and_node n ns) = IsNamed n × AreNamed ns

    pub IsNamedOr : OptNode → Type 0
    IsNamedOr no_node = Unit
    IsNamedOr (a_node n) = IsNamed n

  mutual
    unfolding mktypestr shape_of shape_text IsNamed type_code_encoding

    pub mktypestr-shape_text :
        (n : Node) → IsNamed n → mktypestr appendu64 n ≡ shape_text (shape_of n)
    mktypestr-shape_text (basic_type tc) h = refl
    mktypestr-shape_text (ref_type (some id) n) h = h.0
    mktypestr-shape_text (ref_type none n) h = rw (mktypestr-shape_text n h.1)
    mktypestr-shape_text (array_type (some id) size n) h = h.0
    mktypestr-shape_text (array_type none size n) h = rw (mktypestr-shape_text n h.1)
    mktypestr-shape_text (tuple_type (some id) ns) h = h.0
    mktypestr-shape_text (tuple_type none ns) h = rw (mktypestrs-shapes_text ns h.1)
    mktypestr-shape_text (struct_type (some id) ns) h = h.0
    mktypestr-shape_text (struct_type none ns) h = rw (mktypestrs-shapes_text ns h.1)
    mktypestr-shape_text (fun_type (some id) p r) h = h.0
    mktypestr-shape_text (fun_type none p r) h =
        rw (mktypestr_or_nil-shape_text p h.1.0, mktypestr_or_nil-shape_text r h.1.1)

    mktypestrs-shapes_text :
        (ns : Nodes) → AreNamed ns → mktypestrs appendu64 ns ≡ shapes_text (shapes_of ns)
    mktypestrs-shapes_text no_nodes h = refl
    mktypestrs-shapes_text (and_node n ns) h =
        rw (mktypestr-shape_text n h.0, mktypestrs-shapes_text ns h.1)

    mktypestr_or_nil-shape_text :
        (o : OptNode) → IsNamedOr o → mktypestr_or_nil appendu64 o ≡ shape_text (shape_or_nil o)
    mktypestr_or_nil-shape_text no_node h = refl
    mktypestr_or_nil-shape_text (a_node n) h = mktypestr-shape_text n h

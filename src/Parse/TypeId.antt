-- ===== src/Parse/TypeId.antt =====
-- src/co/parse/typeid.c: the text that identifies a type. A symbol stands for its bytes, of which
-- the pool has one symbol.
pub mod Shape
pub mod Decode
pub mod Equals
use colang.Prelude.{
  ℕ, Bool, true, false, Option, none, some, List, [], ◌∷◌, ◌++◌, if◌then◌else◌, ◌==◌, ◌&&◌,
}
use colang.Parse.Token.{same_bytes}
use colang.Parse.TypeCode.{
  TypeCode, tc_ref, tc_array, tc_tuple, tc_tuple_end, tc_struct, tc_struct_end, tc_fun, tc_nil,
  type_code_encoding,
}

-- The type nodes; each but the basic ones has the place `t.id` for its identifier. Of a field and
-- of the parameters it is their type that counts.
mutual
  pub data Node : Type 0 where
    basic_type : TypeCode → Node
    ref_type : Option (List ℕ) → Node → Node
    array_type : Option (List ℕ) → ℕ → Node → Node
    tuple_type struct_type : Option (List ℕ) → Nodes → Node
    fun_type : Option (List ℕ) → OptNode → OptNode → Node

  pub data Nodes : Type 0 where
    no_nodes : Nodes
    and_node : Node → Nodes → Nodes

  pub data OptNode : Type 0 where
    no_node : OptNode
    a_node : Node → OptNode

-- What is at `t.id`, and the node with a new identifier there.
unfoldable pub id_of : Node → Option (List ℕ)
id_of (basic_type tc) = some (type_code_encoding tc ∷ [])
id_of (ref_type id n) = id
id_of (array_type id size n) = id
id_of (tuple_type id ns) = id
id_of (struct_type id ns) = id
id_of (fun_type id params result) = id

unfoldable pub with_id : Node → List ℕ → Node
with_id (basic_type tc) id = basic_type tc
with_id (ref_type _ n) id = ref_type (some id) n
with_id (array_type _ size n) id = array_type (some id) size n
with_id (tuple_type _ ns) id = tuple_type (some id) ns
with_id (struct_type _ ns) id = struct_type (some id) ns
with_id (fun_type _ params result) id = fun_type (some id) params result

-- The node kind, as a number.
unfoldable pub node_kind : Node → ℕ
node_kind (basic_type _) = 0
node_kind (ref_type _ _) = 1
node_kind (array_type _ _ _) = 2
node_kind (tuple_type _ _) = 3
node_kind (struct_type _ _) = 4
node_kind (fun_type _ _ _) = 5

-- `build->types`: the type for each identifier, the last one set first.
unfoldable pub types_get : List (List ℕ × Node) → List ℕ → Option Node
types_get [] id = none
types_get ((id', t) ∷ rest) id =
    let others = types_get rest id in if same_bytes id' id then some t else others

unfoldable pub found_or_set :
    Option Node → List (List ℕ × Node) → Node → List ℕ → List (List ℕ × Node) × Node
found_or_set (some t2) types t id = (types, t2)
found_or_set none types t id = ((id, t) ∷ types, t)

-- str_appendu64 is the base library's: the text of a number.
module _ (appendu64 : ℕ → List ℕ) where
  -- What mktypestr appends. A nested type that has an identifier gives that.
  unfoldable mutual
    pub mktypestr : Node → List ℕ
    mktypestr (basic_type tc) = type_code_encoding tc ∷ []
    mktypestr (ref_type (some id) n) = id
    mktypestr (ref_type none n) = type_code_encoding tc_ref ∷ mktypestr n
    mktypestr (array_type (some id) size n) = id
    mktypestr (array_type none size n) =
        type_code_encoding tc_array ∷ (appendu64 size ++ (120 ∷ mktypestr n))
    mktypestr (tuple_type (some id) ns) = id
    mktypestr (tuple_type none ns) =
        type_code_encoding tc_tuple ∷ (mktypestrs ns ++ (type_code_encoding tc_tuple_end ∷ []))
    mktypestr (struct_type (some id) ns) = id
    mktypestr (struct_type none ns) =
        type_code_encoding tc_struct ∷ (mktypestrs ns ++ (type_code_encoding tc_struct_end ∷ []))
    mktypestr (fun_type (some id) params result) = id
    mktypestr (fun_type none params result) =
        type_code_encoding tc_fun ∷ (mktypestr_or_nil params ++ mktypestr_or_nil result)

    pub mktypestrs : Nodes → List ℕ
    mktypestrs no_nodes = []
    mktypestrs (and_node n ns) = mktypestr n ++ mktypestrs ns

    pub mktypestr_or_nil : OptNode → List ℕ
    mktypestr_or_nil no_node = type_code_encoding tc_nil ∷ []
    mktypestr_or_nil (a_node n) = mktypestr n

  unfoldable pub id_or_new : Option (List ℕ) → Node → Node × List ℕ
  id_or_new (some id) n = (n, id)
  id_or_new none n = (with_id n (mktypestr n), mktypestr n)

  -- The node after the call, and the identifier.
  unfoldable pub get_type_id : Node → Node × List ℕ
  get_type_id n = id_or_new (id_of n) n

  -- _TypeEquals: a basic type has its identifier, so get_type_id gives it too.
  unfoldable pub type_equals : Node → Node → Bool
  type_equals x y = node_kind x == node_kind y && same_bytes (get_type_id x).1 (get_type_id y).1

  unfoldable pub intern_ast_type : List (List ℕ × Node) → Node → List (List ℕ × Node) × Node
  intern_ast_type types (basic_type tc) = (types, basic_type tc)
  intern_ast_type types t =
      let (t', id) = get_type_id t in found_or_set (types_get types id) types t' id

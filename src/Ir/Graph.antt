-- ===== src/Ir/Graph.antt =====
-- src/co/ir/ir.h and ir.c: functions, basic blocks and values.
-- The state is one function with everything it owns. A pointer to a block or a value is its place
-- in the store of the function, in the order of allocation; NULL is `none`. Comments on values and
-- blocks are text for a reader of the output, and are left out.
pub mod Flow
pub mod Consts
pub mod Uses
use colang.Prelude.{
  ℕ, zero, suc, ◌+◌, ◌-◌, ◌%◌, ◌^◌, ◌≤◌, Bool, true, false, not, ◌&&◌, ◌||◌, Option, none, some,
  List, [], ◌∷◌, ◌++◌, if◌then◌else◌, ◌==◌, ltb, leb, get_or, set, length, take, drop,
}
use colang.Ir.ConstCache.{IrConstCache}

-- IRBlockKind.
pub data BlockKind : Type 0 where
  block_invalid block_cont block_first block_if block_ret : BlockKind

-- IRValueNoID
abbrev pub value_no_id : ℕ
value_no_id = 0xFFFFFFFF

-- IRValue. `code` is the type; `aux` is auxInt.
pub record Value : Type 0 where
  pub id : ℕ
  pub op : ℕ
  pub code : ℕ
  pub pos : ℕ
  pub args : List ℕ
  pub aux : ℕ
  pub uses : ℕ

-- `succs` and `preds` have two places each. A block that memfree took stays in the store, `freed`.
pub record Block : Type 0 where
  pub id : ℕ
  pub kind : BlockKind
  pub sealed : Bool
  pub pos : ℕ
  pub succs : Option ℕ × Option ℕ
  pub preds : Option ℕ × Option ℕ
  pub values : List ℕ
  pub control : Option ℕ
  pub freed : Bool

pub record Fun : Type 0 where
  pub blocks : List ℕ
  pub nparams : ℕ
  pub ncalls : ℕ
  pub npurecalls : ℕ
  pub nglobalw : ℕ
  pub bid : ℕ
  pub vid : ℕ
  pub consts : Option (IrConstCache ℕ)
  pub block_store : List Block
  pub value_store : List Value

-- What a read through a pointer outside the stores would see is never asked for.
abbrev pub no_value : Value
no_value = record { id = value_no_id; op = 0; code = 0; pos = 0; args = []; aux = 0; uses = 0 }

abbrev pub no_block : Block
no_block = record {
  id = 0;
  kind = block_invalid;
  sealed = false;
  pos = 0;
  succs = (none, none);
  preds = (none, none);
  values = [];
  control = none;
  freed = false;
}

abbrev pub value_at : Fun → ℕ → Value
value_at f v = get_or f.value_store v no_value

abbrev pub block_at : Fun → ℕ → Block
block_at f b = get_or f.block_store b no_block

abbrev pub put_value : Fun → ℕ → Value → Fun
put_value f v x = record f { value_store = set f.value_store v x }

abbrev pub put_block : Fun → ℕ → Block → Fun
put_block f b x = record f { block_store = set f.block_store b x }

-- `v->uses++` and `v->uses--` on a u32.
unfoldable pub use_more : Fun → ℕ → Fun
use_more f v = let x = value_at f v in put_value f v (record x { uses = (x.uses + 1) % 2 ^ 32 })

unfoldable pub use_less : Fun → ℕ → Fun
use_less f v =
    let x = value_at f v in put_value f v (record x { uses = (x.uses + (2 ^ 32 - 1)) % 2 ^ 32 })

-- IRFunNew
unfoldable pub fun_new : ℕ → Fun
fun_new nparams = record {
  blocks = [];
  nparams = nparams;
  ncalls = 0;
  npurecalls = 0;
  nglobalw = 0;
  bid = 0;
  vid = 0;
  consts = none;
  block_store = [];
  value_store = [];
}

-- IRFunIsPure; the difference is one of u32.
unfoldable pub fun_is_pure : Fun → Bool
fun_is_pure f = ((f.ncalls + 2 ^ 32 - f.npurecalls) % 2 ^ 32 == 0) && (f.nglobalw == 0)

-- IRBlockNew. `none` is the assertion that the numbers are not used up.
unfoldable pub block_new : Fun → BlockKind → ℕ → Option (Fun × ℕ)
block_new f kind pos =
    let b = length f.block_store in
    if ltb f.bid 0xFFFFFFFF
    then some (
      record f {
        bid = f.bid + 1;
        blocks = f.blocks ++ (b ∷ []);
        block_store =
            f.block_store ++ (record no_block { id = f.bid; kind = kind; pos = pos } ∷ []);
      },
      b,
    )
    else none

-- IRValueAlloc
unfoldable pub value_alloc : Fun → ℕ → ℕ → ℕ → Fun × ℕ
value_alloc f op code pos = (
  record f {
    value_store = f.value_store ++ (record no_value { op = op; code = code; pos = pos } ∷ []);
  },
  length f.value_store,
)

-- IRBlockAddValue. `none` is the assertion that the numbers are not used up.
unfoldable pub block_add_value : Fun → ℕ → ℕ → Option Fun
block_add_value f b v =
    let x = value_at f v in
    let blk = block_at f b in
    let pushed = record blk { values = blk.values ++ (v ∷ []) } in
    if x.id == value_no_id
    then (if f.vid == value_no_id
        then none
        else some (
            put_block (record (put_value f v (record x { id = f.vid })) { vid = f.vid + 1 }) b
              pushed))
    else some (put_block f b pushed)

-- IRValueNew
unfoldable pub value_new : Fun → Option ℕ → ℕ → ℕ → ℕ → Option (Fun × ℕ)
value_new f b op code pos =
    let r = value_alloc f op code pos in
    elim b [
      | none ↦ some r
      | some b ↦ elim (block_add_value r.0 b r.1) [ none ↦ none | some g ↦ some (g, r.1) ]
    ]

-- IRValueAddArg
unfoldable pub value_add_arg : Fun → ℕ → ℕ → Fun
value_add_arg f v arg =
    let g = use_more f arg in
    let x = value_at g v in put_value g v (record x { args = x.args ++ (arg ∷ []) })

-- `v->args.v[index]->uses--`, of an argument that is there.
abbrev pub drop_arg : Fun → ℕ → ℕ → Fun
drop_arg f v index = use_less f (get_or (value_at f v).args index 0)

-- IRValueSetArg. Past the last argument the code writes into the free part of the array and leaves
-- its length alone, so that the argument is not there.
unfoldable pub value_set_arg : Fun → ℕ → ℕ → ℕ → Fun
value_set_arg f v index arg =
    let g = use_more f arg in
    let h = drop_arg g v index in
    let y = value_at h v in
    if ltb index (length (value_at g v).args)
    then put_value h v (record y { args = set y.args index arg })
    else g

-- IRValueClearArg
unfoldable pub value_clear_arg : Fun → ℕ → ℕ → Fun
value_clear_arg f v index =
    let h = drop_arg f v index in
    let y = value_at h v in
    if ltb index (length (value_at f v).args)
    then put_value h v (record y { args = take index y.args ++ drop (suc index) y.args })
    else f

-- The loop of IRValueClone.
unfoldable pub value_add_args : Fun → ℕ → List ℕ → Fun
value_add_args f v [] = f
value_add_args f v (arg ∷ args) = value_add_args (value_add_arg f v arg) v args

-- IRValueClone
unfoldable pub value_clone : Fun → ℕ → Fun × ℕ
value_clone f v1 =
    let x = value_at f v1 in
    let v2 = length f.value_store in
    let g = record f { value_store = f.value_store ++ (record x { uses = 0; args = [] } ∷ []) } in
    (value_add_args g v2 x.args, v2)

abbrev pub use_control : Option ℕ → Fun → Fun
use_control none f = f
use_control (some v) f = use_more f v

abbrev pub drop_control : Option ℕ → Fun → Fun
drop_control none f = f
drop_control (some v) f = use_less f v

-- IRBlockSetControl
unfoldable pub block_set_control : Fun → ℕ → Option ℕ → Fun
block_set_control f b v =
    let blk = block_at f b in
    drop_control blk.control (use_control v (put_block f b (record blk { control = v })))

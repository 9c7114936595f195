-- ===== src/Ir/Graph/Consts.antt =====
-- src/co/ir/ir.c: the constants of a function. `const_from_ast` is IROpConstFromAST, a table of op.c
-- that a script generates, and `aux_of` is IROpInfo(op)->aux, from another.
pub mod New
pub mod Cached
use colang.Prelude.{ℕ, Bool, true, false, not, ◌&&◌, ◌==◌, ltb, Option, none, some, get_or}
use colang.Ir.ConstCache.{const_cache_get, const_cache_add}
use colang.Ir.Graph.{Fun, value_at, put_value, value_new}

-- TypeCode_NUM_END
abbrev pub num_end : ℕ
num_end = 13

-- IRAuxNone
abbrev pub aux_none : ℕ
aux_none = 0

module _ (const_from_ast aux_of : ℕ → ℕ) where
  -- The assertions of IROpConstFromAST and getConst64.
  abbrev pub can_make : ℕ → Bool
  can_make code = ltb code num_end && not (aux_of (const_from_ast code) == aux_none)

  -- getConst64. A new value goes to the entry block. `none` is a failed assertion.
  unfoldable pub get_const64 : Fun → ℕ → ℕ → Option (Fun × ℕ)
  get_const64 f code value =
      let r = const_cache_get f.consts code value in
      elim r.0 [
        | some v ↦ some (f, v)
        | none ↦ elim (can_make code) [
          | false ↦ none
          | true ↦ elim (value_new f (some (get_or f.blocks 0 0)) (const_from_ast code) code 0) [
            | none ↦ none
            | some (g, v) ↦
                let h = put_value g v (record (value_at g v) { aux = value }) in
                some (record h { consts = some (const_cache_add h.consts code value v r.1) }, v)
          ]
        ]
      ]

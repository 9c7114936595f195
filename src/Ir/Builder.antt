-- ===== src/Ir/Builder.antt =====
-- src/co/ir/irbuilder.c: the state in which the code of functions is built, with the variables of the
-- current block. A pointer to a function is its place in `funs`; a block or a value is its place in
-- the stores of its function, and in a map of variables that place and 1, so that NULL is 0.
pub mod Variables
pub mod Suspended
use colang.Prelude.{
  ℕ, zero, suc, ◌+◌, ◌-◌, Bool, true, false, Option, none, some, List, [], ◌∷◌, ◌++◌, if◌then◌else◌,
  ◌==◌, get_or, set, length, replicate,
}
use colang.Util.HashMap.{HashMap, map_new, map_get, map_set}
use colang.Ir.Graph.{
  Fun, Block, block_ret, block_at, put_block, fun_new, value_new, block_set_control,
}

pub record Builder : Type 0 where
  pub funs : List Fun
  pub f : Option ℕ
  pub b : Option ℕ
  pub vars : HashMap
  pub defvars : List (Option HashMap)
  pub funstack : List (ℕ × Option ℕ)

abbrev pub fun_at : Builder → ℕ → Fun
fun_at u f = get_or u.funs f (fun_new 0)

abbrev pub put_fun : Builder → ℕ → Fun → Builder
put_fun u f x = record u { funs = set u.funs f x }

-- `u->vars = SymMapNew(8, u->mem)`
abbrev pub new_vars : HashMap
new_vars = map_new 8

-- `none` is the assertion, or a block of no function.
unfoldable pub seal_block : Builder → ℕ → Option Builder
seal_block u b = elim u.f [
  | none ↦ none
  | some f ↦
      let blk = block_at (fun_at u f) b in
      if blk.sealed
      then none
      else some (put_fun u f (put_block (fun_at u f) b (record blk { sealed = true })))
]

unfoldable pub start_block : Builder → ℕ → Option Builder
start_block u b = elim u.b [ none ↦ some (record u { b = some b }) | some c ↦ none ]

abbrev pub then_do : Option Builder → (Builder → Option Builder) → Option Builder
then_do none next = none
then_do (some u) next = next u

unfoldable pub start_sealed_block : Builder → ℕ → Option Builder
unfolding seal_block start_block
start_sealed_block u b = then_do (seal_block u b) (λ u'. start_block u' b)

-- `while (u->defvars.len <= b->id)`
abbrev pub filled_to : ℕ → List (Option HashMap) → List (Option HashMap)
filled_to id defvars = defvars ++ replicate (id + 1 - length defvars) none

-- The builder and the block that ended.
unfoldable pub end_block : Builder → Option (Builder × ℕ)
end_block u = elim u.f [
  | none ↦ none
  | some f ↦ elim u.b [
    | none ↦ none
    | some b ↦
        let id = (block_at (fun_at u f) b).id in
        let defvars = filled_to id u.defvars in
        some (
          (if u.vars.len == 0
              then record u { defvars = defvars; b = none }
              else record u { defvars = set defvars id (some u.vars); vars = new_vars; b = none }),
          b,
        )
  ]
]

unfoldable pub start_fun : Builder → ℕ → Builder
start_fun u f = elim u.f [
  | none ↦ record u { f = some f }
  | some g ↦ record u { f = some f; b = none; funstack = (g, u.b) ∷ u.funstack }
]

-- As in a debug build, where the last function is let go.
unfoldable pub end_fun : Builder → Option Builder
end_fun u = elim u.f [
  | none ↦ none
  | some f ↦ elim u.funstack [
    | [] ↦ some (record u { f = none })
    | (g, b) ∷ rest ↦ some (record u { f = some g; b = b; funstack = rest })
  ]
]

-- The end of a function: `u->b->kind = IRBlockRet`, the control where there is a result, endBlock.
abbrev pub end_last : Bool → ℕ → Builder → Option Builder
end_last has_result value u = elim u.f [
  | none ↦ none
  | some f ↦ elim u.b [
    | none ↦ some u
    | some b ↦
        let x = fun_at u f in
        let ret = put_block x b (record (block_at x b) { kind = block_ret }) in
        let y = if has_result then block_set_control ret b (some value) else ret in
        elim (end_block (put_fun u f y)) [ none ↦ none | some r ↦ some r.0 ]
  ]
]

-- ast_add_fun from startFun on, for the new function `f` with its entry block; `body` builds the
-- body.
unfoldable pub add_fun : (Builder → Option (Builder × ℕ)) → Bool → Builder → ℕ → ℕ → Option Builder
unfolding start_sealed_block start_fun end_block end_fun
add_fun body has_result u f entry = then_do (start_sealed_block (start_fun u f) entry) (λ v.
    elim (body v) [ none ↦ none | some (w, value) ↦ then_do (end_last has_result value w) end_fun ])

abbrev pub is_current : Option ℕ → ℕ → Bool
is_current none b = false
is_current (some c) b = c == b

module _ (hash : ℕ → ℕ) where
  -- The write to another block is not there yet in the source.
  unfoldable pub var_write : ℕ → Builder → ℕ → ℕ → ℕ → Option Builder
  var_write fuel u name value b =
      if is_current u.b b
      then elim (map_set hash fuel u.vars name value) [
        | none ↦ none
        | some r ↦ some (record u { vars = r.0 })
      ]
      else some u

  -- Where the block has no value for the name, a value without an operation stands for it. `op_nil`
  -- and `void` are its operation and its type.
  unfoldable pub var_read : ℕ → ℕ → Builder → ℕ → ℕ → Option (Builder × ℕ)
  var_read op_nil void u name b =
      let missing = elim u.f as (λ x. Option (Builder × ℕ)) [
        | none ↦ none
        | some f ↦ elim (value_new (fun_at u f) u.b op_nil void 0) [
          | none ↦ none
          | some (g, v) ↦ some (put_fun u f g, v + 1)
        ]
      ] in
      if is_current u.b b
      then (let v = map_get hash u.vars name in if v == 0 then missing else some (u, v))
      else missing

-- ===== src/Ir/Builder/Suspended.antt =====
-- What is kept of a function while another is built.
use colang.Prelude.{
  ℕ, ◌≡◌, ◌≢◌, refl, Bool, true, false, Option, none, some, ◌∷◌, arith, if◌then◌else◌, ◌==◌, set,
}
use colang.Ir.Graph.{block_ret, block_at, put_block, block_set_control}
use colang.Ir.Builder.{
  Builder, fun_at, new_vars, seal_block, start_block, then_do, start_sealed_block, end_block,
  start_fun, end_fun, add_fun,
}

-- The body of the new function runs to a block with some variables, and leaves alone what is
-- suspended.
pub record Runs (body : Builder → Option (Builder × ℕ)) (v : Builder) : Type 0 where
  pub last : Builder
  pub value : ℕ
  pub block : ℕ
  pub runs : body v ≡ some (record last { f = v.f; b = some block; funstack = v.funstack }, value)
  pub some_vars : last.vars.len ≢ 0

-- The function and its block come back, and their variables do not.
pub record IsResumed (u u' : Builder) : Type 0 where
  pub same_fun : u'.f ≡ u.f
  pub same_block : u'.b ≡ u.b
  pub same_stack : u'.funstack ≡ u.funstack
  pub vars_lost : u'.vars ≡ new_vars

abbrev pub ResumedBy : Builder → Option Builder → Type 0
ResumedBy u none = ⊥
ResumedBy u (some u') = IsResumed u u'

-- A builder in a function, and in that function's block `b`.
abbrev pub inside : Builder → ℕ → Option ℕ → Builder
inside u f b = record u { f = some f; b = b }

-- endBlock and endFun, after the writes to the last block.
close-ResumedBy :
    (u w : Builder) (g f b : ℕ)
    → w.vars.len ≢ 0
    → ResumedBy (inside u g u.b) (
        then_do
          (elim (end_block (record (inside w f (some b)) { funstack = (g, u.b) ∷ u.funstack })) [
            | none ↦ none
            | some r ↦ some r.0
          ])
          end_fun)
unfolding end_block end_fun
close-ResumedBy u w g f b ne =
    let filled : (w.vars.len == 0) ≡ false = ground arith in
    rw (end_block, filled)
      (record { same_fun = refl; same_block = refl; same_stack = refl; vars_lost = refl })

-- The function and its entry block, as the body finds them.
abbrev pub entered : Builder → ℕ → ℕ → ℕ → Builder
entered u g f entry =
    let x = fun_at u f in
    let blk = block_at x entry in
    record u {
      funs = set u.funs f (put_block x entry (record blk { sealed = true }));
      f = some f;
      b = some entry;
      funstack = (g, u.b) ∷ u.funstack;
    }

start-entered :
    (u : Builder) (g f entry : ℕ)
    → (block_at (fun_at u f) entry).sealed ≡ false
    → start_sealed_block (start_fun (inside u g u.b) f) entry ≡ some (entered u g f entry)
unfolding start_sealed_block seal_block start_block start_fun
start-entered u g f entry fresh = rw (seal_block, fresh) refl

-- While a function is being built, a nested ast_add_fun of a function with an entry block that is
-- not sealed, whose body runs to an open block with some variables, returns; the function, its
-- block and the stack of suspended functions are those of before, but the variables of its block
-- are gone.
pub add_fun-ResumedBy :
    (body : Builder → Option (Builder × ℕ)) (has_result : Bool) (u : Builder) (g f entry : ℕ)
    → (block_at (fun_at u f) entry).sealed ≡ false
    → Runs body (entered u g f entry)
    → ResumedBy (inside u g u.b) (add_fun body has_result (inside u g u.b) f entry)
unfolding add_fun
add_fun-ResumedBy body has_result u g f entry fresh r =
    let x = fun_at r.last f in
    let ret = put_block x r.block (record (block_at x r.block) { kind = block_ret }) in
    let written = if has_result then block_set_control ret r.block (some r.value) else ret in
    rw (start-entered u g f entry fresh, r.runs)
      (close-ResumedBy u (record r.last { funs = set r.last.funs f written }) g f r.block
        r.some_vars)

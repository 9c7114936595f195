-- ===== src/Tests/Builder.antt =====
-- The builder of the intermediate code on small inputs.
use colang.Prelude.{ℕ, zero, suc, ◌≡◌, refl, false, Option, some, [], ◌∷◌, arith, get_or}
use colang.Util.HashMap.{free_entry, HashMap, bucket_of, bucket_get, bucket_set, map_get}
use colang.Util.HashMap.Bucket.{IsTidy}
use colang.Util.HashMap.Map.{IsMap}
use colang.Ir.Graph.{Fun, no_block, block_cont, fun_new}
use colang.Ir.Builder.{Builder, var_write, var_read, add_fun}
use colang.Ir.Builder.Variables.{var_read-var_write}
use colang.Ir.Builder.Suspended.{Runs, ResumedBy, inside, entered, add_fun-ResumedBy}

abbrev same_number : ℕ → ℕ
same_number k = k

-- The variable 5 has the value 50.
abbrev one_var : HashMap
one_var = record {
  cap = 1;
  len = 1;
  dense = false;
  buckets = (record { key = 5; value = 50 } ∷ free_entry ∷ free_entry ∷ []) ∷ [];
}

one_var-IsTidy : (i : ℕ) → IsTidy (get_or one_var.buckets i [])
one_var-IsTidy zero = (
  (λ e. absurd (ground arith)),
  (λ e. ((λ f. absurd (ground arith)), ((λ f. absurd (ground arith)), tt))),
  (
    (λ e. (refl, (refl, refl, tt))),
    (λ e. absurd (e refl)),
    ((λ e. (refl, tt)), (λ e. absurd (e refl)), tt),
  ),
)
one_var-IsTidy (suc n) = tt

one_var-IsMap : IsMap same_number one_var
one_var-IsMap = record {
  some_buckets = omega arith;
  sized = refl;
  tidy = one_var-IsTidy;
  narrow = λ k. omega arith;
}

abbrev entry_only : Fun
entry_only = record (fun_new 0) {
  bid = 1;
  blocks = 0 ∷ [];
  block_store = record no_block { kind = block_cont } ∷ [];
}

abbrev two_funs : Builder
two_funs = record {
  funs = entry_only ∷ entry_only ∷ [];
  f = some 0;
  b = some 0;
  vars = one_var;
  defvars = [];
  funstack = [];
}

five_kept : map_get same_number one_var 5 ≡ 50
unfolding map_get bucket_of bucket_get
five_kept = refl

var_read-var_write_example :
    (u : Builder) × (var_write same_number 1 two_funs 6 60 0 ≡ some u)
    × (var_read same_number 0 99 u 5 0 ≡ some (u, 50))
unfolding bucket_of bucket_set
var_read-var_write_example =
    var_read-var_write same_number 0 99 0 two_funs 6 5 60 50 0 one_var-IsMap refl
      (λ e. absurd (ground arith)) (λ e. absurd (ground arith)) (λ e. absurd (ground arith))
      (λ e. absurd (ground arith)) (λ e. absurd (ground arith)) (λ e. five_kept)

-- The body of the second function sets a variable.
abbrev sets_variable : Builder → Option (Builder × ℕ)
sets_variable u = some (record u { vars = one_var }, 0)

sets_variable-Runs : Runs sets_variable (entered two_funs 0 1 0)
sets_variable-Runs = record {
  last = record (entered two_funs 0 1 0) { vars = one_var };
  value = 0;
  block = 0;
  runs = refl;
  some_vars = λ e. absurd (ground arith);
}

add_fun-ResumedBy_example :
    ResumedBy
      (inside two_funs 0 (some 0))
      (add_fun sets_variable false (inside two_funs 0 (some 0)) 1 0)
unfolding fun_new
add_fun-ResumedBy_example =
    add_fun-ResumedBy sets_variable false two_funs 0 1 0 refl sets_variable-Runs

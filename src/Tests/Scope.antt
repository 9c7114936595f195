-- ===== src/Tests/Scope.antt =====
-- The stack of scopes on small inputs.
use colang.Prelude.{
  ℕ, zero, suc, ◌≡◌, refl, true, false, Option, none, some, [], ◌∷◌, arith, ◌==◌, get_or,
}
use colang.Util.HashMap.{
  free_entry, Bucket, HashMap, map_set, set_loop, map_get, bucket_of, bucket_get, bucket_set,
}
use colang.Util.HashMap.Bucket.{IsTidy}
use colang.Util.HashMap.Map.{IsMap}
use colang.Parse.Scope.{
  ScopeStack, ParserScopes, push_scope, pop_scope, pop_and_check, scope_lookup, scope_assoc,
  lookupsym, lookupsym_shallow, defsym, search, lookupsym_pkg,
}
use colang.Parse.Scope.Stack.{IsScopes}
use colang.Parse.Scope.Names.{IsLookedUp, lookupsym-IsLookedUp}
use colang.Parse.Scope.Define.{IsDefined, defsym-IsDefined}
use colang.Parse.Scope.Nested.{
  Body, ends, defines, looks, nests, run_body, RestoredBy, nests-RestoredBy,
}
use colang.Parse.Scope.Innermost.{pop_and_check_lem, lookupsym_shallow-lookupsym}

abbrev low_bits : ℕ → ℕ
low_bits k = k

-- The package has the node 50 under the name 5.
abbrev bucket_of_five : Bucket
bucket_of_five = record { key = 5; value = 50 } ∷ free_entry ∷ free_entry ∷ []

abbrev pkg_map : HashMap
pkg_map = record { cap = 1; len = 1; dense = false; buckets = bucket_of_five ∷ [] }

pkg_map-IsTidy : (i : ℕ) → IsTidy (get_or pkg_map.buckets i [])
pkg_map-IsTidy zero = (
  (λ e. absurd (ground arith)),
  (λ e. ((λ f. absurd (ground arith)), ((λ f. absurd (ground arith)), tt))),
  (
    (λ e. (refl, (refl, refl, tt))),
    (λ e. absurd (e refl)),
    ((λ e. (refl, tt)), (λ e. absurd (e refl)), tt),
  ),
)
pkg_map-IsTidy (suc n) = tt

pkg_map-IsMap : IsMap low_bits pkg_map
pkg_map-IsMap = record {
  some_buckets = omega arith;
  sized = refl;
  tidy = pkg_map-IsTidy;
  narrow = λ k. omega arith;
}

-- At the top level 4 names the node 40.
abbrev top_level : ParserScopes
top_level = record {
  stack = record { cap = 8; len = 2; base = 0; ptr = 40 ∷ 4 ∷ 0 ∷ 0 ∷ 0 ∷ 0 ∷ 0 ∷ 0 ∷ [] };
  pkgscope = pkg_map ∷ [];
  unused = λ a. true;
}

top_level-IsScopes : IsScopes top_level.stack ((4, 40) ∷ []) []
top_level-IsScopes = record {
  words = refl;
  fits = omega arith;
  some_room = omega arith;
  frames = (omega arith, refl, refl, (refl, refl));
}

lookupsym-IsLookedUp_example :
    IsLookedUp low_bits top_level
      ((4, 40) ∷ [])
      []
      5
      (lookupsym low_bits top_level 5).0
      (lookupsym low_bits top_level 5).1
lookupsym-IsLookedUp_example =
    lookupsym-IsLookedUp low_bits top_level ((4, 40) ∷ []) [] 5 top_level-IsScopes

defsym-IsDefined_example :
    (q : ParserScopes) × (defsym low_bits 1 top_level 6 60 ≡ some q)
    × IsDefined low_bits top_level ((4, 40) ∷ []) [] 6 60 q
unfolding bucket_of bucket_set
defsym-IsDefined_example =
    defsym-IsDefined low_bits 0 top_level ((4, 40) ∷ []) [] 6 60 top_level-IsScopes
      (λ e. absurd (ground arith))
      (λ top. (
        pkg_map,
        ([], refl, pkg_map-IsMap, (λ e. absurd (ground arith)), λ e. absurd (ground arith)),
      ))

-- A function with a parameter 4, which shadows, and in it a block with a name 7.
abbrev function_body : Body
function_body = defines 4 44 (looks 5 (nests (defines 7 70 (looks 4 ends)) (looks 4 ends)))

nests-RestoredBy_example :
    RestoredBy low_bits 0 top_level
      ((4, 40) ∷ [])
      []
      (run_body low_bits 0 top_level (nests function_body ends))
nests-RestoredBy_example =
    nests-RestoredBy low_bits 0 top_level function_body ((4, 40) ∷ []) [] top_level-IsScopes
      (omega arith) ((λ e. absurd (ground arith)), (((λ e. absurd (ground arith)), tt), tt))

-- A scope with the names 6 and 8 on top of it.
abbrev in_scope : ScopeStack
in_scope = record { cap = 8; len = 7; base = 2; ptr = 40 ∷ 4 ∷ 0 ∷ 60 ∷ 6 ∷ 80 ∷ 8 ∷ 0 ∷ [] }

in_scope-IsScopes : IsScopes in_scope ((8, 80) ∷ (6, 60) ∷ []) (((4, 40) ∷ []) ∷ [])
in_scope-IsScopes = record {
  words = refl;
  fits = omega arith;
  some_room = omega arith;
  frames = (
    omega arith,
    refl,
    refl,
    (omega arith, refl, refl, (refl, (omega arith, refl, refl, (refl, refl)))),
  );
}

pop_and_check_lem_example :
    pop_and_check true (λ n. n == 60) 1 in_scope ≡ (pop_scope in_scope, 60 ∷ [])
pop_and_check_lem_example =
    pop_and_check_lem (λ n. n == 60) 1 true in_scope ((8, 80) ∷ (6, 60) ∷ []) ((4, 40) ∷ []) []
      in_scope-IsScopes

lookupsym_shallow-lookupsym_example :
    ((lookupsym_shallow top_level 5).1 ≡ 0)
    × ((lookupsym_shallow (lookupsym low_bits top_level 5).0 5).1
        ≡ scope_lookup low_bits (pkg_map ∷ []) 5)
unfolding scope_lookup map_get bucket_of bucket_get
lookupsym_shallow-lookupsym_example =
    lookupsym_shallow-lookupsym low_bits top_level ((4, 40) ∷ []) [] 5 top_level-IsScopes refl
      (λ e. absurd (ground arith)) (omega arith)

-- Before any name is defined a scope has the base 0, so a name in it goes to the package.
abbrev at_start : ParserScopes
at_start = record {
  stack = record { cap = 4; len = 0; base = 0; ptr = 0 ∷ 0 ∷ 0 ∷ 0 ∷ [] };
  pkgscope = pkg_map ∷ [];
  unused = λ a. true;
}

abbrev meaning : ℕ → Option ParserScopes → Option ℕ
meaning key none = none
meaning key (some p) = some (lookupsym low_bits p key).1

parameter_leaks :
    meaning 6 (run_body low_bits 1 at_start (nests (defines 6 60 ends) ends)) ≡ some 60
unfolding run_body defsym push_scope scope_assoc map_set set_loop bucket_set bucket_of lookupsym
    search pop_scope lookupsym_pkg scope_lookup map_get bucket_get
parameter_leaks = refl

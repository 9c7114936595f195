-- ===== src/Parse/Scope.antt =====
-- src/co/parse/parse.c: the names in scope while a file is parsed, on the stack of scopes; and
-- src/co/parse/ast.c: the scope of the package and the universe, a chain of hash maps. Symbols and
-- nodes are numbers, 0 for NULL. A word of the stack is a value, a key or a saved base.
pub mod Frames
pub mod Stack
pub mod Names
pub mod Define
pub mod Nested
pub mod Innermost
use colang.Prelude.{
  ℕ, zero, suc, ◌+◌, ◌-◌, ◌*◌, Bool, true, false, not, ◌&&◌, Option, none, some, List, [], ◌∷◌,
  ◌++◌, if◌then◌else◌, ◌==◌, ltb, get_or, set, replicate,
}
use colang.Util.HashMap.{HashMap, map_get, map_set}

-- `scopestack` of the parser.
pub record ScopeStack : Type 0 where
  pub cap : ℕ
  pub len : ℕ
  pub base : ℕ
  pub ptr : List ℕ

-- `unused` is NodeFlagUnused of each node; `pkgscope` begins with the scope of the package.
pub record ParserScopes : Type 0 where
  pub stack : ScopeStack
  pub pkgscope : List HashMap
  pub unused : ℕ → Bool

-- What is past the old capacity is not yet written.
unfoldable pub scopestack_grow : ScopeStack → ScopeStack
scopestack_grow s = record s { cap = s.cap * 2; ptr = s.ptr ++ replicate s.cap 0 }

unfoldable pub push_scope : ScopeStack → ScopeStack
unfolding scopestack_grow
push_scope s =
    let t = if s.cap - s.len == 0 then scopestack_grow s else s in
    record t { ptr = set t.ptr t.len t.base; len = t.len + 1; base = t.len }

unfoldable pub pop_scope : ScopeStack → ScopeStack
pop_scope s = record s { len = s.base; base = get_or s.ptr s.base 0 }

unfoldable pub scopestack_push : ScopeStack → ℕ → ℕ → ScopeStack
scopestack_push s key value = record s {
  ptr = set (set s.ptr s.len value) (s.len + 1) key;
  len = s.len + 2;
}

-- The loop of lookupsym, from `i` down.
unfoldable pub search : List ℕ → ℕ → ℕ → ℕ → Option ℕ
search ptr key zero base = none
search ptr key (suc zero) base = none
search ptr key (suc (suc j)) base = elim (suc j == base) [
  | true ↦ search ptr key (suc j) (get_or ptr (suc j) 0)
  | false ↦ elim (get_or ptr (suc j) 0 == key) [
    | true ↦ some (get_or ptr j 0)
    | false ↦ search ptr key j base
  ]
]

-- The loop of lookupsymShallow.
unfoldable pub search_shallow : List ℕ → ℕ → ℕ → ℕ → Option ℕ
search_shallow ptr key zero base = none
search_shallow ptr key (suc zero) base = none
search_shallow ptr key (suc (suc j)) base = elim (suc j == base) [
  | true ↦ none
  | false ↦ elim (get_or ptr (suc j) 0 == key) [
    | true ↦ some (get_or ptr j 0)
    | false ↦ search_shallow ptr key j base
  ]
]

-- The loop of scopestackCheckUnused, which `base` ends before `i` is 0: the nodes that it warns of.
-- `blank` is the symbol `_`, and `is_unreferenced` tells an NVar with no references.
unfoldable pub check_from : (ℕ → Bool) → ℕ → List ℕ → ℕ → ℕ → List ℕ
check_from is_unreferenced blank ptr zero base = []
check_from is_unreferenced blank ptr (suc zero) base = []
check_from is_unreferenced blank ptr (suc (suc j)) base =
    if ltb base (suc j)
    then (let rest = check_from is_unreferenced blank ptr j base in
        if not (get_or ptr (suc j) 0 == blank) && is_unreferenced (get_or ptr j 0)
        then get_or ptr j 0 ∷ rest
        else rest)
    else []

-- popScopeAndCheckUnused, with the nodes that it warns of; `debug` is `p->build->debug`.
unfoldable pub pop_and_check : Bool → (ℕ → Bool) → ℕ → ScopeStack → ScopeStack × List ℕ
unfolding pop_scope
pop_and_check debug is_unreferenced blank s = (
  pop_scope s,
  if debug && ltb 1 (s.len - s.base)
      then check_from is_unreferenced blank s.ptr s.len s.base
      else [],
)

-- `NodeClearUnused(n)`
abbrev pub clear_unused : ℕ → ParserScopes → ParserScopes
clear_unused n p = record p { unused = λ a. if n == a then false else p.unused a }

unfoldable pub lookupsym_shallow : ParserScopes → ℕ → ParserScopes × ℕ
lookupsym_shallow p key = elim (search_shallow p.stack.ptr key p.stack.len p.stack.base) [
  | some n ↦ (clear_unused n p, n)
  | none ↦ (p, 0)
]

module _ (hash : ℕ → ℕ) where
  -- ScopeLookup
  unfoldable pub scope_lookup : List HashMap → ℕ → ℕ
  scope_lookup [] key = 0
  scope_lookup (m ∷ parents) key =
      let n = map_get hash m key in if n == 0 then scope_lookup parents key else n

  -- ScopeAssoc, with fuel for the growing of the map.
  unfoldable pub scope_assoc : ℕ → List HashMap → ℕ → ℕ → Option (List HashMap)
  scope_assoc fuel [] key value = none
  scope_assoc fuel (m ∷ parents) key value = elim (map_set hash fuel m key value) [
    | none ↦ none
    | some r ↦ some (r.0 ∷ parents)
  ]

  -- A name of the package is put on the stack where there is space.
  unfoldable pub lookupsym_pkg : ParserScopes → ℕ → ParserScopes × ℕ
  unfolding scopestack_push
  lookupsym_pkg p key =
      let n = scope_lookup p.pkgscope key in
      if n == 0 then (p, 0) else (
        (if ltb 1 (p.stack.cap - p.stack.len)
            then record (clear_unused n p) { stack = scopestack_push p.stack key n }
            else clear_unused n p),
        n,
      )

  unfoldable pub lookupsym : ParserScopes → ℕ → ParserScopes × ℕ
  lookupsym p key = elim (search p.stack.ptr key p.stack.len p.stack.base) [
    | some n ↦ (clear_unused n p, n)
    | none ↦ lookupsym_pkg p key
  ]

  -- The base is 0 at the top level, where a name belongs to the package too.
  unfoldable pub defsym : ℕ → ParserScopes → ℕ → ℕ → Option ParserScopes
  unfolding scopestack_grow scopestack_push
  defsym fuel p key value =
      let s = if ltb (p.stack.cap - p.stack.len) 2 then scopestack_grow p.stack else p.stack in
      let q = record p { stack = scopestack_push s key value } in
      if s.base == 0
      then elim (scope_assoc fuel p.pkgscope key value) [
        | none ↦ none
        | some scopes ↦ some (record q { pkgscope = scopes })
      ]
      else some q

-- ===== src/Parse/Scan/Layout.antt =====
-- scan.c: the stack of indentations, and the blocks that the layout opens and closes.
use colang.Prelude.{
  ℕ, ◌+◌, ◌<◌, ◌≡◌, subst, ◌∙◌, Bool, true, false, List, [], ◌∷◌, arith, ltb, Bool-cases, inl, inr,
  ltb→lt,
}
use colang.Parse.Token.{Tok, t_lbrace, t_rbrace}
use colang.Parse.Scan.{
  Indent, Scanner, Stage, token, go_on, popped_block, pop_from, indent_pop, unwind,
}

-- The indentations grow from the outermost one, which is 0 wide and no block, to the current one.
abbrev pub IsChain : Indent → List Indent → Type 0
IsChain i [] = (i.n ≡ 0) × (i.isblock ≡ false)
IsChain i (j ∷ rest) = (j.n < i.n) × IsChain j rest

abbrev pub bit : Bool → ℕ
bit true = 1
bit false = 0

-- The blocks among the indentations.
abbrev pub blocks : Indent → List Indent → ℕ
blocks i [] = bit i.isblock
blocks i (j ∷ rest) = bit i.isblock + blocks j rest

-- A token of the layout opens a block or closes one, or neither.
abbrev pub opened : Tok → ℕ
opened t_lbrace = 1
opened _ = 0

abbrev pub closed : Tok → ℕ
closed t_rbrace = 1
closed _ = 0

pub record Level (k : ℕ) (s : Scanner) : Type 0 where
  pub chain : IsChain s.indent s.indent_stack
  pub count : blocks s.indent s.indent_stack ≡ k

pub record TokenLevel (k : ℕ) (s : Scanner) : Type 0 where
  pub chain : IsChain s.indent s.indent_stack
  pub count : blocks s.indent s.indent_stack + closed s.tok ≡ k + opened s.tok

abbrev pub StageLevel : ℕ → Stage → Type 0
StageLevel k (token s) = TokenLevel k s
StageLevel k (go_on s) = Level k s

pop_from-IsChain :
    (st : List Indent) (s : Scanner)
    → IsChain s.indent st
    → 0 < s.indent.n
    → IsChain (pop_from st s).indent (pop_from st s).indent_stack
unfolding pop_from
pop_from-IsChain [] s h lt = absurd (omega (arith, h.0))
pop_from-IsChain (top ∷ rest) s h lt = h.1

pop_from-blocks :
    (st : List Indent) (s : Scanner)
    → IsChain s.indent st
    → 0 < s.indent.n
    → blocks (pop_from st s).indent (pop_from st s).indent_stack + bit (popped_block s)
      ≡ blocks s.indent st
unfolding pop_from popped_block
pop_from-blocks [] s h lt = absurd (omega (arith, h.0))
pop_from-blocks (top ∷ rest) s h lt = omega arith

indent_pop-IsChain :
    (k : ℕ) (s : Scanner)
    → Level k s
    → 0 < s.indent.n
    → IsChain (indent_pop s).indent (indent_pop s).indent_stack
unfolding indent_pop
indent_pop-IsChain k s h lt = pop_from-IsChain s.indent_stack s h.chain lt

indent_pop-blocks :
    (k : ℕ) (s : Scanner)
    → Level k s
    → 0 < s.indent.n
    → blocks (indent_pop s).indent (indent_pop s).indent_stack + bit (popped_block s) ≡ k
unfolding indent_pop
indent_pop-blocks k s h lt = pop_from-blocks s.indent_stack s h.chain lt ∙ h.count

-- A block that is popped gives `}`; another indentation leaves the blocks as they are.
pub popped_token :
    (k : ℕ) (s : Scanner)
    → Level k s
    → 0 < s.indent.n
    → popped_block s ≡ true
    → (i : Bool) → TokenLevel k (record (indent_pop s) { tok = t_rbrace; insert_semi = i })
popped_token k s h lt e i =
    let count : blocks (indent_pop s).indent (indent_pop s).indent_stack + 1 ≡ k =
      subst (λ c. blocks (indent_pop s).indent (indent_pop s).indent_stack + bit c ≡ k) e
        (indent_pop-blocks k s h lt) in
    record { chain = indent_pop-IsChain k s h lt; count = omega (arith, count) }

pub popped-Level :
    (k : ℕ) (s : Scanner)
    → Level k s
    → 0 < s.indent.n
    → popped_block s ≡ false
    → Level k (indent_pop s)
popped-Level k s h lt e =
    let count : blocks (indent_pop s).indent (indent_pop s).indent_stack + 0 ≡ k =
      subst (λ c. blocks (indent_pop s).indent (indent_pop s).indent_stack + bit c ≡ k) e
        (indent_pop-blocks k s h lt) in
    record { chain = indent_pop-IsChain k s h lt; count = omega (arith, count) }

pub unwind-StageLevel : (k : ℕ) (s : Scanner) → Level k s → StageLevel k (unwind s)
unfolding unwind
unwind-StageLevel k s h = elim (Bool-cases (ltb s.indent_dst.n s.indent.n)) [
  | inl e ↦
      let lt : s.indent_dst.n < s.indent.n = ltb→lt s.indent_dst.n s.indent.n e in
      elim (Bool-cases (popped_block s)) [
        | inl e' ↦ rw (e, e') (popped_token k s h (omega arith) e' (indent_pop s).insert_semi)
        | inr e' ↦ rw (e, e') (popped-Level k s h (omega arith) e')
      ]
  | inr e ↦ rw e h
]

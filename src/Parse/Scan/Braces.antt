-- ===== src/Parse/Scan/Braces.antt =====
-- scan.c: every `{` and `}` of the layout opens or closes one block of the stack.
use colang.Prelude.{
  ℕ, ◌+◌, ◌<◌, ◌≡◌, refl, subst, Bool, true, false, List, [], ◌∷◌, arith, if◌then◌else◌, ◌==◌, ltb,
  Bool-cases, inl, inr, ltb→lt,
}
use colang.Parse.Token.{t_semi, t_lbrace}
use colang.Parse.Scan.{
  Source, Scanner, Stage, token, go_on, rest_at, inend, serr, popped_block, indent_push, indent_pop,
  unwind, check_indent, check_mixed_indent, white_step, skip_white, line_begin, indent_more,
  line_semi, indent_less, line_layout, layout, eof_begin, eof_semi, eof_layout, at_end, and_then,
  white_layout, before_token,
}
use colang.Parse.Scan.Chars.{is_whitespace}
use colang.Parse.Scan.Progress.{skip_white_over, skip_white_stop}
use colang.Parse.Scan.Layout.{
  bit, Level, TokenLevel, StageLevel, popped_token, popped-Level, unwind-StageLevel,
}

module _ (b : Source) where
  check_indent-Level : (k : ℕ) (s : Scanner) → Level k s → Level k (check_indent b s)
  unfolding check_indent check_mixed_indent serr
  check_indent-Level k s h = record {
    chain = ground (arith, h.chain);
    count = ground (arith, h.count);
  }

  if_StageLevel :
      (k : ℕ) (c : Bool) (x y : Stage)
      → (c ≡ true → StageLevel k x)
      → (c ≡ false → StageLevel k y)
      → StageLevel k (if c then x else y)
  if_StageLevel k true x y h g = h refl
  if_StageLevel k false x y h g = g refl

  line_semi-StageLevel : (k : ℕ) (s : Scanner) → Level k s → StageLevel k (line_semi b s)
  unfolding line_semi
  line_semi-StageLevel k s h =
      if_StageLevel k s.insert_semi (token (record s { insert_semi = false; tok = t_semi }))
        (go_on s) (λ e. record { chain = h.chain; count = omega (arith, h.count) }) (λ e. h)

  indent_less-StageLevel :
      (k : ℕ) (s : Scanner) → Level k s → 0 < s.indent.n → StageLevel k (indent_less b s)
  unfolding indent_less
  indent_less-StageLevel k s h lt = elim (Bool-cases (popped_block s)) [
    | inl e ↦ rw e (popped_token k s h lt e false)
    | inr e ↦ rw e (line_semi-StageLevel k (indent_pop s) (popped-Level k s h lt e))
  ]

  -- A deeper line: the new indentation is a block where a semicolon was due.
  pushed :
      (k : ℕ) (s : Scanner)
      → Level k s
      → s.indent.n < s.indent_dst.n
      → Level (bit s.indent_dst.isblock + k) (indent_push s)
  unfolding indent_push
  pushed k s h lt = record { chain = (lt, h.chain); count = omega (arith, h.count) }

  indent_more-StageLevel :
      (k : ℕ) (s : Scanner)
      → Level k s
      → s.indent.n < s.indent_dst.n
      → s.indent_dst.isblock ≡ s.insert_semi
      → StageLevel k (indent_more b s)
  unfolding indent_more
  indent_more-StageLevel k s h lt same =
      let p : Level (bit s.insert_semi + k) (indent_push s) =
        subst (λ c. Level (bit c + k) (indent_push s)) same (pushed k s h lt) in
      let opens : s.insert_semi ≡ true
          → TokenLevel k
              (record (check_indent b (indent_push s)) { insert_semi = false; tok = t_lbrace }) =
        λ e.
          let q =
            check_indent-Level (1 + k) (indent_push s)
              (subst (λ c. Level (bit c + k) (indent_push s)) e p) in
          record { chain = q.chain; count = omega (arith, q.count) } in
      if_StageLevel k s.insert_semi
        (token (record (check_indent b (indent_push s)) { insert_semi = false; tok = t_lbrace }))
        (go_on (indent_push s)) opens
        (λ e.
          let q : Level (0 + k) (indent_push s) =
            subst (λ c. Level (bit c + k) (indent_push s)) e p in
          record { chain = q.chain; count = omega (arith, q.count) })

  same-check_indent : (s : Scanner) → (check_indent b s).indent.n ≡ s.indent.n
  unfolding check_indent check_mixed_indent serr
  same-check_indent s = ground arith

  line_layout-StageLevel :
      (k : ℕ) (s : Scanner)
      → Level k s
      → s.indent_dst.isblock ≡ s.insert_semi
      → StageLevel k (line_layout b s)
  unfolding line_layout
  line_layout-StageLevel k s h same = elim (Bool-cases (ltb s.indent.n s.indent_dst.n)) [
    | inl e ↦ rw e (indent_more-StageLevel k s h (ltb→lt s.indent.n s.indent_dst.n e) same)
    | inr e ↦
        let c = check_indent-Level k s h in
        elim (Bool-cases (ltb s.indent_dst.n s.indent.n)) [
          | inl e' ↦
              let lt : s.indent_dst.n < s.indent.n = ltb→lt s.indent_dst.n s.indent.n e' in
              rw (e, e')
                (indent_less-StageLevel k (check_indent b s) c
                  (omega (arith, lt, same-check_indent s)))
          | inr e' ↦ rw (e, e') (line_semi-StageLevel k (check_indent b s) c)
        ]
  ]

  layout-StageLevel : (k : ℕ) (l : Bool) (s : Scanner) → Level k s → StageLevel k (layout b l s)
  unfolding layout line_begin
  layout-StageLevel k true s h =
      line_layout-StageLevel k (line_begin b s) (record { chain = h.chain; count = h.count }) refl
  layout-StageLevel k false s h = h

  eof_semi-StageLevel : (k : ℕ) (s : Scanner) → Level k s → StageLevel k (eof_semi b s)
  unfolding eof_semi
  eof_semi-StageLevel k s h = elim (Bool-cases s.insert_semi) [
    | inl e ↦ rw e (record { chain = h.chain; count = omega (arith, h.count) })
    | inr e ↦ rw e (record { chain = h.chain; count = omega (arith, h.count) })
  ]

  eof_layout-StageLevel : (k : ℕ) (s : Scanner) → Level k s → StageLevel k (eof_layout b s)
  unfolding eof_layout
  eof_layout-StageLevel k s h = elim (Bool-cases (ltb 0 s.indent.n)) [
    | inl e ↦
        let lt : 0 < s.indent.n = ltb→lt 0 s.indent.n e in
        elim (Bool-cases (popped_block s)) [
          | inl e' ↦ rw (e, e') (popped_token k s h lt e' false)
          | inr e' ↦ rw (e, e') (eof_semi-StageLevel k (indent_pop s) (popped-Level k s h lt e'))
        ]
    | inr e ↦ rw e (eof_semi-StageLevel k s h)
  ]

  at_end-StageLevel : (k : ℕ) (s : Scanner) → Level k s → StageLevel k (at_end b s)
  unfolding at_end eof_begin
  at_end-StageLevel k s h = elim (Bool-cases (s.inp == inend b)) [
    | inl e ↦
        rw e (eof_layout-StageLevel k (eof_begin b s) (record { chain = h.chain; count = h.count }))
    | inr e ↦ rw e h
  ]

  white_step-Level : (k c : ℕ) (s : Scanner) → Level k s → Level k (white_step b c s)
  unfolding white_step
  white_step-Level k c s h = elim (Bool-cases (c == 10)) [
    | inl e ↦ rw e (record { chain = h.chain; count = h.count })
    | inr e ↦ rw e (record { chain = h.chain; count = h.count })
  ]

  skip_white-Level :
      (k : ℕ) (xs : List ℕ) (l : Bool) (s : Scanner) → Level k s → Level k (skip_white b xs l s).1
  unfolding skip_white
  skip_white-Level k [] l s h = h
  skip_white-Level k (c ∷ rest) l s h = elim (Bool-cases (is_whitespace c)) [
    | inl e ↦
        let l' : Bool = if c == 10 then true else l in
        rw (skip_white_over b c rest l s e)
          (skip_white-Level k rest l' (white_step b c s) (white_step-Level k c s h))
    | inr e ↦ rw (skip_white_stop b c rest l s e) h
  ]

  white_layout-StageLevel : (k : ℕ) (s : Scanner) → Level k s → StageLevel k (white_layout b s)
  unfolding white_layout
  white_layout-StageLevel k s h =
      let start : Bool = s.inp == s.linestart in
      let w = skip_white-Level k (rest_at b s.inp) start s h in
      let (l, s') = skip_white b (rest_at b s.inp) start s in layout-StageLevel k l s' w

  and_then-StageLevel :
      (k : ℕ) (t : Stage) (next : Scanner → Stage)
      → StageLevel k t
      → ((s : Scanner) → Level k s → StageLevel k (next s))
      → StageLevel k (and_then b t next)
  unfolding and_then
  and_then-StageLevel k (token s) next h g = h
  and_then-StageLevel k (go_on s) next h g = g s h

  -- Where the indentations on the stack grow from an outermost one of width 0 and `k` of them are
  -- blocks, what ScannerNext does before the text of a token keeps them growing; `k` of them are
  -- blocks again, one more if it returns a `{`, and one fewer if it returns a `}`.
  pub before_token-StageLevel : (k : ℕ) (s : Scanner) → Level k s → StageLevel k (before_token b s)
  unfolding before_token
  before_token-StageLevel k s h =
      and_then-StageLevel k (and_then b (unwind s) (white_layout b)) (at_end b)
        (and_then-StageLevel k (unwind s) (white_layout b) (unwind-StageLevel k s h)
          (white_layout-StageLevel k))
        (at_end-StageLevel k)

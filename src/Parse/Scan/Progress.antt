-- ===== src/Parse/Scan/Progress.antt =====
-- scan.c: the loops of the scanner stop, and its pointer stays inside the source.
use colang.Prelude.{
  ℕ, ◌+◌, ◌-◌, ◌≤◌, ◌<◌, ◌≡◌, refl, Bool, true, false, List, [], ◌∷◌, arith, if◌then◌else◌, ◌==◌,
  ltb, length, length-drop, Bool-cases, inl, inr, ne_of_test,
}
use colang.Parse.Scan.{
  Source, Scanner, Stage, token, go_on, rest_at, inend, serr, popped_block, indent_push, Indent,
  pop_from, indent_pop, unwind, check_indent, check_mixed_indent, white_step, skip_white,
  line_begin, indent_more, line_semi, indent_less, line_layout, layout, eof_begin, eof_semi,
  eof_layout, at_end, and_then, white_layout, before_token,
}
use colang.Parse.Scan.Chars.{is_whitespace, run}

-- The state that a stage leaves.
abbrev pub state_of : Stage → Scanner
state_of (token s) = s
state_of (go_on s) = s

pub run-le : (p : ℕ → Bool) (xs : List ℕ) → run p xs ≤ length xs
unfolding run
run-le p [] = omega arith
run-le p (c ∷ rest) = elim (Bool-cases (p c)) [
  | inl e ↦ rw e (omega (arith, run-le p rest))
  | inr e ↦ rw e (omega arith)
]

inp-pop_from : (st : List Indent) (s : Scanner) → (pop_from st s).inp ≡ s.inp
unfolding pop_from
inp-pop_from [] s = refl
inp-pop_from (top ∷ rest) s = refl

inp-indent_pop : (s : Scanner) → (indent_pop s).inp ≡ s.inp
unfolding indent_pop
inp-indent_pop s = inp-pop_from s.indent_stack s

inp-unwind : (s : Scanner) → (state_of (unwind s)).inp ≡ s.inp
unfolding unwind
inp-unwind s = ground (arith, inp-indent_pop s)

module _ (b : Source) where
  inp-check_indent : (s : Scanner) → (check_indent b s).inp ≡ s.inp
  unfolding check_indent check_mixed_indent serr
  inp-check_indent s = ground arith

  inp-line_semi : (s : Scanner) → (state_of (line_semi b s)).inp ≡ s.inp
  unfolding line_semi
  inp-line_semi s = ground arith

  inp-indent_less : (s : Scanner) → (state_of (indent_less b s)).inp ≡ s.inp
  unfolding indent_less
  inp-indent_less s = ground (arith, inp-indent_pop s, inp-line_semi (indent_pop s))

  inp-indent_more : (s : Scanner) → (state_of (indent_more b s)).inp ≡ s.inp
  unfolding indent_more indent_push
  inp-indent_more s = ground (arith, inp-check_indent (indent_push s))

  inp-line_layout : (s : Scanner) → (state_of (line_layout b s)).inp ≡ s.inp
  unfolding line_layout
  inp-line_layout s = ground (
    arith,
    inp-indent_more s,
    inp-indent_less (check_indent b s),
    inp-line_semi (check_indent b s),
    inp-check_indent s,
  )

  inp-layout : (l : Bool) (s : Scanner) → (state_of (layout b l s)).inp ≡ s.inp
  unfolding layout line_begin
  inp-layout true s = inp-line_layout (line_begin b s)
  inp-layout false s = refl

  inp-eof_semi : (s : Scanner) → (state_of (eof_semi b s)).inp ≡ s.inp
  unfolding eof_semi
  inp-eof_semi s = ground arith

  inp-eof_layout : (s : Scanner) → (state_of (eof_layout b s)).inp ≡ s.inp
  unfolding eof_layout
  inp-eof_layout s = ground (arith, inp-indent_pop s, inp-eof_semi (indent_pop s), inp-eof_semi s)

  pub length-rest_at : (p : ℕ) → length (rest_at b p) ≡ length b.body - (p - 1)
  length-rest_at p = length-drop (p - 1) b.body

  -- Inside the source, at or past a place.
  abbrev pub Past : ℕ → Scanner → Type 0
  Past lo s = (lo ≤ s.inp) × (s.inp ≤ inend b)

  -- Past `lo` by no more than `n` bytes.
  abbrev Within : ℕ → ℕ → Scanner → Type 0
  Within lo n s = (lo ≤ s.inp) × (s.inp ≤ lo + n)

  inp-white_step : (c : ℕ) (s : Scanner) → (white_step b c s).inp ≡ s.inp + 1
  unfolding white_step
  inp-white_step c s = ground arith

  pub skip_white_over :
      (c : ℕ) (rest : List ℕ) (l : Bool) (s : Scanner)
      → is_whitespace c ≡ true
      → skip_white b (c ∷ rest) l s
        ≡ skip_white b rest (if c == 10 then true else l) (white_step b c s)
  unfolding skip_white
  skip_white_over c rest l s e = rw (e, skip_white) refl

  pub skip_white_stop :
      (c : ℕ) (rest : List ℕ) (l : Bool) (s : Scanner)
      → is_whitespace c ≡ false
      → skip_white b (c ∷ rest) l s ≡ (l, s)
  unfolding skip_white
  skip_white_stop c rest l s e = rw (e, skip_white) refl

  skip_white-Within :
      (xs : List ℕ) (l : Bool) (s : Scanner) → Within s.inp (length xs) (skip_white b xs l s).1
  unfolding skip_white
  skip_white-Within [] l s = (omega arith, omega arith)
  skip_white-Within (c ∷ rest) l s = elim (Bool-cases (is_whitespace c)) [
    | inl e ↦
        let l' : Bool = if c == 10 then true else l in
        let h = skip_white-Within rest l' (white_step b c s) in
        rw (skip_white_over c rest l s e)
          (omega (arith, h.0, inp-white_step c s), omega (arith, h.1, inp-white_step c s))
    | inr e ↦ rw (skip_white_stop c rest l s e) (omega arith, omega arith)
  ]

  -- What skip_white leaves of the layout, past the place it started from.
  white_layout-Past :
      (s : Scanner) → 1 ≤ s.inp → s.inp ≤ inend b → Past s.inp (state_of (white_layout b s))
  unfolding white_layout
  white_layout-Past s h le =
      let start : Bool = s.inp == s.linestart in
      let w = skip_white-Within (rest_at b s.inp) start s in
      let (l, s') = skip_white b (rest_at b s.inp) start s in
      (
        omega (arith, w.0, inp-layout l s'),
        omega (arith, w.1, inp-layout l s', length-rest_at s.inp),
      )

  -- A token is returned inside the source, and the scanner goes on before its end.
  abbrev pub StagePast : ℕ → Stage → Type 0
  StagePast lo (token s) = Past lo s
  StagePast lo (go_on s) = (lo ≤ s.inp) × (s.inp < inend b)

  eof_semi-StagePast : (lo : ℕ) (s : Scanner) → Past lo s → StagePast lo (eof_semi b s)
  unfolding eof_semi
  eof_semi-StagePast lo s h = elim (Bool-cases s.insert_semi) [ inl e ↦ rw e h | inr e ↦ rw e h ]

  eof_layout-StagePast : (lo : ℕ) (s : Scanner) → Past lo s → StagePast lo (eof_layout b s)
  unfolding eof_layout
  eof_layout-StagePast lo s h =
      let popped : Past lo (indent_pop s) =
        (omega (arith, h.0, inp-indent_pop s), omega (arith, h.1, inp-indent_pop s)) in
      elim (Bool-cases (ltb 0 s.indent.n)) [
        | inl e ↦ elim (Bool-cases (popped_block s)) [
          | inl e' ↦ rw e (rw e' popped)
          | inr e' ↦ rw e (rw e' (eof_semi-StagePast lo (indent_pop s) popped))
        ]
        | inr e ↦ rw e (eof_semi-StagePast lo s h)
      ]

  at_end-StagePast : (lo : ℕ) (s : Scanner) → Past lo s → StagePast lo (at_end b s)
  unfolding at_end eof_begin
  at_end-StagePast lo s h = elim (Bool-cases (s.inp == inend b)) [
    | inl e ↦ rw e (eof_layout-StagePast lo (eof_begin b s) h)
    | inr e ↦ rw e (h.0, omega (arith, h.1, ne_of_test s.inp (inend b) e))
  ]

  and_then-StagePast :
      (lo : ℕ) (t : Stage) → Past lo (state_of t) → StagePast lo (and_then b t (at_end b))
  unfolding and_then
  and_then-StagePast lo (token s) h = h
  and_then-StagePast lo (go_on s) h = at_end-StagePast lo s h

  and_then-Past :
      (t : Stage)
      → 1 ≤ (state_of t).inp
      → (state_of t).inp ≤ inend b
      → Past (state_of t).inp (state_of (and_then b t (white_layout b)))
  unfolding and_then
  and_then-Past (token s) h le = (omega arith, le)
  and_then-Past (go_on s) h le = white_layout-Past s h le

  pub before_token-StagePast :
      (s : Scanner) → 1 ≤ s.inp → s.inp ≤ inend b → StagePast s.inp (before_token b s)
  unfolding before_token
  before_token-StagePast s h le =
      let w =
        and_then-Past (unwind s) (omega (arith, inp-unwind s)) (omega (arith, inp-unwind s)) in
      and_then-StagePast s.inp (and_then b (unwind s) (white_layout b))
        (omega (arith, w.0, inp-unwind s), w.1)

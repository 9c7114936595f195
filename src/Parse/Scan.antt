-- ===== src/Parse/Scan.antt =====
-- src/co/parse/scan.c: the scanner's state and its layout, which is all that happens before the
-- text of a token. A pointer into the source is a number: the first byte stands at 1, so that the
-- byte before it, which the scanner does point to, has a number too.
mod State
pub mod Chars
pub mod Punct
pub mod Number
pub mod Text
pub mod Next
pub mod Layout
pub mod Braces
pub mod Progress
pub mod Loops
pub mod Switch
pub mod Total
pub mod TokenText
pub mod Nesting
pub use State.*
use colang.Prelude.{
  ℕ, zero, suc, ◌+◌, ◌-◌, ◌%◌, ◌^◌, Bool, true, false, ◌&&◌, not, Option, none, some, List, [], ◌∷◌,
  ◌++◌, if◌then◌else◌, ◌==◌, ltb, get_or, take, drop, length,
}
use colang.Parse.Token.{Tok, t_none, t_semi, t_lbrace, t_rbrace}
use colang.Pos.{pos_make}
use colang.Parse.Scan.Chars.{is_whitespace}

unfoldable pub scanner_comment_pop : Scanner → Scanner × Option Comment
scanner_comment_pop s = elim s.comments [
  | [] ↦ (s, none)
  | c ∷ rest ↦ (record s { comments = rest }, some c)
]

-- A difference of two pointers in 32 bits.
abbrev pub ptrdiff : ℕ → ℕ → ℕ
ptrdiff p q = (p + (2 ^ 32 - q % 2 ^ 32)) % 2 ^ 32

unfoldable pub indent_push : Scanner → Scanner
indent_push s = record s { indent_stack = s.indent ∷ s.indent_stack; indent = s.indent_dst }

-- The answer of indent_pop, and the state after it.
unfoldable pub popped_block : Scanner → Bool
popped_block s = s.indent.isblock

unfoldable pub pop_from : List Indent → Scanner → Scanner
pop_from [] s = record s { indent = s.indent_dst }
pop_from (top ∷ rest) s = record s { indent = top; indent_stack = rest }

unfoldable pub indent_pop : Scanner → Scanner
indent_pop s = pop_from s.indent_stack s

unfoldable pub unwind : Scanner → Stage
unwind s =
    if ltb s.indent_dst.n s.indent.n
    then (if popped_block s
        then token (record (indent_pop s) { tok = t_rbrace })
        else go_on (indent_pop s))
    else go_on s

module _ (b : Source) where
  -- The bytes from a pointer on, and `inend`.
  abbrev pub rest_at : ℕ → List ℕ
  rest_at p = drop (p - 1) b.body

  abbrev pub inend : ℕ
  inend = 1 + length b.body

  -- What stands past the end is not looked at.
  abbrev pub byte_at : ℕ → ℕ
  byte_at p = get_or b.body (p - 1) 0

  unfoldable pub scanner_pos : Scanner → ℕ
  scanner_pos s =
      pos_make b.srcposorigin s.lineno ((1 + ptrdiff s.tokstart s.linestart) % 2 ^ 32)
        (ptrdiff s.tokend s.tokstart)

  unfoldable pub serr : ScanError → Scanner → Scanner
  serr e s = record s { errors = (e, scanner_pos s) ∷ s.errors }

  -- The loop of check_mixed_indent: does a byte from `p` on, of the number to go, differ from `c`?
  unfoldable pub mixed_from : ℕ → ℕ → ℕ → Bool
  mixed_from c p zero = false
  mixed_from c p (suc to_go) =
      let later = mixed_from c (p + 1) to_go in if c == byte_at p then later else true

  unfoldable pub check_mixed_indent : Scanner → Scanner
  check_mixed_indent s =
      if mixed_from (byte_at s.linestart) (s.linestart + 1) (s.inp - (s.linestart + 1))
      then serr mixed_indent s
      else s

  unfoldable pub check_indent : Scanner → Scanner
  check_indent s = if b.debug then check_mixed_indent s else s

  -- One byte of white space.
  unfoldable pub white_step : ℕ → Scanner → Scanner
  white_step c s =
      if c == 10
      then record s { lineno = (s.lineno + 1) % 2 ^ 32; linestart = s.inp + 1; inp = s.inp + 1 }
      else record s { inp = s.inp + 1 }

  -- The loop over white space, on the bytes left, with `islnstart`.
  unfoldable pub skip_white : List ℕ → Bool → Scanner → Bool × Scanner
  skip_white [] islnstart s = (islnstart, s)
  skip_white (c ∷ rest) islnstart s = elim (is_whitespace c) [
    | true ↦ skip_white rest (if c == 10 then true else islnstart) (white_step c s)
    | false ↦ (islnstart, s)
  ]

  -- The implicit `;`, `{` or `}`: the state with the new `indent_dst`, then the branches.
  unfoldable pub line_begin : Scanner → Scanner
  line_begin s = record s {
    tokstart = s.linestart - 1;
    tokend = s.linestart - 1;
    indent_dst = record { isblock = s.insert_semi; n = (s.inp - s.linestart) % 2 ^ 32 };
  }

  unfoldable pub indent_more : Scanner → Stage
  indent_more s =
      if s.insert_semi
      then token (record (check_indent (indent_push s)) { insert_semi = false; tok = t_lbrace })
      else go_on (indent_push s)

  unfoldable pub line_semi : Scanner → Stage
  line_semi s =
      if s.insert_semi then token (record s { insert_semi = false; tok = t_semi }) else go_on s

  unfoldable pub indent_less : Scanner → Stage
  indent_less s =
      if popped_block s
      then token (record (indent_pop s) { insert_semi = false; tok = t_rbrace })
      else line_semi (indent_pop s)

  unfoldable pub line_layout : Scanner → Stage
  line_layout s =
      if ltb s.indent.n s.indent_dst.n
      then indent_more s
      else (if ltb s.indent_dst.n s.indent.n
          then indent_less (check_indent s)
          else line_semi (check_indent s))

  unfoldable pub layout : Bool → Scanner → Stage
  layout islnstart s = if islnstart then line_layout (line_begin s) else go_on s

  -- The end of the source.
  unfoldable pub eof_begin : Scanner → Scanner
  eof_begin s = record s {
    tokstart = s.inp - 1;
    tokend = s.inp - 1;
    indent_dst = record s.indent_dst { n = 0 };
  }

  unfoldable pub eof_semi : Scanner → Stage
  eof_semi s =
      if s.insert_semi
      then token (record s { insert_semi = false; tok = t_semi })
      else token (record s { tok = t_none })

  unfoldable pub eof_layout : Scanner → Stage
  eof_layout s =
      if ltb 0 s.indent.n
      then (if popped_block s
          then token (record (indent_pop s) { tok = t_rbrace; insert_semi = false })
          else eof_semi (indent_pop s))
      else eof_semi s

  unfoldable pub at_end : Scanner → Stage
  at_end s = if s.inp == inend then eof_layout (eof_begin s) else go_on s

  -- From the label `scan_again` to the first byte of a token.
  unfoldable pub and_then : Stage → (Scanner → Stage) → Stage
  and_then (token s) next = token s
  and_then (go_on s) next = next s

  unfoldable pub white_layout : Scanner → Stage
  white_layout s =
      let (islnstart, s') = skip_white (rest_at s.inp) (s.inp == s.linestart) s in
      layout islnstart s'

  unfoldable pub before_token : Scanner → Stage
  before_token s = and_then (and_then (unwind s) white_layout) at_end

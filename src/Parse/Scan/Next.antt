-- ===== src/Parse/Scan/Next.antt =====
-- scan.c: ScannerNext.
use colang.Prelude.{
  ℕ, zero, suc, ◌+◌, ◌-◌, Bool, true, false, ◌&&◌, Option, none, some, List, if◌then◌else◌, ◌==◌,
  ltb, leb,
}
use colang.Parse.Token.{t_none, ends_statement}
use colang.Parse.Scan.{
  Source, Scanner, invalid_char, Stage, token, go_on, inend, byte_at, serr, before_token,
}
use colang.Parse.Scan.Chars.{is_digit, starts_name, rune_self}
use colang.Parse.Scan.Punct.{Punct, punct}
use colang.Parse.Scan.Text.{scomment, scomment_block, snumber, snameuni, sname}

-- What the switch comes to: a token, a comment to skip (`goto scan_again`), or no fuel left.
pub data Step : Type 0 where
  done again : Scanner → Step
  stuck : Step

module _ (b : Source) where
  -- `nextc`, and the test of CONSUME_CHAR's second use.
  unfoldable pub peek : ℕ → ℕ
  peek p = if ltb (p + 1) (inend b) then byte_at b p else 0

  -- Past the first byte of a token.
  unfoldable pub take_char : Scanner → Scanner
  take_char s = record s { tokstart = s.inp; tokend = s.inp + 1; inp = s.inp + 1 }

  unfoldable pub consume_char : Scanner → Scanner
  consume_char s = record s { inp = s.inp + 1; tokend = s.tokend + 1 }

  unfoldable pub punct_token : Punct → Scanner → Scanner
  punct_token p s = record s {
    inp = s.inp + p.extra;
    tokend = s.tokend + p.extra;
    tok = p.tok;
    insert_semi = p.semi;
  }

  unfoldable pub number_token : Scanner → Scanner
  number_token s = record (snumber b s) { insert_semi = true }

  unfoldable pub bad_char : ℕ → Scanner → Scanner
  bad_char c s = record (serr b (invalid_char c) (record s { tokend = s.tokstart; tok = t_none })) {
    insert_semi = false;
  }

  unfoldable pub name_token : Option Scanner → Step
  name_token none = stuck
  name_token (some s) = done (record s { insert_semi = ends_statement s.tok })

  unfoldable pub uni_token : Option Scanner → Step
  uni_token none = stuck
  uni_token (some s) = done (record s { insert_semi = true })

  -- A token is returned; otherwise `next` goes on.
  unfoldable pub on_stage : Stage → (Scanner → Option Scanner) → Option Scanner
  on_stage (token s) next = some s
  on_stage (go_on s) next = next s

  unfoldable pub on_step : Step → (Scanner → Option Scanner) → Option Scanner
  on_step (done s) next = some s
  on_step (again s) next = next s
  on_step stuck next = none

  module _ (utf8decode : List ℕ → Bool × ℕ) where
    -- The cases that are not punctuation.
    unfoldable pub text_token : ℕ → ℕ → Scanner → Step
    text_token fuel c s =
        if is_digit c
        then done (number_token s)
        else (if starts_name c
            then name_token (sname b utf8decode fuel s)
            else (if leb rune_self c
                then uni_token (snameuni b utf8decode fuel (record s { inp = s.inp - 1 }))
                else done (bad_char c s)))

    unfoldable pub punct_or_text : Option Punct → ℕ → ℕ → Scanner → Step
    punct_or_text (some p) fuel c s = done (punct_token p s)
    punct_or_text none fuel c s = text_token fuel c s

    -- The switch, at a byte `c` that take_char has passed.
    unfoldable pub switch_char : ℕ → ℕ → Scanner → Step
    switch_char fuel c s =
        if c == 47 && peek s.inp == 47
        then again (scomment b (consume_char s))
        else (if c == 47 && peek s.inp == 42
            then again (scomment_block b (consume_char s))
            else punct_or_text (punct c (peek s.inp) (peek (s.inp + 1))) fuel c s)

    unfoldable pub read_token : ℕ → Scanner → Step
    read_token fuel s = switch_char fuel (byte_at b s.inp) (take_char s)

    -- From the label `scan_again`.
    unfoldable pub scan_again : ℕ → Scanner → Option Scanner
    scan_again zero s = none
    scan_again (suc fuel) s =
        on_stage (before_token b s) (λ s'. on_step (read_token (suc fuel) s') (scan_again fuel))

    unfoldable pub scanner_next : ℕ → Scanner → Option Scanner
    scanner_next fuel s = scan_again fuel (record s { prevtokend = s.tokend })

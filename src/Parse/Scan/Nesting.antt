-- ===== src/Parse/Scan/Nesting.antt =====
-- scan.c: ScannerNext as a whole, against the stack of indentations.
use colang.Prelude.{ℕ, zero, suc, ◌-◌, ◌≤◌, ◌<◌, ◌⊎◌, Bool, Option, none, some, List, inl, inr}
use colang.Parse.Scan.{Source, Scanner, Stage, token, go_on, inend, before_token}
use colang.Parse.Scan.Next.{
  Step, done, again, stuck, read_token, scan_again, scanner_next, on_stage, on_step,
}
use colang.Parse.Scan.Layout.{Level, TokenLevel, StageLevel}
use colang.Parse.Scan.Braces.{before_token-StageLevel}
use colang.Parse.Scan.Progress.{Past}
use colang.Parse.Scan.Total.{scanner_next-Past}
use colang.Parse.Scan.Loops.{IsDecoder, OnScanner}
use colang.Parse.Scan.TokenText.{NestStep, NestStep-read_token}

module _ (b : Source) (k : ℕ) where
  module _ (utf8decode : List ℕ → Bool × ℕ) (d : IsDecoder utf8decode) where
    -- Either the blocks are as they were, or the token tells of the one that differs.
    abbrev pub NestedAt : Scanner → Type 0
    NestedAt t = Level k t ⊎ TokenLevel k t

    abbrev Nested : Option Scanner → Type 0
    Nested none = Unit
    Nested (some t) = NestedAt t

    found-Nested :
        (P : Scanner → Type 0) (o : Option Scanner)
        → OnScanner b P o
        → Nested o
        → OnScanner b NestedAt o
    found-Nested P none found h = found
    found-Nested P (some t) found h = h

    Nested-on_step :
        (step : Step) (next : Scanner → Option Scanner)
        → NestStep k step
        → ((s : Scanner) → Level k s → Nested (next s))
        → Nested (on_step b step next)
    unfolding on_step
    Nested-on_step (done s) next h g = inl (record { chain = h.0; count = h.1 })
    Nested-on_step (again s) next h g = g s (record { chain = h.0; count = h.1 })
    Nested-on_step stuck next h g = tt

    Nested-on_stage :
        (stage : Stage) (next : Scanner → Option Scanner)
        → StageLevel k stage
        → ((s : Scanner) → Level k s → Nested (next s))
        → Nested (on_stage b stage next)
    unfolding on_stage
    Nested-on_stage (token s) next h g = inr h
    Nested-on_stage (go_on s) next h g = g s h

    Nested-scan_again :
        (fuel : ℕ) (s : Scanner) → Level k s → Nested (scan_again b utf8decode fuel s)
    unfolding scan_again
    Nested-scan_again zero s h = tt
    Nested-scan_again (suc fuel) s h =
        Nested-on_stage (before_token b s)
          (λ s'. on_step b (read_token b utf8decode (suc fuel) s') (scan_again b utf8decode fuel))
          (before_token-StageLevel b k s h)
          (λ s' h'.
            Nested-on_step (read_token b utf8decode (suc fuel) s') (scan_again b utf8decode fuel)
              (NestStep-read_token b k utf8decode d (suc fuel) s' (h'.chain, h'.count))
              (λ s'' h''. Nested-scan_again fuel s'' h''))

    Nested-scanner_next :
        (fuel : ℕ) (s : Scanner) → Level k s → Nested (scanner_next b utf8decode fuel s)
    unfolding scanner_next
    Nested-scanner_next fuel s h =
        Nested-scan_again fuel (record s { prevtokend = s.tokend })
          (record { chain = h.chain; count = h.count })

    -- With a decoder that uses at least one byte and none past the end, from a state inside the
    -- source and with more fuel than bytes left, where the indentations on the stack grow from an
    -- outermost one of width 0 and `k` of them are blocks, ScannerNext returns a state in which
    -- they grow again; `k` of them are blocks, or, counting in the token, one more for a `{` and
    -- one fewer for a `}`.
    pub scanner_next-NestedAt :
        (fuel : ℕ) (s : Scanner)
        → 1 ≤ s.inp
        → s.inp ≤ inend b
        → inend b - s.inp < fuel
        → Level k s
        → OnScanner b NestedAt (scanner_next b utf8decode fuel s)
    scanner_next-NestedAt fuel s low high enough h =
        found-Nested (Past b s.inp) (scanner_next b utf8decode fuel s)
          (scanner_next-Past b utf8decode d fuel s low high enough) (Nested-scanner_next fuel s h)

-- ===== src/Parse/Scan/Total.antt =====
-- scan.c: ScannerNext returns.
use colang.Prelude.{ℕ, zero, suc, ◌+◌, ◌-◌, ◌≤◌, ◌<◌, Bool, Option, List, arith}
use colang.Parse.Scan.{Source, Scanner, Stage, token, go_on, inend, before_token}
use colang.Parse.Scan.Next.{
  Step, done, again, stuck, read_token, scan_again, scanner_next, on_stage, on_step,
}
use colang.Parse.Scan.Progress.{Past, StagePast, before_token-StagePast}
use colang.Parse.Scan.Loops.{IsDecoder, OnScanner, widen}
use colang.Parse.Scan.Switch.{StepPast, read_token-StepPast}

module _ (b : Source) (utf8decode : List ℕ → Bool × ℕ) (d : IsDecoder utf8decode) where
  on_step-Past :
      (lo : ℕ) (step : Step) (next : Scanner → Option Scanner)
      → StepPast b (lo + 1) step
      → ((s : Scanner) → Past b (lo + 1) s → OnScanner b (Past b lo) (next s))
      → OnScanner b (Past b lo) (on_step b step next)
  unfolding on_step
  on_step-Past lo (done s) next h k = (omega (arith, h.0), h.1)
  on_step-Past lo (again s) next h k = k s h
  on_step-Past lo stuck next h k = h

  on_stage-Past :
      (lo : ℕ) (stage : Stage) (next : Scanner → Option Scanner)
      → StagePast b lo stage
      → ((s : Scanner) → StagePast b lo (go_on s) → OnScanner b (Past b lo) (next s))
      → OnScanner b (Past b lo) (on_stage b stage next)
  unfolding on_stage
  on_stage-Past lo (token s) next h k = h
  on_stage-Past lo (go_on s) next h k = k s h

  scan_again-Past :
      (fuel : ℕ) (s : Scanner)
      → 1 ≤ s.inp
      → s.inp ≤ inend b
      → inend b - s.inp < fuel
      → OnScanner b (Past b s.inp) (scan_again b utf8decode fuel s)
  unfolding scan_again
  scan_again-Past zero s h le f = elim f [ ]
  scan_again-Past (suc fuel) s h le f =
      on_stage-Past s.inp (before_token b s)
        (λ s'. on_step b (read_token b utf8decode (suc fuel) s') (scan_again b utf8decode fuel))
        (before_token-StagePast b s h le)
        (λ s' p.
          widen b utf8decode d s.inp s'.inp
            (on_step b (read_token b utf8decode (suc fuel) s') (scan_again b utf8decode fuel)) p.0
            (on_step-Past s'.inp (read_token b utf8decode (suc fuel) s')
              (scan_again b utf8decode fuel)
              (read_token-StepPast b utf8decode d (suc fuel) s' (omega (arith, p.0)) p.1
                (omega (arith, p.0)))
              (λ s'' q.
                widen b utf8decode d s'.inp s''.inp (scan_again b utf8decode fuel s'')
                  (omega (arith, q.0))
                  (scan_again-Past fuel s'' (omega (arith, q.0)) q.1 (omega (arith, q.0, p.0))))))

  -- With a decoder that uses at least one byte and none past the end, from a state inside the
  -- source and with more fuel than bytes left, ScannerNext returns a state with a token, inside
  -- the source and at or past the place where it was.
  pub scanner_next-Past :
      (fuel : ℕ) (s : Scanner)
      → 1 ≤ s.inp
      → s.inp ≤ inend b
      → inend b - s.inp < fuel
      → OnScanner b (Past b s.inp) (scanner_next b utf8decode fuel s)
  unfolding scanner_next
  scanner_next-Past fuel s h le f = scan_again-Past fuel (record s { prevtokend = s.tokend }) h le f

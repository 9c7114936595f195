-- ===== src/Pos/Lines.antt =====
-- pos.c: computeLineOffsets and src_line_contents, the text of one line for a message. A source is
-- the list of its bytes.
use colang.Prelude.{
  ℕ, ◌+◌, ◌-◌, ◌||◌, Option, some, none, List, [], ◌∷◌, if◌then◌else◌, ◌==◌, ltb, get_or, length,
}

abbrev pub newline : ℕ
newline = 10

-- The loop of computeLineOffsets, on the bytes from index `i` on: the offsets that it adds. The
-- array that holds them grows as it fills, and leaves no trace here.
unfoldable pub offsets_from : List ℕ → ℕ → List ℕ
offsets_from [] i = []
offsets_from (c ∷ body) i =
    let rest = offsets_from body (i + 1) in if c == newline then (i + 1) ∷ rest else rest

unfoldable pub compute_line_offsets : List ℕ → List ℕ
compute_line_offsets body = 0 ∷ offsets_from body 0

-- The start and the length of a line, counted from 1; `none` where there is no such line.
unfoldable pub src_line_contents : List ℕ → ℕ → Option (ℕ × ℕ)
src_line_contents body line =
    let lineoffs = compute_line_offsets body in
    let nlines = length lineoffs in
    let start = get_or lineoffs (line - 1) 0 in
    if line == 0 || ltb nlines line
    then none
    else some (
      start,
      (if ltb line nlines then get_or lineoffs line 0 - 1 - start else length body - start),
    )

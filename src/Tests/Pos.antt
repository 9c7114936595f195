-- ===== src/Tests/Pos.antt =====
-- Source positions on small inputs.
use colang.Prelude.{ℕ, some, ◌+◌, ◌*◌, ◌^◌, ◌≡◌, refl, false, [], ◌∷◌, arith}
use colang.Util.Array.{Array}
use colang.Util.Array.Growth.{IsArray}
use colang.Pos.{pos_make, pos_origin, pos_line, pos_col, pos_width, pos_union}
use colang.Pos.Fields.{HasFields, pos_make-HasFields}
use colang.Pos.Adjust.{IsUnion, pos_union-IsUnion}
use colang.Pos.SourceMap.{posmap_origin, pos_source, IsOrigin, posmap_origin-IsOrigin}

-- Origin 1, line 2, columns 3 to 7, and columns 10 to 12 of that line.
abbrev first_pos : ℕ
first_pos = 2 ^ 44 + 2 * 2 ^ 24 + 3 * 2 ^ 12 + 4

abbrev second_pos : ℕ
second_pos = 2 ^ 44 + 2 * 2 ^ 24 + 10 * 2 ^ 12 + 2

pos_make-HasFields_example : HasFields (pos_make 1 2 5000 4) 1 2 4095 4
pos_make-HasFields_example = pos_make-HasFields 1 2 5000 4

pos_union-IsUnion_example : IsUnion first_pos second_pos (pos_union first_pos second_pos)
unfolding pos_origin pos_line pos_col pos_width
pos_union-IsUnion_example =
    pos_union-IsUnion first_pos second_pos (omega arith) (omega arith) refl refl (omega arith)
      (omega arith)

-- The sources 11 and 12 have the origins 1 and 2.
abbrev two_sources : Array
two_sources = record { v = 0 ∷ 11 ∷ 12 ∷ 0 ∷ []; cap = 4; len = 3; onstack = false }

two_sources-IsArray : IsArray two_sources
two_sources-IsArray = record { stored = refl; fits = omega arith }

posmap_origin-IsOrigin_example :
    (pm' : Array) × ((i : ℕ) × (posmap_origin two_sources 13 ≡ some (pm', i))
      × IsOrigin two_sources 13 pm' i
      × (posmap_origin pm' 13 ≡ some (pm', i))
      × ((p : ℕ) → pos_origin p ≡ i → pos_source pm' p ≡ 13))
posmap_origin-IsOrigin_example =
    posmap_origin-IsOrigin two_sources 13 two_sources-IsArray (omega arith)
      (λ e. absurd (ground arith))

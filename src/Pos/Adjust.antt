-- ===== src/Pos/Adjust.antt =====
-- Positions that are changed: one field set anew, the start moved, two of them joined.
use colang.Prelude.{
  ℕ, suc, ◌+◌, ◌-◌, ◌^◌, ◌≤◌, ◌<◌, min, max, ◌≡◌, sym, ◌⊎◌, true, arith, if◌then◌else◌, ◌==◌, ltb,
  Bool-cases, inl, inr,
}
use colang.Prelude.Int.{ℤ, pos, negsuc}
use colang.Pos.{
  pos_origin, pos_line, pos_col, pos_width, pos_with_origin, pos_with_line, pos_with_col,
  pos_with_width, pos_with_adjusted_start, pos_union, union_ordered,
}
use colang.Pos.Fields.{HasFields, pos_make_unchecked-HasFields}

-- The fields of any word fit their bits, the origin where the word has 64.
fields_fit :
    (p : ℕ)
    → p < 2 ^ 64
    → (pos_origin p < 2 ^ 20)
      × (pos_line p < 2 ^ 20)
      × (pos_col p < 2 ^ 12)
      × (pos_width p < 2 ^ 12)
unfolding pos_origin pos_line pos_col pos_width
fields_fit p h = (omega arith, omega arith, omega arith, omega arith)

-- On a 64-bit word each of the four setters changes its own field to the new value, clamped, and
-- no other field.
pub pos_with_fields :
    (p n : ℕ)
    → p < 2 ^ 64
    → HasFields (pos_with_origin p n) (min (2 ^ 20 - 1) n) (pos_line p) (pos_col p) (pos_width p)
      × HasFields (pos_with_line p n) (pos_origin p) (min (2 ^ 20 - 1) n) (pos_col p) (pos_width p)
      × HasFields (pos_with_col p n) (pos_origin p) (pos_line p) (min (2 ^ 12 - 1) n) (pos_width p)
      × HasFields (pos_with_width p n) (pos_origin p) (pos_line p) (pos_col p) (min (2 ^ 12 - 1) n)
unfolding pos_with_origin pos_with_line pos_with_col pos_with_width
pos_with_fields p n h =
    let (o, l, c, w) = fields_fit p h in
    (
      pos_make_unchecked-HasFields _ _ _ _ (omega arith) l c w,
      pos_make_unchecked-HasFields _ _ _ _ o (omega arith) c w,
      pos_make_unchecked-HasFields _ _ _ _ o l (omega arith) w,
      pos_make_unchecked-HasFields _ _ _ _ o l c (omega arith),
    )

-- How far the start moves to the right, and to the left.
abbrev moved_right : ℕ → ℤ → ℕ
moved_right p (pos d) = min d (pos_width p)
moved_right p (negsuc d) = 0

abbrev moved_left : ℕ → ℤ → ℕ
moved_left p (pos d) = 0
moved_left p (negsuc d) = min (suc d) (pos_col p)

-- On a 64-bit word, where the new column and the new width fit in 12 bits, pos_with_adjusted_start
-- moves the start, by the width to the right or by the column to the left at most, and keeps the
-- end of the span.
pub pos_with_adjusted_start-HasFields :
    (p : ℕ) (delta : ℤ)
    → p < 2 ^ 64
    → pos_col p + moved_right p delta < 2 ^ 12
    → pos_width p + moved_left p delta < 2 ^ 12
    → HasFields
        (pos_with_adjusted_start p delta)
        (pos_origin p)
        (pos_line p)
        (pos_col p + moved_right p delta - moved_left p delta)
        (pos_width p + moved_left p delta - moved_right p delta)
unfolding pos_with_adjusted_start
pos_with_adjusted_start-HasFields p (pos d) h hc hw =
    let (o, l, c, w) = fields_fit p h in
    let m = min d (pos_width p) in
    let ec : pos_col p + m - 0 ≡ pos_col p + m = omega arith in
    let ew : pos_width p + 0 - m ≡ pos_width p - m = omega arith in
    rw (ec, ew) (pos_make_unchecked-HasFields _ _ _ _ o l hc (omega arith))
pos_with_adjusted_start-HasFields p (negsuc d) h hc hw =
    let (o, l, c, w) = fields_fit p h in
    let m = min (suc d) (pos_col p) in
    let ec : pos_col p + 0 - m ≡ pos_col p - m = omega arith in
    let ew : pos_width p + m - 0 ≡ pos_width p + m = omega arith in
    rw (ec, ew) (pos_make_unchecked-HasFields _ _ _ _ o l (omega arith) hw)

-- The end of the columns that a position covers.
abbrev pub col_end : ℕ → ℕ
col_end p = pos_col p + pos_width p

-- What pos_union promises of its result `u`.
record Union (p q u : ℕ) : Type 0 where
  origin : pos_origin u ≡ pos_origin p
  line : pos_line u ≡ pos_line p
  starts : pos_col u ≡ min (pos_col p) (pos_col q)
  covers : max (col_end p) (col_end q) ≤ col_end u
  exact :
      (col_end p ≤ pos_col q) ⊎ (col_end q ≤ pos_col p) → col_end u ≡ max (col_end p) (col_end q)

union_ordered-Union :
    (a b : ℕ)
    → a < 2 ^ 64
    → b < 2 ^ 64
    → pos_col a ≤ pos_col b
    → pos_col a + pos_width a + pos_width b < 2 ^ 12
    → pos_col b + pos_width a + pos_width b < 2 ^ 12
    → Union a b (union_ordered a b)
unfolding union_ordered
union_ordered-Union a b ha hb le fit fit' =
    let (o, l, c, w) = fields_fit a ha in
    let aend = if ltb (col_end a) (pos_col b) then pos_col b else col_end a in
    let reach : aend ≡ max (col_end a) (pos_col b) = ground arith in
    let fields =
      pos_make_unchecked-HasFields (pos_origin a) (pos_line a) (pos_col a)
        (aend - pos_col a + pos_width b) o l c (omega (arith, reach)) in
    record {
      origin = fields.origin;
      line = fields.line;
      starts = omega (arith, fields.col);
      covers = omega (arith, reach, fields.col, fields.width);
      exact = λ apart. omega (arith, reach, fields.col, fields.width);
    }

swap_sum : {A B : Type 0} → A ⊎ B → B ⊎ A
swap_sum (inl a) = inr a
swap_sum (inr b) = inl b

Union-swap :
    (p q u : ℕ) → pos_origin p ≡ pos_origin q → pos_line p ≡ pos_line q → Union q p u → Union p q u
Union-swap p q u eo el h = record {
  origin = omega (arith, h.origin);
  line = omega (arith, h.line);
  starts = omega (arith, h.starts);
  covers = omega (arith, h.covers);
  exact = λ apart. omega (arith, h.exact (swap_sum apart));
}

-- On one line of one source, words are ordered as their columns are.
col_le :
    (p q : ℕ)
    → pos_origin p ≡ pos_origin q
    → pos_line p ≡ pos_line q
    → p ≤ q
    → pos_col p ≤ pos_col q
unfolding pos_origin pos_line pos_col
col_le p q eo el h = omega arith

pos_union-Union :
    (p q : ℕ)
    → p < 2 ^ 64
    → q < 2 ^ 64
    → pos_origin p ≡ pos_origin q
    → pos_line p ≡ pos_line q
    → pos_col p + pos_width p + pos_width q < 2 ^ 12
    → pos_col q + pos_width p + pos_width q < 2 ^ 12
    → Union p q (pos_union p q)
unfolding pos_union
pos_union-Union p q hp hq eo el fit fit' =
    let same : pos_line p == pos_line q ≡ true = ground arith in
    elim (Bool-cases (ltb q p)) [
      | inl swapped ↦
          rw (same, swapped)
            (Union-swap p q (union_ordered q p) eo el (
              union_ordered-Union q p hq hp (col_le q p (sym eo) (sym el) (ground arith))
                (omega arith) (omega arith)))
      | inr kept ↦
          rw (same, kept) (union_ordered-Union p q hp hq (col_le p q eo el (ground arith)) fit fit')
    ]

-- On the line and in the source of both, from the first column to the last at least.
pub record IsUnion (p q u : ℕ) : Type 0 where
  pub origin : pos_origin u ≡ pos_origin p
  pub line : pos_line u ≡ pos_line p
  pub starts : pos_col u ≡ min (pos_col p) (pos_col q)
  pub covers : max (col_end p) (col_end q) ≤ col_end u

-- For two 64-bit words with one origin and one line, where either column with both widths fits in
-- 12 bits, pos_union has that origin and line, starts at the smaller column, and reaches to the
-- end of each of the two at least.
pub pos_union-IsUnion :
    (p q : ℕ)
    → p < 2 ^ 64
    → q < 2 ^ 64
    → pos_origin p ≡ pos_origin q
    → pos_line p ≡ pos_line q
    → pos_col p + pos_width p + pos_width q < 2 ^ 12
    → pos_col q + pos_width p + pos_width q < 2 ^ 12
    → IsUnion p q (pos_union p q)
pos_union-IsUnion p q hp hq eo el fp fq =
    let u = pos_union-Union p q hp hq eo el fp fq in
    record { origin = u.origin; line = u.line; starts = u.starts; covers = u.covers }

-- For two 64-bit words with one origin and one line, where either column with both widths fits in
-- 12 bits and the two spans do not overlap, pos_union ends where the later span ends.
pub pos_union-exact :
    (p q : ℕ)
    → p < 2 ^ 64
    → q < 2 ^ 64
    → pos_origin p ≡ pos_origin q
    → pos_line p ≡ pos_line q
    → pos_col p + pos_width p + pos_width q < 2 ^ 12
    → pos_col q + pos_width p + pos_width q < 2 ^ 12
    → (col_end p ≤ pos_col q) ⊎ (col_end q ≤ pos_col p)
    → col_end (pos_union p q) ≡ max (col_end p) (col_end q)
pos_union-exact p q hp hq eo el fp fq apart = (pos_union-Union p q hp hq eo el fp fq).exact apart

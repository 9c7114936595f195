-- ===== src/Pos.antt =====
-- src/co/pos.h and src/co/pos.c: source positions packed into 64 bits.
-- `x >> k` is `x / 2 ^ k`, `x << k` is `x * 2 ^ k % 2 ^ 64`, and a mask of k ones is `% 2 ^ k`.
pub mod Fields
pub mod Adjust
pub mod SourceMap
pub mod Lines
use Prim.Native.Nat.{bit_or}
use colang.Prelude.{
  ℕ, zero, suc, ◌+◌, ◌-◌, ◌*◌, ◌/◌, ◌%◌, ◌^◌, min, Bool, true, false, not, ◌||◌, if◌then◌else◌,
  ◌==◌, ltb,
}
use colang.Prelude.Int.{ℤ, pos, negsuc}

-- 20 bits of origin, 20 of line, 12 of column, 12 of width.
abbrev pub origin_shift : ℕ
origin_shift = 44

abbrev pub line_shift : ℕ
line_shift = 24

abbrev pub col_shift : ℕ
col_shift = 12

abbrev pub origin_max : ℕ
origin_max = 2 ^ 20 - 1

abbrev pub line_max : ℕ
line_max = 2 ^ 20 - 1

abbrev pub col_max : ℕ
col_max = 2 ^ 12 - 1

abbrev pub width_max : ℕ
width_max = 2 ^ 12 - 1

abbrev pub no_pos : ℕ
no_pos = 0

-- A shift of a `u64` to the left.
abbrev pub shl : ℕ → ℕ → ℕ
shl x k = x * 2 ^ k % 2 ^ 64

unfoldable pub pos_make_unchecked : ℕ → ℕ → ℕ → ℕ → ℕ
pos_make_unchecked origin line col width =
    bit_or (bit_or (bit_or (shl origin origin_shift) (shl line line_shift)) (shl col col_shift))
      width

unfoldable pub pos_make : ℕ → ℕ → ℕ → ℕ → ℕ
pos_make origin line col width =
    pos_make_unchecked (min origin_max origin) (min line_max line) (min col_max col)
      (min width_max width)

unfoldable pub pos_origin : ℕ → ℕ
pos_origin p = p / 2 ^ origin_shift

unfoldable pub pos_line : ℕ → ℕ
pos_line p = p / 2 ^ line_shift % 2 ^ 20

unfoldable pub pos_col : ℕ → ℕ
pos_col p = p / 2 ^ col_shift % 2 ^ 12

unfoldable pub pos_width : ℕ → ℕ
pos_width p = p % 2 ^ 12

unfoldable pub pos_with_origin : ℕ → ℕ → ℕ
pos_with_origin p origin =
    pos_make_unchecked (min origin_max origin) (pos_line p) (pos_col p) (pos_width p)

unfoldable pub pos_with_line : ℕ → ℕ → ℕ
pos_with_line p line =
    pos_make_unchecked (pos_origin p) (min line_max line) (pos_col p) (pos_width p)

unfoldable pub pos_with_col : ℕ → ℕ → ℕ
pos_with_col p col = pos_make_unchecked (pos_origin p) (pos_line p) (min col_max col) (pos_width p)

unfoldable pub pos_with_width : ℕ → ℕ → ℕ
pos_with_width p width =
    pos_make_unchecked (pos_origin p) (pos_line p) (pos_col p) (min width_max width)

unfoldable pub pos_isbefore : ℕ → ℕ → Bool
pos_isbefore p q = ltb p q

unfoldable pub pos_isafter : ℕ → ℕ → Bool
pos_isafter p q = ltb q p

unfoldable pub pos_isknown : ℕ → Bool
pos_isknown p = not (pos_origin p == 0) || not (pos_line p == 0)

-- `deltacol` moves the start to the right by at most the width, or to the left by at most the
-- column; the width makes up for it.
unfoldable pub pos_with_adjusted_start : ℕ → ℤ → ℕ
pos_with_adjusted_start p (pos delta) =
    let d = min delta (pos_width p) in
    pos_make_unchecked (pos_origin p) (pos_line p) (pos_col p + d) (pos_width p - d)
pos_with_adjusted_start p (negsuc delta) =
    let d = min (suc delta) (pos_col p) in
    pos_make_unchecked (pos_origin p) (pos_line p) (pos_col p - d) (pos_width p + d)

-- pos_union past its swap, for `a` not after `b`.
unfoldable pub union_ordered : ℕ → ℕ → ℕ
union_ordered a b =
    let c = pos_col a in
    let aend = c + pos_width a in
    let bstart = pos_col b in
    let aend' = if ltb aend bstart then bstart else aend in
    pos_make_unchecked (pos_origin a) (pos_line a) c (aend' - c + pos_width b)

unfoldable pub pos_union : ℕ → ℕ → ℕ
pos_union a b =
    if pos_line a == pos_line b
    then (if ltb b a then union_ordered b a else union_ordered a b)
    else a

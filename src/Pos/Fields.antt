-- ===== src/Pos/Fields.antt =====
-- The fields of a packed position.
use Prim.Native.Nat.{bit_or}
use colang.Prelude.{ℕ, ◌+◌, ◌-◌, ◌*◌, ◌/◌, ◌%◌, ◌^◌, ◌<◌, min, ◌≡◌, refl, arith}
use colang.Prelude.BitOr.{or_disjoint}
use colang.Pos.{pos_make_unchecked, pos_make, pos_origin, pos_line, pos_col, pos_width, shl}

-- A sum of the next field and the ones above it.
join_fields : (k q r s : ℕ) → r < 2 ^ k → s ≡ q * 2 ^ k → bit_or s r ≡ s + r
join_fields k q r s h e = rw e (or_disjoint k q r h)

-- With its fields in range the packing is a sum.
pub pos_make_unchecked-sum :
    (o l c w : ℕ)
    → o < 2 ^ 20
    → l < 2 ^ 20
    → c < 2 ^ 12
    → w < 2 ^ 12
    → pos_make_unchecked o l c w ≡ o * 2 ^ 44 + l * 2 ^ 24 + c * 2 ^ 12 + w
unfolding pos_make_unchecked
pos_make_unchecked-sum o l c w ho hl hc hw =
    let eo : shl o 44 ≡ o * 2 ^ 44 = omega arith in
    let el : shl l 24 ≡ l * 2 ^ 24 = omega arith in
    let ec : shl c 12 ≡ c * 2 ^ 12 = omega arith in
    rw
      (
        eo,
        el,
        ec,
        join_fields 44 o (l * 2 ^ 24) (o * 2 ^ 44) (omega arith) refl,
        join_fields 24 (o * 2 ^ 20 + l) (c * 2 ^ 12) (o * 2 ^ 44 + l * 2 ^ 24) (omega arith)
            (omega arith),
        join_fields 12 (o * 2 ^ 32 + l * 2 ^ 12 + c) w (o * 2 ^ 44 + l * 2 ^ 24 + c * 2 ^ 12)
            (omega arith) (omega arith),
      )
      refl

-- The four fields of a packed position.
pub record HasFields (p o l c w : ℕ) : Type 0 where
  pub origin : pos_origin p ≡ o
  pub line : pos_line p ≡ l
  pub col : pos_col p ≡ c
  pub width : pos_width p ≡ w

pub pos_make_unchecked-HasFields :
    (o l c w : ℕ)
    → o < 2 ^ 20
    → l < 2 ^ 20
    → c < 2 ^ 12
    → w < 2 ^ 12
    → HasFields (pos_make_unchecked o l c w) o l c w
unfolding pos_origin pos_line pos_col pos_width
pos_make_unchecked-HasFields o l c w ho hl hc hw =
    let e = pos_make_unchecked-sum o l c w ho hl hc hw in
    record {
      origin = omega (arith, e);
      line = omega (arith, e);
      col = omega (arith, e);
      width = omega (arith, e);
    }

-- pos_make clamps each field to its bits, and the readers give the clamped fields back.
pub pos_make-HasFields :
    (o l c w : ℕ)
    → HasFields
        (pos_make o l c w)
        (min (2 ^ 20 - 1) o)
        (min (2 ^ 20 - 1) l)
        (min (2 ^ 12 - 1) c)
        (min (2 ^ 12 - 1) w)
unfolding pos_make
pos_make-HasFields o l c w =
    pos_make_unchecked-HasFields (min (2 ^ 20 - 1) o) (min (2 ^ 20 - 1) l) (min (2 ^ 12 - 1) c)
      (min (2 ^ 12 - 1) w) (omega arith) (omega arith) (omega arith) (omega arith)

-- Packing the fields of a 64-bit word with pos_make gives the word back.
pub pos_make-fields :
    (p : ℕ) → p < 2 ^ 64 → pos_make (pos_origin p) (pos_line p) (pos_col p) (pos_width p) ≡ p
unfolding pos_make pos_origin pos_line pos_col pos_width
pos_make-fields p h =
    let o = p / 2 ^ 44 in
    let l = p / 2 ^ 24 % 2 ^ 20 in
    let c = p / 2 ^ 12 % 2 ^ 12 in
    let w = p % 2 ^ 12 in
    let eo : min (2 ^ 20 - 1) o ≡ o = omega arith in
    let el : min (2 ^ 20 - 1) l ≡ l = omega arith in
    let ec : min (2 ^ 12 - 1) c ≡ c = omega arith in
    let ew : min (2 ^ 12 - 1) w ≡ w = omega arith in
    rw (eo, el, ec, ew)
      (omega (
        arith,
        pos_make_unchecked-sum o l c w (omega arith) (omega arith) (omega arith) (omega arith),
      ))

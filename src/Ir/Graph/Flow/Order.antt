-- ===== src/Ir/Graph/Flow/Order.antt =====
-- IRFunMoveBlockToEnd.
use colang.Prelude.{
  ℕ, zero, suc, ◌+◌, ◌-◌, ◌<◌, ◌≡◌, refl, ap, ◌∙◌, some, List, [], ◌∷◌, ◌++◌, arith, lt→ltb, ltb,
  get_or, set, length, take, drop, Bool-cases, inl, inr,
}
use colang.Ir.Graph.{Fun}
use colang.Ir.Graph.Flow.{shift_blocks, move_block_to_end}

-- With `x` for the entry at `i` and all after it moved up.
rotated : ℕ → List ℕ → ℕ → List ℕ
rotated zero [] x = []
rotated zero (y ∷ ys) x = ys ++ (x ∷ [])
rotated (suc i) [] x = []
rotated (suc i) (y ∷ ys) x = y ∷ rotated i ys x

rotated-append :
    (i : ℕ) (xs : List ℕ) (x : ℕ)
    → i < length xs
    → rotated i xs x ≡ take i xs ++ (drop (suc i) xs ++ (x ∷ []))
unfolding rotated
rotated-append zero [] x h = elim h [ ]
rotated-append zero (y ∷ ys) x h = refl
rotated-append (suc i) [] x h = elim h [ ]
rotated-append (suc i) (y ∷ ys) x h = ap (λ zs. y ∷ zs) (rotated-append i ys x (omega arith))

-- The loop below an entry that it has passed.
shift_blocks-cons :
    (left i : ℕ) (y : ℕ) (xs : List ℕ) (x : ℕ)
    → shift_blocks left (suc i) (y ∷ xs) x ≡ y ∷ shift_blocks left i xs x
unfolding shift_blocks
shift_blocks-cons zero i y xs x = refl
shift_blocks-cons (suc left) i y xs x =
    let next : suc i + 1 ≡ suc (i + 1) = omega arith in
    rw next (shift_blocks-cons left (i + 1) y (set xs i (get_or xs (i + 1) 0)) x)

shift_blocks-front :
    (left : ℕ) (y : ℕ) (ys : List ℕ) (x : ℕ)
    → left ≡ length ys
    → shift_blocks left 0 (y ∷ ys) x ≡ ys ++ (x ∷ [])
unfolding shift_blocks
shift_blocks-front zero y [] x h = refl
shift_blocks-front zero y (z ∷ zs) x h = absurd (omega arith)
shift_blocks-front (suc left) y [] x h = absurd (omega arith)
shift_blocks-front (suc left) y (z ∷ zs) x h =
    shift_blocks-cons left 0 z (z ∷ zs) x
    ∙ ap (λ us. z ∷ us) (shift_blocks-front left z zs x (omega arith))

shift_blocks-rotated :
    (left i : ℕ) (xs : List ℕ) (x : ℕ)
    → i + suc left ≡ length xs
    → shift_blocks left i xs x ≡ rotated i xs x
unfolding rotated
shift_blocks-rotated left zero [] x h = absurd (omega arith)
shift_blocks-rotated left zero (y ∷ ys) x h = shift_blocks-front left y ys x (omega arith)
shift_blocks-rotated left (suc i) [] x h = absurd (omega arith)
shift_blocks-rotated left (suc i) (y ∷ ys) x h =
    shift_blocks-cons left i y ys x
    ∙ ap (λ us. y ∷ us) (shift_blocks-rotated left i ys x (omega arith))

-- The last block, moved to the end.
rotated-last : (i : ℕ) (xs : List ℕ) → i + 1 ≡ length xs → rotated i xs (get_or xs i 0) ≡ xs
unfolding rotated
rotated-last zero [] h = refl
rotated-last zero (y ∷ []) h = refl
rotated-last zero (y ∷ z ∷ zs) h = absurd (omega arith)
rotated-last (suc i) [] h = refl
rotated-last (suc i) (y ∷ ys) h = ap (λ zs. y ∷ zs) (rotated-last i ys (omega arith))

-- IRFunMoveBlockToEnd, for an index inside the list, takes the block out of its place and puts it
-- at the end, and changes nothing else: its loop of single moves is that.
pub move_block_to_end_lem :
    (f : Fun) (index : ℕ)
    → index < length f.blocks
    → move_block_to_end f index
      ≡ some (record f {
        blocks =
            take index f.blocks ++ (drop (suc index) f.blocks ++ (get_or f.blocks index 0 ∷ []));
      })
unfolding move_block_to_end
move_block_to_end_lem f index h =
    let xs = f.blocks in
    let x = get_or f.blocks index 0 in
    rw (lt→ltb index (length f.blocks) h, ← rotated-append index f.blocks x h)
      (elim (Bool-cases (ltb (index + 1) (length f.blocks))) [
        | inl e ↦
            rw
              (e, shift_blocks-rotated (length f.blocks - 1 - index) index f.blocks x (omega arith))
        | inr e ↦ rw (e, rotated-last index f.blocks (ground arith))
      ])

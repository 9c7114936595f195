-- ===== src/Ir/Graph/Flow/Edges.antt =====
-- IRBlockAddEdgeTo: the successors of one block and the predecessors of the other tell the same
-- edges.
use colang.Prelude.{
  ℕ, ◌+◌, ◌<◌, ◌≡◌, refl, ap, sym, ◌∙◌, Bool, true, false, ◌&&◌, ◌||◌, Option, none, some, arith,
  if◌then◌else◌, ◌==◌, length, length-set, get_or-set, Bool-cases, Option-cases, inl, inr,
}
use colang.Ir.Graph.{Block, Fun, no_block, block_at, put_block}
use colang.Ir.Graph.Flow.{fill_slot, block_add_edge_to, block_add_succ, block_add_pred}

abbrev slot_count : ℕ → Option ℕ → ℕ
slot_count a none = 0
slot_count a (some x) = if x == a then 1 else 0

-- How many of the two places lead to a block.
abbrev pub edge_count : ℕ → Option ℕ × Option ℕ → ℕ
edge_count a (p, q) = slot_count a p + slot_count a q

abbrev pub IsLinked : Fun → Type 0
IsLinked f = (a b : ℕ) → edge_count b (block_at f a).succs ≡ edge_count a (block_at f b).preds

-- The edges are as they were, with one more from `b1` to `b2`.
abbrev pub HasEdgeMore : Fun → ℕ → ℕ → Fun → Type 0
HasEdgeMore f b1 b2 g =
    (a b : ℕ)
    → edge_count b (block_at g a).succs ≡ (
        if (b1 == a) && (b2 == b)
        then edge_count b (block_at f a).succs + 1
        else edge_count b (block_at f a).succs)

abbrev is_full : Option ℕ × Option ℕ → Bool
is_full (some p, some q) = true
is_full (some p, none) = false
is_full (none, q) = false

-- What the assertions exclude: a block that is sealed, or one with no place left.
abbrev pub HasNoPlace : Fun → ℕ → ℕ → Type 0
HasNoPlace f b1 b2 =
    ((block_at f b1).sealed
      || (block_at f b2).sealed
      || is_full (block_at f b1).succs
      || is_full (block_at f b2).preds)
    ≡ true

-- IRBlockAddEdgeTo fails an assertion, or adds the edge on both sides.
abbrev pub EdgeAdded : Fun → ℕ → ℕ → Option Fun → Type 0
EdgeAdded f b1 b2 none = HasNoPlace f b1 b2
EdgeAdded f b1 b2 (some g) = IsLinked g × HasEdgeMore f b1 b2 g

edge_count-fill_slot :
    (slots filled : Option ℕ × Option ℕ) (x a : ℕ)
    → fill_slot slots x ≡ some filled
    → edge_count a filled ≡ (if x == a then edge_count a slots + 1 else edge_count a slots)
edge_count-fill_slot (none, none) (p', q') x a e = ground arith
edge_count-fill_slot (none, some q) (p', q') x a e = ground arith
edge_count-fill_slot (some p, none) (p', q') x a e = ground arith
edge_count-fill_slot (some p, some q) filled x a e = absurd (cc)

is_full-fill_slot :
    (slots : Option ℕ × Option ℕ) (x : ℕ) → fill_slot slots x ≡ none → is_full slots ≡ true
is_full-fill_slot (some p, some q) x e = refl
is_full-fill_slot (some p, none) x e = absurd (cc)
is_full-fill_slot (none, q) x e = absurd (cc)

module _ (f : Fun) (b : ℕ) (x : Block) (h : b < length f.block_store) (a : ℕ) where
  succs-put_block :
      (block_at (put_block f b x) a).succs ≡ (if b == a then x.succs else (block_at f a).succs)
  succs-put_block = ground (arith, get_or-set f.block_store b a x no_block h)

  preds-put_block :
      (block_at (put_block f b x) a).preds ≡ (if b == a then x.preds else (block_at f a).preds)
  preds-put_block = ground (arith, get_or-set f.block_store b a x no_block h)

  sealed-put_block :
      (block_at (put_block f b x) a).sealed ≡ (if b == a then x.sealed else (block_at f a).sealed)
  sealed-put_block = ground (arith, get_or-set f.block_store b a x no_block h)

module _ (f : Fun) (b1 b2 : ℕ) (s : Option ℕ × Option ℕ) (h : b1 < length f.block_store)
    (k : b2 < length f.block_store) (fill_succ : fill_slot (block_at f b1).succs b2 ≡ some s) where
  middle : Fun
  middle = put_block f b1 (record (block_at f b1) { succs = s })

  sealed-middle : (block_at middle b2).sealed ≡ (block_at f b2).sealed
  unfolding middle
  sealed-middle = ground (arith, sealed-put_block f b1 (record (block_at f b1) { succs = s }) h b2)

  preds-middle : (block_at middle b2).preds ≡ (block_at f b2).preds
  unfolding middle
  preds-middle = ground (arith, preds-put_block f b1 (record (block_at f b1) { succs = s }) h b2)

  module _ (p : Option ℕ × Option ℕ)
      (fill_pred : fill_slot (block_at middle b2).preds b1 ≡ some p) where
    linked : Fun
    linked = put_block middle b2 (record (block_at middle b2) { preds = p })

    length-middle : length middle.block_store ≡ length f.block_store
    unfolding middle
    length-middle = length-set f.block_store b1 (record (block_at f b1) { succs = s })

    succs-linked :
        (a b : ℕ)
        → edge_count b (block_at linked a).succs ≡ (
            if (b1 == a) && (b2 == b)
            then edge_count b (block_at f a).succs + 1
            else edge_count b (block_at f a).succs)
    unfolding linked middle
    succs-linked a b = ground (
      arith,
      succs-put_block middle b2 (record (block_at middle b2) { preds = p }) (rw length-middle k) a,
      succs-put_block f b1 (record (block_at f b1) { succs = s }) h a,
      succs-put_block f b1 (record (block_at f b1) { succs = s }) h b2,
      edge_count-fill_slot (block_at f b1).succs s b2 b fill_succ,
    )

    preds-linked :
        (a b : ℕ)
        → edge_count a (block_at linked b).preds ≡ (
            if (b1 == a) && (b2 == b)
            then edge_count a (block_at f b).preds + 1
            else edge_count a (block_at f b).preds)
    unfolding linked middle
    preds-linked a b = ground (
      arith,
      preds-put_block middle b2 (record (block_at middle b2) { preds = p }) (rw length-middle k) b,
      preds-put_block f b1 (record (block_at f b1) { succs = s }) h b,
      preds-put_block f b1 (record (block_at f b1) { succs = s }) h b2,
      edge_count-fill_slot (block_at middle b2).preds p b1 a fill_pred,
    )

-- For two blocks of a function whose successors and predecessors tell the same edges,
-- IRBlockAddEdgeTo fails an assertion only where one of them is sealed or has no free place, and
-- otherwise gives a function whose successors and predecessors tell the same edges, with one edge
-- more, from the first block to the second.
pub block_add_edge_to-EdgeAdded :
    (f : Fun) (b1 b2 : ℕ)
    → b1 < length f.block_store
    → b2 < length f.block_store
    → IsLinked f
    → EdgeAdded f b1 b2 (block_add_edge_to f b1 b2)
unfolding block_add_edge_to block_add_succ block_add_pred middle linked
block_add_edge_to-EdgeAdded f b1 b2 h k l = elim (Bool-cases (block_at f b1).sealed) [
  | inl e ↦ rw e (ground arith)
  | inr e ↦ rw e (elim (Option-cases (fill_slot (block_at f b1).succs b2)) [
    | inl e' ↦
        rw (e', block_add_edge_to) (ground (arith, is_full-fill_slot (block_at f b1).succs b2 e'))
    | inr (s, e') ↦
        let m = middle f b1 b2 s h k e' in
        rw (e', block_add_edge_to)
          (elim (Bool-cases (block_at m b2).sealed) [
            | inl d ↦ rw d (ground (arith, sealed-middle f b1 b2 s h k e'))
            | inr d ↦ rw d (elim (Option-cases (fill_slot (block_at m b2).preds b1)) [
              | inl d' ↦
                  rw (d', block_add_pred)
                    (ground (
                      arith,
                      preds-middle f b1 b2 s h k e',
                      is_full-fill_slot (block_at m b2).preds b1 d',
                    ))
              | inr (p, d') ↦
                  rw (d', block_add_pred)
                    (
                      (λ a b.
                          succs-linked f b1 b2 s h k e' p d' a b
                          ∙ ap (λ n. if (b1 == a) && (b2 == b) then n + 1 else n) (l a b)
                          ∙ sym (preds-linked f b1 b2 s h k e' p d' a b)),
                      succs-linked f b1 b2 s h k e' p d',
                    )
            ])
          ])
  ])
]

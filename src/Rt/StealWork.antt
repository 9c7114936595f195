-- ===== src/Rt/StealWork.antt =====
-- src/rt/sched.c: s_stealwork, the search of a P for Ts in the rings of the other Ps. Timers are not
-- checked yet in the source, and the count of spinning Ms is left out.
pub mod Finds
pub mod Tries
use colang.Prelude.{
  ℕ, zero, suc, Bool, true, false, ◌||◌, Option, none, some, List, [], ◌∷◌, ◌==◌, get_or, set,
}
use colang.Rt.RunQueue.{RunQueue, p_runqsteal}
use colang.Rt.VarBitmap.{vbm_read}
use colang.Rt.RandomOrder.{RandomOrder, randord_start, positions}

abbrev pub no_ring : RunQueue
no_ring = record { runqhead = 0; runqtail = 0; runq = []; runnext = 0 }

-- `S.allp[i]`
abbrev pub ring_of : List RunQueue → ℕ → RunQueue
ring_of allp i = get_or allp i no_ring

module _ (idle : List ℕ) (self : ℕ) where
  -- One P is robbed; NULL is 0.
  unfoldable pub steal_one : Bool → List RunQueue → ℕ → Option (List RunQueue × ℕ)
  steal_one last allp v = elim (p_runqsteal (ring_of allp self) (ring_of allp v) last) [
    | none ↦ none
    | some (p, (p2, t)) ↦ some (set (set allp self p) v p2, t)
  ]

  abbrev pub or_go_on :
      Option (List RunQueue × ℕ)
      → (List RunQueue → Option (List RunQueue × ℕ))
      → Option (List RunQueue × ℕ)
  or_go_on none go = none
  or_go_on (some (allp, t)) go = elim (t == 0) [ true ↦ go allp | false ↦ some (allp, t) ]

  -- The inner loop, over the positions of the enumeration.
  unfoldable pub steal_pass : Bool → List ℕ → List RunQueue → Option (List RunQueue × ℕ)
  unfolding steal_one
  steal_pass last [] allp = some (allp, 0)
  steal_pass last (v ∷ ps) allp = elim (v == self || vbm_read idle v) [
    | true ↦ steal_pass last ps allp
    | false ↦ or_go_on (steal_one last allp v) (steal_pass last ps)
  ]

  abbrev is_last : List ℕ → Bool
  is_last [] = true
  is_last (seed ∷ seeds) = false

  -- The outer loop, with the number that m_fastrand gives in each try.
  unfoldable pub s_stealwork : RandomOrder → List ℕ → List RunQueue → Option (List RunQueue × ℕ)
  s_stealwork ord [] allp = some (allp, 0)
  s_stealwork ord (seed ∷ seeds) allp = elim (randord_start ord seed) [
    | none ↦ none
    | some e ↦ elim (positions (suc ord.count) e) [
      | none ↦ none
      | some ps ↦ or_go_on (steal_pass (is_last seeds) ps allp) (s_stealwork ord seeds)
    ]
  ]

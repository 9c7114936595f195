-- ===== src/Rt/StealWork/Tries.antt =====
-- Where some other P has work, s_stealwork finds some.
use colang.Prelude.{
  ℕ, suc, ◌%◌, ◌≤◌, ◌<◌, ◌^◌, ◌≡◌, ◌⊎◌, refl, sym, subst, false, ◌||◌, some, List, [], ◌∷◌, ◌++◌,
  arith, ◌==◌, Bool-cases, inl, inr, ==_iff,
}
use native.Mathlib.Nat.{mod-lt}
use colang.Rt.RunQueue.{RunQueue, queued}
use colang.Rt.VarBitmap.{vbm_read}
use colang.Rt.RandomOrder.{RandomOrder, RandomEnum, randord_reset, randord_start, positions}
use colang.Rt.RandomOrder.Visits.{steps_of, offset_of, started, randord_start-VisitsAll}
use colang.Rt.RandomOrder.Inside.{AllInside, positions-AllInside}
use colang.Rt.StealWork.{ring_of, steal_one, or_go_on, steal_pass, s_stealwork}
use colang.Rt.StealWork.Finds.{
  HasWork, FoundSome, found-FoundSome, steal_one-FoundSome, steal_one-empty, steal_pass-FoundSome,
}

-- One try with more to come.
stealwork-try :
    (idle : List ℕ) (self : ℕ) (ord : RandomOrder) (allp : List RunQueue) (seed next : ℕ)
    (seeds : List ℕ) (e : RandomEnum) (ps : List ℕ)
    → randord_start ord seed ≡ some e
    → positions (suc ord.count) e ≡ some ps
    → s_stealwork idle self ord (seed ∷ next ∷ seeds) allp
      ≡ or_go_on idle self
          (steal_pass idle self false ps allp)
          (s_stealwork idle self ord (next ∷ seeds))
unfolding s_stealwork
stealwork-try idle self ord allp seed next seeds e ps start all = rw (s_stealwork, start, all) refl

module _ (idle : List ℕ) (self n : ℕ) (allp : List RunQueue) (v : ℕ)
    (w : HasWork idle self n allp v) where
  -- A pass finds a T, or leaves the rings as they are.
  steal_pass-either :
      (ps : List ℕ)
      → AllInside n ps
      → FoundSome (steal_pass idle self false ps allp)
        ⊎ (steal_pass idle self false ps allp ≡ some (allp, 0))
  unfolding steal_pass
  steal_pass-either [] inside = inr refl
  steal_pass-either (x ∷ ps) inside =
      let rest = steal_pass-either ps (λ p c. inside p (ground (arith, c))) in
      elim (Bool-cases (x == self || vbm_read idle x)) [
        | inl skip ↦ rw (steal_pass, skip) rest
        | inr tried ↦ elim (Bool-cases (queued (ring_of allp x) == 0)) [
          | inr some_queued ↦ inl (
              rw (steal_pass, tried)
                (found-FoundSome idle self n allp (steal_one idle self false allp x)
                  (steal_pass idle self false ps)
                  (steal_one-FoundSome idle self n allp x w.rings w.searches w.empty
                    (inside x (ground arith)) (ground arith))))
          | inl none_queued ↦
              let none_left = (==_iff (queued (ring_of allp x)) 0).0 none_queued in
              rw (steal_pass, tried, steal_one-empty idle self n allp x none_left) rest
        ]
      ]

  module _ (ord : RandomOrder) (small : n ≤ 2 ^ 8) (words : ord.coprimes.elemsize ≡ 4) where
    some_p : 0 < n
    some_p = omega (arith, w.searches)

    -- A try that need not find anything.
    try-FoundSome :
        (seed next : ℕ) (seeds : List ℕ)
        → FoundSome (s_stealwork idle self (randord_reset ord n) (next ∷ seeds) allp)
        → FoundSome (s_stealwork idle self (randord_reset ord n) (seed ∷ next ∷ seeds) allp)
    unfolding randord_reset
    try-FoundSome seed next seeds later =
        let c = (steps_of ord n).ptr (offset_of ord n seed) in
        let (ps, all, inside) =
          positions-AllInside n c some_p small n 0 (seed % n) (suc n) (omega arith) (omega arith)
            (mod-lt seed some_p) in
        let go = s_stealwork idle self (randord_reset ord n) (next ∷ seeds) in
        let same =
          stealwork-try idle self (randord_reset ord n) allp seed next seeds _ ps
            (started ord n seed some_p small words) all in
        subst FoundSome (sym same) (elim (steal_pass-either ps inside) [
          | inl found ↦
              found-FoundSome idle self n allp (steal_pass idle self false ps allp) go found
          | inr nothing ↦ rw nothing later
        ])

    found_by :
        (seed next : ℕ) (seeds : List ℕ)
        → offset_of ord n seed < (steps_of ord n).len
        → FoundSome (s_stealwork idle self (randord_reset ord n) (seed ∷ next ∷ seeds) allp)
    unfolding randord_reset
    found_by seed next seeds written =
        let (e, (ps, start, all, size, once)) =
          randord_start-VisitsAll ord n seed some_p small words written in
        let seen = (once v).0 w.inside in
        subst FoundSome
          (sym (stealwork-try idle self (randord_reset ord n) allp seed next seeds e ps start all))
          (found-FoundSome idle self n allp (steal_pass idle self false ps allp)
            (s_stealwork idle self (randord_reset ord n) (next ∷ seeds))
            (steal_pass-FoundSome idle self n allp v ps w (λ p c. (once p).1 c)
              (omega (arith, seen))))

    found_after :
        (before : List ℕ) (seed next : ℕ) (seeds : List ℕ)
        → offset_of ord n seed < (steps_of ord n).len
        → FoundSome
            (s_stealwork idle self (randord_reset ord n) (before ++ (seed ∷ next ∷ seeds)) allp)
    found_after [] seed next seeds written = found_by seed next seeds written
    found_after (s ∷ []) seed next seeds written =
        try-FoundSome s seed (next ∷ seeds) (found_by seed next seeds written)
    found_after (s ∷ s' ∷ before) seed next seeds written =
        try-FoundSome s s' (before ++ (seed ∷ next ∷ seeds))
          (found_after (s' ∷ before) seed next seeds written)

-- For up to 256 Ps with rings in order and no NULL queued, where the P that searches has an empty
-- ring and some other P that is not marked idle has a T queued, s_stealwork returns a T, if in
-- some try but the last array_get reads one of the bytes that randord_reset wrote, for the random
-- number of that try; the other numbers are any.
pub s_stealwork-FoundSome :
    (idle : List ℕ) (self n : ℕ) (allp : List RunQueue) (v : ℕ) (ord : RandomOrder)
    (before : List ℕ) (seed next : ℕ) (seeds : List ℕ)
    → n ≤ 2 ^ 8
    → ord.coprimes.elemsize ≡ 4
    → offset_of ord n seed < (steps_of ord n).len
    → HasWork idle self n allp v
    → FoundSome (s_stealwork idle self (randord_reset ord n) (before ++ (seed ∷ next ∷ seeds)) allp)
s_stealwork-FoundSome idle self n allp v ord before seed next seeds small words written w =
    found_after idle self n allp v w ord small words before seed next seeds written

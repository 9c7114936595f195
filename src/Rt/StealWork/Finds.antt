-- ===== src/Rt/StealWork/Finds.antt =====
-- What one pass over the Ps finds.
use colang.Prelude.{
  ℕ, zero, suc, ◌-◌, ◌/◌, ◌<◌, ◌≡◌, ◌≢◌, refl, ap, sym, subst, ◌∙◌, true, false, ◌||◌, Option, none,
  some, List, [], ◌∷◌, arith, ◌==◌, set, count, count-append, Bool-cases, inl, inr, ==_iff,
}
use colang.Rt.RunQueue.{RunQueue, queued, p_runqgrab, take_stolen, p_runqsteal}
use colang.Rt.RunQueue.Ring.{IsRing, contents}
use colang.Rt.RunQueue.Steal.{p_runqsteal-IsStolen}
use colang.Rt.VarBitmap.{vbm_read}
use colang.Rt.StealWork.{ring_of, steal_one, or_go_on, steal_pass}

set-same : (xs : List RunQueue) (i : ℕ) → set xs i (ring_of xs i) ≡ xs
set-same [] i = refl
set-same (x ∷ xs) zero = refl
set-same (x ∷ xs) (suc i) = ap (λ ys. x ∷ ys) (set-same xs i)

-- From an empty ring nothing is taken, runnext aside.
steal-empty : (p p2 : RunQueue) → queued p2 ≡ 0 → p_runqsteal p p2 false ≡ some (p, (p2, 0))
unfolding p_runqsteal p_runqgrab take_stolen
steal-empty p p2 e =
    let nothing : (queued p2 - queued p2 / 2 == 0) ≡ true = ground (arith, e) in
    rw (p_runqsteal, p_runqgrab, nothing) refl

-- The rings are in order and hold no NULL.
abbrev pub AllRings : ℕ → List RunQueue → Type 0
AllRings n allp =
    (i : ℕ) → i < n → IsRing (ring_of allp i) × (count 0 (contents (ring_of allp i)) ≡ 0)

abbrev pub FoundSome : Option (List RunQueue × ℕ) → Type 0
FoundSome none = ⊥
FoundSome (some (allp, t)) = t ≢ 0

module _ (idle : List ℕ) (self n : ℕ) (allp : List RunQueue) where
  -- The P that searches has an empty ring; `v` is another that is not idle and has work.
  pub record HasWork (v : ℕ) : Type 0 where
    pub rings : AllRings n allp
    pub searches : self < n
    pub empty : queued (ring_of allp self) ≡ 0
    pub inside : v < n
    pub other : v ≢ self
    pub awake : vbm_read idle v ≡ false
    pub works : 0 < queued (ring_of allp v)

  abbrev Positions : List ℕ → Type 0
  Positions ps = (p : ℕ) → 0 < count p ps → p < n

  pub found-FoundSome :
      (o : Option (List RunQueue × ℕ)) (go : List RunQueue → Option (List RunQueue × ℕ))
      → FoundSome o
      → FoundSome (or_go_on idle self o go)
  found-FoundSome none go h = absurd h
  found-FoundSome (some (a, t)) go h =
      let nz : (t == 0) ≡ false = ground arith in
      subst
        (λ b.
          FoundSome
            (elim b as (λ x. Option (List RunQueue × ℕ)) [ true ↦ go a | false ↦ some (a, t) ]))
        (sym nz) h

  pub steal_one-FoundSome :
      (x : ℕ)
      → AllRings n allp
      → self < n
      → queued (ring_of allp self) ≡ 0
      → x < n
      → 0 < queued (ring_of allp x)
      → FoundSome (steal_one idle self false allp x)
  unfolding steal_one
  steal_one-FoundSome x rings searches empty lt some_queued =
      let p = rings self searches in
      let p2 = rings x lt in
      let (p', (p2', (t, e, stolen))) =
        p_runqsteal-IsStolen (ring_of allp self) (ring_of allp x) false p.0 p2.0 some_queued
          (omega (arith, empty, p2.0.room)) in
      rw (steal_one, e)
        (λ z. absurd (
          ground (
            arith,
            z,
            p2.1,
            ap (count 0) stolen.robbed,
            count-append 0 stolen.handed_over (t ∷ contents p2'),
          )))

  -- Nothing happens to the rings where one without work is asked.
  pub steal_one-empty :
      (x : ℕ) → queued (ring_of allp x) ≡ 0 → steal_one idle self false allp x ≡ some (allp, 0)
  unfolding steal_one
  steal_one-empty x e =
      let same : set (set allp self (ring_of allp self)) x (ring_of allp x) ≡ allp =
        ap (λ xs. set xs x (ring_of allp x)) (set-same allp self) ∙ set-same allp x in
      rw (steal_one, steal-empty (ring_of allp self) (ring_of allp x) e)
        (ap (λ xs. some (xs, 0)) same)

  -- A P that is passed over is not the one with work.
  passed-over : (v x : ℕ) → HasWork v → (x == self || vbm_read idle x) ≡ true → (x == v) ≡ false
  passed-over v x w skip = elim (Bool-cases (x == v)) [
    | inr d ↦ d
    | inl same ↦
        let here : (v == self || vbm_read idle v) ≡ true =
          subst (λ y. (y == self || vbm_read idle y) ≡ true) ((==_iff x v).0 same) skip in
        let other = w.other in absurd (ground (arith, here, other, w.awake))
  ]

  with_work : (v x : ℕ) → HasWork v → queued (ring_of allp x) ≡ 0 → (x == v) ≡ false
  with_work v x w e = elim (Bool-cases (x == v)) [
    | inr d ↦ d
    | inl same ↦
        let here = ap (λ y. queued (ring_of allp y)) ((==_iff x v).0 same) in
        absurd (omega (arith, here, e, w.works))
  ]

  pub steal_pass-FoundSome :
      (v : ℕ) (ps : List ℕ)
      → HasWork v
      → ((p : ℕ) → 0 < count p ps → p < n)
      → 0 < count v ps
      → FoundSome (steal_pass idle self false ps allp)
  unfolding steal_pass
  steal_pass-FoundSome v [] w inside h = absurd (omega (arith, h))
  steal_pass-FoundSome v (x ∷ ps) w inside h =
      let later : (x == v) ≡ false → 0 < count v ps = λ d. ground (arith, h) in
      let rest = λ (d : (x == v) ≡ false).
        steal_pass-FoundSome v ps w (λ p c. inside p (ground (arith, c))) (later d) in
      elim (Bool-cases (x == self || vbm_read idle x)) [
        | inl skip ↦ rw (steal_pass, skip) (rest (passed-over v x w skip))
        | inr tried ↦ elim (Bool-cases (queued (ring_of allp x) == 0)) [
          | inr some_queued ↦
              rw (steal_pass, tried)
                (found-FoundSome (steal_one idle self false allp x) (steal_pass idle self false ps)
                  (steal_one-FoundSome x w.rings w.searches w.empty (inside x (ground arith))
                    (ground arith)))
          | inl none_queued ↦
              let none_left = (==_iff (queued (ring_of allp x)) 0).0 none_queued in
              rw (steal_pass, tried, steal_one-empty x none_left) (rest (with_work v x w none_left))
        ]
      ]

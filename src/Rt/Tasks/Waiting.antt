-- ===== src/Rt/Tasks/Waiting.antt =====
-- What waits in the queue of a P, runnext before the ring.
use colang.Prelude.{
  ℕ, ◌+◌, ◌<◌, ◌≡◌, ◌≢◌, refl, ap, ◌∙◌, Bool, true, false, Option, none, some, List, [], ◌∷◌, ◌++◌,
  arith, if◌then◌else◌, ◌==◌, ==_iff, ltb, ltb→lt, count, count-append, Bool-cases, inl, inr,
}
use colang.Rt.RunQueue.{RunQueue, p_runqsize, queued, put_tail, p_runqput, p_runqget}
use colang.Rt.RunQueue.Ring.{IsRing, contents, IsFront, p_runqput-contents, p_runqget-IsFront}

abbrev pub waiting : RunQueue → List ℕ
waiting q = if q.runnext == 0 then contents q else q.runnext ∷ contents q

put_tail-runnext : (q r : RunQueue) (t : ℕ) → put_tail q t ≡ some r → r.runnext ≡ q.runnext
unfolding put_tail
put_tail-runnext q r t e = ground arith

-- With room in the ring, a T that is put behind waits behind.
pub put_back-waiting :
    (q : RunQueue) (t : ℕ)
    → IsRing q
    → queued q < p_runqsize
    → (r : RunQueue) × (p_runqput q t false ≡ some r)
      × (waiting r ≡ waiting q ++ (t ∷ []))
      × IsRing r
unfolding p_runqput
put_back-waiting q t h room =
    let (r, e, c, ring) = p_runqput-contents q t h room in
    (r, e, rw (put_tail-runnext q r t e, c) (back_of (q.runnext == 0)), ring)
  where
    back_of :
        (b : Bool)
        → (if b then contents q ++ (t ∷ []) else q.runnext ∷ (contents q ++ (t ∷ [])))
          ≡ (if b then contents q else q.runnext ∷ contents q) ++ (t ∷ [])
    back_of true = refl
    back_of false = refl

p_runqget-runnext : (q : RunQueue) → (p_runqget q).0.runnext ≡ 0
unfolding p_runqget
p_runqget-runnext q = ground arith

-- The T that p_runqget gives is the first that waits.
pub p_runqget-waiting :
    (q : RunQueue)
    → IsRing q
    → IsFront (waiting q) (p_runqget q).1.0 (waiting (p_runqget q).0) × IsRing (p_runqget q).0
p_runqget-waiting q h = elim (Bool-cases (q.runnext == 0)) [
  | inl e ↦ rw (e, p_runqget-runnext q) (p_runqget-IsFront q h ((==_iff q.runnext 0).0 e))
  | inr e ↦
      unfold p_runqget in
      rw e (
        (refl, refl),
        record {
          head_fits = h.head_fits;
          tail_fits = h.tail_fits;
          room = h.room;
          places = h.places;
        },
      )
]

-- However it is put, a T that is put waits once more, or the put does not return.
abbrev pub Put : RunQueue → ℕ → Option RunQueue → Type 0
Put q t none = Unit
Put q t (some r) =
    IsRing r × ((a : ℕ) → count a (waiting r) ≡ count a (waiting q) + count a (t ∷ []))

Put-back-Put : (q : RunQueue) (t : ℕ) → IsRing q → Put q t (p_runqput q t false)
Put-back-Put q t h = elim (Bool-cases (ltb (queued q) p_runqsize)) [
  | inl e ↦
      let (r, f, w, ring) = put_back-waiting q t h (ltb→lt (queued q) p_runqsize e) in
      rw f (ring, λ a. ap (count a) w ∙ count-append a (waiting q) (t ∷ []))
  | inr e ↦ unfold p_runqput put_tail in rw e tt
]

-- The T that was in runnext is kicked out to the ring.
kicked :
    (q : RunQueue) (t : ℕ) (o : Option RunQueue)
    → (t == 0) ≡ false
    → (q.runnext == 0) ≡ false
    → Put (record q { runnext = t }) q.runnext o
    → Put q t o
kicked q t none nz full h = tt
kicked q t (some r) nz full h = (h.0, λ a. ground (arith, h.1 a))

with_next-IsRing : (q : RunQueue) (t : ℕ) → IsRing q → IsRing (record q { runnext = t })
with_next-IsRing q t h = record {
  head_fits = h.head_fits;
  tail_fits = h.tail_fits;
  room = h.room;
  places = h.places;
}

pub p_runqput-Put :
    (q : RunQueue) (t : ℕ) (next : Bool) → t ≢ 0 → IsRing q → Put q t (p_runqput q t next)
p_runqput-Put q t false ne h = Put-back-Put q t h
p_runqput-Put q t true ne h =
    let nz : (t == 0) ≡ false = ground arith in
    elim (Bool-cases (q.runnext == 0)) [
      | inl e ↦ unfold p_runqput in rw e (with_next-IsRing q t h, λ a. rw (nz, e) (ground arith))
      | inr e ↦
          let old =
            kicked q t (p_runqput (record q { runnext = t }) q.runnext false) nz e
              (Put-back-Put (record q { runnext = t }) q.runnext (with_next-IsRing q t h)) in
          unfold p_runqput in rw e old
    ]

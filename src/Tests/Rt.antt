-- ===== src/Tests/Rt.antt =====
-- The run queues on small inputs.
use colang.Prelude.{
  ℕ, zero, suc, ◌-◌, ◌^◌, ◌<◌, ◌≡◌, refl, true, false, some, List, [], ◌∷◌, ◌++◌, arith, replicate,
  length, length-replicate, count,
}
use colang.Rt.RunQueue.{RunQueue, p_runqput, p_runqget, p_runqsteal}
use colang.Rt.RunQueue.Ring.{IsRing, contents, IsFront, p_runqput-contents, p_runqget-IsFront}
use colang.Rt.RunQueue.Steal.{IsStolen, p_runqsteal-IsStolen}
use colang.Rt.RandomOrder.{
  RandomOrder, RandomEnum, gcd, array_append, array_reserve, array_grow, coprimes_up_to,
  randord_reset, randord_start, positions,
}
use colang.Rt.RandomOrder.Visits.{randord_start-VisitsAll, randord_start-unwritten}
use colang.Ir.Bits.{test_bit}
use colang.Rt.VarBitmap.{vbm_read}
use colang.Rt.StealWork.{s_stealwork}
use colang.Rt.StealWork.Finds.{AllRings, HasWork, FoundSome}
use colang.Rt.StealWork.Tries.{s_stealwork-FoundSome}
use colang.Rt.GlobalQueue.{Sched, s_runqget, batch_size}
use colang.Rt.GlobalQueue.Batch.{IsTaken, s_runqget-IsTaken}

-- Two Ts, with the tail counter past its wrap-around.
abbrev small_ring : RunQueue
small_ring = record {
  runqhead = 2 ^ 32 - 1;
  runqtail = 1;
  runq = 12 ∷ replicate 254 0 ++ (11 ∷ []);
  runnext = 0;
}

small_ring-IsRing : IsRing small_ring
small_ring-IsRing = record {
  head_fits = omega arith;
  tail_fits = omega arith;
  room = omega arith;
  places = refl;
}

p_runqput-contents_example :
    (r : RunQueue) × (p_runqput small_ring 13 false ≡ some r)
    × (contents r ≡ 11 ∷ 12 ∷ 13 ∷ [])
    × IsRing r
p_runqput-contents_example = p_runqput-contents small_ring 13 small_ring-IsRing (omega arith)

p_runqget-IsFront_example :
    IsFront (11 ∷ 12 ∷ []) (p_runqget small_ring).1.0 (contents (p_runqget small_ring).0)
    × IsRing (p_runqget small_ring).0
p_runqget-IsFront_example = p_runqget-IsFront small_ring small_ring-IsRing refl

abbrev small_sched : Sched
small_sched = record { runq = 21 ∷ 22 ∷ 23 ∷ []; runqsize = 3; maxprocs = 2 }

s_runqget-IsTaken_example :
    (r : RunQueue) × ((s' : Sched) × ((s_runqget small_ring small_sched 0 ≡ some (r, (s', 21)))
        × IsTaken small_ring (22 ∷ 23 ∷ []) 2 r s'))
unfolding batch_size
s_runqget-IsTaken_example =
    s_runqget-IsTaken small_ring small_sched 0 21 (22 ∷ 23 ∷ []) small_ring-IsRing refl refl
      (omega arith) (omega arith)

abbrev empty_ring : RunQueue
empty_ring = record { runqhead = 7; runqtail = 7; runq = replicate 256 0; runnext = 0 }

empty_ring-IsRing : IsRing empty_ring
empty_ring-IsRing = record {
  head_fits = omega arith;
  tail_fits = omega arith;
  room = omega arith;
  places = length-replicate {A = ℕ} 256 0;
}

p_runqsteal-IsStolen_example :
    (p : RunQueue) × ((p2 : RunQueue) × ((t : ℕ) × (p_runqsteal empty_ring small_ring true
          ≡ some (p, (p2, t)))
        × IsStolen empty_ring small_ring p p2 t))
p_runqsteal-IsStolen_example =
    p_runqsteal-IsStolen empty_ring small_ring true empty_ring-IsRing small_ring-IsRing
      (omega arith) (omega arith)

-- An array whose memory holds only the byte 6.
abbrev fresh_order : RandomOrder
fresh_order = record {
  count = 0;
  coprimes = record { ptr = λ i. 6; cap = 0; len = 0; elemsize = 4 };
}

-- The steps for 7 are 1 to 6, and the second is read at the offset 4, where the fifth is.
randord_start-VisitsAll_example :
    (e : RandomEnum) × ((ps : List ℕ) × (randord_start (randord_reset fresh_order 7) 1 ≡ some e)
      × (positions 8 e ≡ some ps)
      × (length ps ≡ 7)
      × ((p : ℕ) → (p < 7 → count p ps ≡ 1) × (0 < count p ps → p < 7)))
unfolding randord_reset coprimes_up_to gcd array_append array_reserve array_grow
randord_start-VisitsAll_example =
    randord_start-VisitsAll fresh_order 7 1 (omega arith) (omega arith) refl (omega arith)

-- The steps for 6 are 1 and 5, and the second is read past them: 6 Ps with the step 6.
randord_start-unwritten_example :
    randord_start (randord_reset fresh_order 6) 1
    ≡ some (record { i = 0; count = 6; pos = 1; inc = 6 })
unfolding randord_reset coprimes_up_to gcd array_append array_reserve array_grow
randord_start-unwritten_example =
    randord_start-unwritten fresh_order 6 1 (omega arith) (omega arith) refl (omega arith)

-- Three Ps: the second step is read past the two that there are, the first is not.
abbrev three_rings : List RunQueue
three_rings = empty_ring ∷ empty_ring ∷ small_ring ∷ []

three_rings-AllRings : AllRings 3 three_rings
three_rings-AllRings zero h = (empty_ring-IsRing, refl)
three_rings-AllRings (suc zero) h = (empty_ring-IsRing, refl)
three_rings-AllRings (suc (suc zero)) h = (small_ring-IsRing, refl)
three_rings-AllRings (suc (suc (suc n))) h = absurd (omega (arith, h))

three_rings-HasWork : HasWork (0 ∷ []) 0 3 three_rings 2
unfolding vbm_read test_bit
three_rings-HasWork = record {
  rings = three_rings-AllRings;
  searches = omega arith;
  empty = refl;
  inside = omega arith;
  other = λ e. absurd (ground arith);
  awake = refl;
  works = omega arith;
}

s_stealwork-FoundSome_example :
    FoundSome
      (s_stealwork (0 ∷ []) 0 (randord_reset fresh_order 3) (3 ∷ 8 ∷ 1 ∷ 6 ∷ []) three_rings)
unfolding randord_reset coprimes_up_to gcd array_append array_reserve array_grow
s_stealwork-FoundSome_example =
    s_stealwork-FoundSome (0 ∷ []) 0 3 three_rings 2 fresh_order (3 ∷ []) 8 1 (6 ∷ []) (omega arith)
      refl (omega arith) three_rings-HasWork

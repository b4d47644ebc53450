-- ===== src/Stress/Fair.antt =====
-- The end of the stress test.
use os_dns_resolver.Base.{
  ℕ, zero, suc, ◌+◌, ◌*◌, ◌≡◌, ◌<◌, inl, inr, refl, ap, List, Bool, true, false, length, length-set,
  length-replicate, All, Option, some, none, arith, get_elem?, Bool-cases,
}
use os_dns_resolver.Stress.{
  Producer, Consumer, con_get, Main, State, Choice, main_runs, producer_runs, consumer_runs,
  producer_step, consumer_step, main_step, has_exited, run_producer, run_consumer, choose, step,
  start, producers_from,
}
use os_dns_resolver.Stress.Account.{IsSound}
use os_dns_resolver.Stress.Account.Steps.{step-IsSound}
use os_dns_resolver.Stress.Account.Start.{start-IsSound}
use os_dns_resolver.Stress.Work.{work, step-work, producer_step-work, consumer_step-work}
use os_dns_resolver.Stress.Ends.{IsFullRound, rest-has_exited}
use os_dns_resolver.Schedules.{run, joined, IsIdleRound, idle_step, rounds_done}

-- The process keeps its threads.
record IsStaffed (n m : ℕ) (s : State) : Type 0 where
  producers : length s.producers ≡ n
  consumers : length s.consumers ≡ m

module _ (cap items n m : ℕ) (s : State) (h : IsStaffed n m s) where
  run_producer-IsStaffed :
      (i : ℕ) (ok : Bool) (o : Option Producer)
      → has_exited s.main ≡ false
      → IsStaffed n m (run_producer cap i ok s o)
  run_producer-IsStaffed i ok none runs = h
  run_producer-IsStaffed i ok (some p) runs =
      let (ps, cs, moved) = producer_step-work cap ok p s runs in
      ground (arith, h, ps, cs, length-set s.producers i (producer_step cap ok p s).0)

  run_consumer-IsStaffed : (i : ℕ) (o : Option Consumer) → IsStaffed n m (run_consumer items i s o)
  run_consumer-IsStaffed i none = h
  run_consumer-IsStaffed i (some c) =
      let (ps, cs, moved) = consumer_step-work items c s in
      ground (arith, h, ps, cs, length-set s.consumers i (consumer_step items c s).0)

  main_step-IsStaffed : (x : Main) → IsStaffed n m (main_step x s)
  unfolding main_step
  main_step-IsStaffed Main.main_drain = ground (arith, h)
  main_step-IsStaffed x = ground (arith, h)

  choose-IsStaffed : (c : Choice) → has_exited s.main ≡ false → IsStaffed n m (choose cap items s c)
  choose-IsStaffed main_runs runs = main_step-IsStaffed s.main
  choose-IsStaffed (producer_runs i ok) runs =
      run_producer-IsStaffed i ok (get_elem? s.producers i) runs
  choose-IsStaffed (consumer_runs i) runs = run_consumer-IsStaffed i (get_elem? s.consumers i)

  step-IsStaffed : (c : Choice) → IsStaffed n m (step cap items s c)
  unfolding step
  step-IsStaffed c = elim (Bool-cases (has_exited s.main)) [
    | inl exited ↦ rw exited h
    | inr runs ↦ rw runs (choose-IsStaffed c runs)
  ]

length-producers_from : (items id k : ℕ) → length (producers_from items id k) ≡ k
length-producers_from items id zero = refl
length-producers_from items id (suc k) = ap suc (length-producers_from items (id + 1) k)

start-IsStaffed : (n m items : ℕ) → IsStaffed n m (start n m items)
unfolding start
start-IsStaffed n m items = record {
  producers = length-producers_from items 0 n;
  consumers = length-replicate m con_get;
}

step-exited :
    (cap items : ℕ) (s : State) (c : Choice)
    → has_exited s.main ≡ true
    → has_exited (step cap items s c).main ≡ true
unfolding step
step-exited cap items s c e = rw e e

-- The stress test ends in every fair schedule: with at least one consumer and room for one item, main
-- has returned, or the process has exited because a malloc failed, after more rounds than the start
-- has work, whatever the order of the threads in a round and whichever further turns a round has.
pub stress_ends :
    (cap num_producers num_consumers items : ℕ) (rounds : List (List Choice))
    → 0 < cap
    → 0 < num_consumers
    → All (IsFullRound num_producers num_consumers) rounds
    → work (start num_producers num_consumers items) < length rounds
    → has_exited
        (run
          (step cap (num_producers * items))
          (start num_producers num_consumers items)
          (joined rounds)).main
      ≡ true
stress_ends cap n m items rounds some_room some_consumer full enough =
    rounds_done (step cap (n * items)) (λ s. IsSound (n * items) s × IsStaffed n m s)
      (λ s c (v, h). (step-IsSound cap (n * items) s c v, step-IsStaffed cap (n * items) n m s h c))
      work (λ s c g. step-work cap (n * items) s c) (IsFullRound n m)
      (λ s. has_exited s.main ≡ true) (step-exited cap (n * items))
      (λ s cs (v, h) round idle. exits s cs v h round idle) (start n m items) rounds
      (start-IsSound n m items, start-IsStaffed n m items) full enough
  where
    exits :
        (s : State) (cs : List Choice)
        → IsSound (n * items) s
        → IsStaffed n m s
        → IsFullRound n m cs
        → IsIdleRound (step cap (n * items)) s cs
        → has_exited s.main ≡ true
    exits s cs v h round idle = elim (Bool-cases (has_exited s.main)) [
      | inl exited ↦ exited
      | inr runs ↦
          rest-has_exited cap (n * items) s runs n m some_room some_consumer h.producers h.consumers
            v
            (λ i lt.
              idle_step (step cap (n * items)) s cs (producer_runs i true) idle
                (round.producers i lt))
            (λ i lt.
              idle_step (step cap (n * items)) s cs (consumer_runs i) idle (round.consumers i lt))
            (idle_step (step cap (n * items)) s cs main_runs idle round.main)
    ]

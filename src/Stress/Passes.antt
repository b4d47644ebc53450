-- ===== src/Stress/Passes.antt =====
-- The verdict of the stress test.
use os_dns_resolver.Base.{
  ℕ, suc, ◌≡◌, ◌<◌, ◌≤◌, refl, List, [], ◌∷◌, Bool, true, false, ◌&&◌, length, get_or, total, All,
  arith, ◌≢◌, Option, get_elem?, Bool-cases, ◌*◌, some, inl, sym, inr, ◌∙◌, none,
}
use os_dns_resolver.Fifo.{Fifo}
use os_dns_resolver.Stress.{
  Producer, Consumer, main_exit, State, Choice, producer_runs, producer_step, verify, Main,
  main_verify, choose, has_exited, step, start, main_step, run_producer, run_consumer, main_runs,
  consumer_runs,
}
use os_dns_resolver.Stress.Account.{
  producer_covers, consumer_covers, left, uncounted, consumer_counts, is_producing, is_consuming,
  IsSound,
}
use os_dns_resolver.Stress.Account.Effects.{consumer_step-IsConEffect}
use os_dns_resolver.Stress.Account.Steps.{step-IsSound}
use os_dns_resolver.Schedules.{run, run_rule}
use os_dns_resolver.Stress.Account.Start.{start-IsSound}
use os_dns_resolver.Fifo

-- A producer that has ended covers nothing, and so does a consumer.
producers_none :
    (j : ℕ) (ps : List Producer)
    → total is_producing ps ≡ 0
    → (total (producer_covers j) ps ≡ 0) × (total left ps ≡ 0) × (total uncounted ps ≡ 0)
producers_none j [] h = omega arith
producers_none j (p ∷ ps) h = ground (arith, producers_none j ps)

consumers_none :
    (j : ℕ) (cs : List Consumer)
    → total is_consuming cs ≡ 0
    → (total (consumer_covers j) cs ≡ 0) × (total consumer_counts cs ≡ 0)
consumers_none j [] h = omega arith
consumers_none j (c ∷ cs) h = ground (arith, consumers_none j cs)

abbrev pub IsMarked : List ℕ → Type 0
IsMarked = All (λ x. x ≡ 1)

All-IsMarked :
    (xs : List ℕ)
    → All (λ x. x ≤ 1) xs
    → ((j : ℕ) → j < length xs → 1 ≤ get_or xs j 0)
    → IsMarked xs
All-IsMarked [] b h = _
All-IsMarked (x ∷ xs) b h = (
  omega (arith, b.0, h 0 (omega arith)),
  All-IsMarked xs b.1 (λ j lt. h (suc j) (omega (arith, lt))),
)

verify-marked : (xs : List ℕ) → IsMarked xs → verify xs 0 ≡ 0
unfolding verify
verify-marked [] h = refl
verify-marked (x ∷ xs) h = ground (arith, h.0, verify-marked xs h.1)

-- Where the producers and the consumers have ended and the queue is empty, every number is marked,
-- and every item counted.
IsMarked-at_end :
    (items : ℕ) (s : State)
    → IsSound items s
    → s.queue.items ≡ []
    → total is_producing s.producers ≡ 0
    → total is_consuming s.consumers ≡ 0
    → IsMarked s.consumed_items × (s.items_produced ≡ items) × (s.items_consumed ≡ items)
IsMarked-at_end items s v empty p c = (
  All-IsMarked s.consumed_items v.bits (λ j lt. ground (
    arith,
    empty,
    v.covered j (omega (arith, lt, v.size)),
    producers_none j s.producers p,
    consumers_none j s.consumers c,
  )),
  omega (arith, v.produced, producers_none 0 s.producers p),
  ground (
    arith,
    empty,
    v.consumed,
    v.produced,
    producers_none 0 s.producers p,
    consumers_none 0 s.consumers c,
  ),
)

-- The malloc of the step succeeds.
abbrev pub allocates : Choice → Bool
allocates (producer_runs i ok) = ok
allocates c = true

abbrev pub all_allocate : List Choice → Bool
all_allocate [] = true
all_allocate (c ∷ cs) = allocates c && all_allocate cs

-- No exit has been a failure.
abbrev IsPassing : State → Type 0
IsPassing s = s.main ≢ main_exit false

producer_step-main :
    (cap : ℕ) (p : Producer) (s : State) → (producer_step cap true p s).1.main ≡ s.main
unfolding producer_step Fifo.put
producer_step-main cap (Producer.pro_test i end) s = ground arith
producer_step-main cap (Producer.pro_put i end) s = ground arith
producer_step-main cap p s = ground arith

module _ (cap items : ℕ) (s : State) (v : IsSound items s) (h : IsPassing s) where
  run_producer-IsPassing : (i : ℕ) (o : Option Producer) → IsPassing (run_producer cap i true s o)
  run_producer-IsPassing i none = h
  run_producer-IsPassing i (some p) = λ e. h (sym (producer_step-main cap p s) ∙ e)

  run_consumer-IsPassing : (i : ℕ) (o : Option Consumer) → IsPassing (run_consumer items i s o)
  run_consumer-IsPassing i none = h
  run_consumer-IsPassing i (some c) = λ e. h (sym (consumer_step-IsConEffect items c s).main ∙ e)

  -- The verification finds no error.
  main_step-IsPassing : (m : Main) → s.main ≡ m → IsPassing (main_step m s)
  unfolding main_step
  main_step-IsPassing main_verify e = λ f. ground (
    arith,
    f,
    e,
    verify-marked s.consumed_items
        (IsMarked-at_end items s v (v.past_drain (ground (arith, e)))
          (v.past_producers (ground (arith, e))) (v.past_consumers (ground (arith, e)))).0,
  )
  main_step-IsPassing m e = λ f. ground (arith, h, e, f)

  choose-IsPassing : (c : Choice) → allocates c ≡ true → IsPassing (choose cap items s c)
  choose-IsPassing main_runs a = main_step-IsPassing s.main refl
  choose-IsPassing (producer_runs i true) a = run_producer-IsPassing i (get_elem? s.producers i)
  choose-IsPassing (producer_runs i false) a = cc
  choose-IsPassing (consumer_runs i) a = run_consumer-IsPassing i (get_elem? s.consumers i)

  step-IsPassing : (c : Choice) → allocates c ≡ true → IsPassing (step cap items s c)
  unfolding step
  step-IsPassing c a = elim (Bool-cases (has_exited s.main)) [
    | inl exited ↦ rw exited h
    | inr runs ↦ rw runs (choose-IsPassing c a)
  ]

run-IsPassing :
    (cap items : ℕ) (s : State) (cs : List Choice)
    → IsSound items s
    → IsPassing s
    → all_allocate cs ≡ true
    → IsPassing (run (step cap items) s cs)
unfolding run
run-IsPassing cap items s [] v h a = h
run-IsPassing cap items s (c ∷ cs) v h a =
    run-IsPassing cap items (step cap items s c) cs (step-IsSound cap items s c v)
      (step-IsPassing cap items s v h c (ground arith)) (ground arith)

start-IsPassing : (p c items : ℕ) → IsPassing (start p c items)
unfolding start
start-IsPassing p c items = λ e. cc

-- The stress test passes: if every malloc succeeds and main returns, in any interleaving of the
-- producers and the consumers, then it returns EXIT_SUCCESS, with every number marked, and with as
-- many items produced and consumed as there are numbers.
pub stress_passes :
    (cap num_producers num_consumers items : ℕ) (cs : List Choice) (success : Bool)
    → all_allocate cs ≡ true
    → let total_items = num_producers * items in
      let s = run (step cap total_items) (start num_producers num_consumers items) cs in
      s.main ≡ main_exit success
      → (success ≡ true)
        × IsMarked s.consumed_items
        × (s.items_produced ≡ total_items)
        × (s.items_consumed ≡ total_items)
stress_passes cap p c items cs success a ended =
    let total_items = p * items in
    let s = run (step cap total_items) (start p c items) cs in
    let v =
      run_rule (step cap total_items) (IsSound total_items) (step-IsSound cap total_items)
        (start p c items) cs (start-IsSound p c items) in
    let passing =
      run-IsPassing cap total_items (start p c items) cs (start-IsSound p c items)
        (start-IsPassing p c items) a in
    passed s v success ended passing
  where
    passed :
        (s : State)
        → IsSound (p * items) s
        → (b : Bool) → s.main ≡ main_exit b
        → IsPassing s
        → (b ≡ true)
          × IsMarked s.consumed_items
          × (s.items_produced ≡ p * items)
          × (s.items_consumed ≡ p * items)
    passed s v false e h = elim (h e) [ ]
    passed s v true e h =
        let (marks, produced, consumed) =
          IsMarked-at_end (p * items) s v (v.past_drain (ground (arith, e)))
            (v.past_producers (ground (arith, e))) (v.past_consumers (ground (arith, e))) in
        (refl, marks, produced, consumed)

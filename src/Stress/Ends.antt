-- ===== src/Stress/Ends.antt =====
-- The stress test under a fair schedule.
use os_dns_resolver.Base.{
  get_elem?-lt, if◌then◌else◌, sym, ◌∙◌, total-append, ℤ, ℕ, suc, ◌+◌, ◌≡◌, ◌<◌, ◌≤◌, ◌⊎◌, refl, ap,
  List, [], ◌∷◌, true, false, length, total, total-set, Option, some, none, arith, get_elem?,
}
use os_dns_resolver.Fifo.{Fifo}
use os_dns_resolver.Strings.{Text}
use os_dns_resolver.Stress.Names.{scan_host, host_name}
use os_dns_resolver.Stress.{
  Producer, pro_test, pro_put, pro_count, pro_done, Consumer, con_get, con_read, con_done, Main,
  main_drain, main_exit, State, Choice, main_runs, producer_runs, consumer_runs, producer_step,
  consumer_step, marked, main_step, all_produced, all_ended, has_exited, run_producer, run_consumer,
  choose, step,
}
use os_dns_resolver.Stress.Account.{
  is_past_closing, left, uncounted, consumer_counts, is_producing, is_consuming, has_ended, IsSound,
}
use os_dns_resolver.Stress.Work.{
  text_work, producer_work, consumer_work, common_work, work, producer_step-work,
  consumer_step-work,
}
use os_dns_resolver.Schedules.{Has}
use os_dns_resolver.Fifo

-- A producer at rest has ended, or waits at a full queue.
abbrev IsRestingProducer : ℕ → Fifo Text → Producer → Type 0
IsRestingProducer cap q p =
    (uncounted p ≡ 0) × (is_producing p ≤ left p) × ((is_producing p ≡ 0) ⊎ (length q.items ≡ cap))

-- A consumer at rest has ended, or waits at an open empty queue.
abbrev IsRestingConsumer : Fifo Text → Consumer → Type 0
IsRestingConsumer q c =
    (consumer_counts c ≡ 0)
    × (is_consuming c + has_ended c ≡ 1)
    × ((is_consuming c ≡ 0) ⊎ ((q.items ≡ []) × (q.closed ≡ false)))

producer_step-rests :
    (cap : ℕ) (p : Producer) (s : State)
    → (let (p', s') = producer_step cap true p s in
        producer_work p' + common_work s' ≡ producer_work p + common_work s)
    → IsRestingProducer cap s.queue p
unfolding producer_step Fifo.put
producer_step-rests cap (pro_test i end) s e = ground arith
producer_step-rests cap (pro_put i end) s e =
    ground (arith, total-append text_work s.queue.items (host_name i ∷ []))
producer_step-rests cap (pro_count i end) s e = ground arith
producer_step-rests cap pro_done s e = ground arith

marked-moves :
    (items : ℕ) (h : Text) (s : State) (r : Option ℤ)
    → (let (c', s') = marked items s r in
        consumer_work c' + common_work s' ≡ consumer_work (con_read h) + common_work s)
    → IsRestingConsumer s.queue (con_read h)
marked-moves items h s none e = ground arith
marked-moves items h s (some n) e = ground arith

consumer_step-rests :
    (items : ℕ) (c : Consumer) (s : State)
    → (let (c', s') = consumer_step items c s in
        consumer_work c' + common_work s' ≡ consumer_work c + common_work s)
    → IsRestingConsumer s.queue c
unfolding consumer_step Fifo.get
consumer_step-rests items con_get s e = ground arith
consumer_step-rests items (con_read h) s e = marked-moves items h s (scan_host h) e
consumer_step-rests items con_done s e = ground arith

-- What holds at rest of all producers, and of all consumers.
producers_rest :
    (cap : ℕ) (q : Fifo Text) (ps : List Producer)
    → ((i : ℕ) (p : Producer) → get_elem? ps i ≡ some p → IsRestingProducer cap q p)
    → (total uncounted ps ≡ 0)
      × (total is_producing ps ≤ total left ps)
      × ((total is_producing ps ≡ 0) ⊎ (length q.items ≡ cap))
producers_rest cap q [] h = ground arith
producers_rest cap q (p ∷ ps) h =
    ground (arith, h 0 p refl, producers_rest cap q ps (λ i. h (suc i)))

consumers_rest :
    (q : Fifo Text) (cs : List Consumer)
    → ((i : ℕ) (c : Consumer) → get_elem? cs i ≡ some c → IsRestingConsumer q c)
    → (total consumer_counts cs ≡ 0)
      × (total is_consuming cs + total has_ended cs ≡ length cs)
      × ((total is_consuming cs ≡ 0) ⊎ ((q.items ≡ []) × (q.closed ≡ false)))
consumers_rest q [] h = ground arith
consumers_rest q (c ∷ cs) h = ground (arith, h 0 c refl, consumers_rest q cs (λ i. h (suc i)))

producing_all : (ps : List Producer) → total is_producing ps ≡ 0 → all_produced ps ≡ true
producing_all [] h = refl
producing_all (p ∷ ps) h = ground (arith, producing_all ps)

consuming_all : (cs : List Consumer) → total is_consuming cs ≡ 0 → all_ended cs ≡ true
consuming_all [] h = refl
consuming_all (c ∷ cs) h = ground (arith, consuming_all cs)

-- main does not wait where nobody else has anything to do.
main_step-moves :
    (m : Main) (s : State)
    → s.main ≡ m
    → all_produced s.producers ≡ true
    → s.queue.items ≡ []
    → s.items_produced ≤ s.items_consumed
    → (is_past_closing m ≡ true → all_ended s.consumers ≡ true)
    → work (main_step m s) ≡ work s
    → has_exited m ≡ true
unfolding main_step Fifo.close
main_step-moves (main_exit success) s e p q k c w = refl
main_step-moves main_drain s e p q k c w = ground arith
main_step-moves m s e p q k c w = ground arith

nil_of_length : (xs : List Text) → length xs ≡ 0 → xs ≡ []
nil_of_length [] h = refl
nil_of_length (x ∷ xs) h = ground arith

-- Every thread has a turn in which its malloc succeeds. There may be other turns.
pub record IsFullRound (num_producers num_consumers : ℕ) (cs : List Choice) : Type 0 where
  pub main : Has cs main_runs
  pub producers : (i : ℕ) → i < num_producers → Has cs (producer_runs i true)
  pub consumers : (i : ℕ) → i < num_consumers → Has cs (consumer_runs i)

module _ (cap items : ℕ) (s : State) (runs : has_exited s.main ≡ false) where
  same_work : (c : Choice) → step cap items s c ≡ s → work (choose cap items s c) ≡ work s
  unfolding step
  same_work c e = ap work (ap (λ b. if b then s else choose cap items s c) (sym runs) ∙ e)

  producer-rests :
      (i : ℕ) (p : Producer)
      → step cap items s (producer_runs i true) ≡ s
      → get_elem? s.producers i ≡ some p
      → IsRestingProducer cap s.queue p
  producer-rests i p idle e =
      let (ps, cs, moved) = producer_step-work cap true p s runs in
      producer_step-rests cap p s (
        ground (
          arith,
          ps,
          cs,
          ap (λ o. work (run_producer cap i true s o)) e,
          same_work (producer_runs i true) idle,
          total-set producer_work s.producers i (producer_step cap true p s).0 e,
        ))

  consumer-rests :
      (i : ℕ) (c : Consumer)
      → step cap items s (consumer_runs i) ≡ s
      → get_elem? s.consumers i ≡ some c
      → IsRestingConsumer s.queue c
  consumer-rests i c idle e =
      let (ps, cs, moved) = consumer_step-work items c s in
      consumer_step-rests items c s (
        ground (
          arith,
          ps,
          cs,
          ap (λ o. work (run_consumer items i s o)) e,
          same_work (consumer_runs i) idle,
          total-set consumer_work s.consumers i (consumer_step items c s).0 e,
        ))

  -- Where no thread can go on, main has returned.
  pub rest-has_exited :
      (num_producers num_consumers : ℕ)
      → 0 < cap
      → 0 < num_consumers
      → length s.producers ≡ num_producers
      → length s.consumers ≡ num_consumers
      → IsSound items s
      → ((i : ℕ) → i < num_producers → step cap items s (producer_runs i true) ≡ s)
      → ((i : ℕ) → i < num_consumers → step cap items s (consumer_runs i) ≡ s)
      → step cap items s main_runs ≡ s
      → has_exited s.main ≡ true
  rest-has_exited n m some_room some_consumer hn hm v producers consumers main =
      let (no_uncounted, producing, p) = producers_rest cap s.queue s.producers (λ i x e.
        producer-rests i x (producers i (omega (arith, hn, get_elem?-lt s.producers i e))) e) in
      let (no_held, ended, c) = consumers_rest s.queue s.consumers (λ i x e.
        consumer-rests i x (consumers i (omega (arith, hm, get_elem?-lt s.consumers i e))) e) in
      let no_producers : (total is_producing s.producers ≡ 0) = ground (
        arith, p, c, producing, no_uncounted, no_held, ended, some_room, some_consumer, v.over,
        v.consumed, v.produced,
      ) in
      let empty : (s.queue.items ≡ []) = ground (
        arith,
        c,
        no_uncounted,
        no_held,
        ended,
        v.over,
        v.consumed,
        v.produced,
        v.scanned,
        nil_of_length s.queue.items,
      ) in
      main_step-moves s.main s refl (producing_all s.producers no_producers) empty
        (ground (arith, empty, v.consumed, no_held, no_uncounted))
        (λ closed. consuming_all s.consumers (ground (arith, c, v.past_closing closed)))
        (same_work main_runs main)

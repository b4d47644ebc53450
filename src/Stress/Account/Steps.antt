-- ===== src/Stress/Account/Steps.antt =====
-- The account along a run of the stress test.
use mathlib.Core.Path.{subst}
use os_dns_resolver.Base.{
  sym, ℕ, ◌≡◌, ◌<◌, ◌≤◌, refl, List, [], ◌∷◌, Bool, true, false, total, total-set, total-le, All,
  arith, some, none, Option, get_elem?, if◌then◌else◌,
}
use os_dns_resolver.Fifo.{Fifo}
use os_dns_resolver.Stress.{
  Producer, Consumer, Main, main_join_producers, main_wait, main_free, main_drain,
  main_join_consumers, main_verify, main_exit, State, Choice, main_runs, producer_runs,
  consumer_runs, producer_step, consumer_step, main_step, all_produced, all_ended, has_exited,
  run_producer, run_consumer, choose, step,
}
use os_dns_resolver.Stress.Account.{
  producer_covers, consumer_covers, left, uncounted, consumer_counts, is_producing, is_consuming,
  has_ended, IsSound,
}
use os_dns_resolver.Stress.Account.Effects.{
  producer_step-IsProEffect, producer_step-covers, consumer_step-IsConEffect, consumer_step-covers,
  consumer_step-bits,
}
use os_dns_resolver.Fifo

producing_none : (ps : List Producer) → all_produced ps ≡ true → total is_producing ps ≡ 0
producing_none [] h = refl
producing_none (p ∷ ps) h = ground (arith, producing_none ps)

consuming_none : (cs : List Consumer) → all_ended cs ≡ true → total is_consuming cs ≡ 0
consuming_none [] h = refl
consuming_none (c ∷ cs) h = ground (arith, consuming_none cs)

module _ (cap items : ℕ) (s : State) (v : IsSound items s) where
  run_producer-IsSound :
      (i : ℕ) (ok : Bool) (o : Option Producer)
      → get_elem? s.producers i ≡ o
      → IsSound items (run_producer cap i ok s o)
  run_producer-IsSound i ok none e = v
  run_producer-IsSound i ok (some p) e =
      let (p', s') = producer_step cap ok p s in
      let open_while : (0 < is_producing p → s.queue.closed ≡ false) =
        λ h. ground (arith, v.closed, total-le is_producing s.producers i e) in
      let f = producer_step-IsProEffect cap ok p s open_while in
      let producing = total-set is_producing s.producers i p' e in
      record {
        size = ground (arith, f.consumed_items, v.size);
        bits = subst (All (λ x. x ≤ 1)) (sym f.consumed_items) v.bits;
        covered = λ j lt. ground (
          arith,
          v.covered j lt,
          f.consumed_items,
          f.consumers,
          producer_step-covers cap ok p s j open_while,
          total-set (producer_covers j) s.producers i p' e,
        );
        produced = omega (arith, v.produced, f.produced, total-set left s.producers i p' e);
        consumed = ground (
          arith,
          v.consumed,
          f.counted,
          f.items_consumed,
          f.consumers,
          total-set uncounted s.producers i p' e,
        );
        scanned = f.scanned v.scanned;
        closed = λ h. ground (arith, v.closed, f.closed, f.falls, producing);
        past_producers = λ h. ground (arith, v.past_producers, f.main, f.falls, producing);
        past_closing = λ h. ground (arith, v.past_closing, f.main, f.closed);
        past_drain = λ h. ground (arith, v.past_drain, v.past_closing, f.main, f.ended);
        past_consumers = λ h. ground (arith, v.past_consumers, f.main, f.consumers);
        over = λ h. ground (arith, v.over, f.consumers, f.ended, f.items_consumed);
      }

  run_consumer-IsSound :
      (i : ℕ) (o : Option Consumer)
      → get_elem? s.consumers i ≡ o
      → IsSound items (run_consumer items i s o)
  run_consumer-IsSound i none e = v
  run_consumer-IsSound i (some c) e =
      let (c', s') = consumer_step items c s in
      let f = consumer_step-IsConEffect items c s in
      record {
        size = omega (arith, v.size, f.size);
        bits = consumer_step-bits items c s v.bits;
        covered = λ j lt. ground (
          arith,
          v.covered j lt,
          f.producers,
          consumer_step-covers items c s j (omega (arith, v.size, lt)),
          total-set (consumer_covers j) s.consumers i c' e,
        );
        produced = ground (arith, v.produced, f.producers, f.items_produced);
        consumed = ground (
          arith,
          v.consumed,
          f.counted,
          f.items_produced,
          f.producers,
          total-set consumer_counts s.consumers i c' e,
        );
        scanned = f.scanned v.scanned;
        closed = λ h. ground (arith, v.closed, f.closed, f.producers);
        past_producers = λ h. ground (arith, v.past_producers, f.main, f.producers);
        past_closing = λ h. ground (arith, v.past_closing, f.main, f.closed);
        past_drain = λ h. ground (arith, v.past_drain, f.main, f.emptied);
        past_consumers = λ h.
            ground
              (arith, v.past_consumers, f.main, f.falls, total-set is_consuming s.consumers i c' e);
        over = λ h. ground (
          arith,
          v.over,
          f.over,
          f.ended,
          f.grows,
          total-set has_ended s.consumers i c' e,
          total-le has_ended s.consumers i e,
        );
      }

  main_step-IsSound : (m : Main) → s.main ≡ m → IsSound items (main_step m s)
  unfolding main_step Fifo.close
  main_step-IsSound main_join_producers e = ground (arith, v, producing_none s.producers)
  main_step-IsSound main_wait e = ground (arith, v)
  main_step-IsSound main_free e = ground (arith, v)
  main_step-IsSound main_drain e = ground (arith, v)
  main_step-IsSound main_join_consumers e = ground (arith, v, consuming_none s.consumers)
  main_step-IsSound main_verify e = ground (arith, v)
  main_step-IsSound (main_exit success) e = v

pub step-IsSound :
    (cap items : ℕ) (s : State) (c : Choice) → IsSound items s → IsSound items (step cap items s c)
unfolding step
step-IsSound cap items s c v = keep s.main refl
  where
    run_one : (c : Choice) → IsSound items (choose cap items s c)
    run_one main_runs = main_step-IsSound cap items s v s.main refl
    run_one (producer_runs i ok) =
        run_producer-IsSound cap items s v i ok (get_elem? s.producers i) refl
    run_one (consumer_runs i) = run_consumer-IsSound cap items s v i (get_elem? s.consumers i) refl

    keep :
        (m : Main) → s.main ≡ m → IsSound items (if has_exited m then s else choose cap items s c)
    keep (main_exit success) e = v
    keep m e = ground (arith, run_one c)

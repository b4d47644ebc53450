-- ===== src/Stress/Work.antt =====
-- The work that is left of the stress test, as a number.
use os_dns_resolver.Base.{
  set-same, ℕ, ◌+◌, ◌-◌, ◌*◌, ◌≡◌, ◌<◌, ◌⊎◌, inl, inr, refl, [], ◌∷◌, Bool, false, Option, some,
  none, total, total-append, total-set, arith, get_elem?, Bool-cases, ℤ,
}
use os_dns_resolver.Strings.{Text}
use os_dns_resolver.Fifo.{Fifo}
use os_dns_resolver.Stress.Names.{host_name, scan_host}
use os_dns_resolver.Stress.{
  Producer, pro_test, pro_put, pro_count, pro_done, Consumer, con_get, con_read, con_done, Main,
  main_join_producers, main_wait, main_free, main_drain, main_join_consumers, main_verify,
  main_exit, State, Choice, main_runs, producer_runs, consumer_runs, producer_step, consumer_step,
  main_step, marked, has_exited, run_producer, run_consumer, choose, step,
}
use os_dns_resolver.Fifo

abbrev pub producer_work : Producer → ℕ
producer_work (pro_test i end) = 5 * (end - i) + 1
producer_work (pro_put i end) = 5 * (end - (i + 1)) + 5
producer_work (pro_count i end) = 5 * (end - (i + 1)) + 2
producer_work pro_done = 0

abbrev pub consumer_work : Consumer → ℕ
consumer_work con_get = 1
consumer_work (con_read h) = 2
consumer_work con_done = 0

abbrev pub text_work : Text → ℕ
text_work h = 2

abbrev pub main_work : Main → ℕ
main_work main_join_producers = 6
main_work main_wait = 5
main_work main_free = 4
main_work main_drain = 3
main_work main_join_consumers = 2
main_work main_verify = 1
main_work (main_exit success) = 0

-- The work outside the producers and the consumers.
abbrev pub common_work : State → ℕ
common_work s = main_work s.main + total text_work s.queue.items

abbrev pub work : State → ℕ
work s = common_work s + total producer_work s.producers + total consumer_work s.consumers

pub producer_step-work :
    (cap : ℕ) (ok : Bool) (p : Producer) (s : State)
    → has_exited s.main ≡ false
    → let (p', s') = producer_step cap ok p s in
      (s'.producers ≡ s.producers)
      × (s'.consumers ≡ s.consumers)
      × ((producer_step cap ok p s ≡ (p, s))
          ⊎ (producer_work p' + common_work s' < producer_work p + common_work s))
unfolding producer_step Fifo.put
producer_step-work cap ok (pro_test i end) s e = ground arith
producer_step-work cap ok (pro_put i end) s e =
    ground (arith, total-append text_work s.queue.items (host_name i ∷ []))
producer_step-work cap ok (pro_count i end) s e = ground arith
producer_step-work cap ok pro_done s e = (refl, refl, inl refl)

marked-work :
    (items : ℕ) (h : Text) (s : State) (r : Option ℤ)
    → let (c', s') = marked items s r in
      (s'.producers ≡ s.producers)
      × (s'.consumers ≡ s.consumers)
      × (consumer_work c' + common_work s' < consumer_work (con_read h) + common_work s)
marked-work items h s none = ground arith
marked-work items h s (some n) = ground arith

pub consumer_step-work :
    (items : ℕ) (c : Consumer) (s : State)
    → let (c', s') = consumer_step items c s in
      (s'.producers ≡ s.producers)
      × (s'.consumers ≡ s.consumers)
      × ((consumer_step items c s ≡ (c, s))
          ⊎ (consumer_work c' + common_work s' < consumer_work c + common_work s))
unfolding consumer_step Fifo.get
consumer_step-work items con_get s = ground arith
consumer_step-work items (con_read h) s = ground (arith, marked-work items h s (scan_host h))
consumer_step-work items con_done s = (refl, refl, inl refl)

main_step-work :
    (m : Main) (s : State) → s.main ≡ m → (main_step m s ≡ s) ⊎ (work (main_step m s) < work s)
unfolding main_step Fifo.close
main_step-work main_drain s e = ground arith
main_step-work (main_exit success) s e = inl refl
main_step-work m s e = ground arith

module _ (cap items : ℕ) (s : State) where
  run_producer-work :
      (i : ℕ) (ok : Bool) (o : Option Producer)
      → has_exited s.main ≡ false
      → get_elem? s.producers i ≡ o
      → (run_producer cap i ok s o ≡ s) ⊎ (work (run_producer cap i ok s o) < work s)
  run_producer-work i ok none x e = inl refl
  run_producer-work i ok (some p) x e =
      let (ps, cs, moved) = producer_step-work cap ok p s x in
      elim moved [
        | inl same ↦ inl (ground (arith, same, set-same s.producers i e))
        | inr less ↦ inr (
            ground (
              arith,
              less,
              ps,
              cs,
              total-set producer_work s.producers i (producer_step cap ok p s).0 e,
            ))
      ]

  run_consumer-work :
      (i : ℕ) (o : Option Consumer)
      → get_elem? s.consumers i ≡ o
      → (run_consumer items i s o ≡ s) ⊎ (work (run_consumer items i s o) < work s)
  run_consumer-work i none e = inl refl
  run_consumer-work i (some c) e =
      let (ps, cs, moved) = consumer_step-work items c s in
      elim moved [
        | inl same ↦ inl (ground (arith, same, set-same s.consumers i e))
        | inr less ↦ inr (
            ground (
              arith,
              less,
              ps,
              cs,
              total-set consumer_work s.consumers i (consumer_step items c s).0 e,
            ))
      ]

  choose-work :
      (c : Choice)
      → has_exited s.main ≡ false
      → (choose cap items s c ≡ s) ⊎ (work (choose cap items s c) < work s)
  choose-work main_runs x = main_step-work s.main s refl
  choose-work (producer_runs i ok) x = run_producer-work i ok (get_elem? s.producers i) x refl
  choose-work (consumer_runs i) x = run_consumer-work i (get_elem? s.consumers i) refl

  pub step-work : (c : Choice) → (step cap items s c ≡ s) ⊎ (work (step cap items s c) < work s)
  unfolding step
  step-work c = elim (Bool-cases (has_exited s.main)) [
    | inl exited ↦ rw exited (inl refl)
    | inr runs ↦ rw runs (choose-work c runs)
  ]

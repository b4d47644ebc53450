-- ===== src/Stress/Tests.antt =====
-- The stress test with one producer of two items, one consumer, and a queue of one place.
use os_dns_resolver.Base.{
  ℕ, zero, suc, ◌+◌, ◌*◌, ◌≡◌, ◌<◌, ◌≤◌, refl, List, [], ◌∷◌, true, length, All, replicate, some,
  pos, arith,
}
use os_dns_resolver.Stress.Names.{host_name, scan_host}
use os_dns_resolver.Stress.Names.Laws.{max_name_length, scan_host-host_name, host_name-fits}
use os_dns_resolver.Stress.{
  Choice, main_runs, producer_runs, consumer_runs, State, main_exit, has_exited, step, start,
  main_step, producer_step, consumer_step, verify,
}
use os_dns_resolver.Stress.Passes.{IsMarked, stress_passes}
use os_dns_resolver.Stress.Ends.{IsFullRound}
use os_dns_resolver.Stress.Fair.{stress_ends}
use os_dns_resolver.Stress.Work.{work}
use os_dns_resolver.Schedules.{Has, joined, run}
use os_dns_resolver.Fifo

scan_host-host_name_example : scan_host (host_name 42) ≡ some (pos 42)
scan_host-host_name_example = scan_host-host_name 42

host_name-fits_example : length (host_name 199999) + 1 ≤ max_name_length
host_name-fits_example = host_name-fits 199999 (omega arith)

abbrev round : List Choice
round = producer_runs 0 true ∷ main_runs ∷ consumer_runs 0 ∷ []

abbrev rounds : List (List Choice)
rounds = replicate 20 round

abbrev test_run : State
test_run = run (step 1 (1 * 2)) (start 1 1 2) (joined rounds)

test_run-exits : test_run.main ≡ main_exit true
unfolding run step start main_step producer_step consumer_step verify Fifo.put Fifo.get Fifo.close
    scan_host host_name
test_run-exits = refl

stress_passes_example :
    (true ≡ true)
    × IsMarked test_run.consumed_items
    × (test_run.items_produced ≡ 1 * 2)
    × (test_run.items_consumed ≡ 1 * 2)
stress_passes_example = stress_passes 1 1 1 2 (joined rounds) true refl test_run-exits

round-IsFullRound : IsFullRound 1 1 round
round-IsFullRound = record {
  main = (1, refl);
  producers = producer_turn;
  consumers = consumer_turn;
}
  where
    producer_turn : (i : ℕ) → i < 1 → Has round (producer_runs i true)
    producer_turn zero h = (0, refl)
    producer_turn (suc i) h = absurd (omega arith)

    consumer_turn : (i : ℕ) → i < 1 → Has round (consumer_runs i)
    consumer_turn zero h = (2, refl)
    consumer_turn (suc i) h = absurd (omega arith)

full_rounds : (k : ℕ) → All (IsFullRound 1 1) (replicate k round)
full_rounds zero = _
full_rounds (suc k) = (round-IsFullRound, full_rounds k)

enough : work (start 1 1 2) < 20
unfolding start
enough = omega arith

stress_ends_example : has_exited test_run.main ≡ true
stress_ends_example = stress_ends 1 1 1 2 rounds (omega arith) (omega arith) (full_rounds 20) enough

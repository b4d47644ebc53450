-- ===== src/Lookup/Fair/Tests.antt =====
-- A fair schedule of the pipeline in which some allocations fail.
use os_dns_resolver.Base.{
  ℕ, zero, suc, ◌≡◌, ◌<◌, refl, List, [], ◌∷◌, true, false, All, replicate, arith,
}
use os_dns_resolver.Samples.{sample_net, sample_files, f_name}
use os_dns_resolver.Lookup.Program.{
  Choice, main_runs, main_done, requester_runs, resolver_runs, requester_logger_runs,
  resolver_logger_runs, start, run,
}
use os_dns_resolver.Lookup.Work.{work}
use os_dns_resolver.Lookup.Fair.{IsFullRound, fair_ends}
use os_dns_resolver.Schedules.{joined, Has}

abbrev pub round : List Choice
round =
    requester_runs 0 false
    ∷ resolver_logger_runs
    ∷ requester_logger_runs
    ∷ resolver_runs 0 true true
    ∷ requester_runs 0 true
    ∷ main_runs true
    ∷ []

round-IsFullRound : IsFullRound 1 1 round
round-IsFullRound = record {
  main = (5, refl);
  requesters = requester_turn;
  resolvers = resolver_turn;
  requester_logger = (2, refl);
  resolver_logger = (1, refl);
}
  where
    requester_turn : (i : ℕ) → i < 1 → Has round (requester_runs i true)
    requester_turn zero h = (4, refl)
    requester_turn (suc i) h = absurd (omega arith)

    resolver_turn : (i : ℕ) → i < 1 → Has round (resolver_runs i true true)
    resolver_turn zero h = (3, refl)
    resolver_turn (suc i) h = absurd (omega arith)

pub full_rounds : (k : ℕ) → All (IsFullRound 1 1) (replicate k round)
full_rounds zero = _
full_rounds (suc k) = (round-IsFullRound, full_rounds k)

enough : work sample_files 1 (start (f_name ∷ []) 1) < 71
unfolding start
enough = omega arith

fair_ends_example :
    (run sample_net sample_files 1 1 (start (f_name ∷ []) 1) (joined (replicate 71 round))).main
    ≡ main_done
fair_ends_example =
    fair_ends sample_net sample_files 1 1 1 (f_name ∷ []) (replicate 71 round) (omega arith)
      (omega arith) (omega arith) (omega arith) (full_rounds 71) enough

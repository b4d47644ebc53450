-- ===== src/Lookup/Startup/Tests.antt =====
-- Starts of the threads in which a call fails.
use os_dns_resolver.Base.{zero, suc, ℕ, ◌≡◌, ◌≢◌, refl, [], ◌∷◌, Bool, true, false, total, arith}
use os_dns_resolver.Samples.{sample_net, sample_files, f_name}
use os_dns_resolver.Lookup.Program.{State, main_runs, main_done, start, run}
use os_dns_resolver.Lookup.Phases.{is_past_hosts}
use os_dns_resolver.Lookup.Startup.{
  Answers, aborts, goes_on, start_threads, at_resolver_log_thread, release,
}
use os_dns_resolver.Lookup.Startup.Abandoned.{no_requester-hangs}

-- The creation of the second logger fails.
abbrev no_logger : Answers
no_logger = record {
  inits = true ∷ true ∷ true ∷ true ∷ [];
  requester_log_thread = true;
  resolver_log_thread = false;
  memory = true ∷ true ∷ true ∷ true ∷ [];
  requesters = λ i. true;
  resolvers = λ i. true;
}

no_logger-aborts : start_threads (f_name ∷ []) 2 3 no_logger ≡ aborts at_resolver_log_thread release
unfolding start_threads
no_logger-aborts = refl

-- The creation of the first requester fails, and so does that of every resolver but the first.
abbrev is_first : ℕ → Bool
is_first zero = true
is_first (suc i) = false

abbrev is_later : ℕ → Bool
is_later zero = false
is_later (suc i) = true

abbrev few_threads : Answers
few_threads = record no_logger {
  resolver_log_thread = true;
  requesters = is_later;
  resolvers = is_first;
}

few_threads-goes_on :
    start_threads (f_name ∷ []) 2 3 few_threads ≡ goes_on (start (f_name ∷ []) 1) 1
unfolding start_threads start
few_threads-goes_on = refl

abbrev hung : State
hung =
    run sample_net sample_files 1 2 (start (f_name ∷ []) 0) (main_runs true ∷ main_runs true ∷ [])

no_requester-hangs_example :
    (hung.shared.hostname_queue.closed ≡ false)
    × (total is_past_hosts hung.resolvers ≡ 0)
    × (hung.main ≢ main_done)
no_requester-hangs_example =
    no_requester-hangs sample_net sample_files 1 2 (f_name ∷ [])
      (main_runs true ∷ main_runs true ∷ []) (omega arith)

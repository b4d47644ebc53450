-- ===== src/Programs/Tests.antt =====
-- Whole programs on a concrete command line, "1 1 log l2 f": one requester, one
-- resolver, two logs and one file.
use os_dns_resolver.Base.{
  ℕ, zero, suc, ◌-◌, ◌≡◌, ◌<◌, refl, List, [], ◌∷◌, true, All, ℤ, pos, replicate, arith,
}
use os_dns_resolver.Strings.{Text}
use os_dns_resolver.Samples.{sample_net, sample_files, f_name, log_name}
use os_dns_resolver.Simple.Correct.{invalid_names}
use os_dns_resolver.Lookup.Startup.{Answers}
use os_dns_resolver.Lookup.Program.{
  State, Choice, main_runs, requester_runs, resolver_runs, requester_logger_runs,
  resolver_logger_runs, start, main_done,
}
use os_dns_resolver.Lookup.Fair.{IsFullRound}
use os_dns_resolver.Schedules.{joined, Has}
use os_dns_resolver.Programs.{has_run, multi_lookup, dnsthreaded}
use mathlib.Core.List.{Perm}
use os_dns_resolver.Programs.Correct.{
  CommandLine, arguments, IsComplete, IsRunnable, IsServed, multi_lookup_correct, versions_agree,
}

-- atoi of one digit.
abbrev digit : Text → ℤ
digit [] = pos 0
digit (b ∷ bs) = pos (b - b'0')

abbrev command_line : CommandLine
command_line = record {
  num_requesters = b'1' ∷ [];
  num_resolvers = b'1' ∷ [];
  requester_log_file = log_name;
  resolver_log_file = b'l' ∷ b'2' ∷ [];
  names = f_name ∷ [];
}

abbrev resources : Answers
resources = record {
  inits = true ∷ true ∷ true ∷ true ∷ [];
  requester_log_thread = true;
  resolver_log_thread = true;
  memory = true ∷ true ∷ true ∷ true ∷ [];
  requesters = λ i. true;
  resolvers = λ i. true;
}

abbrev round : List Choice
round =
    main_runs true
    ∷ requester_runs 0 true
    ∷ resolver_runs 0 true true
    ∷ requester_logger_runs
    ∷ resolver_logger_runs
    ∷ []

abbrev rounds : List (List Choice)
rounds = replicate 71 round

round-IsFullRound : IsFullRound 1 1 round
round-IsFullRound = record {
  main = (0, refl);
  requesters = requester_turn;
  resolvers = resolver_turn;
  requester_logger = (3, refl);
  resolver_logger = (4, refl);
}
  where
    requester_turn : (i : ℕ) → i < 1 → Has round (requester_runs i true)
    requester_turn zero h = (1, refl)
    requester_turn (suc i) h = absurd (omega arith)

    resolver_turn : (i : ℕ) → i < 1 → Has round (resolver_runs i true true)
    resolver_turn zero h = (2, refl)
    resolver_turn (suc i) h = absurd (omega arith)

All-replicate {ℓ κ} : {A : Type ℓ} (P : A → Type κ) (n : ℕ) (x : A) → P x → All P (replicate n x)
All-replicate P zero x h = _
All-replicate P (suc n) x h = (h, All-replicate P n x h)

command_line-IsRunnable : IsRunnable sample_net sample_files digit command_line resources
unfolding invalid_names
command_line-IsRunnable = (
  record {
    logs = λ e. ground (arith, e);
    requester_log = (λ e. ground (arith, e), _);
    resolver_log = (λ e. ground (arith, e), _);
  },
  record {
    requesters = omega arith;
    resolvers = omega arith;
    some_file = omega arith;
    requester_log = refl;
    resolver_log = refl;
  },
  record {
    inits = refl;
    requester_log_thread = refl;
    resolver_log_thread = refl;
    memory = refl;
    requesters = λ i. refl;
    resolvers = λ i. refl;
  },
)

rounds-IsServed : IsServed sample_net sample_files digit command_line resources rounds
unfolding start
rounds-IsServed = record {
  full = All-replicate (IsFullRound 1 1) 71 round round-IsFullRound;
  enough = omega arith;
  memory = refl;
}

more_rounds-IsServed :
    IsServed sample_net sample_files digit command_line resources (round ∷ rounds)
unfolding start
more_rounds-IsServed = record {
  full = (round-IsFullRound, rounds-IsServed.full);
  enough = omega arith;
  memory = refl;
}

multi_lookup_correct_example :
    (s : State) × (multi_lookup sample_net sample_files digit resources
        (arguments command_line)
        (joined rounds)
      ≡ has_run s (invalid_names sample_files (f_name ∷ [])))
    × IsComplete sample_net sample_files (f_name ∷ []) s
multi_lookup_correct_example =
    multi_lookup_correct sample_net sample_files digit command_line resources rounds
      command_line-IsRunnable (omega arith) rounds-IsServed

versions_agree_example :
    (s : State) × (t : State) × (multi_lookup sample_net sample_files digit resources
        (arguments command_line)
        (joined rounds)
      ≡ has_run s (invalid_names sample_files (f_name ∷ [])))
    × (dnsthreaded sample_net sample_files digit resources
          (arguments command_line)
          (joined (round ∷ rounds))
        ≡ has_run t (invalid_names sample_files (f_name ∷ [])))
    × (s.main ≡ main_done)
    × (t.main ≡ main_done)
    × Perm s.requester_log t.requester_log
    × Perm s.resolver_log t.resolver_log
    × (s.files_serviced ≡ t.files_serviced)
    × (s.hosts_resolved ≡ t.hosts_resolved)
versions_agree_example =
    versions_agree sample_net sample_files digit command_line resources rounds (round ∷ rounds)
      command_line-IsRunnable (omega arith) rounds-IsServed more_rounds-IsServed

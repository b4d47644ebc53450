-- ===== src/Programs/Correct.antt =====
-- What the programs do from the command line to the end.
use os_dns_resolver.Base.{
  ℕ, ◌-◌, ◌≡◌, ◌≤◌, refl, List, ◌∷◌, map, true, total, length, All, ℤ, pos_part, arith, ◌∙◌, ◌<◌,
  ◌≢◌, [], ap,
}
use os_dns_resolver.Strings.{Text}
use os_dns_resolver.Resolve.{Net}
use os_dns_resolver.Simple.{Files}
use os_dns_resolver.Simple.Correct.{invalid_names}
use os_dns_resolver.Lookup.Arguments.{check_arguments-starts, IsAccepted}
use os_dns_resolver.Lookup.Startup.{Answers}
use os_dns_resolver.Lookup.Startup.Laws.{HasResources, start_threads-all}
use os_dns_resolver.Lookup.Program.{State, Choice, run, start, main_done, all}
use os_dns_resolver.Lookup.Weights.{resolved}
use os_dns_resolver.Lookup.Weights.Runs.{allocates}
use os_dns_resolver.Lookup.Complete.{targets, logs-perm}
use os_dns_resolver.Lookup.Counts.Final.{counters-final}
use os_dns_resolver.Lookup.Counts.Serviced.{opens}
use os_dns_resolver.Lookup.Work.{work}
use os_dns_resolver.Lookup.Fair.{IsFullRound, fair_ends}
use os_dns_resolver.Schedules.{joined}
use mathlib.Core.Path.{sym, subst}
use os_dns_resolver.Programs.{
  multi_lookup, dnsthreaded, has_run, threaded_main, with_logs, truncated,
}
use os_dns_resolver.Programs.Logs.{AreSame, truncated-AreSame, targets-same, opens-same, work-same}
use mathlib.Core.List.{Perm}
use mathlib.Core.List.Perm

-- The command line: the two numbers, the two logs, and the data files.
pub record CommandLine : Type 0 where
  pub num_requesters : Text
  pub num_resolvers : Text
  pub requester_log_file : Text
  pub resolver_log_file : Text
  pub names : List Text

abbrev pub arguments : CommandLine → List Text
arguments c =
    c.num_requesters ∷ c.num_resolvers ∷ c.requester_log_file ∷ c.resolver_log_file ∷ c.names

-- The logs differ from each other and from the data files.
pub record AreLogsApart (c : CommandLine) : Type 0 where
  pub logs : c.requester_log_file ≢ c.resolver_log_file
  pub requester_log : All (λ name. name ≢ c.requester_log_file) c.names
  pub resolver_log : All (λ name. name ≢ c.resolver_log_file) c.names

-- What a run that is done has written and counted.
pub record IsComplete (net : Net) (files : Files) (names : List Text) (s : State) : Type 0 where
  pub done : s.main ≡ main_done
  pub requester_log : Perm s.requester_log (targets files names)
  pub resolver_log : Perm s.resolver_log (map (resolved net) (targets files names))
  pub files_serviced : s.files_serviced ≡ total (opens files) names
  pub hosts_resolved : s.hosts_resolved ≡ length (targets files names)

module _ (net : Net) (files : Files) (atoi : Text → ℤ) (c : CommandLine) (answers : Answers) where
  abbrev pub requesters : ℕ
  requesters = pos_part (atoi c.num_requesters)

  abbrev pub resolvers : ℕ
  resolvers = pos_part (atoi c.num_resolvers)

  abbrev pub IsRunnable : Type 0
  IsRunnable =
      AreLogsApart c
      × IsAccepted files (atoi c.num_requesters) (atoi c.num_resolvers) c.requester_log_file
          c.resolver_log_file c.names
      × HasResources answers

  -- The files that the threads find.
  abbrev opened : Files
  opened = with_logs (arguments c) files

  opened-AreSame : AreLogsApart c → AreSame files opened c.names
  unfolding with_logs
  opened-AreSame apart =
      truncated-AreSame files (truncated c.requester_log_file files) c.resolver_log_file c.names
        (truncated-AreSame files files c.requester_log_file c.names (same c.names)
          apart.requester_log)
        apart.resolver_log
    where
      same : (names : List Text) → AreSame files files names
      same [] = _
      same (name ∷ names) = (refl, same names)

  threaded_main-runs :
      (size : ℕ) (schedule : List Choice)
      → IsRunnable
      → threaded_main size net files answers schedule atoi (arguments c)
        ≡ has_run
            (run net opened (size - 1) resolvers (start c.names requesters) schedule)
            (invalid_names files c.names)
  unfolding threaded_main with_logs
  threaded_main-runs size schedule (apart, accepted, resources) =
      rw
        (
          (check_arguments-starts files atoi c.num_requesters c.num_resolvers c.requester_log_file
                c.resolver_log_file c.names requesters resolvers (invalid_names files c.names)
                c.names).1
              (accepted, refl, refl, refl, refl),
          start_threads-all c.names requesters resolvers answers resources,
        )
        refl

  complete :
      (cap : ℕ) (rounds : List (List Choice))
      → IsRunnable
      → length c.names ≤ cap
      → All (IsFullRound requesters resolvers) rounds
      → work files resolvers (start c.names requesters) < length rounds
      → all allocates (joined rounds) ≡ true
      → IsComplete net files c.names
          (run net opened cap resolvers (start c.names requesters) (joined rounds))
  complete cap rounds (apart, accepted, resources) fits full enough memory =
      let s = opened-AreSame apart in
      let ended =
        fair_ends net opened cap requesters resolvers c.names rounds accepted.requesters
          accepted.resolvers (omega (arith, accepted.some_file, fits)) fits full
          (omega (arith, enough, work-same files opened requesters resolvers c.names s)) in
      let (log, messages) =
        logs-perm net opened cap requesters resolvers c.names (joined rounds) accepted.requesters
          accepted.resolvers memory ended in
      let (serviced, looked_up) =
        counters-final net opened cap requesters resolvers c.names (joined rounds)
          accepted.requesters accepted.resolvers memory ended in
      let same = targets-same files opened c.names s in
      let final = run net opened cap resolvers (start c.names requesters) (joined rounds) in
      record {
        done = ended;
        requester_log = subst (Perm final.requester_log) same log;
        resolver_log = subst (λ hs. Perm final.resolver_log (map (resolved net) hs)) same messages;
        files_serviced = serviced ∙ opens-same files opened c.names s;
        hosts_resolved = looked_up ∙ ap length same;
      }

  -- Every thread has its turn in each of enough rounds, and the allocations succeed.
  pub record IsServed (rounds : List (List Choice)) : Type 0 where
    pub full : All (IsFullRound requesters resolvers) rounds
    pub enough : work files resolvers (start c.names requesters) < length rounds
    pub memory : all allocates (joined rounds) ≡ true

  -- multi-lookup is correct from its command line on. Let the two logs differ from each other and from
  -- all data files, the checks of the command line pass, no call at the start fail, and at most 255
  -- data files be named. Then in every schedule that gives
  -- each thread its turn in each of more rounds than there is work, and in which the allocations
  -- succeed, main ends, having reported the names that do not open; the requester log has the
  -- non-empty lines of the files that open, and the resolver log their messages, each as often and
  -- nothing else; and it counts the files that open, and these lines.
  pub multi_lookup_correct :
      (rounds : List (List Choice))
      → IsRunnable
      → length c.names ≤ 255
      → IsServed rounds
      → (s : State) × (multi_lookup net files atoi answers (arguments c) (joined rounds)
          ≡ has_run s (invalid_names files c.names))
        × IsComplete net files c.names s
  unfolding multi_lookup
  multi_lookup_correct rounds runnable fits served = (
    run net opened 255 resolvers (start c.names requesters) (joined rounds),
    threaded_main-runs 256 (joined rounds) runnable,
    complete 255 rounds runnable fits served.full served.enough served.memory,
  )

  -- dnsthreaded is correct in the same sense when at most 7 data files are named.
  dnsthreaded_correct :
      (rounds : List (List Choice))
      → IsRunnable
      → length c.names ≤ 7
      → IsServed rounds
      → (s : State) × (dnsthreaded net files atoi answers (arguments c) (joined rounds)
          ≡ has_run s (invalid_names files c.names))
        × IsComplete net files c.names s
  unfolding dnsthreaded
  dnsthreaded_correct rounds runnable fits served = (
    run net opened 7 resolvers (start c.names requesters) (joined rounds),
    threaded_main-runs 8 (joined rounds) runnable,
    complete 7 rounds runnable fits served.full served.enough served.memory,
  )

  -- Two complete runs agree.
  agree :
      {s t : State}
      → IsComplete net files c.names s
      → IsComplete net files c.names t
      → Perm s.requester_log t.requester_log
        × Perm s.resolver_log t.resolver_log
        × (s.files_serviced ≡ t.files_serviced)
        × (s.hosts_resolved ≡ t.hosts_resolved)
  agree a b = (
    Perm.trans a.requester_log (Perm.symm b.requester_log),
    Perm.trans a.resolver_log (Perm.symm b.resolver_log),
    a.files_serviced ∙ sym b.files_serviced,
    a.hosts_resolved ∙ sym b.hosts_resolved,
  )

  -- multi-lookup and dnsthreaded, each in a schedule of its own that gives each thread its turn in
  -- enough rounds, with no call at the start failing and the allocations succeeding, both end, write
  -- the same lines to both logs, up to order, and count the same files and hosts, when the two logs
  -- differ from each other and from all data files, the checks of the command line pass and at most 7
  -- data files are named.
  pub versions_agree :
      (rounds rounds' : List (List Choice))
      → IsRunnable
      → length c.names ≤ 7
      → IsServed rounds
      → IsServed rounds'
      → (s : State) × (t : State) × (multi_lookup net files atoi answers
            (arguments c)
            (joined rounds)
          ≡ has_run s (invalid_names files c.names))
        × (dnsthreaded net files atoi answers (arguments c) (joined rounds')
            ≡ has_run t (invalid_names files c.names))
        × (s.main ≡ main_done)
        × (t.main ≡ main_done)
        × Perm s.requester_log t.requester_log
        × Perm s.resolver_log t.resolver_log
        × (s.files_serviced ≡ t.files_serviced)
        × (s.hosts_resolved ≡ t.hosts_resolved)
  versions_agree rounds rounds' runnable fits served served' =
      let (s, es, a) = multi_lookup_correct rounds runnable (omega arith) served in
      let (t, et, b) = dnsthreaded_correct rounds' runnable fits served' in
      let (lines, messages, serviced, looked_up) = agree a b in
      (s, t, es, et, a.done, b.done, lines, messages, serviced, looked_up)

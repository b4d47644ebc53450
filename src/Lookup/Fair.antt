-- ===== src/Lookup/Fair.antt =====
-- The pipeline under a fair schedule: one in which every thread has its turn again and again.
pub mod Tests
use os_dns_resolver.Base.{
  get_elem?-beyond, ℕ, suc, zero, ◌≡◌, ◌<◌, ◌≤◌, refl, ap, sym, ◌∙◌, List, [], ◌∷◌, true, false,
  some, none, length, arith, get_elem?, All, Bool-cases, inl, inr,
}
use native.Mathlib.Decide.{dec_lt}
use mathlib.Core.Path.{subst}
use os_dns_resolver.Strings.{Text}
use os_dns_resolver.Resolve.{Net}
use os_dns_resolver.Simple.{Files}
use os_dns_resolver.Schedules
use os_dns_resolver.Schedules.{Has, joined, IsIdleRound, idle_step, rounds_done}
use os_dns_resolver.Lookup.Program.{
  State, main_done, main_step, Choice, main_runs, requester_runs, resolver_runs,
  requester_logger_runs, resolver_logger_runs, run_requester, run_resolver, step, run, start,
}
use os_dns_resolver.Lookup.Phases.{IsPhased, is_before_create}
use os_dns_resolver.Lookup.Phases.Runs.{step-IsPhased, start-IsPhased}
use os_dns_resolver.Lookup.Staff.{IsStaffed, step-IsStaffed, start-IsStaffed}
use os_dns_resolver.Lookup.Work.{work}
use os_dns_resolver.Lookup.Work.Runs.{step-work}
use os_dns_resolver.Lookup.Weights.Runs.{allocates}
use os_dns_resolver.Lookup.Ready.{IsReady}
use os_dns_resolver.Lookup.Ready.Runs.{step-IsReady, start-IsReady}
use os_dns_resolver.Lookup.Rest.Done.{IsAtRest, comes_to_end}

-- Every thread has a turn in which its allocations succeed. There may be other turns.
pub record IsFullRound (n m : ℕ) (cs : List Choice) : Type 0 where
  pub main : Has cs (main_runs true)
  pub requesters : (i : ℕ) → i < n → Has cs (requester_runs i true)
  pub resolvers : (i : ℕ) → i < m → Has cs (resolver_runs i true true)
  pub requester_logger : Has cs requester_logger_runs
  pub resolver_logger : Has cs resolver_logger_runs

-- The invariants of the pipeline.
record IsSound (cap n m : ℕ) (s : State) : Type 0 where
  phased : IsPhased s
  ready : IsReady cap s
  staffed : IsStaffed n m s

module _ (net : Net) (files : Files) (cap n m : ℕ) where
  abbrev next : State → Choice → State
  next = step net files cap m

  run-eq : (s : State) (cs : List Choice) → run net files cap m s cs ≡ Schedules.run next s cs
  unfolding run Schedules.run
  run-eq s [] = refl
  run-eq s (c ∷ cs) = run-eq (next s c) cs

  step-IsSound : (s : State) (c : Choice) → IsSound cap n m s → IsSound cap n m (next s c)
  step-IsSound s c v = record {
    phased = step-IsPhased net files cap m s c v.phased;
    ready = step-IsReady net files cap m s c v.phased v.ready;
    staffed = step-IsStaffed net files cap n m s c v.staffed;
  }

  step-main_done : (s : State) (c : Choice) → s.main ≡ main_done → (next s c).main ≡ main_done
  unfolding step main_step
  step-main_done s (main_runs ok) e = ground arith
  step-main_done s (requester_runs i ok) e = ground arith
  step-main_done s (resolver_runs i ip_ok ok) e = ground arith
  step-main_done s c e = ground arith

  length-resolvers : (s : State) → IsSound cap n m s → length s.resolvers ≤ m
  length-resolvers s v = elim (Bool-cases (is_before_create s.main)) [
    | inl before ↦ omega (arith, ap length (v.phased.uncreated before))
    | inr behind ↦ omega (arith, v.staffed.resolvers behind)
  ]

  -- A full round that changes nothing leaves no thread that can go on.
  idle-IsAtRest :
      (s : State) (cs : List Choice)
      → IsSound cap n m s
      → IsFullRound n m cs
      → IsIdleRound next s cs
      → IsAtRest net files cap n m s
  unfolding step
  idle-IsAtRest s cs v full idle (main_runs true) h =
      idle_step next s cs (main_runs true) idle full.main
  idle-IsAtRest s cs v full idle (main_runs false) h = cc
  idle-IsAtRest s cs v full idle (requester_runs i true) h = elim (dec_lt i n) [
    | yes lt ↦ idle_step next s cs (requester_runs i true) idle (full.requesters i lt)
    | no ge ↦
        ap (run_requester net files cap m i true s)
          (get_elem?-beyond s.requesters i (omega (arith, ge, v.staffed.requesters)))
  ]
  idle-IsAtRest s cs v full idle (requester_runs i false) h = cc
  idle-IsAtRest s cs v full idle (resolver_runs i true true) h = elim (dec_lt i m) [
    | yes lt ↦ idle_step next s cs (resolver_runs i true true) idle (full.resolvers i lt)
    | no ge ↦
        ap (run_resolver net files cap m i true true s)
          (get_elem?-beyond s.resolvers i (omega (arith, ge, length-resolvers s v)))
  ]
  idle-IsAtRest s cs v full idle (resolver_runs i true false) h = cc
  idle-IsAtRest s cs v full idle (resolver_runs i false ok) h = cc
  idle-IsAtRest s cs v full idle requester_logger_runs h =
      idle_step next s cs requester_logger_runs idle full.requester_logger
  idle-IsAtRest s cs v full idle resolver_logger_runs h =
      idle_step next s cs resolver_logger_runs idle full.resolver_logger

-- multi-lookup ends in every fair schedule when the file names fit in their queue: with at least one
-- requester, one resolver and room for one item, and at most as many file names as the queue has
-- room for, main is done after more rounds than the start has work, whatever the order of the
-- threads in a round and whichever further turns, with failing allocations or not, a round has.
pub fair_ends :
    (net : Net) (files : Files) (cap n m : ℕ) (names : List Text) (rounds : List (List Choice))
    → 0 < n
    → 0 < m
    → 0 < cap
    → length names ≤ cap
    → All (IsFullRound n m) rounds
    → work files m (start names n) < length rounds
    → (run net files cap m (start names n) (joined rounds)).main ≡ main_done
fair_ends net files cap n m names rounds hn hm hc fits full enough =
    ap (λ t. t.main) (run-eq net files cap n m (start names n) (joined rounds))
    ∙ rounds_done (next net files cap n m) (IsSound cap n m) (step-IsSound net files cap n m)
        (work files m) (λ s c v. step-work net files cap m s c v.phased) (IsFullRound n m)
        (λ s. s.main ≡ main_done) (step-main_done net files cap n m)
        (λ s cs v round idle.
          comes_to_end net files cap n m s v.phased v.ready
            (idle-IsAtRest net files cap n m s cs v round idle) hc hn hm v.staffed)
        (start names n) rounds
        (record {
          phased = start-IsPhased names n;
          ready = start-IsReady cap n names hn fits;
          staffed = start-IsStaffed n m names;
        })
        full enough

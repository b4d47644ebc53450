-- ===== src/Lookup/Ready/Runs.antt =====
-- Readiness along a run.
use os_dns_resolver.Base.{
  ℕ, ◌≡◌, ◌<◌, ◌≤◌, refl, List, [], ◌∷◌, Bool, Option, some, none, length, arith, get_elem?,
  total-le,
}
use os_dns_resolver.Strings.{Text}
use os_dns_resolver.Resolve.{Net}
use os_dns_resolver.Simple.{Files}
use os_dns_resolver.Lookup.Threads.{Requester, Resolver}
use os_dns_resolver.Lookup.Program.{
  State, start, Choice, main_runs, requester_runs, resolver_runs, requester_logger_runs,
  resolver_logger_runs, run_requester, run_resolver, step, run,
}
use os_dns_resolver.Lookup.Phases.{is_reading, IsPhased}
use os_dns_resolver.Lookup.Phases.Effects.{requester_step-IsReqEffect, logger_step-IsLogEffect}
use os_dns_resolver.Lookup.Phases.Runs.{step-IsPhased, total-reading}
use os_dns_resolver.Lookup.Ready.{
  IsReady, requester_step-IsKept, requester_step-closing, resolver_step-IsKept,
  set_requester-IsReady, set_resolver-IsReady, main_step-IsReady,
}

module _ (net : Net) (files : Files) (cap resolvers : ℕ) where
  run_requester-IsReady :
      (i : ℕ) (ok : Bool) (s : State) (o : Option Requester)
      → get_elem? s.requesters i ≡ o
      → IsPhased s
      → IsReady cap s
      → IsReady cap (run_requester net files cap resolvers i ok s o)
  run_requester-IsReady i ok s none e p v = v
  run_requester-IsReady i ok s (some r) e p v =
      set_requester-IsReady cap s v i r _ _ _ e p
        (requester_step-IsReqEffect files cap ok r s.shared
          (omega (arith, p.counted, total-le is_reading s.requesters i e))).falls
        (requester_step-IsKept files cap ok r s.shared)
        (requester_step-closing files cap ok r s.shared)

  run_resolver-IsReady :
      (i : ℕ) (ip_ok ok : Bool) (s : State) (o : Option Resolver)
      → IsReady cap s
      → IsReady cap (run_resolver net files cap resolvers i ip_ok ok s o)
  run_resolver-IsReady i ip_ok ok s none v = v
  run_resolver-IsReady i ip_ok ok s (some r) v =
      set_resolver-IsReady cap s v i _ _ _ (resolver_step-IsKept net cap ip_ok ok r s.shared)

  pub step-IsReady :
      (s : State) (c : Choice)
      → IsPhased s
      → IsReady cap s
      → IsReady cap (step net files cap resolvers s c)
  unfolding step
  step-IsReady s (main_runs ok) p v = main_step-IsReady cap s v files resolvers ok s.main refl
  step-IsReady s (requester_runs i ok) p v =
      run_requester-IsReady i ok s (get_elem? s.requesters i) refl p v
  step-IsReady s (resolver_runs i ip_ok ok) p v =
      run_resolver-IsReady i ip_ok ok s (get_elem? s.resolvers i) v
  step-IsReady s requester_logger_runs p v = ground (
    arith,
    v,
    logger_step-IsLogEffect s.requester_logger s.shared.requester_logfile_queue s.requester_log,
  )
  step-IsReady s resolver_logger_runs p v = ground (
    arith,
    v,
    logger_step-IsLogEffect s.resolver_logger s.shared.resolver_logfile_queue s.resolver_log,
  )

  pub run-IsReady :
      (s : State) (cs : List Choice)
      → IsPhased s
      → IsReady cap s
      → IsReady cap (run net files cap resolvers s cs)
  unfolding run
  run-IsReady s [] p v = v
  run-IsReady s (c ∷ cs) p v =
      run-IsReady (step net files cap resolvers s c) cs
        (step-IsPhased net files cap resolvers s c p) (step-IsReady s c p v)

pub start-IsReady :
    (cap n : ℕ) (names : List Text) → 0 < n → length names ≤ cap → IsReady cap (start names n)
unfolding start
start-IsReady cap n names hn h = ground (arith, total-reading n)

-- ===== src/Lookup/Phases/Runs.antt =====
-- The phases along a run.
use os_dns_resolver.Base.{
  ℕ, suc, zero, ◌≡◌, refl, List, [], ◌∷◌, Bool, arith, get_elem?, some, none, Option, total,
  total-le, replicate, total-replicate,
}
use os_dns_resolver.Strings.{Text}
use os_dns_resolver.Resolve.{Net}
use os_dns_resolver.Simple.{Files}
use os_dns_resolver.Lookup.Threads.{Requester, req_get, Resolver}
use os_dns_resolver.Lookup.Program.{
  State, start, Choice, main_runs, requester_runs, resolver_runs, requester_logger_runs,
  resolver_logger_runs, run_requester, run_resolver, step, run,
}
use os_dns_resolver.Lookup.Phases.{is_reading, is_freeing, is_past_files, IsPhased}
use os_dns_resolver.Lookup.Phases.Effects.{
  requester_step-IsReqEffect, requester_step-IsLasting, resolver_step-IsResEffect,
  resolver_step-IsLasting, logger_step-IsLogEffect,
}
use os_dns_resolver.Lookup.Phases.Steps.{
  set_requester-IsPhased, set_resolver-IsPhased, set_requester_logger-IsPhased,
  set_resolver_logger-IsPhased, main_step-IsPhased,
}

pub total-reading : (n : ℕ) → total is_reading (replicate n req_get) ≡ n
total-reading zero = refl
total-reading (suc n) = omega (arith, total-reading n)

pub start-IsPhased : (names : List Text) (n : ℕ) → IsPhased (start names n)
unfolding start
start-IsPhased names n = ground (
  arith,
  total-reading n,
  total-replicate is_freeing n req_get refl,
  total-replicate is_past_files n req_get refl,
)

module _ (net : Net) (files : Files) (cap resolvers : ℕ) where
  run_requester-IsPhased :
      (i : ℕ) (ok : Bool) (s : State) (o : Option Requester)
      → get_elem? s.requesters i ≡ o
      → IsPhased s
      → IsPhased (run_requester net files cap resolvers i ok s o)
  run_requester-IsPhased i ok s none e v = v
  run_requester-IsPhased i ok s (some r) e v =
      set_requester-IsPhased s v i r _ _ _ e
        (requester_step-IsReqEffect files cap ok r s.shared
          (omega (arith, v.counted, total-le is_reading s.requesters i e)))
        (requester_step-IsLasting files cap ok r s.shared)

  run_resolver-IsPhased :
      (i : ℕ) (ip_ok ok : Bool) (s : State) (o : Option Resolver)
      → get_elem? s.resolvers i ≡ o
      → IsPhased s
      → IsPhased (run_resolver net files cap resolvers i ip_ok ok s o)
  run_resolver-IsPhased i ip_ok ok s none e v = v
  run_resolver-IsPhased i ip_ok ok s (some r) e v =
      set_resolver-IsPhased s v i r _ _ _ e (resolver_step-IsResEffect net cap ip_ok ok r s.shared)
        (resolver_step-IsLasting net cap ip_ok ok r s.shared)

  pub step-IsPhased :
      (s : State) (c : Choice) → IsPhased s → IsPhased (step net files cap resolvers s c)
  unfolding step
  step-IsPhased s (main_runs ok) v = main_step-IsPhased files cap resolvers ok s v s.main refl
  step-IsPhased s (requester_runs i ok) v =
      run_requester-IsPhased i ok s (get_elem? s.requesters i) refl v
  step-IsPhased s (resolver_runs i ip_ok ok) v =
      run_resolver-IsPhased i ip_ok ok s (get_elem? s.resolvers i) refl v
  step-IsPhased s requester_logger_runs v =
      set_requester_logger-IsPhased s v _ _ _ (
        logger_step-IsLogEffect s.requester_logger s.shared.requester_logfile_queue s.requester_log)
  step-IsPhased s resolver_logger_runs v =
      set_resolver_logger-IsPhased s v _ _ _
        (logger_step-IsLogEffect s.resolver_logger s.shared.resolver_logfile_queue s.resolver_log)

  pub run-IsPhased :
      (s : State) (cs : List Choice) → IsPhased s → IsPhased (run net files cap resolvers s cs)
  unfolding run
  run-IsPhased s [] v = v
  run-IsPhased s (c ∷ cs) v =
      run-IsPhased (step net files cap resolvers s c) cs (step-IsPhased s c v)

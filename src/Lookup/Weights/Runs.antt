-- ===== src/Lookup/Weights/Runs.antt =====
-- The weight of a state along a run.
use os_dns_resolver.Base.{
  ℕ, ◌≡◌, refl, [], ◌∷◌, Bool, true, false, ◌&&◌, arith, get_elem?, some, none, Option,
  total-append, total-set, total-le, total-replicate, List, ◌∙◌,
}
use os_dns_resolver.Strings.{Text}
use os_dns_resolver.Resolve.{Net}
use os_dns_resolver.Simple.{Files}
use os_dns_resolver.Lookup.Threads.{Requester, res_get, requester_step, Resolver, resolver_step}
use os_dns_resolver.Lookup.Program.{
  State, Main, main_fill, main_put, main_create, main_step, Choice, main_runs, requester_runs,
  resolver_runs, run_requester, step, run, run_resolver, all, requester_logger_runs,
  resolver_logger_runs,
}
use os_dns_resolver.Lookup.Phases.{is_reading, is_filling, is_before_create, IsPhased, is_resolving}
use os_dns_resolver.Lookup.Weights.{weight, file_weight, requester_weight, resolver_weight}
use os_dns_resolver.Lookup.Weights.Steps.{
  requester_step-weight, logger_step-weight, resolver_step-weight,
}
use os_dns_resolver.Lookup.Phases.Runs.{step-IsPhased}
use os_dns_resolver.Fifo

-- A step of main that finds its queue open, and memory for its copy.
main_step-weight :
    (u v : Text → ℕ) (net : Net) (files : Files) (cap resolvers : ℕ) (m : Main) (s : State)
    → s.main ≡ m
    → (is_filling m ≡ true → s.shared.filename_queue.closed ≡ false)
    → (is_before_create m ≡ true → s.resolvers ≡ [])
    → weight u v net files (main_step files cap resolvers true m s) ≡ weight u v net files s
unfolding main_step Fifo.put Fifo.close
main_step-weight u v net files cap resolvers (main_fill []) s e unclosed new = ground arith
main_step-weight u v net files cap resolvers (main_fill (name ∷ names)) s e unclosed new =
    ground arith
main_step-weight u v net files cap resolvers (main_put name names) s e unclosed new =
    ground
      (arith, total-append (file_weight u v net files) s.shared.filename_queue.items (name ∷ []))
main_step-weight u v net files cap resolvers main_create s e unclosed new =
    ground (arith, total-replicate (resolver_weight u v net files) resolvers res_get refl)
main_step-weight u v net files cap resolvers m s e unclosed new = ground arith

-- The allocations of a step succeed.
abbrev pub allocates : Choice → Bool
allocates (main_runs ok) = ok
allocates (requester_runs i ok) = ok
allocates (resolver_runs i ip_ok ok) = ip_ok && ok
allocates c = true

module _ (u v : Text → ℕ) (net : Net) (files : Files) (cap resolvers : ℕ) where
  run_requester-weight :
      (i : ℕ) (s : State) (o : Option Requester)
      → get_elem? s.requesters i ≡ o
      → IsPhased s
      → weight u v net files (run_requester net files cap resolvers i true s o)
        ≡ weight u v net files s
  run_requester-weight i s none e p = refl
  run_requester-weight i s (some r) e p = ground (
    arith,
    total-set (requester_weight u v net files) s.requesters i
        (requester_step files cap true r s.shared).0 e,
    total-le is_reading s.requesters i e,
    requester_step-weight u v net files cap r s.shared,
    p,
  )

  run_resolver-weight :
      (i : ℕ) (s : State) (o : Option Resolver)
      → get_elem? s.resolvers i ≡ o
      → IsPhased s
      → weight u v net files (run_resolver net files cap resolvers i true true s o)
        ≡ weight u v net files s
  run_resolver-weight i s none e p = refl
  run_resolver-weight i s (some r) e p = ground (
    arith,
    total-set (resolver_weight u v net files) s.resolvers i
        (resolver_step net cap true true r s.shared).0 e,
    total-le is_resolving s.resolvers i e,
    resolver_step-weight u v net files cap r s.shared,
    p,
  )

  step-weight :
      (s : State) (c : Choice)
      → allocates c ≡ true
      → IsPhased s
      → weight u v net files (step net files cap resolvers s c) ≡ weight u v net files s
  unfolding step
  step-weight s (main_runs true) h p =
      main_step-weight u v net files cap resolvers s.main s refl (ground (arith, p)) p.uncreated
  step-weight s (main_runs false) h p = cc
  step-weight s (requester_runs i true) h p =
      run_requester-weight i s (get_elem? s.requesters i) refl p
  step-weight s (requester_runs i false) h p = cc
  step-weight s (resolver_runs i true true) h p =
      run_resolver-weight i s (get_elem? s.resolvers i) refl p
  step-weight s (resolver_runs i true false) h p = cc
  step-weight s (resolver_runs i false ok) h p = cc
  step-weight s requester_logger_runs h p = omega (
    arith,
    logger_step-weight u s.requester_logger s.shared.requester_logfile_queue s.requester_log,
  )
  step-weight s resolver_logger_runs h p =
      omega (
        arith,
        logger_step-weight v s.resolver_logger s.shared.resolver_logfile_queue s.resolver_log,
      )

  -- The weight at the end of a run is that at its start.
  pub run-weight :
      (s : State) (cs : List Choice)
      → all allocates cs ≡ true
      → IsPhased s
      → weight u v net files (run net files cap resolvers s cs) ≡ weight u v net files s
  unfolding run
  run-weight s [] h p = refl
  run-weight s (c ∷ cs) h p =
      run-weight (step net files cap resolvers s c) cs (ground arith)
        (step-IsPhased net files cap resolvers s c p)
      ∙ step-weight s c (ground arith) p

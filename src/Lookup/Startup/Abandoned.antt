-- ===== src/Lookup/Startup/Abandoned.antt =====
-- The program when no requester could be created.
use os_dns_resolver.Base.{
  ℕ, ◌≡◌, ◌≢◌, ◌<◌, refl, List, [], ◌∷◌, Bool, false, Option, some, none, total, total-set,
  total-le, total-replicate, arith, get_elem?,
}
use os_dns_resolver.Strings.{Text}
use os_dns_resolver.Resolve.{Net}
use os_dns_resolver.Simple.{Files}
use os_dns_resolver.Lookup.Threads.{Resolver, res_get, resolver_step}
use os_dns_resolver.Lookup.Program.{
  State, Main, main_fill, main_put, main_create, main_done, main_step, Choice, main_runs,
  requester_runs, resolver_runs, requester_logger_runs, resolver_logger_runs, run_resolver, step,
  run, start,
}
use os_dns_resolver.Lookup.Phases.{is_past_hosts}
use os_dns_resolver.Lookup.Phases.Effects.{resolver_step-IsResEffect}
use os_dns_resolver.Lookup.Phases.Runs.{run-IsPhased, start-IsPhased}
use os_dns_resolver.Lookup.Staff.{run-IsStaffed, start-IsStaffed}
use os_dns_resolver.Lookup.Complete.{resolvers-eq}
use os_dns_resolver.Fifo

-- Nobody is left to close the hostname queue.
pub record IsAbandoned (s : State) : Type 0 where
  pub no_requesters : s.requesters ≡ []
  pub unclosed : s.shared.hostname_queue.closed ≡ false
  pub waiting : total is_past_hosts s.resolvers ≡ 0

module _ (net : Net) (files : Files) (cap m : ℕ) where
  main_step-IsAbandoned :
      (ok : Bool) (x : Main) (s : State)
      → IsAbandoned s
      → IsAbandoned (main_step files cap m ok x s)
  unfolding main_step Fifo.put Fifo.close
  main_step-IsAbandoned ok (main_fill []) s v = ground arith
  main_step-IsAbandoned ok (main_fill (name ∷ names)) s v = ground arith
  main_step-IsAbandoned ok (main_put name names) s v = ground arith
  main_step-IsAbandoned ok main_create s v =
      ground (arith, total-replicate is_past_hosts m res_get refl)
  main_step-IsAbandoned ok x s v = ground arith

  run_resolver-IsAbandoned :
      (i : ℕ) (ip_ok ok : Bool) (s : State) (o : Option Resolver)
      → get_elem? s.resolvers i ≡ o
      → IsAbandoned s
      → IsAbandoned (run_resolver net files cap m i ip_ok ok s o)
  run_resolver-IsAbandoned i ip_ok ok s none e v = v
  run_resolver-IsAbandoned i ip_ok ok s (some r) e v = ground (
    arith,
    v,
    resolver_step-IsResEffect net cap ip_ok ok r s.shared,
    total-set is_past_hosts s.resolvers i (resolver_step net cap ip_ok ok r s.shared).0 e,
    total-le is_past_hosts s.resolvers i e,
  )

  step-IsAbandoned :
      (s : State) (c : Choice) → IsAbandoned s → IsAbandoned (step net files cap m s c)
  unfolding step
  step-IsAbandoned s (main_runs ok) v = main_step-IsAbandoned ok s.main s v
  step-IsAbandoned s (requester_runs i ok) v = ground (arith, v.no_requesters)
  step-IsAbandoned s (resolver_runs i ip_ok ok) v =
      run_resolver-IsAbandoned i ip_ok ok s (get_elem? s.resolvers i) refl v
  step-IsAbandoned s requester_logger_runs v = ground (arith, v)
  step-IsAbandoned s resolver_logger_runs v = ground (arith, v)

  run-IsAbandoned :
      (s : State) (cs : List Choice) → IsAbandoned s → IsAbandoned (run net files cap m s cs)
  unfolding run
  run-IsAbandoned s [] v = v
  run-IsAbandoned s (c ∷ cs) v =
      run-IsAbandoned (step net files cap m s c) cs (step-IsAbandoned s c v)

start-IsAbandoned : (names : List Text) → IsAbandoned (start names 0)
unfolding start
start-IsAbandoned names = ground arith

-- With no requester, hostname_queue is never closed, no resolver ever ends, and so main, if it
-- creates a resolver, is never done, in any interleaving.
pub no_requester-hangs :
    (net : Net) (files : Files) (cap m : ℕ) (names : List Text) (cs : List Choice)
    → 0 < m
    → let s = run net files cap m (start names 0) cs in
      (s.shared.hostname_queue.closed ≡ false)
      × (total is_past_hosts s.resolvers ≡ 0)
      × (s.main ≢ main_done)
no_requester-hangs net files cap m names cs hm =
    let s = run net files cap m (start names 0) cs in
    let v = run-IsAbandoned net files cap m (start names 0) cs (start-IsAbandoned names) in
    (
      v.unclosed,
      v.waiting,
      λ e. ground (
        arith,
        e,
        v.waiting,
        run-IsPhased net files cap m (start names 0) cs (start-IsPhased names 0),
        run-IsStaffed net files cap 0 m (start names 0) cs (start-IsStaffed 0 m names),
        resolvers-eq s.resolvers,
      ),
    )

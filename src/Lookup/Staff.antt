-- ===== src/Lookup/Staff.antt =====
-- The threads of the program along a run.
use os_dns_resolver.Base.{
  ℕ, ◌≡◌, refl, List, [], ◌∷◌, Bool, false, arith, length, length-set, length-replicate, get_elem?,
  some, none, Option,
}
use os_dns_resolver.Strings.{Text}
use os_dns_resolver.Resolve.{Net}
use os_dns_resolver.Simple.{Files}
use os_dns_resolver.Lookup.Threads.{Requester, req_get, Resolver, requester_step, resolver_step}
use os_dns_resolver.Lookup.Program.{
  State, Main, main_fill, main_create, main_step, start, Choice, main_runs, requester_runs,
  resolver_runs, requester_logger_runs, resolver_logger_runs, run_requester, run_resolver, step,
  run,
}
use os_dns_resolver.Lookup.Phases.{is_before_create}

-- The threads of the program: none is lost, and main creates as many resolvers as it was asked for.
pub record IsStaffed (n m : ℕ) (s : State) : Type 0 where
  pub requesters : length s.requesters ≡ n
  pub resolvers : is_before_create s.main ≡ false → length s.resolvers ≡ m

module _ (net : Net) (files : Files) (cap n m : ℕ) where
  main_step-IsStaffed :
      (ok : Bool) (p : Main) (s : State)
      → s.main ≡ p
      → IsStaffed n m s
      → IsStaffed n m (main_step files cap m ok p s)
  unfolding main_step
  main_step-IsStaffed ok (main_fill []) s e h = ground arith
  main_step-IsStaffed ok (main_fill (name ∷ names)) s e h = ground arith
  main_step-IsStaffed ok main_create s e h = ground (arith, length-replicate m Resolver.res_get)
  main_step-IsStaffed ok p s e h = ground arith

  run_requester-IsStaffed :
      (i : ℕ) (ok : Bool) (s : State) (o : Option Requester)
      → IsStaffed n m s
      → IsStaffed n m (run_requester net files cap m i ok s o)
  run_requester-IsStaffed i ok s none h = h
  run_requester-IsStaffed i ok s (some r) h =
      ground (arith, length-set s.requesters i (requester_step files cap ok r s.shared).0)

  run_resolver-IsStaffed :
      (i : ℕ) (ip_ok ok : Bool) (s : State) (o : Option Resolver)
      → IsStaffed n m s
      → IsStaffed n m (run_resolver net files cap m i ip_ok ok s o)
  run_resolver-IsStaffed i ip_ok ok s none h = h
  run_resolver-IsStaffed i ip_ok ok s (some r) h =
      ground (arith, length-set s.resolvers i (resolver_step net cap ip_ok ok r s.shared).0)

  pub step-IsStaffed :
      (s : State) (c : Choice) → IsStaffed n m s → IsStaffed n m (step net files cap m s c)
  unfolding step
  step-IsStaffed s (main_runs ok) h = main_step-IsStaffed ok s.main s refl h
  step-IsStaffed s (requester_runs i ok) h =
      run_requester-IsStaffed i ok s (get_elem? s.requesters i) h
  step-IsStaffed s (resolver_runs i ip_ok ok) h =
      run_resolver-IsStaffed i ip_ok ok s (get_elem? s.resolvers i) h
  step-IsStaffed s requester_logger_runs h = ground arith
  step-IsStaffed s resolver_logger_runs h = ground arith

  pub run-IsStaffed :
      (s : State) (cs : List Choice) → IsStaffed n m s → IsStaffed n m (run net files cap m s cs)
  unfolding run
  run-IsStaffed s [] h = h
  run-IsStaffed s (c ∷ cs) h = run-IsStaffed (step net files cap m s c) cs (step-IsStaffed s c h)

pub start-IsStaffed : (n m : ℕ) (names : List Text) → IsStaffed n m (start names n)
unfolding start
start-IsStaffed n m names = record { requesters = length-replicate n req_get; resolvers = λ h. cc }

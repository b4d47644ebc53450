-- ===== src/Lookup/Seen.antt =====
-- What the queues keep along any steps, and what the threads that have ended have seen.
use os_dns_resolver.Base.{
  ℕ, ◌≡◌, ◌<◌, [], ◌∷◌, Bool, true, Option, some, none, total, arith, get_elem?,
}
use os_dns_resolver.Strings.{Text}
use os_dns_resolver.Fifo.{Fifo}
use os_dns_resolver.Resolve.{Net}
use os_dns_resolver.Simple.{Files}
use os_dns_resolver.Lookup.{Shared}
use os_dns_resolver.Lookup.Threads.{Requester, Resolver, requester_step, resolver_step}
use os_dns_resolver.Lookup.Program.{
  State, Main, main_fill, main_put, main_step, Choice, main_runs, requester_runs, resolver_runs,
  requester_logger_runs, resolver_logger_runs, run_requester, run_resolver, step, is_log_done,
}
use os_dns_resolver.Lookup.Phases.{IsEnded, is_past_files, is_past_hosts}
use os_dns_resolver.Lookup.Phases.Effects.{
  logger_step-IsLogEffect, requester_step-IsLasting, resolver_step-IsLasting,
}
use os_dns_resolver.Lookup.Ready.{requester_step-IsKept, resolver_step-IsKept}
use os_dns_resolver.Fifo

-- No step opens a queue, or refills one that is closed and empty.
pub record IsOnward (q q' : Fifo Text) : Type 0 where
  pub closed : q.closed ≡ true → q'.closed ≡ true
  pub ended : IsEnded q → IsEnded q'

pub record AllOnward (s s' : Shared) : Type 0 where
  pub files : IsOnward s.filename_queue s'.filename_queue
  pub hosts : IsOnward s.hostname_queue s'.hostname_queue
  pub requester_log : IsOnward s.requester_logfile_queue s'.requester_logfile_queue
  pub resolver_log : IsOnward s.resolver_logfile_queue s'.resolver_logfile_queue

pub record IsSeen (s : State) : Type 0 where
  pub files : 0 < total is_past_files s.requesters → IsEnded s.shared.filename_queue
  pub hosts : 0 < total is_past_hosts s.resolvers → IsEnded s.shared.hostname_queue
  pub requester_log :
      is_log_done s.requester_logger ≡ true → IsEnded s.shared.requester_logfile_queue
  pub resolver_log : is_log_done s.resolver_logger ≡ true → IsEnded s.shared.resolver_logfile_queue

module _ (net : Net) (files : Files) (cap resolvers : ℕ) where
  main_step-AllOnward :
      (ok : Bool) (m : Main) (s : State)
      → AllOnward s.shared (main_step files cap resolvers ok m s).shared
  unfolding main_step Fifo.put Fifo.close
  main_step-AllOnward ok (main_fill []) s = ground arith
  main_step-AllOnward ok (main_fill (name ∷ names)) s = ground arith
  main_step-AllOnward ok (main_put name names) s = ground arith
  main_step-AllOnward ok m s = ground arith

  requester_step-AllOnward :
      (ok : Bool) (r : Requester) (s : Shared) → AllOnward s (requester_step files cap ok r s).1
  requester_step-AllOnward ok r s =
      ground
        (arith, requester_step-IsKept files cap ok r s, requester_step-IsLasting files cap ok r s)

  resolver_step-AllOnward :
      (ip_ok ok : Bool) (r : Resolver) (s : Shared)
      → AllOnward s (resolver_step net cap ip_ok ok r s).1
  resolver_step-AllOnward ip_ok ok r s = ground (
    arith,
    resolver_step-IsKept net cap ip_ok ok r s,
    resolver_step-IsLasting net cap ip_ok ok r s,
  )

  run_requester-AllOnward :
      (i : ℕ) (ok : Bool) (s : State) (o : Option Requester)
      → AllOnward s.shared (run_requester net files cap resolvers i ok s o).shared
  run_requester-AllOnward i ok s none = ground arith
  run_requester-AllOnward i ok s (some r) = requester_step-AllOnward ok r s.shared

  run_resolver-AllOnward :
      (i : ℕ) (ip_ok ok : Bool) (s : State) (o : Option Resolver)
      → AllOnward s.shared (run_resolver net files cap resolvers i ip_ok ok s o).shared
  run_resolver-AllOnward i ip_ok ok s none = ground arith
  run_resolver-AllOnward i ip_ok ok s (some r) = resolver_step-AllOnward ip_ok ok r s.shared

  pub step-AllOnward :
      (s : State) (c : Choice) → AllOnward s.shared (step net files cap resolvers s c).shared
  unfolding step
  step-AllOnward s (main_runs ok) = main_step-AllOnward ok s.main s
  step-AllOnward s (requester_runs i ok) = run_requester-AllOnward i ok s (get_elem? s.requesters i)
  step-AllOnward s (resolver_runs i ip_ok ok) =
      run_resolver-AllOnward i ip_ok ok s (get_elem? s.resolvers i)
  step-AllOnward s requester_logger_runs = ground (
    arith,
    logger_step-IsLogEffect s.requester_logger s.shared.requester_logfile_queue s.requester_log,
  )
  step-AllOnward s resolver_logger_runs = ground (
    arith,
    logger_step-IsLogEffect s.resolver_logger s.shared.resolver_logfile_queue s.resolver_log,
  )

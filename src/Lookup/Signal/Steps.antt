-- ===== src/Lookup/Signal/Steps.antt =====
-- What a step of a thread but main leaves.
use os_dns_resolver.Base.{
  ℕ, ◌≡◌, ◌<◌, ◌⊎◌, inl, inr, refl, Bool, false, Option, some, none, length, total-set, total-le,
  arith, get_elem?, Option-cases, length-set,
}
use os_dns_resolver.Fifo.{Fifo}
use os_dns_resolver.Resolve.{Net}
use os_dns_resolver.Simple.{Files}
use os_dns_resolver.Lookup.{Shared}
use os_dns_resolver.Lookup.Threads.{
  Requester, req_get, req_read, req_log, req_copy, req_host, requester_step, Resolver,
  resolver_step,
}
use os_dns_resolver.Lookup.Program.{
  State, Choice, main_runs, requester_runs, resolver_runs, requester_logger_runs,
  resolver_logger_runs, run_requester, run_resolver, step,
}
use os_dns_resolver.Lookup.Phases.{IsEnded, is_past_files, is_past_hosts}
use os_dns_resolver.Lookup.Phases.Effects.{resolver_step-IsResEffect, logger_step-IsLogEffect}
use os_dns_resolver.Lookup.Seen.{IsSeen, AllOnward}
use os_dns_resolver.Lookup.Work.Runs.{is_main_choice}
use os_dns_resolver.Fifo

-- A requester that is past the files has found their queue closed and empty.
requester_step-past :
    (files : Files) (cap : ℕ) (ok : Bool) (r : Requester) (s : Shared)
    → 0 < is_past_files (requester_step files cap ok r s).0
    → (0 < is_past_files r) ⊎ IsEnded s.filename_queue
unfolding requester_step Fifo.get Fifo.put Fifo.close
requester_step-past files cap ok req_get s h = ground arith
requester_step-past files cap ok (req_read bytes) s h = ground arith
requester_step-past files cap ok (req_log t rest) s h = ground arith
requester_step-past files cap ok (req_copy t rest) s h = ground arith
requester_step-past files cap ok (req_host t rest) s h = ground arith
requester_step-past files cap ok r s h = ground arith

module _ (net : Net) (files : Files) (cap n m : ℕ) where
  run_requester-IsSeen :
      (i : ℕ) (ok : Bool) (s : State) (o : Option Requester)
      → get_elem? s.requesters i ≡ o
      → IsSeen s
      → AllOnward s.shared (run_requester net files cap m i ok s o).shared
      → IsSeen (run_requester net files cap m i ok s o)
  run_requester-IsSeen i ok s none e k o = k
  run_requester-IsSeen i ok s (some r) e k o =
      let r' = (requester_step files cap ok r s.shared).0 in
      record {
        files = λ h. o.files.ended (
            ground (
              arith,
              h,
              k.files,
              requester_step-past files cap ok r s.shared,
              total-set is_past_files s.requesters i r' e,
              total-le is_past_files s.requesters i e,
            ));
        hosts = λ h. o.hosts.ended (k.hosts h);
        requester_log = λ h. o.requester_log.ended (k.requester_log h);
        resolver_log = λ h. o.resolver_log.ended (k.resolver_log h);
      }

  run_resolver-IsSeen :
      (i : ℕ) (ip_ok ok : Bool) (s : State) (o : Option Resolver)
      → get_elem? s.resolvers i ≡ o
      → IsSeen s
      → AllOnward s.shared (run_resolver net files cap m i ip_ok ok s o).shared
      → IsSeen (run_resolver net files cap m i ip_ok ok s o)
  run_resolver-IsSeen i ip_ok ok s none e k o = k
  run_resolver-IsSeen i ip_ok ok s (some r) e k o =
      let r' = (resolver_step net cap ip_ok ok r s.shared).0 in
      let past = (resolver_step-IsResEffect net cap ip_ok ok r s.shared).past in
      record {
        files = λ h. o.files.ended (k.files h);
        hosts = λ h. o.hosts.ended (
            ground (
              arith,
              h,
              k.hosts,
              past,
              total-set is_past_hosts s.resolvers i r' e,
              total-le is_past_hosts s.resolvers i e,
            ));
        requester_log = λ h. o.requester_log.ended (k.requester_log h);
        resolver_log = λ h. o.resolver_log.ended (k.resolver_log h);
      }

  pub thread_step-IsSeen :
      (s : State) (c : Choice)
      → is_main_choice c ≡ false
      → IsSeen s
      → AllOnward s.shared (step net files cap m s c).shared
      → IsSeen (step net files cap m s c)
  unfolding step
  thread_step-IsSeen s (main_runs ok) h k o = ground (arith, h)
  thread_step-IsSeen s (requester_runs i ok) h k o =
      run_requester-IsSeen i ok s (get_elem? s.requesters i) refl k o
  thread_step-IsSeen s (resolver_runs i ip_ok ok) h k o =
      run_resolver-IsSeen i ip_ok ok s (get_elem? s.resolvers i) refl k o
  thread_step-IsSeen s requester_logger_runs h k o =
      let x =
        logger_step-IsLogEffect s.requester_logger s.shared.requester_logfile_queue
          s.requester_log in
      record {
        files = k.files;
        hosts = k.hosts;
        requester_log = λ h. o.requester_log.ended (ground (arith, x.past h, k.requester_log));
        resolver_log = k.resolver_log;
      }
  thread_step-IsSeen s resolver_logger_runs h k o =
      let x =
        logger_step-IsLogEffect s.resolver_logger s.shared.resolver_logfile_queue s.resolver_log in
      record {
        files = k.files;
        hosts = k.hosts;
        requester_log = k.requester_log;
        resolver_log = λ h. o.resolver_log.ended (ground (arith, x.past h, k.resolver_log));
      }

  pub thread_step-lengths :
      (s : State) (c : Choice)
      → is_main_choice c ≡ false
      → let s' = step net files cap m s c in
        (length s'.requesters ≡ length s.requesters) × (length s'.resolvers ≡ length s.resolvers)
  unfolding step
  thread_step-lengths s (main_runs ok) h = ground (arith, h)
  thread_step-lengths s (requester_runs i ok) h = elim (Option-cases (get_elem? s.requesters i)) [
    | inl e ↦ simp e (refl, refl)
    | inr (r, e) ↦
        simp e (length-set s.requesters i (requester_step files cap ok r s.shared).0, refl)
  ]
  thread_step-lengths s (resolver_runs i ip_ok ok) h =
      elim (Option-cases (get_elem? s.resolvers i)) [
        | inl e ↦ simp e (refl, refl)
        | inr (r, e) ↦
            simp e (refl, length-set s.resolvers i (resolver_step net cap ip_ok ok r s.shared).0)
      ]
  thread_step-lengths s c h = (refl, refl)

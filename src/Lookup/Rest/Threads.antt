-- ===== src/Lookup/Rest/Threads.antt =====
-- The threads but main, where none of them can go on.
use os_dns_resolver.Base.{
  ℕ, suc, ◌+◌, ◌≡◌, ◌<◌, refl, ap, List, [], ◌∷◌, Bool, true, false, some, total-set, total-le,
  arith, get_elem?,
}
use os_dns_resolver.Resolve.{Net}
use os_dns_resolver.Simple.{Files}
use os_dns_resolver.Lookup.Threads.{Requester, Resolver, requester_step, resolver_step}
use os_dns_resolver.Lookup.Program.{
  State, Choice, requester_runs, resolver_runs, requester_logger_runs, resolver_logger_runs,
  run_requester, run_resolver, step, all, is_req_done, is_log_done, is_res_done,
}
use os_dns_resolver.Lookup.Phases.{is_past_hosts}
use os_dns_resolver.Lookup.Seen.{IsSeen}
use os_dns_resolver.Lookup.Work.Runs.{is_main_choice}
use os_dns_resolver.Lookup.Work.{work, shared_work, requester_work, resolver_work}
use os_dns_resolver.Lookup.Weights.Runs.{allocates}
use os_dns_resolver.Lookup.Rest.{requester_step-rests, resolver_step-rests, logger_step-rests}

-- What holds of each thread holds of all.
pub all_of {ℓ} :
    {A : Type ℓ} (p : A → Bool) (xs : List A)
    → ((i : ℕ) (x : A) → get_elem? xs i ≡ some x → p x ≡ true)
    → all p xs ≡ true
all_of p [] h = refl
all_of p (x ∷ xs) h = ground (arith, h 0 x refl, all_of p xs (λ i. h (suc i)))

module _ (net : Net) (files : Files) (cap n m : ℕ) where
  -- No step of a thread but main, in which the allocations succeed, changes anything.
  abbrev pub AreThreadsAtRest : State → Type 0
  AreThreadsAtRest s =
      (c : Choice) → allocates c ≡ true → is_main_choice c ≡ false → step net files cap m s c ≡ s

  module _ (s : State) (k : IsSeen s) (rest : AreThreadsAtRest s) (some_room : 0 < cap) where
    same_work :
        (c : Choice)
        → allocates c ≡ true
        → is_main_choice c ≡ false
        → work files m (step net files cap m s c) ≡ work files m s
    same_work c h other = ap (work files m) (rest c h other)

    pub requester_lines :
        (s.shared.requester_logfile_queue.items ≡ [])
        × (s.shared.requester_logfile_queue.closed ≡ true → is_log_done s.requester_logger ≡ true)
    unfolding step
    requester_lines =
        logger_step-rests s.requester_logger s.shared.requester_logfile_queue s.requester_log
          k.requester_log (omega (arith, same_work requester_logger_runs refl refl))

    pub resolver_lines :
        (s.shared.resolver_logfile_queue.items ≡ [])
        × (s.shared.resolver_logfile_queue.closed ≡ true → is_log_done s.resolver_logger ≡ true)
    unfolding step
    resolver_lines =
        logger_step-rests s.resolver_logger s.shared.resolver_logfile_queue s.resolver_log
          k.resolver_log (omega (arith, same_work resolver_logger_runs refl refl))

    run_requester-rests :
        (i : ℕ) (r : Requester)
        → get_elem? s.requesters i ≡ some r
        → let (r', s', k) = requester_step files cap true r s.shared in
          requester_work r' + shared_work files s' ≡ requester_work r + shared_work files s.shared
    unfolding step
    run_requester-rests i r e = omega (
      arith,
      ap (λ o. work files m (run_requester net files cap m i true s o)) e,
      same_work (requester_runs i true) refl refl,
      total-set requester_work s.requesters i (requester_step files cap true r s.shared).0 e,
    )

    run_resolver-rests :
        (i : ℕ) (r : Resolver)
        → get_elem? s.resolvers i ≡ some r
        → let (r', s', k) = resolver_step net cap true true r s.shared in
          resolver_work r' + shared_work files s' ≡ resolver_work r + shared_work files s.shared
    unfolding step
    run_resolver-rests i r e = omega (
      arith,
      ap (λ o. work files m (run_resolver net files cap m i true true s o)) e,
      same_work (resolver_runs i true true) refl refl,
      total-set resolver_work s.resolvers i (resolver_step net cap true true r s.shared).0 e,
    )

    pub resolver-rests :
        (i : ℕ) (r : Resolver)
        → get_elem? s.resolvers i ≡ some r
        → (s.shared.hostname_queue.items ≡ [])
          × (s.shared.hostname_queue.closed ≡ true → is_res_done r ≡ true)
    resolver-rests i r e =
        resolver_step-rests files cap some_room net r s.shared resolver_lines.0
          (λ d. k.hosts (ground (arith, d, total-le is_past_hosts s.resolvers i e)))
          (run_resolver-rests i r e)

    pub requesters_done :
        s.shared.filename_queue.closed ≡ true
        → s.shared.hostname_queue.items ≡ []
        → all is_req_done s.requesters ≡ true
    requesters_done closed no_hosts = all_of is_req_done s.requesters λ i r e.
        requester_step-rests files cap some_room r s.shared closed no_hosts requester_lines.0
          (run_requester-rests i r e)

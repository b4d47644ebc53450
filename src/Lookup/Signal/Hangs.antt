-- ===== src/Lookup/Signal/Hangs.antt =====
-- A signal that main takes before it has created the resolvers.
use os_dns_resolver.Base.{
  ℕ, ◌≡◌, ◌≢◌, ◌⊎◌, inl, inr, refl, ap, sym, ◌∙◌, List, [], ◌∷◌, ◌++◌, Bool, false, Option, none,
  some, arith, Bool-cases, get_elem?,
}
use os_dns_resolver.Strings.{Text}
use os_dns_resolver.Resolve.{Net}
use os_dns_resolver.Simple.{Files}
use os_dns_resolver.Lookup.{Shared}
use os_dns_resolver.Lookup.Threads.{
  Requester, req_get, req_read, req_log, req_copy, req_host, requester_step,
}
use os_dns_resolver.Lookup.Program.{
  State, Choice, main_runs, requester_runs, resolver_runs, requester_logger_runs,
  resolver_logger_runs, run_requester, step,
}
use os_dns_resolver.Lookup.Signal.{
  main_thread, runs, Handler, handler_free_hosts, handler_drain_hosts, handler_step, handler_exited,
  Interrupted, interrupt, has_exited, set_handler, signal_step,
}
use os_dns_resolver.Schedules.{run, run_rule}
use os_dns_resolver.Fifo

-- There is no resolver, there is a host to resolve, and the handler waits for its resolution.
record IsHung (x : Interrupted) : Type 0 where
  by_main : x.thread ≡ main_thread
  no_resolvers : x.state.resolvers ≡ []
  a_host : x.state.shared.hostname_queue.items ≢ []
  waiting : (x.handler ≡ handler_free_hosts) ⊎ (x.handler ≡ handler_drain_hosts)

nonempty_snoc : (xs : List Text) (x : Text) → xs ++ x ∷ [] ≢ []
nonempty_snoc [] x e = ground arith
nonempty_snoc (y ∷ ys) x e = ground arith

-- A requester takes no host out.
requester_step-hosts :
    (files : Files) (cap : ℕ) (ok : Bool) (r : Requester) (s : Shared)
    → s.hostname_queue.items ≢ []
    → (requester_step files cap ok r s).1.hostname_queue.items ≢ []
unfolding requester_step Fifo.get Fifo.put Fifo.close
requester_step-hosts files cap ok req_get s h = ground arith
requester_step-hosts files cap ok (req_read bytes) s h = ground arith
requester_step-hosts files cap ok (req_log t rest) s h = ground arith
requester_step-hosts files cap ok (req_copy t rest) s h = ground arith
requester_step-hosts files cap ok (req_host t rest) s h =
    ground (arith, nonempty_snoc s.hostname_queue.items t)
requester_step-hosts files cap ok r s h = ground arith

abbrev IsWaiting : Handler → Type 0
IsWaiting h = (h ≡ handler_free_hosts) ⊎ (h ≡ handler_drain_hosts)

handler_step-waits :
    (h : Handler) (s : Shared)
    → s.hostname_queue.items ≢ []
    → IsWaiting h
    → let (h', s') = handler_step h s in IsWaiting h' × (s'.hostname_queue.items ≢ [])
unfolding handler_step Fifo.close
handler_step-waits handler_free_hosts s a w = ground arith
handler_step-waits handler_drain_hosts s a w = ground arith
handler_step-waits h s a w = ground arith

module _ (net : Net) (files : Files) (cap resolvers : ℕ) where
  run_requester-hosts :
      (i : ℕ) (ok : Bool) (s : State) (o : Option Requester)
      → s.shared.hostname_queue.items ≢ []
      → (run_requester net files cap resolvers i ok s o).shared.hostname_queue.items ≢ []
  run_requester-hosts i ok s none h = h
  run_requester-hosts i ok s (some r) h = requester_step-hosts files cap ok r s.shared h

  run_requester-resolvers :
      (i : ℕ) (ok : Bool) (s : State) (o : Option Requester)
      → (run_requester net files cap resolvers i ok s o).resolvers ≡ s.resolvers
  run_requester-resolvers i ok s none = refl
  run_requester-resolvers i ok s (some r) = refl

  others-hosts :
      (s : State) (c : Choice)
      → runs main_thread c ≡ false
      → s.resolvers ≡ []
      → s.shared.hostname_queue.items ≢ []
      → let s' = step net files cap resolvers s c in
        (s'.resolvers ≡ []) × (s'.shared.hostname_queue.items ≢ [])
  unfolding step
  others-hosts s (main_runs ok) other none_yet h = ground arith
  others-hosts s (requester_runs i ok) other none_yet h = (
    run_requester-resolvers i ok s (get_elem? s.requesters i) ∙ none_yet,
    run_requester-hosts i ok s (get_elem? s.requesters i) h,
  )
  others-hosts s (resolver_runs i ip_ok ok) other none_yet h =
      let none_here : (get_elem? s.resolvers i ≡ none) = ap (λ rs. get_elem? rs i) none_yet in
      simp none_here (none_yet, h)
  others-hosts s requester_logger_runs other none_yet h = (none_yet, h)
  others-hosts s resolver_logger_runs other none_yet h = (none_yet, h)

  handler_step-IsHung :
      (x : Interrupted) → IsHung x → IsHung (set_handler x (handler_step x.handler x.state.shared))
  handler_step-IsHung x k =
      let (a, b) = handler_step-waits x.handler x.state.shared k.a_host k.waiting in
      record { by_main = k.by_main; no_resolvers = k.no_resolvers; a_host = b; waiting = a }

  signal_step-IsHung :
      (x : Interrupted) (c : Choice) → IsHung x → IsHung (signal_step net files cap resolvers x c)
  unfolding signal_step
  signal_step-IsHung x c k = elim (Bool-cases (has_exited x.handler)) [
    | inl gone ↦ simp gone k
    | inr still ↦ elim (Bool-cases (runs x.thread c)) [
      | inl mine ↦ simp (still, mine) (handler_step-IsHung x k)
      | inr other ↦
          let (a, b) =
            others-hosts x.state c (ap (λ t. runs t c) (sym k.by_main) ∙ other) k.no_resolvers
              k.a_host in
          simp (still, other)
            (record { by_main = k.by_main; no_resolvers = a; a_host = b; waiting = k.waiting })
    ]
  ]

  -- The handler hangs when main takes the signal before it has created the resolvers and a host waits
  -- in hostname_queue: array_free waits there for resolvers that only main could create, and in no
  -- schedule does the process ever exit.
  pub handler-hangs :
      (s : State) (cs : List Choice)
      → s.resolvers ≡ []
      → s.shared.hostname_queue.items ≢ []
      → (run (signal_step net files cap resolvers) (interrupt main_thread s) cs).handler
        ≢ handler_exited
  handler-hangs s cs no_resolvers a_host exited =
      let k =
        run_rule (signal_step net files cap resolvers) IsHung signal_step-IsHung
          (interrupt main_thread s) cs
          (record {
            by_main = refl;
            no_resolvers = no_resolvers;
            a_host = a_host;
            waiting = inl refl;
          }) in
      ground (arith, k.waiting, exited)

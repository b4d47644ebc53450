-- ===== src/Lookup/Counts.antt =====
-- The counters `hosts_resolved` and `files_serviced`, which main prints.
pub mod Serviced
pub mod Final
use os_dns_resolver.Base.{
  ℕ, ◌+◌, ◌≡◌, refl, List, [], ◌∷◌, ◌++◌, Bool, Option, some, none, length, arith, get_elem?,
}
use os_dns_resolver.Strings.{Text}
use os_dns_resolver.Fifo.{Fifo}
use os_dns_resolver.Resolve.{Net}
use os_dns_resolver.Simple.{Files}
use os_dns_resolver.Lookup.{Shared}
use os_dns_resolver.Lookup.Threads.{
  Requester, req_get, Resolver, res_get, res_work, res_put, Logger, log_get, log_write,
  requester_step, resolver_step, logger_step,
}
use os_dns_resolver.Lookup.Program.{
  State, Main, main_fill, main_put, main_step, Choice, main_runs, requester_runs, resolver_runs,
  requester_logger_runs, resolver_logger_runs, run_requester, run_resolver, step, run,
}
use os_dns_resolver.Fifo

pub length-snoc {ℓ} : {A : Type ℓ} (xs : List A) (x : A) → length (xs ++ x ∷ []) ≡ length xs + 1
length-snoc [] x = refl
length-snoc (y ∷ xs) x = omega (arith, length-snoc xs x)

abbrev pub writing : Logger → ℕ
writing (log_write m) = 1
writing l = 0

-- The messages that have been put into the resolver log queue.
abbrev pub messages : State → ℕ
messages s =
    length s.shared.resolver_logfile_queue.items + writing s.resolver_logger + length s.resolver_log

logger_step-writing :
    (l : Logger) (q : Fifo Text) (file : List Text)
    → let (l', q', file') = logger_step (l, q, file) in
      length q'.items + writing l' + length file' ≡ length q.items + writing l + length file
unfolding logger_step Fifo.get
logger_step-writing log_get q file = ground arith
logger_step-writing (log_write m) q file = ground (arith, length-snoc file m)
logger_step-writing l q file = ground arith

requester_step-messages :
    (files : Files) (cap : ℕ) (ok : Bool) (r : Requester) (s : Shared)
    → let (r', s', n) = requester_step files cap ok r s in
      length s'.resolver_logfile_queue.items ≡ length s.resolver_logfile_queue.items
unfolding requester_step Fifo.get Fifo.put Fifo.close
requester_step-messages files cap ok req_get s = ground arith
requester_step-messages files cap ok (Requester.req_read bytes) s = ground arith
requester_step-messages files cap ok (Requester.req_log t rest) s = ground arith
requester_step-messages files cap ok (Requester.req_copy t rest) s = ground arith
requester_step-messages files cap ok (Requester.req_host t rest) s = ground arith
requester_step-messages files cap ok r s = ground arith

resolver_step-messages :
    (net : Net) (cap : ℕ) (ip_ok ok : Bool) (r : Resolver) (s : Shared)
    → let (r', s', n) = resolver_step net cap ip_ok ok r s in
      length s'.resolver_logfile_queue.items ≡ length s.resolver_logfile_queue.items + n
unfolding resolver_step Fifo.get Fifo.put
resolver_step-messages net cap ip_ok ok res_get s = ground arith
resolver_step-messages net cap ip_ok ok (res_work h) s = ground arith
resolver_step-messages net cap ip_ok ok (res_put m) s =
    ground (arith, length-snoc s.resolver_logfile_queue.items m)
resolver_step-messages net cap ip_ok ok r s = ground arith

module _ (net : Net) (files : Files) (cap resolvers : ℕ) where
  main_step-messages :
      (ok : Bool) (m : Main) (s : State)
      → s.hosts_resolved ≡ messages s
      → (main_step files cap resolvers ok m s).hosts_resolved
        ≡ messages (main_step files cap resolvers ok m s)
  unfolding main_step Fifo.put Fifo.close
  main_step-messages ok (main_fill []) s h = ground arith
  main_step-messages ok (main_fill (name ∷ names)) s h = ground arith
  main_step-messages ok (main_put name names) s h = ground arith
  main_step-messages ok m s h = ground arith

  run_requester-messages :
      (i : ℕ) (ok : Bool) (s : State) (o : Option Requester)
      → s.hosts_resolved ≡ messages s
      → (run_requester net files cap resolvers i ok s o).hosts_resolved
        ≡ messages (run_requester net files cap resolvers i ok s o)
  run_requester-messages i ok s none h = h
  run_requester-messages i ok s (some r) h =
      omega (arith, h, requester_step-messages files cap ok r s.shared)

  run_resolver-messages :
      (i : ℕ) (ip_ok ok : Bool) (s : State) (o : Option Resolver)
      → s.hosts_resolved ≡ messages s
      → (run_resolver net files cap resolvers i ip_ok ok s o).hosts_resolved
        ≡ messages (run_resolver net files cap resolvers i ip_ok ok s o)
  run_resolver-messages i ip_ok ok s none h = h
  run_resolver-messages i ip_ok ok s (some r) h =
      omega (arith, h, resolver_step-messages net cap ip_ok ok r s.shared)

  step-messages :
      (s : State) (c : Choice)
      → s.hosts_resolved ≡ messages s
      → (step net files cap resolvers s c).hosts_resolved
        ≡ messages (step net files cap resolvers s c)
  unfolding step
  step-messages s (main_runs ok) h = main_step-messages ok s.main s h
  step-messages s (requester_runs i ok) h =
      run_requester-messages i ok s (get_elem? s.requesters i) h
  step-messages s (resolver_runs i ip_ok ok) h =
      run_resolver-messages i ip_ok ok s (get_elem? s.resolvers i) h
  step-messages s requester_logger_runs h = ground arith
  step-messages s resolver_logger_runs h = omega (
    arith,
    h,
    logger_step-writing s.resolver_logger s.shared.resolver_logfile_queue s.resolver_log,
  )

  pub run_messages :
      (s : State) (cs : List Choice)
      → s.hosts_resolved ≡ messages s
      → (run net files cap resolvers s cs).hosts_resolved
        ≡ messages (run net files cap resolvers s cs)
  unfolding run
  run_messages s [] h = h
  run_messages s (c ∷ cs) h =
      run_messages (step net files cap resolvers s c) cs (step-messages s c h)

-- ===== src/Lookup/Signal/Drained.antt =====
-- What the handler has done when it exits.
use os_dns_resolver.Base.{ℕ, ◌≡◌, ◌≤◌, ap, List, true, arith, Bool-cases, inl, inr}
use os_dns_resolver.Resolve.{Net}
use os_dns_resolver.Simple.{Files}
use os_dns_resolver.Lookup.{Shared}
use os_dns_resolver.Lookup.Program.{State, Choice}
use os_dns_resolver.Lookup.Phases.{IsEnded}
use os_dns_resolver.Lookup.Signal.{
  Thread, runs, Handler, handler_free_hosts, handler_drain_hosts, handler_free_requester_log,
  handler_drain_requester_log, handler_free_resolver_log, handler_drain_resolver_log,
  handler_free_files, handler_drain_files, handler_exited, handler_step, Interrupted, interrupt,
  has_exited, signal_step,
}
use os_dns_resolver.Lookup.Seen.{AllOnward, step-AllOnward}
use os_dns_resolver.Schedules.{run, run_rule}
use os_dns_resolver.Fifo

-- How many of the handler's eight statements are behind it.
abbrev pub progress : Handler → ℕ
progress handler_free_hosts = 0
progress handler_drain_hosts = 1
progress handler_free_requester_log = 2
progress handler_drain_requester_log = 3
progress handler_free_resolver_log = 4
progress handler_drain_resolver_log = 5
progress handler_free_files = 6
progress handler_drain_files = 7
progress handler_exited = 8

-- A queue is closed by the call of array_free, and empty when the call is over.
pub record IsFreed (h : Handler) (s : Shared) : Type 0 where
  pub hosts_closed : 1 ≤ progress h → s.hostname_queue.closed ≡ true
  pub hosts : 2 ≤ progress h → IsEnded s.hostname_queue
  pub requester_log_closed : 3 ≤ progress h → s.requester_logfile_queue.closed ≡ true
  pub requester_log : 4 ≤ progress h → IsEnded s.requester_logfile_queue
  pub resolver_log_closed : 5 ≤ progress h → s.resolver_logfile_queue.closed ≡ true
  pub resolver_log : 6 ≤ progress h → IsEnded s.resolver_logfile_queue
  pub files_closed : 7 ≤ progress h → s.filename_queue.closed ≡ true
  pub files : 8 ≤ progress h → IsEnded s.filename_queue

onward-IsFreed : (h : Handler) (s s' : Shared) → AllOnward s s' → IsFreed h s → IsFreed h s'
onward-IsFreed h s s' o f = record {
  hosts_closed = λ p. o.hosts.closed (f.hosts_closed p);
  hosts = λ p. o.hosts.ended (f.hosts p);
  requester_log_closed = λ p. o.requester_log.closed (f.requester_log_closed p);
  requester_log = λ p. o.requester_log.ended (f.requester_log p);
  resolver_log_closed = λ p. o.resolver_log.closed (f.resolver_log_closed p);
  resolver_log = λ p. o.resolver_log.ended (f.resolver_log p);
  files_closed = λ p. o.files.closed (f.files_closed p);
  files = λ p. o.files.ended (f.files p);
}

handler_step-IsFreed :
    (h : Handler) (s : Shared) → IsFreed h s → let (h', s') = handler_step h s in IsFreed h' s'
unfolding handler_step Fifo.close
handler_step-IsFreed h s f = ground arith

pub signal_step-IsFreed :
    (net : Net) (files : Files) (cap resolvers : ℕ) (x : Interrupted) (c : Choice)
    → IsFreed x.handler x.state.shared
    → let y = signal_step net files cap resolvers x c in IsFreed y.handler y.state.shared
unfolding signal_step
signal_step-IsFreed net files cap resolvers x c f = elim (Bool-cases (has_exited x.handler)) [
  | inl gone ↦ simp gone f
  | inr still ↦ elim (Bool-cases (runs x.thread c)) [
    | inl mine ↦ simp (still, mine) (handler_step-IsFreed x.handler x.state.shared f)
    | inr other ↦
        simp (still, other)
          (onward-IsFreed x.handler x.state.shared _
            (step-AllOnward net files cap resolvers x.state c) f)
  ]
]

-- Whenever SIGINT or SIGTERM arrives, whichever thread takes it, and however the other threads go on:
-- if the process exits by the handler, then each of the four queues is closed, and has been emptied.
pub exit-IsEnded :
    (net : Net) (files : Files) (cap resolvers : ℕ) (t : Thread) (s : State) (cs : List Choice)
    → (run (signal_step net files cap resolvers) (interrupt t s) cs).handler ≡ handler_exited
    → let shared = (run (signal_step net files cap resolvers) (interrupt t s) cs).state.shared in
      IsEnded shared.hostname_queue
      × IsEnded shared.requester_logfile_queue
      × IsEnded shared.resolver_logfile_queue
      × IsEnded shared.filename_queue
exit-IsEnded net files cap resolvers t s cs exited =
    let f =
      run_rule (signal_step net files cap resolvers) (λ x. IsFreed x.handler x.state.shared)
        (signal_step-IsFreed net files cap resolvers) (interrupt t s) cs (ground arith) in
    let far = ap progress exited in
    (
      f.hosts (omega (arith, far)),
      f.requester_log (omega (arith, far)),
      f.resolver_log (omega (arith, far)),
      f.files (omega (arith, far)),
    )

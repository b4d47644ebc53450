-- ===== src/Lookup/Signal.antt =====
-- handle_signal of turnin/multi-lookup.c: SIGINT or SIGTERM arrives while the threads run. The kernel
-- lets one thread take it; that thread does nothing else any more, since the handler ends in exit. The
-- other threads go on until then. The thread holds no lock at the time; Array/Locked/Interrupted has one
-- that does.
pub mod Drained
pub mod Hangs
pub mod Steps
pub mod Live
pub mod Exits
mod Tests
use os_dns_resolver.Base.{ℕ, List, [], Bool, true, false, ◌==◌, if◌then◌else◌}
use os_dns_resolver.Resolve.{Net}
use os_dns_resolver.Simple.{Files}
use os_dns_resolver.Lookup.{Shared}
use os_dns_resolver.Lookup.Threads.{drained}
use os_dns_resolver.Lookup.Program.{
  State, Choice, main_runs, requester_runs, resolver_runs, requester_logger_runs,
  resolver_logger_runs, step,
}
use os_dns_resolver.Fifo

-- The thread that takes the signal.
pub data Thread : Type 0 where
  main_thread : Thread
  requester_thread : ℕ → Thread
  resolver_thread : ℕ → Thread
  requester_logger_thread : Thread
  resolver_logger_thread : Thread

abbrev pub runs : Thread → Choice → Bool
runs main_thread (main_runs ok) = true
runs (requester_thread i) (requester_runs j ok) = i == j
runs (resolver_thread i) (resolver_runs j ip_ok ok) = i == j
runs requester_logger_thread requester_logger_runs = true
runs resolver_logger_thread resolver_logger_runs = true
runs t c = false

-- Where the handler stands: in its four calls of array_free, and behind its exit.
pub data Handler : Type 0 where
  handler_free_hosts : Handler
  handler_drain_hosts : Handler
  handler_free_requester_log : Handler
  handler_drain_requester_log : Handler
  handler_free_resolver_log : Handler
  handler_drain_resolver_log : Handler
  handler_free_files : Handler
  handler_drain_files : Handler
  handler_exited : Handler

-- handle_signal.
unfoldable pub handler_step : Handler → Shared → Handler × Shared
handler_step handler_free_hosts s =
    (handler_drain_hosts, record s { hostname_queue = Fifo.close s.hostname_queue })
handler_step handler_drain_hosts s =
    (drained s.hostname_queue.items handler_free_requester_log handler_drain_hosts, s)
handler_step handler_free_requester_log s = (
  handler_drain_requester_log,
  record s { requester_logfile_queue = Fifo.close s.requester_logfile_queue },
)
handler_step handler_drain_requester_log s = (
  drained s.requester_logfile_queue.items handler_free_resolver_log handler_drain_requester_log,
  s,
)
handler_step handler_free_resolver_log s = (
  handler_drain_resolver_log,
  record s { resolver_logfile_queue = Fifo.close s.resolver_logfile_queue },
)
handler_step handler_drain_resolver_log s =
    (drained s.resolver_logfile_queue.items handler_free_files handler_drain_resolver_log, s)
handler_step handler_free_files s =
    (handler_drain_files, record s { filename_queue = Fifo.close s.filename_queue })
handler_step handler_drain_files s =
    (drained s.filename_queue.items handler_exited handler_drain_files, s)
handler_step handler_exited s = (handler_exited, s)

-- The program from the signal on.
pub record Interrupted : Type 0 where
  pub state : State
  pub thread : Thread
  pub handler : Handler

abbrev pub interrupt : Thread → State → Interrupted
interrupt t s = record { state = s; thread = t; handler = handler_free_hosts }

abbrev pub has_exited : Handler → Bool
has_exited handler_exited = true
has_exited h = false

abbrev pub set_handler : Interrupted → Handler × Shared → Interrupted
set_handler x (h, shared) = record x { state = record x.state { shared = shared }; handler = h }

module _ (net : Net) (files : Files) (cap resolvers : ℕ) where
  -- One step: of the handler, or of another thread. After the exit no thread runs any more.
  unfoldable pub signal_step : Interrupted → Choice → Interrupted
  signal_step x c =
      if has_exited x.handler
      then x
      else (if runs x.thread c
          then set_handler x (handler_step x.handler x.state.shared)
          else record x { state = step net files cap resolvers x.state c })

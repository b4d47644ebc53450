-- ===== src/Lookup.antt =====
-- turnin/multi-lookup.c (dnsthreaded.c is the same text): the threads that look hosts up.
-- `Shared` is what they share: the four queues, the count of active file readers, and stderr. Each
-- queue is a bounded queue (`Fifo`) of `cap` = ARRAY_SIZE - 1 texts, which array.c implements
-- (`Array.Refine`); no thread puts NULL. A thread that has to wait takes no step. array_free closes
-- a queue and goes on when the queue is empty; its wait for the getters is left out.
pub mod Threads
pub mod Program
pub mod Weights
pub mod Phases
pub mod Staff
pub mod Arguments
pub mod Startup
pub mod Complete
pub mod Stuck
pub mod Agreement
pub mod Counts
pub mod Work
pub mod Ready
pub mod Seen
pub mod Rest
pub mod Fair
pub mod Signal
mod Tests
use os_dns_resolver.Base.{ℕ, List, [], ◌∷◌, ◌++◌}
use os_dns_resolver.Strings.{Text}
use os_dns_resolver.Fifo.{Fifo}

-- The messages on stderr.
pub data Diagnostic : Type 0 where
  invalid_file : Text → Diagnostic
  no_memory : Diagnostic
  not_queued : Text → Diagnostic

pub record Shared : Type 0 where
  pub filename_queue : Fifo Text
  pub hostname_queue : Fifo Text
  pub requester_logfile_queue : Fifo Text
  pub resolver_logfile_queue : Fifo Text
  pub active_file_readers : ℕ
  pub stderr : List Diagnostic

-- fprintf(stderr, ...)
abbrev pub complain : Diagnostic → Shared → Shared
complain d s = record s { stderr = s.stderr ++ d ∷ [] }

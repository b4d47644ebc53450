-- ===== src/Lookup/Phases.antt =====
-- The phases of the program: which queue is closed when, and what a thread that has ended has seen.
pub mod Effects
pub mod Steps
pub mod Runs
use os_dns_resolver.Base.{ℕ, ◌+◌, ◌≡◌, ◌<◌, ◌≤◌, List, [], Bool, true, false, total}
use os_dns_resolver.Strings.{Text}
use os_dns_resolver.Fifo.{Fifo}
use os_dns_resolver.Lookup.Threads.{
  Requester, req_get, req_read, req_log, req_copy, req_host, req_end, req_free_hosts,
  req_drain_hosts, req_free_log, req_drain_log, req_done, Resolver, res_done,
}
use os_dns_resolver.Lookup.Program.{
  Main, main_fill, main_put, main_create, main_free_files, main_drain_files, main_join_requesters,
  main_join_resolvers, main_done, State, is_log_done,
}

-- 1 for a requester that still counts as an active file reader.
abbrev pub is_reading : Requester → ℕ
is_reading req_get = 1
is_reading (req_read bytes) = 1
is_reading (req_log h rest) = 1
is_reading (req_copy h rest) = 1
is_reading (req_host h rest) = 1
is_reading req_end = 1
is_reading r = 0

-- 1 for the last reader, in its calls of array_free.
abbrev pub is_freeing : Requester → ℕ
is_freeing req_free_hosts = 1
is_freeing req_drain_hosts = 1
is_freeing req_free_log = 1
is_freeing req_drain_log = 1
is_freeing r = 0

-- 1 for a requester that has found the filename queue closed and empty.
abbrev pub is_past_files : Requester → ℕ
is_past_files req_get = 0
is_past_files (req_read bytes) = 0
is_past_files (req_log h rest) = 0
is_past_files (req_copy h rest) = 0
is_past_files (req_host h rest) = 0
is_past_files r = 1

abbrev pub is_resolving : Resolver → ℕ
is_resolving res_done = 0
is_resolving r = 1

abbrev pub is_past_hosts : Resolver → ℕ
is_past_hosts res_done = 1
is_past_hosts r = 0

abbrev pub is_filling : Main → Bool
is_filling (main_fill names) = true
is_filling (main_put name names) = true
is_filling m = false

-- The resolvers do not exist yet.
abbrev pub is_before_create : Main → Bool
is_before_create (main_fill names) = true
is_before_create (main_put name names) = true
is_before_create main_create = true
is_before_create m = false

-- Behind the joins of the requesters, and of the resolvers.
abbrev pub is_past_requesters : Main → Bool
is_past_requesters (main_fill names) = false
is_past_requesters (main_put name names) = false
is_past_requesters main_create = false
is_past_requesters main_free_files = false
is_past_requesters main_drain_files = false
is_past_requesters main_join_requesters = false
is_past_requesters m = true

abbrev pub is_past_resolvers : Main → Bool
is_past_resolvers main_join_resolvers = false
is_past_resolvers m = is_past_requesters m

abbrev pub is_main_done : Main → Bool
is_main_done main_done = true
is_main_done m = false

-- Closed and empty, for good.
abbrev pub IsEnded : Fifo Text → Type 0
IsEnded q = (q.closed ≡ true) × (q.items ≡ [])

pub record IsPhased (s : State) : Type 0 where
  pub counted : s.shared.active_file_readers ≡ total is_reading s.requesters
  pub hosts_closed : s.shared.hostname_queue.closed ≡ true → total is_reading s.requesters ≡ 0
  pub log_closed :
      s.shared.requester_logfile_queue.closed ≡ true → total is_reading s.requesters ≡ 0
  pub freeing : 0 < total is_freeing s.requesters → total is_reading s.requesters ≡ 0
  pub joined : is_past_requesters s.main ≡ true → total is_reading s.requesters ≡ 0
  pub messages_closed :
      s.shared.resolver_logfile_queue.closed ≡ true → is_past_resolvers s.main ≡ true
  pub resolved : is_past_resolvers s.main ≡ true → total is_resolving s.resolvers ≡ 0
  pub uncreated : is_before_create s.main ≡ true → s.resolvers ≡ []
  pub filled : s.shared.filename_queue.closed ≡ true → is_filling s.main ≡ false
  pub files_ended : 0 < total is_past_files s.requesters → IsEnded s.shared.filename_queue
  pub hosts_ended : 0 < total is_past_hosts s.resolvers → IsEnded s.shared.hostname_queue
  pub requester_logged :
      is_log_done s.requester_logger ≡ true → IsEnded s.shared.requester_logfile_queue
  pub resolver_logged :
      is_log_done s.resolver_logger ≡ true → IsEnded s.shared.resolver_logfile_queue
  pub finished :
      is_main_done s.main ≡ true
      → (is_log_done s.requester_logger ≡ true) × (is_log_done s.resolver_logger ≡ true)

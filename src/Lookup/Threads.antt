-- ===== src/Lookup/Threads.antt =====
-- The thread functions of turnin/multi-lookup.c: one step of a requester, of a resolver and of a
-- logger. `ok` answers the allocation of the step, if there is one.
use os_dns_resolver.Base.{
  ℕ, ◌-◌, List, [], ◌∷◌, ◌++◌, Bool, Option, none, some, ◌==◌, if◌then◌else◌,
}
use os_dns_resolver.Strings.{Text, host_of}
use os_dns_resolver.Lines.{getline}
use os_dns_resolver.Fifo.{Fifo, PutReply, added, full, refused, GetReply, found, empty, finished}
use os_dns_resolver.Resolve.{Net, log_message}
use os_dns_resolver.Simple.{Files}
use os_dns_resolver.Lookup.{invalid_file, no_memory, not_queued, Shared, complain}
use os_dns_resolver.Fifo

-- Where a requester (process_files_from_queue) stands.
pub data Requester : Type 0 where
  -- at array_get of the filename queue
  req_get : Requester
  -- at getline, with the bytes left in the file
  req_read : Text → Requester
  -- at array_put of a host into the requester log queue, at the second strdup, and at array_put of
  -- the host into the hostname queue
  req_log : Text → Text → Requester
  req_copy : Text → Text → Requester
  req_host : Text → Text → Requester
  -- at the lock of file_reader_mutex, and, for the last reader, in the two calls of array_free
  req_end : Requester
  req_free_hosts : Requester
  req_drain_hosts : Requester
  req_free_log : Requester
  req_drain_log : Requester
  req_done : Requester

-- Where a resolver (resolver_thread) stands: at array_get, before resolve_then_log, and at its
-- array_put of the message.
pub data Resolver : Type 0 where
  res_get : Resolver
  res_work : Text → Resolver
  res_put : Text → Resolver
  res_done : Resolver

-- Where a logger (requester_logfile_thread_func, resolver_logfile_thread_func) stands.
pub data Logger : Type 0 where
  log_get : Logger
  log_write : Text → Logger
  log_done : Logger

-- What a step leaves: where the thread stands, what is shared, and what is added to its counter
-- `files_serviced` or `hosts_resolved`.
abbrev pub Left : Type 0 → Type 0
Left A = A × Shared × ℕ

-- An opened file is read, a name that does not open is reported.
abbrev pub opened : Text → Option Text → Shared → Left Requester
opened name none s = (req_get, complain (invalid_file name) s, 0)
opened name (some bytes) s = (req_read bytes, s, 1)

abbrev pub got_file : Files → Shared → Fifo Text × GetReply Text → Left Requester
got_file files s (q, found name) = opened name (files.read name) (record s { filename_queue = q })
got_file files s (q, empty) = (req_get, s, 0)
got_file files s (q, finished) = (req_end, s, 0)

-- An empty line is skipped, and another one is copied for the log.
abbrev pub got_host : Bool → Text → Text → Shared → Left Requester
got_host ok [] rest s = (req_read rest, s, 0)
got_host ok (b ∷ h) rest s =
    if ok then (req_log (b ∷ h) rest, s, 0) else (req_copy (b ∷ h) rest, complain no_memory s, 0)

abbrev pub got_line : Bool → Option (Text × Text) → Shared → Left Requester
got_line ok none s = (req_get, s, 0)
got_line ok (some (line, rest)) s = got_host ok (host_of line) rest s

abbrev pub put_log : Text → Text → Shared → Fifo Text × PutReply → Left Requester
put_log h rest s (q, added) = (req_copy h rest, record s { requester_logfile_queue = q }, 0)
put_log h rest s (q, full) = (req_log h rest, s, 0)
put_log h rest s (q, refused) = (req_copy h rest, complain (not_queued h) s, 0)

abbrev pub put_host : Text → Text → Shared → Fifo Text × PutReply → Left Requester
put_host h rest s (q, added) = (req_read rest, record s { hostname_queue = q }, 0)
put_host h rest s (q, full) = (req_host h rest, s, 0)
put_host h rest s (q, refused) = (req_read rest, complain (not_queued h) s, 0)

-- array_free waits for the queue to be empty.
abbrev pub drained {ℓ} : {A : Type ℓ} → List Text → A → A → A
drained [] goes_on waits = goes_on
drained (x ∷ xs) goes_on waits = waits

-- process_files_from_queue.
unfoldable pub requester_step : Files → ℕ → Bool → Requester → Shared → Left Requester
requester_step files cap ok req_get s = got_file files s (Fifo.get s.filename_queue)
requester_step files cap ok (req_read bytes) s = got_line ok (getline bytes) s
requester_step files cap ok (req_log h rest) s =
    put_log h rest s (Fifo.put cap s.requester_logfile_queue h)
requester_step files cap ok (req_copy h rest) s =
    if ok then (req_host h rest, s, 0) else (req_read rest, complain no_memory s, 0)
requester_step files cap ok (req_host h rest) s =
    put_host h rest s (Fifo.put cap s.hostname_queue h)
requester_step files cap ok req_end s =
    let left = s.active_file_readers - 1 in
    (if left == 0 then req_free_hosts else req_done, record s { active_file_readers = left }, 0)
requester_step files cap ok req_free_hosts s =
    (req_drain_hosts, record s { hostname_queue = Fifo.close s.hostname_queue }, 0)
requester_step files cap ok req_drain_hosts s =
    (drained s.hostname_queue.items req_free_log req_drain_hosts, s, 0)
requester_step files cap ok req_free_log s =
    (req_drain_log, record s { requester_logfile_queue = Fifo.close s.requester_logfile_queue }, 0)
requester_step files cap ok req_drain_log s =
    (drained s.requester_logfile_queue.items req_done req_drain_log, s, 0)
requester_step files cap ok req_done s = (req_done, s, 0)

abbrev pub took_host : Shared → Fifo Text × GetReply Text → Left Resolver
took_host s (q, found h) = (res_work h, record s { hostname_queue = q }, 0)
took_host s (q, empty) = (res_get, s, 0)
took_host s (q, finished) = (res_done, s, 0)

abbrev pub made_message : Option Text → Shared → Left Resolver
made_message none s = (res_get, complain no_memory s, 0)
made_message (some m) s = (res_put m, s, 0)

abbrev pub put_message : Text → Shared → Fifo Text × PutReply → Left Resolver
put_message m s (q, added) = (res_get, record s { resolver_logfile_queue = q }, 1)
put_message m s (q, full) = (res_put m, s, 0)
put_message m s (q, refused) = (res_get, complain (not_queued m) s, 0)

-- resolver_thread and resolve_then_log; `ip_ok` answers the allocation of the address.
unfoldable pub resolver_step : Net → ℕ → Bool → Bool → Resolver → Shared → Left Resolver
resolver_step net cap ip_ok ok res_get s = took_host s (Fifo.get s.hostname_queue)
resolver_step net cap ip_ok ok (res_work h) s = made_message (log_message net h ip_ok ok) s
resolver_step net cap ip_ok ok (res_put m) s =
    put_message m s (Fifo.put cap s.resolver_logfile_queue m)
resolver_step net cap ip_ok ok res_done s = (res_done, s, 0)

-- A logger, its queue, and the lines of its file.
abbrev pub Log : Type 0
Log = Logger × Fifo Text × List Text

abbrev pub took_message : Fifo Text → List Text → Fifo Text × GetReply Text → Log
took_message q file (q', found m) = (log_write m, q', file)
took_message q file (q', empty) = (log_get, q, file)
took_message q file (q', finished) = (log_done, q, file)

-- requester_logfile_thread_func and resolver_logfile_thread_func, with write_logfile.
unfoldable pub logger_step : Log → Log
logger_step (log_get, q, file) = took_message q file (Fifo.get q)
logger_step (log_write m, q, file) = (log_get, q, file ++ m ∷ [])
logger_step (log_done, q, file) = (log_done, q, file)

-- ===== src/Lookup/Work.antt =====
-- The work that is left, as a number.
pub mod Runs
use os_dns_resolver.Base.{
  ℕ, ◌+◌, ◌*◌, ◌≡◌, ◌<◌, ◌⊎◌, inl, refl, List, [], ◌∷◌, Bool, Option, some, none, length, total,
  total-append, arith,
}
use os_dns_resolver.Strings.{Text}
use os_dns_resolver.Lines.{getline}
use os_dns_resolver.Lines.Fuel.{length-break_line}
use os_dns_resolver.Fifo.{Fifo}
use os_dns_resolver.Resolve.{Net}
use os_dns_resolver.Simple.{Files}
use os_dns_resolver.Lookup.{Shared}
use os_dns_resolver.Lookup.Threads.{
  Requester, req_get, req_read, req_log, req_copy, req_host, req_end, req_free_hosts,
  req_drain_hosts, req_free_log, req_drain_log, req_done, Resolver, res_get, res_work, res_put,
  res_done, Logger, log_get, log_write, log_done, requester_step, resolver_step, logger_step,
}
use os_dns_resolver.Lookup.Program.{
  State, Main, main_fill, main_put, main_create, main_free_files, main_drain_files,
  main_join_requesters, main_join_resolvers, main_free_requester_log, main_drain_requester_log,
  main_free_resolver_log, main_drain_resolver_log, main_join_loggers, main_done,
}
use os_dns_resolver.Fifo

abbrev bytes_work : Text → ℕ
bytes_work bytes = 11 * length bytes + 7

abbrev opened_work : Option Text → ℕ
opened_work none = 2
opened_work (some bytes) = 11 * length bytes + 2

abbrev pub requester_work : Requester → ℕ
requester_work req_get = 6
requester_work (req_read bytes) = bytes_work bytes
requester_work (req_log h rest) = 10 + bytes_work rest
requester_work (req_copy h rest) = 7 + bytes_work rest
requester_work (req_host h rest) = 6 + bytes_work rest
requester_work req_end = 5
requester_work req_free_hosts = 4
requester_work req_drain_hosts = 3
requester_work req_free_log = 2
requester_work req_drain_log = 1
requester_work req_done = 0

abbrev pub resolver_work : Resolver → ℕ
resolver_work res_get = 1
resolver_work (res_work h) = 5
resolver_work (res_put m) = 4
resolver_work res_done = 0

abbrev pub logger_work : Logger → ℕ
logger_work log_get = 1
logger_work (log_write m) = 2
logger_work log_done = 0

abbrev pub line_work : Text → ℕ
line_work t = 2

abbrev pub host_work : Text → ℕ
host_work h = 5

module _ (files : Files) where
  abbrev pub file_work : Text → ℕ
  file_work name = opened_work (files.read name)

  abbrev pub name_work : Text → ℕ
  name_work name = file_work name + 2

  abbrev pub main_work : ℕ → Main → ℕ
  main_work resolvers (main_fill names) = resolvers + 13 + total name_work names
  main_work resolvers (main_put name names) =
      resolvers + 14 + file_work name + total name_work names
  main_work resolvers main_create = resolvers + 12
  main_work resolvers main_free_files = 10
  main_work resolvers main_drain_files = 9
  main_work resolvers main_join_requesters = 8
  main_work resolvers main_join_resolvers = 7
  main_work resolvers main_free_requester_log = 6
  main_work resolvers main_drain_requester_log = 5
  main_work resolvers main_free_resolver_log = 4
  main_work resolvers main_drain_resolver_log = 3
  main_work resolvers main_join_loggers = 2
  main_work resolvers main_done = 0

  abbrev pub shared_work : Shared → ℕ
  shared_work s =
      total file_work s.filename_queue.items
      + total host_work s.hostname_queue.items
      + total line_work s.requester_logfile_queue.items
      + total line_work s.resolver_logfile_queue.items

  abbrev pub work : ℕ → State → ℕ
  work resolvers s =
      main_work resolvers s.main
      + shared_work s.shared
      + total requester_work s.requesters
      + total resolver_work s.resolvers
      + logger_work s.requester_logger
      + logger_work s.resolver_logger

  pub requester_step-work :
      (cap : ℕ) (ok : Bool) (r : Requester) (s : Shared)
      → (requester_step files cap ok r s ≡ (r, s, 0))
        ⊎ (let (r', s', n) = requester_step files cap ok r s in
            requester_work r' + shared_work s' < requester_work r + shared_work s)
  unfolding requester_step Fifo.get Fifo.put Fifo.close getline
  requester_step-work cap ok req_get s = ground arith
  requester_step-work cap ok (req_read []) s = ground arith
  requester_step-work cap ok (req_read (b ∷ bs)) s = ground (arith, length-break_line b bs)
  requester_step-work cap ok (req_log h rest) s =
      ground (arith, total-append line_work s.requester_logfile_queue.items (h ∷ []))
  requester_step-work cap ok (req_copy h rest) s = ground arith
  requester_step-work cap ok (req_host h rest) s =
      ground (arith, total-append host_work s.hostname_queue.items (h ∷ []))
  requester_step-work cap ok req_done s = inl refl
  requester_step-work cap ok r s = ground arith

  pub resolver_step-work :
      (net : Net) (cap : ℕ) (ip_ok ok : Bool) (r : Resolver) (s : Shared)
      → (resolver_step net cap ip_ok ok r s ≡ (r, s, 0))
        ⊎ (let (r', s', n) = resolver_step net cap ip_ok ok r s in
            resolver_work r' + shared_work s' < resolver_work r + shared_work s)
  unfolding resolver_step Fifo.get Fifo.put
  resolver_step-work net cap ip_ok ok res_get s = ground arith
  resolver_step-work net cap ip_ok ok (res_work h) s = ground arith
  resolver_step-work net cap ip_ok ok (res_put m) s =
      ground (arith, total-append line_work s.resolver_logfile_queue.items (m ∷ []))
  resolver_step-work net cap ip_ok ok res_done s = inl refl

pub logger_step-work :
    (l : Logger) (q : Fifo Text) (file : List Text)
    → (logger_step (l, q, file) ≡ (l, q, file))
      ⊎ (let (l', q', file') = logger_step (l, q, file) in
          logger_work l' + total line_work q'.items < logger_work l + total line_work q.items)
unfolding logger_step Fifo.get
logger_step-work log_get q file = ground arith
logger_step-work (log_write m) q file = ground arith
logger_step-work log_done q file = inl refl

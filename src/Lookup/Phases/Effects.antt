-- ===== src/Lookup/Phases/Effects.antt =====
-- What a step of a requester and of a resolver does to the queues and the counters.
use os_dns_resolver.Base.{ℕ, ◌+◌, ◌≡◌, ◌<◌, ◌≤◌, Bool, true, ◌⊎◌, arith, List}
use os_dns_resolver.Fifo.{Fifo}
use os_dns_resolver.Simple.{Files}
use os_dns_resolver.Lookup.{Shared, Text}
use os_dns_resolver.Lookup.Threads.{
  Requester, req_get, req_read, req_log, req_copy, req_host, req_end, requester_step, Logger,
  logger_step, log_get, resolver_step, res_work, res_get,
}
use os_dns_resolver.Lookup.Phases.{
  is_reading, is_freeing, is_past_files, IsEnded, Resolver, is_resolving, is_past_hosts,
  is_log_done,
}
use os_dns_resolver.Resolve.{Net}
use os_dns_resolver.Fifo

-- No step opens a queue, or refills one that is closed and empty.
pub record IsLasting (s s' : Shared) : Type 0 where
  pub files : IsEnded s.filename_queue → IsEnded s'.filename_queue
  pub hosts : IsEnded s.hostname_queue → IsEnded s'.hostname_queue
  pub requester_log : IsEnded s.requester_logfile_queue → IsEnded s'.requester_logfile_queue
  pub resolver_log : IsEnded s.resolver_logfile_queue → IsEnded s'.resolver_logfile_queue

pub record IsReqEffect (r r' : Requester) (s s' : Shared) : Type 0 where
  pub counted : s'.active_file_readers + is_reading r ≡ s.active_file_readers + is_reading r'
  pub falls : is_reading r' ≤ is_reading r
  pub hosts_closed :
      s'.hostname_queue.closed ≡ true → (s.hostname_queue.closed ≡ true) ⊎ (0 < is_freeing r)
  pub log_closed :
      s'.requester_logfile_queue.closed ≡ true
      → (s.requester_logfile_queue.closed ≡ true) ⊎ (0 < is_freeing r)
  pub messages : s'.resolver_logfile_queue.closed ≡ s.resolver_logfile_queue.closed
  pub files : s'.filename_queue.closed ≡ s.filename_queue.closed
  pub freeing : 0 < is_freeing r' → (0 < is_freeing r) ⊎ (s'.active_file_readers ≡ 0)
  pub past : 0 < is_past_files r' → (0 < is_past_files r) ⊎ IsEnded s.filename_queue

module _ (files : Files) (cap : ℕ) (ok : Bool) where
  pub requester_step-IsReqEffect :
      (r : Requester) (s : Shared)
      → is_reading r ≤ s.active_file_readers
      → let (r', s', n) = requester_step files cap ok r s in IsReqEffect r r' s s'
  unfolding requester_step Fifo.get Fifo.put Fifo.close
  requester_step-IsReqEffect req_get s h = ground arith
  requester_step-IsReqEffect (req_read bytes) s h = ground arith
  requester_step-IsReqEffect (req_log t rest) s h = ground arith
  requester_step-IsReqEffect (req_copy t rest) s h = ground arith
  requester_step-IsReqEffect (req_host t rest) s h = ground arith
  requester_step-IsReqEffect req_end s h = ground arith
  requester_step-IsReqEffect r s h = ground arith

  pub requester_step-IsLasting :
      (r : Requester) (s : Shared)
      → let (r', s', n) = requester_step files cap ok r s in IsLasting s s'
  unfolding requester_step Fifo.get Fifo.put Fifo.close
  requester_step-IsLasting req_get s = ground arith
  requester_step-IsLasting (req_read bytes) s = ground arith
  requester_step-IsLasting (req_log t rest) s = ground arith
  requester_step-IsLasting (req_copy t rest) s = ground arith
  requester_step-IsLasting (req_host t rest) s = ground arith
  requester_step-IsLasting r s = ground arith

pub record IsResEffect (r r' : Resolver) (s s' : Shared) : Type 0 where
  pub falls : is_resolving r' ≤ is_resolving r
  pub readers : s'.active_file_readers ≡ s.active_file_readers
  pub files : s'.filename_queue.closed ≡ s.filename_queue.closed
  pub hosts : s'.hostname_queue.closed ≡ s.hostname_queue.closed
  pub log : s'.requester_logfile_queue.closed ≡ s.requester_logfile_queue.closed
  pub messages : s'.resolver_logfile_queue.closed ≡ s.resolver_logfile_queue.closed
  pub past : 0 < is_past_hosts r' → (0 < is_past_hosts r) ⊎ IsEnded s.hostname_queue

module _ (net : Net) (cap : ℕ) (ip_ok ok : Bool) where
  pub resolver_step-IsResEffect :
      (r : Resolver) (s : Shared)
      → let (r', s', n) = resolver_step net cap ip_ok ok r s in IsResEffect r r' s s'
  unfolding resolver_step Fifo.get Fifo.put
  resolver_step-IsResEffect res_get s = ground arith
  resolver_step-IsResEffect (res_work h) s = ground arith
  resolver_step-IsResEffect r s = ground arith

  pub resolver_step-IsLasting :
      (r : Resolver) (s : Shared)
      → let (r', s', n) = resolver_step net cap ip_ok ok r s in IsLasting s s'
  unfolding resolver_step Fifo.get Fifo.put
  resolver_step-IsLasting res_get s = ground arith
  resolver_step-IsLasting (res_work h) s = ground arith
  resolver_step-IsLasting r s = ground arith

pub record IsLogEffect (l l' : Logger) (q q' : Fifo Text) : Type 0 where
  pub same : q'.closed ≡ q.closed
  pub lasting : IsEnded q → IsEnded q'
  pub stays : is_log_done l ≡ true → is_log_done l' ≡ true
  pub past : is_log_done l' ≡ true → (is_log_done l ≡ true) ⊎ IsEnded q

pub logger_step-IsLogEffect :
    (l : Logger) (q : Fifo Text) (file : List Text)
    → let (l', q', file') = logger_step (l, q, file) in IsLogEffect l l' q q'
unfolding logger_step Fifo.get
logger_step-IsLogEffect log_get q file = ground arith
logger_step-IsLogEffect l q file = ground arith

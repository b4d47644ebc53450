-- ===== src/Lookup/Ready.antt =====
-- What keeps the program going: there is room for the file names, and every queue is closed in time.
pub mod Runs
use os_dns_resolver.Base.{
  ℕ, ◌+◌, ◌≡◌, ◌<◌, ◌≤◌, ◌⊎◌, inl, inr, refl, List, [], ◌∷◌, ◌++◌, Bool, true, false, length, total,
  total-set, total-le, arith, get_elem?, some, set,
}
use os_dns_resolver.Strings.{Text}
use os_dns_resolver.Fifo.{Fifo}
use os_dns_resolver.Resolve.{Net}
use os_dns_resolver.Simple.{Files}
use os_dns_resolver.Lookup.{Shared}
use os_dns_resolver.Lookup.Threads.{
  Requester, req_get, req_read, req_log, req_copy, req_host, req_end, req_free_hosts, Resolver,
  res_get, res_work, Logger, log_get, requester_step, resolver_step, logger_step,
}
use os_dns_resolver.Lookup.Program.{
  State, Main, main_fill, main_put, main_create, main_free_files, main_drain_requester_log,
  main_free_resolver_log, main_drain_resolver_log, main_join_loggers, main_done, main_step,
  set_requester, set_resolver, set_requester_logger, set_resolver_logger,
}
use os_dns_resolver.Lookup.Counts.{length-snoc}
use os_dns_resolver.Lookup.Phases.{is_reading, IsPhased}
use os_dns_resolver.Fifo

-- The file names that main has still to queue.
abbrev pub names_left : Main → ℕ
names_left (main_fill names) = length names
names_left (main_put name names) = 1 + length names
names_left m = 0

-- main has closed the filename queue, and the log queues.
abbrev pub has_closed_files : Main → Bool
has_closed_files (main_fill names) = false
has_closed_files (main_put name names) = false
has_closed_files main_create = false
has_closed_files main_free_files = false
has_closed_files m = true

abbrev pub has_closed_requester_log : Main → Bool
has_closed_requester_log main_drain_requester_log = true
has_closed_requester_log main_free_resolver_log = true
has_closed_requester_log main_drain_resolver_log = true
has_closed_requester_log main_join_loggers = true
has_closed_requester_log main_done = true
has_closed_requester_log m = false

abbrev pub has_closed_resolver_log : Main → Bool
has_closed_resolver_log main_drain_resolver_log = true
has_closed_resolver_log main_join_loggers = true
has_closed_resolver_log main_done = true
has_closed_resolver_log m = false

-- 1 for the requester that is about to close the hostname queue.
abbrev pub is_closing : Requester → ℕ
is_closing req_free_hosts = 1
is_closing r = 0

pub record IsReady (cap : ℕ) (s : State) : Type 0 where
  pub room : length s.shared.filename_queue.items + names_left s.main ≤ cap
  pub files : has_closed_files s.main ≡ true → s.shared.filename_queue.closed ≡ true
  pub requester_lines :
      has_closed_requester_log s.main ≡ true → s.shared.requester_logfile_queue.closed ≡ true
  pub resolver_lines :
      has_closed_resolver_log s.main ≡ true → s.shared.resolver_logfile_queue.closed ≡ true
  pub hosts :
      total is_reading s.requesters ≡ 0
      → (s.shared.hostname_queue.closed ≡ true) ⊎ (0 < total is_closing s.requesters)

-- No step of a thread but main opens a queue or adds a file name.
pub record IsKept (s s' : Shared) : Type 0 where
  pub names : length s'.filename_queue.items ≤ length s.filename_queue.items
  pub files : s.filename_queue.closed ≡ true → s'.filename_queue.closed ≡ true
  pub hosts : s.hostname_queue.closed ≡ true → s'.hostname_queue.closed ≡ true
  pub requester_lines :
      s.requester_logfile_queue.closed ≡ true → s'.requester_logfile_queue.closed ≡ true
  pub resolver_lines :
      s.resolver_logfile_queue.closed ≡ true → s'.resolver_logfile_queue.closed ≡ true

module _ (files : Files) (cap : ℕ) (ok : Bool) where
  pub requester_step-IsKept :
      (r : Requester) (s : Shared)
      → let (r', s', n) = requester_step files cap ok r s in IsKept s s'
  unfolding requester_step Fifo.get Fifo.put Fifo.close
  requester_step-IsKept req_get s = ground arith
  requester_step-IsKept (req_read bytes) s = ground arith
  requester_step-IsKept (req_log t rest) s = ground arith
  requester_step-IsKept (req_copy t rest) s = ground arith
  requester_step-IsKept (req_host t rest) s = ground arith
  requester_step-IsKept r s = ground arith

  -- The last reader closes the hostname queue.
  pub requester_step-closing :
      (r : Requester) (s : Shared)
      → let (r', s', n) = requester_step files cap ok r s in
        (is_reading r' < is_reading r → s.active_file_readers ≡ 1 → is_closing r' ≡ 1)
        × (is_closing r ≡ 1 → s'.hostname_queue.closed ≡ true)
  unfolding requester_step Fifo.get Fifo.put Fifo.close
  requester_step-closing req_get s = ground arith
  requester_step-closing (req_read bytes) s = ground arith
  requester_step-closing (req_log t rest) s = ground arith
  requester_step-closing (req_copy t rest) s = ground arith
  requester_step-closing (req_host t rest) s = ground arith
  requester_step-closing r s = ground arith

pub resolver_step-IsKept :
    (net : Net) (cap : ℕ) (ip_ok ok : Bool) (r : Resolver) (s : Shared)
    → let (r', s', n) = resolver_step net cap ip_ok ok r s in IsKept s s'
unfolding resolver_step Fifo.get Fifo.put
resolver_step-IsKept net cap ip_ok ok res_get s = ground arith
resolver_step-IsKept net cap ip_ok ok (res_work h) s = ground arith
resolver_step-IsKept net cap ip_ok ok r s = ground arith

module _ (cap : ℕ) (s : State) (v : IsReady cap s) where
  pub set_requester-IsReady :
      (i : ℕ) (r r' : Requester) (s' : Shared) (n : ℕ)
      → get_elem? s.requesters i ≡ some r
      → IsPhased s
      → is_reading r' ≤ is_reading r
      → IsKept s.shared s'
      → (is_reading r' < is_reading r → s.shared.active_file_readers ≡ 1 → is_closing r' ≡ 1)
        × (is_closing r ≡ 1 → s'.hostname_queue.closed ≡ true)
      → IsReady cap (set_requester i s (r', s', n))
  set_requester-IsReady i r r' s' n e p falls k c = record {
    room = omega (arith, v.room, k.names);
    files = λ h. k.files (v.files h);
    requester_lines = λ h. k.requester_lines (v.requester_lines h);
    resolver_lines = λ h. k.resolver_lines (v.resolver_lines h);
    hosts = λ h. ground (
      arith,
      v.hosts,
      k.hosts,
      c,
      p.counted,
      total-set is_reading s.requesters i r' e,
      total-set is_closing s.requesters i r' e,
      total-le is_reading s.requesters i e,
      total-le is_closing s.requesters i e,
    );
  }

  pub set_resolver-IsReady :
      (i : ℕ) (r' : Resolver) (s' : Shared) (n : ℕ)
      → IsKept s.shared s'
      → IsReady cap (set_resolver i s (r', s', n))
  set_resolver-IsReady i r' s' n k = record {
    room = omega (arith, v.room, k.names);
    files = λ h. k.files (v.files h);
    requester_lines = λ h. k.requester_lines (v.requester_lines h);
    resolver_lines = λ h. k.resolver_lines (v.resolver_lines h);
    hosts = λ h. ground (arith, v.hosts h, k.hosts);
  }

  pub main_step-IsReady :
      (files : Files) (resolvers : ℕ) (ok : Bool) (m : Main)
      → s.main ≡ m
      → IsReady cap (main_step files cap resolvers ok m s)
  unfolding main_step Fifo.put Fifo.close
  main_step-IsReady files resolvers ok (main_fill []) e = ground arith
  main_step-IsReady files resolvers ok (main_fill (name ∷ names)) e = ground arith
  main_step-IsReady files resolvers ok (main_put name names) e =
      ground (arith, length-snoc s.shared.filename_queue.items name)
  main_step-IsReady files resolvers ok m e = ground arith

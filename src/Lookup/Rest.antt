-- ===== src/Lookup/Rest.antt =====
-- The steps of threads that have nothing to wait for.
pub mod Threads
pub mod Done
use os_dns_resolver.Base.{
  ℕ, ◌+◌, ◌≡◌, ◌<◌, ◌≤◌, ◌⊎◌, inl, inr, refl, List, [], ◌∷◌, ◌&&◌, Bool, true, false, length, total,
  total-append, arith,
}
use os_dns_resolver.Strings.{Text}
use os_dns_resolver.Lines.{getline}
use os_dns_resolver.Lines.Fuel.{length-break_line}
use os_dns_resolver.Fifo.{Fifo}
use os_dns_resolver.Resolve.{Net}
use os_dns_resolver.Resolve.Message.{log_message-allocated}
use os_dns_resolver.Simple.{Files}
use os_dns_resolver.Lookup.{Shared}
use os_dns_resolver.Lookup.Threads.{
  Requester, req_get, req_read, req_log, req_copy, req_host, Resolver, res_get, res_work, res_put,
  res_done, Logger, log_get, log_write, requester_step, resolver_step, logger_step,
}
use os_dns_resolver.Lookup.Program.{
  State, Main, main_fill, main_put, main_create, main_join_resolvers, main_join_requesters,
  main_join_loggers, main_done, main_step, all, is_req_done, is_res_done, is_log_done,
}
use os_dns_resolver.Lookup.Phases.{IsEnded, is_before_create}
use os_dns_resolver.Lookup.Work.{
  work, line_work, host_work, file_work, shared_work, requester_work, resolver_work, logger_work,
}
use os_dns_resolver.Lookup.Work.Runs.{total-resting}
use os_dns_resolver.Lookup.Ready.{IsReady, has_closed_files}
use os_dns_resolver.Fifo

module _ (files : Files) (cap : ℕ) (some_room : 0 < cap) where
  pub requester_step-rests :
      (r : Requester) (s : Shared)
      → s.filename_queue.closed ≡ true
      → s.hostname_queue.items ≡ []
      → s.requester_logfile_queue.items ≡ []
      → (let (r', s', n) = requester_step files cap true r s in
          requester_work r' + shared_work files s' ≡ requester_work r + shared_work files s)
      → is_req_done r ≡ true
  unfolding requester_step Fifo.get Fifo.put Fifo.close getline
  requester_step-rests req_get s f h l e = ground arith
  requester_step-rests (req_read []) s f h l e = ground arith
  requester_step-rests (req_read (b ∷ bs)) s f h l e = ground (arith, length-break_line b bs)
  requester_step-rests (req_log t rest) s f h l e = ground arith
  requester_step-rests (req_copy t rest) s f h l e = ground arith
  requester_step-rests (req_host t rest) s f h l e = ground arith
  requester_step-rests r s f h l e = ground arith

  pub resolver_step-rests :
      (net : Net) (r : Resolver) (s : Shared)
      → s.resolver_logfile_queue.items ≡ []
      → (is_res_done r ≡ true → IsEnded s.hostname_queue)
      → (let (r', s', n) = resolver_step net cap true true r s in
          resolver_work r' + shared_work files s' ≡ resolver_work r + shared_work files s)
      → (s.hostname_queue.items ≡ []) × (s.hostname_queue.closed ≡ true → is_res_done r ≡ true)
  unfolding resolver_step Fifo.get Fifo.put
  resolver_step-rests net res_get s l d e = ground arith
  resolver_step-rests net (res_work h) s l d e = ground (arith, log_message-allocated net h)
  resolver_step-rests net (res_put m) s l d e = ground arith
  resolver_step-rests net res_done s l d e = ground arith

  -- main waits for a queue to be emptied or for threads to end.
  pub main_step-rests :
      (resolvers : ℕ) (m : Main) (s : State)
      → s.main ≡ m
      → IsReady cap s
      → (is_before_create m ≡ true → s.resolvers ≡ [])
      → s.shared.requester_logfile_queue.items ≡ []
      → s.shared.resolver_logfile_queue.items ≡ []
      → (s.shared.requester_logfile_queue.closed ≡ true → is_log_done s.requester_logger ≡ true)
      → (s.shared.resolver_logfile_queue.closed ≡ true → is_log_done s.resolver_logger ≡ true)
      → work files resolvers (main_step files cap resolvers true m s) ≡ work files resolvers s
      → (m ≡ main_done)
        ⊎ ((has_closed_files m ≡ true)
            × (is_before_create m ≡ false)
            × ((s.shared.filename_queue.items ≡ [])
                → (all is_req_done s.requesters ≡ true)
                → all is_res_done s.resolvers ≡ false))
  unfolding main_step Fifo.put Fifo.close
  main_step-rests resolvers (main_fill []) s e v new a b c d w = ground arith
  main_step-rests resolvers (main_fill (name ∷ names)) s e v new a b c d w = ground arith
  main_step-rests resolvers (main_put name names) s e v new a b c d w =
      ground (arith, total-append (file_work files) s.shared.filename_queue.items (name ∷ []))
  main_step-rests resolvers main_create s e v new a b c d w =
      ground (arith, total-resting resolvers)
  main_step-rests resolvers m s e v new a b c d w = ground arith

pub logger_step-rests :
    (l : Logger) (q : Fifo Text) (file : List Text)
    → (is_log_done l ≡ true → IsEnded q)
    → (let (l', q', file') = logger_step (l, q, file) in
        logger_work l' + total line_work q'.items ≡ logger_work l + total line_work q.items)
    → (q.items ≡ []) × (q.closed ≡ true → is_log_done l ≡ true)
unfolding logger_step Fifo.get
logger_step-rests log_get q file h e = ground arith
logger_step-rests (log_write m) q file h e = ground arith
logger_step-rests l q file h e = ground arith

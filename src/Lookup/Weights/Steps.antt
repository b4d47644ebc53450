-- ===== src/Lookup/Weights/Steps.antt =====
-- What a step of a thread does to the weights.
use os_dns_resolver.Base.{ℕ, ◌+◌, ◌≡◌, ◌<◌, List, [], ◌∷◌, true, false, total, total-append, arith}
use os_dns_resolver.Strings.{Text}
use os_dns_resolver.Fifo.{Fifo}
use os_dns_resolver.Resolve.Message.{log_message-allocated}
use os_dns_resolver.Lines.{getline}
use os_dns_resolver.Lines.Fuel.{hosts-nil, hosts-cons}
use os_dns_resolver.Resolve.{Net}
use os_dns_resolver.Simple.{Files}
use os_dns_resolver.Lookup.Phases.{is_reading, is_resolving}
use os_dns_resolver.Lookup.{Shared}
use os_dns_resolver.Lookup.Threads.{
  Requester, req_get, req_read, req_log, req_copy, req_host, Resolver, res_work, res_put, res_get,
  Logger, log_write, log_get, requester_step, resolver_step, logger_step,
}
use os_dns_resolver.Lookup.Weights.{
  message_weight, requester_weight, resolver_weight, shared_weight, logger_weight,
}
use os_dns_resolver.Fifo

module _ (u v : Text → ℕ) (net : Net) (files : Files) (cap : ℕ) where
  pub requester_step-weight :
      (r : Requester) (s : Shared)
      → (0 < is_reading r
          → (s.hostname_queue.closed ≡ false) × (s.requester_logfile_queue.closed ≡ false))
      → let (r', s', n) = requester_step files cap true r s in
        requester_weight u v net files r' + shared_weight u v net files s'
        ≡ requester_weight u v net files r + shared_weight u v net files s
  unfolding requester_step Fifo.get Fifo.put Fifo.close getline
  requester_step-weight req_get s unclosed = ground arith
  requester_step-weight (req_read []) s unclosed = ground (arith, hosts-nil)
  requester_step-weight (req_read (b ∷ bs)) s unclosed = ground (arith, hosts-cons b bs)
  requester_step-weight (req_log h rest) s unclosed =
      ground (arith, total-append u s.requester_logfile_queue.items (h ∷ []))
  requester_step-weight (req_copy h rest) s unclosed = ground arith
  requester_step-weight (req_host h rest) s unclosed =
      ground (arith, total-append (message_weight u v net files) s.hostname_queue.items (h ∷ []))
  requester_step-weight r s unclosed = ground arith

  pub resolver_step-weight :
      (r : Resolver) (s : Shared)
      → (0 < is_resolving r → s.resolver_logfile_queue.closed ≡ false)
      → let (r', s', n) = resolver_step net cap true true r s in
        resolver_weight u v net files r' + shared_weight u v net files s'
        ≡ resolver_weight u v net files r + shared_weight u v net files s
  unfolding resolver_step Fifo.get Fifo.put
  resolver_step-weight res_get s unclosed = ground arith
  resolver_step-weight (res_work h) s unclosed = ground (arith, log_message-allocated net h)
  resolver_step-weight (res_put m) s unclosed =
      ground (arith, total-append v s.resolver_logfile_queue.items (m ∷ []))
  resolver_step-weight r s unclosed = ground arith

-- A logger moves a line from its queue to its file.
pub logger_step-weight :
    (f : Text → ℕ) (l : Logger) (q : Fifo Text) (file : List Text)
    → let (l', q', file') = logger_step (l, q, file) in
      logger_weight f l' + total f q'.items + total f file'
      ≡ logger_weight f l + total f q.items + total f file
unfolding logger_step Fifo.get
logger_step-weight f log_get q file = ground arith
logger_step-weight f (log_write m) q file = ground (arith, total-append f file (m ∷ []))
logger_step-weight f l q file = ground arith

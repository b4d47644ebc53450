-- ===== src/Lookup/Weights.antt =====
-- What the program has still to log, and what it has logged, weighed: each host by `u` for its line
-- in the requester log, and the message of the host by `v` for its line in the resolver log.
pub mod Steps
pub mod Runs
use os_dns_resolver.Base.{ℕ, ◌+◌, List, [], ◌∷◌, Option, none, some, true, total}
use os_dns_resolver.Strings.{Text}
use os_dns_resolver.Lines.{hosts}
use os_dns_resolver.Resolve.{Net, message, dns_resolve}
use os_dns_resolver.Simple.{Files}
use os_dns_resolver.Lookup.{Shared}
use os_dns_resolver.Lookup.Threads.{
  Requester, req_read, req_log, req_copy, req_host, Resolver, res_work, res_put, Logger, log_write,
}
use os_dns_resolver.Lookup.Program.{Main, main_fill, main_put, State}

-- The line of a host in the resolver log.
abbrev pub resolved : Net → Text → Text
resolved net h = message h (dns_resolve net h true)

abbrev pub logger_weight : (Text → ℕ) → Logger → ℕ
logger_weight f (log_write m) = f m
logger_weight f l = 0

module _ (u v : Text → ℕ) (net : Net) (files : Files) where
  abbrev pub message_weight : Text → ℕ
  message_weight h = v (resolved net h)

  -- Empty lines are not looked up.
  abbrev pub host_weight : Text → ℕ
  host_weight [] = 0
  host_weight (b ∷ h) = u (b ∷ h) + message_weight (b ∷ h)

  abbrev pub bytes_weight : Text → ℕ
  bytes_weight bytes = total host_weight (hosts bytes)

  abbrev pub opened_weight : Option Text → ℕ
  opened_weight none = 0
  opened_weight (some bytes) = bytes_weight bytes

  abbrev pub file_weight : Text → ℕ
  file_weight name = opened_weight (files.read name)

  abbrev pub requester_weight : Requester → ℕ
  requester_weight (req_read bytes) = bytes_weight bytes
  requester_weight (req_log h rest) = u h + message_weight h + bytes_weight rest
  requester_weight (req_copy h rest) = message_weight h + bytes_weight rest
  requester_weight (req_host h rest) = message_weight h + bytes_weight rest
  requester_weight r = 0

  abbrev pub resolver_weight : Resolver → ℕ
  resolver_weight (res_work h) = message_weight h
  resolver_weight (res_put m) = v m
  resolver_weight r = 0

  abbrev pub main_weight : Main → ℕ
  main_weight (main_fill names) = total file_weight names
  main_weight (main_put name names) = file_weight name + total file_weight names
  main_weight m = 0

  abbrev pub shared_weight : Shared → ℕ
  shared_weight s =
      total file_weight s.filename_queue.items
      + total message_weight s.hostname_queue.items
      + total u s.requester_logfile_queue.items
      + total v s.resolver_logfile_queue.items

  abbrev pub weight : State → ℕ
  weight s =
      main_weight s.main
      + shared_weight s.shared
      + total requester_weight s.requesters
      + total resolver_weight s.resolvers
      + logger_weight u s.requester_logger
      + logger_weight v s.resolver_logger
      + total u s.requester_log
      + total v s.resolver_log

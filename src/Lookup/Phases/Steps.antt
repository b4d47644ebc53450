-- ===== src/Lookup/Phases/Steps.antt =====
-- Every step of the program keeps its phases.
use os_dns_resolver.Base.{
  ℕ, ◌+◌, ◌≡◌, ◌≤◌, arith, get_elem?, set, some, total, total-set, total-le, List, Bool, true, ◌∷◌,
  sym, [], ◌∙◌, refl, total-replicate,
}
use os_dns_resolver.Lookup.{Shared, Fifo, Text}
use os_dns_resolver.Lookup.Threads.{Requester, Logger, res_get}
use os_dns_resolver.Lookup.Program.{
  State, set_requester, all, set_resolver, is_req_done, is_res_done, main_step,
  set_requester_logger, set_resolver_logger, main_create, main_join_requesters, main_join_resolvers,
}
use os_dns_resolver.Lookup.Phases.{
  is_reading, is_freeing, is_past_files, IsPhased, Resolver, is_resolving, is_past_hosts, Main,
  main_fill, main_put,
}
use os_dns_resolver.Lookup.Phases.Effects.{IsReqEffect, IsLasting, IsResEffect, IsLogEffect}
use os_dns_resolver.Simple.{Files}
use os_dns_resolver.Fifo.{Fifo}
use os_dns_resolver.Strings.{Text}
use os_dns_resolver.Fifo

module _ (s : State) (v : IsPhased s) (i : ℕ) where
  pub set_requester-IsPhased :
      (r r' : Requester) (s' : Shared) (n : ℕ)
      → get_elem? s.requesters i ≡ some r
      → IsReqEffect r r' s.shared s'
      → IsLasting s.shared s'
      → IsPhased (set_requester i s (r', s', n))
  set_requester-IsPhased r r' s' n e f l = record {
    counted = omega (arith, reading);
    hosts_closed = λ c. ground (arith, reading, freed);
    log_closed = λ c. ground (arith, reading, freed);
    freeing = λ c. ground (arith, reading, freed, freeing);
    joined = λ c. ground (arith, reading);
    messages_closed = λ c. ground arith;
    resolved = v.resolved;
    uncreated = v.uncreated;
    filled = λ c. ground arith;
    files_ended = λ c. ground (arith, past, was_past);
    hosts_ended = λ c. l.hosts (v.hosts_ended c);
    requester_logged = λ c. l.requester_log (v.requester_logged c);
    resolver_logged = λ c. l.resolver_log (v.resolver_logged c);
    finished = v.finished;
  }
    where
      reading :
          total is_reading (set s.requesters i r') + is_reading r
          ≡ total is_reading s.requesters + is_reading r'
      reading = total-set is_reading s.requesters i r' e

      freeing :
          total is_freeing (set s.requesters i r') + is_freeing r
          ≡ total is_freeing s.requesters + is_freeing r'
      freeing = total-set is_freeing s.requesters i r' e

      freed : is_freeing r ≤ total is_freeing s.requesters
      freed = total-le is_freeing s.requesters i e

      past :
          total is_past_files (set s.requesters i r') + is_past_files r
          ≡ total is_past_files s.requesters + is_past_files r'
      past = total-set is_past_files s.requesters i r' e

      was_past : is_past_files r ≤ total is_past_files s.requesters
      was_past = total-le is_past_files s.requesters i e

  pub set_resolver-IsPhased :
      (r r' : Resolver) (s' : Shared) (n : ℕ)
      → get_elem? s.resolvers i ≡ some r
      → IsResEffect r r' s.shared s'
      → IsLasting s.shared s'
      → IsPhased (set_resolver i s (r', s', n))
  set_resolver-IsPhased r r' s' n e f l = record {
    counted = omega (arith, v.counted, f.readers);
    hosts_closed = λ c. v.hosts_closed (sym f.hosts ∙ c);
    log_closed = λ c. v.log_closed (sym f.log ∙ c);
    freeing = v.freeing;
    joined = v.joined;
    messages_closed = λ c. v.messages_closed (sym f.messages ∙ c);
    resolved = λ c. omega (arith, resolving, f.falls, v.resolved c);
    uncreated = λ c. ground (arith, v.uncreated c, e);
    filled = λ c. v.filled (sym f.files ∙ c);
    files_ended = λ c. l.files (v.files_ended c);
    hosts_ended = λ c. ground (arith, past, was_past);
    requester_logged = λ c. l.requester_log (v.requester_logged c);
    resolver_logged = λ c. l.resolver_log (v.resolver_logged c);
    finished = v.finished;
  }
    where
      resolving :
          total is_resolving (set s.resolvers i r') + is_resolving r
          ≡ total is_resolving s.resolvers + is_resolving r'
      resolving = total-set is_resolving s.resolvers i r' e

      past :
          total is_past_hosts (set s.resolvers i r') + is_past_hosts r
          ≡ total is_past_hosts s.resolvers + is_past_hosts r'
      past = total-set is_past_hosts s.resolvers i r' e

      was_past : is_past_hosts r ≤ total is_past_hosts s.resolvers
      was_past = total-le is_past_hosts s.resolvers i e

module _ (s : State) (v : IsPhased s) (l' : Logger) (q' : Fifo Text) (file : List Text) where
  pub set_requester_logger-IsPhased :
      IsLogEffect s.requester_logger l' s.shared.requester_logfile_queue q'
      → IsPhased (set_requester_logger s (l', q', file))
  set_requester_logger-IsPhased f = ground arith

  pub set_resolver_logger-IsPhased :
      IsLogEffect s.resolver_logger l' s.shared.resolver_logfile_queue q'
      → IsPhased (set_resolver_logger s (l', q', file))
  set_resolver_logger-IsPhased f = ground arith

all_done-reading : (rs : List Requester) → all is_req_done rs ≡ true → total is_reading rs ≡ 0
all_done-reading [] h = refl
all_done-reading (r ∷ rs) h = ground (arith, all_done-reading rs)

all_done-resolving : (rs : List Resolver) → all is_res_done rs ≡ true → total is_resolving rs ≡ 0
all_done-resolving [] h = refl
all_done-resolving (r ∷ rs) h = ground (arith, all_done-resolving rs)

module _ (files : Files) (cap resolvers : ℕ) (ok : Bool) (s : State) (v : IsPhased s) where
  pub main_step-IsPhased : (m : Main) → s.main ≡ m → IsPhased (main_step files cap resolvers ok m s)
  unfolding main_step Fifo.put Fifo.close
  main_step-IsPhased (main_fill []) e = ground arith
  main_step-IsPhased (main_fill (name ∷ names)) e = ground arith
  main_step-IsPhased (main_put name names) e = ground arith
  main_step-IsPhased main_create e = ground (arith, total-replicate is_past_hosts resolvers res_get)
  main_step-IsPhased main_join_requesters e = ground (arith, all_done-reading s.requesters)
  main_step-IsPhased main_join_resolvers e = ground (arith, all_done-resolving s.resolvers)
  main_step-IsPhased m e = ground arith

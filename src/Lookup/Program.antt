-- ===== src/Lookup/Program.antt =====
-- main of turnin/multi-lookup.c from the start of the requester threads on (line 419), and the whole
-- program as its threads in any interleaving. Every pthread_create succeeds.
use os_dns_resolver.Base.{
  ℕ, ◌+◌, List, [], ◌∷◌, Bool, true, false, ◌&&◌, Option, none, some, if◌then◌else◌, get_elem?, set,
  replicate,
}
use os_dns_resolver.Strings.{Text}
use os_dns_resolver.Fifo.{Fifo, PutReply, added, full, refused}
use os_dns_resolver.Resolve.{Net}
use os_dns_resolver.Simple.{Files}
use os_dns_resolver.Lookup.{no_memory, not_queued, Shared, complain}
use os_dns_resolver.Lookup.Threads.{
  Requester, req_get, req_done, Resolver, res_get, res_done, Logger, log_get, log_done, Left, Log,
  drained, requester_step, resolver_step, logger_step,
}
use os_dns_resolver.Fifo

-- Where main stands: at the test of a file name, at the array_put of one, before the creation of
-- the resolvers, in its calls of array_free, and at its joins.
pub data Main : Type 0 where
  main_fill : List Text → Main
  main_put : Text → List Text → Main
  main_create : Main
  main_free_files : Main
  main_drain_files : Main
  main_join_requesters : Main
  main_join_resolvers : Main
  main_free_requester_log : Main
  main_drain_requester_log : Main
  main_free_resolver_log : Main
  main_drain_resolver_log : Main
  main_join_loggers : Main
  main_done : Main

-- `files_serviced` and `hosts_resolved` are the sums of the threads' counters.
pub record State : Type 0 where
  pub main : Main
  pub shared : Shared
  pub requesters : List Requester
  pub resolvers : List Resolver
  pub requester_logger : Logger
  pub resolver_logger : Logger
  pub requester_log : List Text
  pub resolver_log : List Text
  pub files_serviced : ℕ
  pub hosts_resolved : ℕ

-- Behind line 417: `requesters` threads have been created, and the loggers.
abbrev pub open_queue : Fifo Text
open_queue = record { items = []; closed = false }

unfoldable pub start : List Text → ℕ → State
start names requesters = record {
  main = main_fill names;
  shared = record {
    filename_queue = open_queue;
    hostname_queue = open_queue;
    requester_logfile_queue = open_queue;
    resolver_logfile_queue = open_queue;
    active_file_readers = requesters;
    stderr = [];
  };
  requesters = replicate requesters req_get;
  resolvers = [];
  requester_logger = log_get;
  resolver_logger = log_get;
  requester_log = [];
  resolver_log = [];
  files_serviced = 0;
  hosts_resolved = 0;
}

-- The loops of pthread_join have passed.
abbrev pub is_req_done : Requester → Bool
is_req_done req_done = true
is_req_done r = false

abbrev pub is_res_done : Resolver → Bool
is_res_done res_done = true
is_res_done r = false

abbrev pub is_log_done : Logger → Bool
is_log_done log_done = true
is_log_done l = false

abbrev pub all {ℓ} : {A : Type ℓ} → (A → Bool) → List A → Bool
all p [] = true
all p (x ∷ xs) = p x && all p xs

-- A name that does not open is skipped, and another one is copied.
abbrev pub fill : Bool → Text → List Text → Option Text → State → State
fill ok name names none s = record s { main = main_fill names }
fill ok name names (some bytes) s =
    if ok
    then record s { main = main_put name names }
    else record s { main = main_fill names; shared = complain no_memory s.shared }

abbrev pub put_file : Text → List Text → State → Fifo Text × PutReply → State
put_file name names s (q, added) = record s {
  main = main_fill names;
  shared = record s.shared { filename_queue = q };
}
put_file name names s (q, full) = s
put_file name names s (q, refused) = record s {
  main = main_fill names;
  shared = complain (not_queued name) s.shared;
}

-- A step of main.
unfoldable pub main_step : Files → ℕ → ℕ → Bool → Main → State → State
main_step files cap resolvers ok (main_fill []) s = record s { main = main_create }
main_step files cap resolvers ok (main_fill (name ∷ names)) s =
    fill ok name names (files.read name) s
main_step files cap resolvers ok (main_put name names) s =
    put_file name names s (Fifo.put cap s.shared.filename_queue name)
main_step files cap resolvers ok main_create s = record s {
  main = main_free_files;
  resolvers = replicate resolvers res_get;
}
main_step files cap resolvers ok main_free_files s = record s {
  main = main_drain_files;
  shared = record s.shared { filename_queue = Fifo.close s.shared.filename_queue };
}
main_step files cap resolvers ok main_drain_files s = record s {
  main = drained s.shared.filename_queue.items main_join_requesters main_drain_files;
}
main_step files cap resolvers ok main_join_requesters s =
    if all is_req_done s.requesters then record s { main = main_join_resolvers } else s
main_step files cap resolvers ok main_join_resolvers s =
    if all is_res_done s.resolvers then record s { main = main_free_requester_log } else s
main_step files cap resolvers ok main_free_requester_log s = record s {
  main = main_drain_requester_log;
  shared = record s.shared {
    requester_logfile_queue = Fifo.close s.shared.requester_logfile_queue;
  };
}
main_step files cap resolvers ok main_drain_requester_log s = record s {
  main =
      drained s.shared.requester_logfile_queue.items main_free_resolver_log
        main_drain_requester_log;
}
main_step files cap resolvers ok main_free_resolver_log s = record s {
  main = main_drain_resolver_log;
  shared = record s.shared { resolver_logfile_queue = Fifo.close s.shared.resolver_logfile_queue };
}
main_step files cap resolvers ok main_drain_resolver_log s = record s {
  main = drained s.shared.resolver_logfile_queue.items main_join_loggers main_drain_resolver_log;
}
main_step files cap resolvers ok main_join_loggers s =
    if is_log_done s.requester_logger && is_log_done s.resolver_logger
    then record s { main = main_done }
    else s
main_step files cap resolvers ok main_done s = s

-- Which thread runs, and how the allocations of its step come out.
pub data Choice : Type 0 where
  main_runs : Bool → Choice
  requester_runs : ℕ → Bool → Choice
  resolver_runs : ℕ → Bool → Bool → Choice
  requester_logger_runs : Choice
  resolver_logger_runs : Choice

abbrev pub set_requester : ℕ → State → Left Requester → State
set_requester i s (r, shared, n) = record s {
  shared = shared;
  requesters = set s.requesters i r;
  files_serviced = s.files_serviced + n;
}

abbrev pub set_resolver : ℕ → State → Left Resolver → State
set_resolver i s (r, shared, n) = record s {
  shared = shared;
  resolvers = set s.resolvers i r;
  hosts_resolved = s.hosts_resolved + n;
}

abbrev pub set_requester_logger : State → Log → State
set_requester_logger s (l, q, file) = record s {
  shared = record s.shared { requester_logfile_queue = q };
  requester_logger = l;
  requester_log = file;
}

abbrev pub set_resolver_logger : State → Log → State
set_resolver_logger s (l, q, file) = record s {
  shared = record s.shared { resolver_logfile_queue = q };
  resolver_logger = l;
  resolver_log = file;
}

module _ (net : Net) (files : Files) (cap resolvers : ℕ) where
  abbrev pub run_requester : ℕ → Bool → State → Option Requester → State
  run_requester i ok s none = s
  run_requester i ok s (some r) = set_requester i s (requester_step files cap ok r s.shared)

  abbrev pub run_resolver : ℕ → Bool → Bool → State → Option Resolver → State
  run_resolver i ip_ok ok s none = s
  run_resolver i ip_ok ok s (some r) = set_resolver i s (resolver_step net cap ip_ok ok r s.shared)

  -- One step of the program.
  unfoldable pub step : State → Choice → State
  step s (main_runs ok) = main_step files cap resolvers ok s.main s
  step s (requester_runs i ok) = run_requester i ok s (get_elem? s.requesters i)
  step s (resolver_runs i ip_ok ok) = run_resolver i ip_ok ok s (get_elem? s.resolvers i)
  step s requester_logger_runs =
      set_requester_logger s
        (logger_step (s.requester_logger, s.shared.requester_logfile_queue, s.requester_log))
  step s resolver_logger_runs =
      set_resolver_logger s
        (logger_step (s.resolver_logger, s.shared.resolver_logfile_queue, s.resolver_log))

  unfoldable pub run : State → List Choice → State
  run s [] = s
  run s (c ∷ cs) = run (step s c) cs

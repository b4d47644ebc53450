-- ===== src/Lookup/Stuck.antt =====
-- A state of the program in which all its threads wait for each other.
pub mod Moves
pub mod Reached
use os_dns_resolver.Base.{
  set-same, ℕ, ◌≡◌, refl, ◌∙◌, ap, List, [], ◌∷◌, arith, length, get_elem?, some, none, Option, All,
  All-get_elem?, false, Bool,
}
use os_dns_resolver.Fifo.{Fifo}
use os_dns_resolver.Strings.{Text}
use os_dns_resolver.Resolve.{Net}
use os_dns_resolver.Simple.{Files}
use os_dns_resolver.Lookup.Threads.{Requester, req_host, log_get, requester_step, logger_step}
use os_dns_resolver.Lookup.Program.{
  State, main_put, main_step, Choice, main_runs, requester_runs, resolver_runs,
  requester_logger_runs, resolver_logger_runs, run_requester, step, run,
}
use os_dns_resolver.Fifo

-- A queue that is open, with no room, and one that is open and empty.
abbrev IsFull : ℕ → Fifo Text → Type 0
IsFull cap q = (q.closed ≡ false) × (length q.items ≡ cap)

abbrev IsIdle : Fifo Text → Type 0
IsIdle q = (q.closed ≡ false) × (q.items ≡ [])

abbrev pub IsAtHost : Requester → Type 0
IsAtHost r = (h : Text) × (rest : Text) × (r ≡ req_host h rest)

-- main waits for room in the filename queue, each requester for room in the hostname queue, and the
-- loggers for lines.
pub record IsStuck (cap : ℕ) (s : State) : Type 0 where
  pub filling : (name : Text) × (names : List Text) × (s.main ≡ main_put name names)
  pub files : IsFull cap s.shared.filename_queue
  pub hosts : IsFull cap s.shared.hostname_queue
  pub requester_lines : IsIdle s.shared.requester_logfile_queue
  pub resolver_lines : IsIdle s.shared.resolver_logfile_queue
  pub waiting : All IsAtHost s.requesters
  pub no_resolvers : s.resolvers ≡ []
  pub loggers : (s.requester_logger ≡ log_get) × (s.resolver_logger ≡ log_get)

module _ (net : Net) (files : Files) (cap resolvers : ℕ) (s : State) (k : IsStuck cap s) where
  stuck-main : (ok : Bool) → main_step files cap resolvers ok s.main s ≡ s
  unfolding main_step Fifo.put
  stuck-main ok = ground (arith, k)

  stuck-requester :
      (i : ℕ) (ok : Bool) (o : Option Requester)
      → get_elem? s.requesters i ≡ o
      → run_requester net files cap resolvers i ok s o ≡ s
  unfolding requester_step Fifo.put
  stuck-requester i ok none e = refl
  stuck-requester i ok (some r) e =
      let (h, rest, at) = All-get_elem? IsAtHost s.requesters i k.waiting e in
      ground (arith, k.hosts, set-same s.requesters i e)

  stuck-step : (c : Choice) → step net files cap resolvers s c ≡ s
  unfolding step logger_step Fifo.get
  stuck-step (main_runs ok) = stuck-main ok
  stuck-step (requester_runs i ok) = stuck-requester i ok (get_elem? s.requesters i) refl
  stuck-step (resolver_runs i ip_ok ok) = ground (arith, k.no_resolvers)
  stuck-step requester_logger_runs = ground (arith, k.loggers, k.requester_lines)
  stuck-step resolver_logger_runs = ground (arith, k.loggers, k.resolver_lines)

-- The program deadlocks where main waits for room in the full filename queue before it has created
-- the resolvers, every requester waits for room in the full hostname queue, and the loggers have
-- nothing to write: no thread can change anything, whichever of them run.
pub run-stuck :
    (net : Net) (files : Files) (cap resolvers : ℕ) (s : State) (cs : List Choice)
    → IsStuck cap s
    → run net files cap resolvers s cs ≡ s
unfolding run
run-stuck net files cap resolvers s [] k = refl
run-stuck net files cap resolvers s (c ∷ cs) k =
    ap (λ t. run net files cap resolvers t cs) (stuck-step net files cap resolvers s k c)
    ∙ run-stuck net files cap resolvers s cs k

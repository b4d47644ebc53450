-- ===== src/Lookup/Stuck/Moves.antt =====
-- Runs with one requester, files of many hosts, and more files than a queue holds.
use os_dns_resolver.Base.{
  ℕ, zero, suc, ◌+◌, ◌≡◌, ◌<◌, ◌≤◌, refl, ap, ◌∙◌, get_elem?, set, List, [], ◌∷◌, ◌++◌, true, false,
  some, arith, length, length-append, ap₂,
}
use os_dns_resolver.Strings.{Text, host_of}
use os_dns_resolver.Lines.{getline, break_line}
use os_dns_resolver.Resolve.{Net}
use os_dns_resolver.Simple.{Files}
use os_dns_resolver.Lookup.{Shared}
use os_dns_resolver.Lookup.Threads.{
  req_copy, Requester, req_read, req_host, log_get, requester_step, logger_step, req_log,
}
use os_dns_resolver.Lookup.Program.{
  State, Main, Choice, requester_runs, requester_logger_runs, open_queue, step, run, run_requester,
}
use os_dns_resolver.Fifo

-- A file of `k` lines "a", and a file system in which every name opens such a file.
unfoldable pub lines : ℕ → Text
lines zero = []
lines (suc k) = b'a' ∷ b'\n' ∷ lines k

abbrev pub host : Text
host = b'a' ∷ []

abbrev pub name : Text
name = b'f' ∷ []

abbrev pub files_of : ℕ → Files
files_of k = record { read = λ t. some (lines k); can_write = λ t. true }

-- What changes in such a run of `readers` requesters: where main and the requesters stand, what is in
-- the queues of the names and of the hosts and in the log of the requesters, and how many files have
-- been opened.
abbrev pub at : ℕ → Main → List Requester → List Text → List Text → List Text → ℕ → State
at readers main requesters names hosts log serviced = record {
  main = main;
  shared = record {
    filename_queue = record { items = names; closed = false };
    hostname_queue = record { items = hosts; closed = false };
    requester_logfile_queue = open_queue;
    resolver_logfile_queue = open_queue;
    active_file_readers = readers;
    stderr = [];
  };
  requesters = requesters;
  resolvers = [];
  requester_logger = log_get;
  resolver_logger = log_get;
  requester_log = log;
  resolver_log = [];
  files_serviced = serviced;
  hosts_resolved = 0;
}

module _ {ℓ} {A : Type ℓ} where
  get_elem?-middle :
      (ps : List A) (x : A) (qs : List A) → get_elem? (ps ++ x ∷ qs) (length ps) ≡ some x
  get_elem?-middle [] x qs = refl
  get_elem?-middle (p ∷ ps) x qs = get_elem?-middle ps x qs

  set-middle :
      (ps : List A) (x y : A) (qs : List A) → set (ps ++ x ∷ qs) (length ps) y ≡ ps ++ y ∷ qs
  set-middle [] x y qs = refl
  set-middle (p ∷ ps) x y qs = ap (λ xs. p ∷ xs) (set-middle ps x y qs)

module _ (net : Net) (cap resolvers readers : ℕ) (some_room : 0 < cap) where
  abbrev pub files : Files
  files = files_of (suc cap)

  abbrev pub Reaches : State → State → Type 0
  Reaches s t = (cs : List Choice) × (run net files cap resolvers s cs ≡ t)

  run-append :
      (s : State) (cs ds : List Choice)
      → run net files cap resolvers s (cs ++ ds)
        ≡ run net files cap resolvers (run net files cap resolvers s cs) ds
  unfolding run
  run-append s [] ds = refl
  run-append s (c ∷ cs) ds = run-append (step net files cap resolvers s c) cs ds

  pub reaches_trans : (s t u : State) → Reaches s t → Reaches t u → Reaches s u
  reaches_trans s t u (cs, e) (ds, f) =
      (cs ++ ds, run-append s cs ds ∙ ap (λ x. run net files cap resolvers x ds) e ∙ f)

  -- A turn of the requester behind the requesters `ps`.
  pub turn :
      (s : State) (ps : List Requester) (r : Requester) (qs : List Requester) (r' : Requester)
      (shared : Shared) (more total : ℕ)
      → s.requesters ≡ ps ++ r ∷ qs
      → requester_step files cap true r s.shared ≡ (r', shared, more)
      → s.files_serviced + more ≡ total
      → Reaches s (record s { shared = shared; requesters = ps ++ r' ∷ qs; files_serviced = total })
  unfolding run step
  turn s ps r qs r' shared more total e f g = (
    requester_runs (length ps) true ∷ [],
    ap (run_requester net files cap resolvers (length ps) true s)
          (ap (λ rs. get_elem? rs (length ps)) e ∙ get_elem?-middle ps r qs)
        ∙ ap
            (λ t. record s {
              shared = t.1;
              requesters = set s.requesters (length ps) t.0;
              files_serviced = s.files_serviced + t.2;
            })
            f
        ∙ ap₂ (λ rs k. record s { shared = shared; requesters = rs; files_serviced = k })
            (ap (λ rs. set rs (length ps) r') e ∙ set-middle ps r r' qs) g,
  )

  module _ (ps qs : List Requester) (main : Main) where
    -- The requester reads a line, and the logger writes it.
    pub read_line :
        (k : ℕ) (names hosts log : List Text) (serviced : ℕ)
        → Reaches (at readers main (ps ++ req_read (lines (suc k)) ∷ qs) names hosts log serviced) (
            at readers main
              (ps ++ req_host host (lines k) ∷ qs)
              names
              hosts
              (log ++ host ∷ [])
              serviced)
    unfolding run step requester_step logger_step Fifo.get Fifo.put getline break_line host_of lines
    read_line k names hosts log serviced =
        let s = at readers main (ps ++ req_read (lines (suc k)) ∷ qs) names hosts log serviced in
        let read = record s { requesters = ps ++ req_log host (lines k) ∷ qs } in
        let queued = record s.shared {
          requester_logfile_queue = record { items = host ∷ []; closed = false };
        } in
        let logged = record s {
          shared = queued;
          requesters = ps ++ req_copy host (lines k) ∷ qs;
        } in
        let written = record s {
          requesters = ps ++ req_copy host (lines k) ∷ qs;
          requester_log = log ++ host ∷ [];
        } in
        reaches_trans s read _
          (turn s ps (req_read (lines (suc k))) qs (req_log host (lines k)) s.shared 0 serviced refl
            refl (omega arith))
          (reaches_trans read logged _
            (turn read ps (req_log host (lines k)) qs (req_copy host (lines k)) queued 0 serviced
              refl (ground (arith, some_room)) (omega arith))
            (reaches_trans logged written _
              (requester_logger_runs ∷ requester_logger_runs ∷ [], refl)
              (turn written ps (req_copy host (lines k)) qs (req_host host (lines k)) s.shared 0
                serviced refl refl (omega arith))))

    -- It queues the host.
    put_host :
        (rest : Text) (names hosts log : List Text) (serviced : ℕ)
        → length hosts < cap
        → Reaches
            (at readers main (ps ++ req_host host rest ∷ qs) names hosts log serviced)
            (at readers main (ps ++ req_read rest ∷ qs) names (hosts ++ host ∷ []) log serviced)
    unfolding requester_step Fifo.put
    put_host rest names hosts log serviced h =
        let s = at readers main (ps ++ req_host host rest ∷ qs) names hosts log serviced in
        turn s ps (req_host host rest) qs (req_read rest)
          (record s.shared {
            hostname_queue = record { items = hosts ++ host ∷ []; closed = false };
          })
          0 serviced refl (ground (arith, h)) (omega arith)

    -- One host after the other, up to the last line.
    pub fill_hosts :
        (k : ℕ) (names hosts log : List Text) (serviced : ℕ)
        → length hosts + k ≤ cap
        → (hosts' log' : List Text) × (length hosts' ≡ length hosts + k)
          × Reaches
              (at readers main (ps ++ req_read (lines (suc k)) ∷ qs) names hosts log serviced)
              (at readers main (ps ++ req_host host [] ∷ qs) names hosts' log' serviced)
    unfolding lines
    fill_hosts zero names hosts log serviced h =
        (hosts, log ++ host ∷ [], omega arith, read_line zero names hosts log serviced)
    fill_hosts (suc k) names hosts log serviced h =
        let (hosts', log', e, r) =
          fill_hosts k names (hosts ++ host ∷ []) (log ++ host ∷ []) serviced
            (omega (arith, h, length-append hosts (host ∷ []))) in
        (
          hosts',
          log',
          omega (arith, e, length-append hosts (host ∷ [])),
          reaches_trans _ _ _ (read_line (suc k) names hosts log serviced) (
              reaches_trans _ _ _
                (put_host (lines (suc k)) names hosts (log ++ host ∷ []) serviced
                  (omega (arith, h)))
                r),
        )

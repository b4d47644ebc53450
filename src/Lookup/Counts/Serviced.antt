-- ===== src/Lookup/Counts/Serviced.antt =====
-- `files_serviced`: the data files that open are counted once each.
use os_dns_resolver.Base.{
  ℕ, ◌+◌, ◌≡◌, refl, ◌∙◌, List, [], ◌∷◌, Bool, true, false, Option, some, none, total, total-append,
  arith, get_elem?,
}
use os_dns_resolver.Strings.{Text}
use os_dns_resolver.Resolve.{Net}
use os_dns_resolver.Simple.{Files}
use os_dns_resolver.Lookup.{Shared}
use os_dns_resolver.Lookup.Threads.{
  Requester, req_get, req_read, req_log, req_copy, req_host, Resolver, res_get, res_work,
  requester_step, resolver_step,
}
use os_dns_resolver.Lookup.Program.{
  State, Main, main_fill, main_put, main_step, Choice, main_runs, requester_runs, resolver_runs,
  requester_logger_runs, resolver_logger_runs, run_requester, run_resolver, step, run, all,
}
use os_dns_resolver.Lookup.Phases.{is_filling, IsPhased}
use os_dns_resolver.Lookup.Phases.Runs.{step-IsPhased}
use os_dns_resolver.Lookup.Weights.Runs.{allocates}
use os_dns_resolver.Fifo

-- 1 for a file that opens.
abbrev some_file : Option Text → ℕ
some_file none = 0
some_file (some bytes) = 1

module _ (files : Files) where
  abbrev pub opens : Text → ℕ
  opens name = some_file (files.read name)

  abbrev pub main_files : Main → ℕ
  main_files (main_fill names) = total opens names
  main_files (main_put name names) = opens name + total opens names
  main_files m = 0

  -- The files that are still to be opened, and those that have been.
  abbrev pub data_files : State → ℕ
  data_files s = main_files s.main + total opens s.shared.filename_queue.items + s.files_serviced

  requester_step-files :
      (cap : ℕ) (ok : Bool) (r : Requester) (s : Shared)
      → let (r', s', n) = requester_step files cap ok r s in
        total opens s'.filename_queue.items + n ≡ total opens s.filename_queue.items
  unfolding requester_step Fifo.get Fifo.put Fifo.close
  requester_step-files cap ok req_get s = ground arith
  requester_step-files cap ok (req_read bytes) s = ground arith
  requester_step-files cap ok (req_log t rest) s = ground arith
  requester_step-files cap ok (req_copy t rest) s = ground arith
  requester_step-files cap ok (req_host t rest) s = ground arith
  requester_step-files cap ok r s = ground arith

  resolver_step-files :
      (net : Net) (cap : ℕ) (ip_ok ok : Bool) (r : Resolver) (s : Shared)
      → let (r', s', n) = resolver_step net cap ip_ok ok r s in
        total opens s'.filename_queue.items ≡ total opens s.filename_queue.items
  unfolding resolver_step Fifo.get Fifo.put
  resolver_step-files net cap ip_ok ok res_get s = ground arith
  resolver_step-files net cap ip_ok ok (res_work h) s = ground arith
  resolver_step-files net cap ip_ok ok r s = ground arith

  main_step-files :
      (cap resolvers : ℕ) (m : Main) (s : State)
      → s.main ≡ m
      → (is_filling m ≡ true → s.shared.filename_queue.closed ≡ false)
      → data_files (main_step files cap resolvers true m s) ≡ data_files s
  unfolding main_step Fifo.put Fifo.close
  main_step-files cap resolvers (main_fill []) s e unclosed = ground arith
  main_step-files cap resolvers (main_fill (name ∷ names)) s e unclosed = ground arith
  main_step-files cap resolvers (main_put name names) s e unclosed =
      ground (arith, total-append opens s.shared.filename_queue.items (name ∷ []))
  main_step-files cap resolvers m s e unclosed = ground arith

  module _ (net : Net) (cap resolvers : ℕ) where
    run_requester-files :
        (i : ℕ) (ok : Bool) (s : State) (o : Option Requester)
        → data_files (run_requester net files cap resolvers i ok s o) ≡ data_files s
    run_requester-files i ok s none = refl
    run_requester-files i ok s (some r) = omega (arith, requester_step-files cap ok r s.shared)

    run_resolver-files :
        (i : ℕ) (ip_ok ok : Bool) (s : State) (o : Option Resolver)
        → data_files (run_resolver net files cap resolvers i ip_ok ok s o) ≡ data_files s
    run_resolver-files i ip_ok ok s none = refl
    run_resolver-files i ip_ok ok s (some r) =
        omega (arith, resolver_step-files net cap ip_ok ok r s.shared)

    step-files :
        (s : State) (c : Choice)
        → allocates c ≡ true
        → IsPhased s
        → data_files (step net files cap resolvers s c) ≡ data_files s
    unfolding step
    step-files s (main_runs true) h p =
        main_step-files cap resolvers s.main s refl (ground (arith, p))
    step-files s (main_runs false) h p = cc
    step-files s (requester_runs i ok) h p = run_requester-files i ok s (get_elem? s.requesters i)
    step-files s (resolver_runs i ip_ok ok) h p =
        run_resolver-files i ip_ok ok s (get_elem? s.resolvers i)
    step-files s requester_logger_runs h p = refl
    step-files s resolver_logger_runs h p = refl

    pub run_files :
        (s : State) (cs : List Choice)
        → all allocates cs ≡ true
        → IsPhased s
        → data_files (run net files cap resolvers s cs) ≡ data_files s
    unfolding run
    run_files s [] h p = refl
    run_files s (c ∷ cs) h p =
        run_files (step net files cap resolvers s c) cs (ground arith)
          (step-IsPhased net files cap resolvers s c p)
        ∙ step-files s c (ground arith) p

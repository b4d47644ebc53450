-- ===== src/Lookup/Tests.antt =====
-- Runs of the pipeline on concrete files, with one requester, one resolver and queues of one place.
use os_dns_resolver.Base.{
  ℕ, zero, suc, ◌*◌, List, [], ◌∷◌, ◌≡◌, sym, ◌≢◌, ◌<◌, ◌≤◌, ap, refl, true, arith, map, length,
  total, All, some, ℤ, pos, ◌↔◌, ◌-◌, ◌∙◌, ◌≤◌, ◌+◌,
}
use os_dns_resolver.Strings.{host_of, Text}
use os_dns_resolver.Lines.{getline, break_line, hosts, hosts_of}
use os_dns_resolver.Resolve.{log_message, dns_resolve}
use os_dns_resolver.Samples.{sample_net, sample_files, f_name, log_name}
use os_dns_resolver.Lookup.Threads.{
  requester_step, resolver_step, logger_step, req_done, res_done, log_done,
}
use os_dns_resolver.Lookup.Program.{
  State, Choice, main_runs, requester_runs, resolver_runs, requester_logger_runs,
  resolver_logger_runs, start, step, run, main_step, main_done,
}
use os_dns_resolver.Lookup.Weights.{resolved}
use os_dns_resolver.Lookup.Complete.{logs-perm, targets}
use os_dns_resolver.Lookup.Stuck.{IsStuck, run-stuck}
use os_dns_resolver.Lookup.Stuck.Reached.{deadlock-reached}
use mathlib.Core.List.{Perm}
use os_dns_resolver.Simple.{Files, Output, exit_success}
use os_dns_resolver.Simple.Correct.{
  main_spec, main_correct, entries, entry, all_hosts, file_hosts, invalid_names,
}
use os_dns_resolver.Lines.Print.{print_hosts}
use os_dns_resolver.Lookup.Agreement.{logs-agree, IsNonempty}
use os_dns_resolver.Lookup.Arguments.{check_arguments, check_arguments-starts, starts, IsAccepted}
use os_dns_resolver.Lookup.Counts.Final.{counters-final}
use os_dns_resolver.Lookup.Counts.Serviced.{opens}
use os_dns_resolver.Lookup.Work.{work}
use os_dns_resolver.Lookup.Work.Runs.{active-bounded, bytes_named, IsActive}
use os_dns_resolver.Simple
use mathlib.Core.Path.{subst}
use os_dns_resolver.Fifo.{Fifo}
use os_dns_resolver.Lookup.Rest.Done.{rest_completes, IsAtRest}
use os_dns_resolver.Fifo

-- Each thread in turn, for some rounds.
abbrev rounds : ℕ → List Choice
rounds zero = []
rounds (suc n) =
    main_runs true
    ∷ requester_runs 0 true
    ∷ resolver_runs 0 true true
    ∷ requester_logger_runs
    ∷ resolver_logger_runs
    ∷ rounds n

abbrev whole_run : State
whole_run = run sample_net sample_files 1 1 (start (f_name ∷ []) 1) (rounds 30)

whole_run_ends : whole_run.main ≡ main_done
unfolding run step main_step requester_step resolver_step logger_step start Fifo.put Fifo.get
    Fifo.close getline break_line host_of log_message dns_resolve
whole_run_ends = refl

logs-perm_example :
    Perm whole_run.requester_log (targets sample_files (f_name ∷ []))
    × Perm whole_run.resolver_log (map (resolved sample_net) (targets sample_files (f_name ∷ [])))
logs-perm_example =
    logs-perm sample_net sample_files 1 1 1 (f_name ∷ []) (rounds 30) (omega arith) (omega arith)
      refl whole_run_ends

-- Three names: main waits to queue the third, and the requester to queue the second host of the
-- first.
abbrev stuck_run : State
stuck_run = run sample_net sample_files 1 1 (start (f_name ∷ f_name ∷ f_name ∷ []) 1) (rounds 20)

stuck_run-IsStuck : IsStuck 1 stuck_run
unfolding run step main_step requester_step resolver_step logger_step start Fifo.put Fifo.get
    Fifo.close getline break_line host_of log_message dns_resolve
stuck_run-IsStuck = record {
  filling = (f_name, [], refl);
  files = (refl, refl);
  hosts = (refl, refl);
  requester_lines = (refl, refl);
  resolver_lines = (refl, refl);
  waiting = ((b'b' ∷ [], [], refl), _);
  no_resolvers = refl;
  loggers = (refl, refl);
}

stuck_run-stays : run sample_net sample_files 1 1 stuck_run (rounds 5) ≡ stuck_run
stuck_run-stays = run-stuck sample_net sample_files 1 1 stuck_run (rounds 5) stuck_run-IsStuck

-- The queue of turnin/array.h, four requesters and ten resolvers.
deadlock-reached_example :
    (names : List Text) × (files : Files) × (before : List Choice) × (let s =
        run sample_net files 255 10 (start names 4) before in
      (length names ≡ 4 + 255 + 1)
      × IsStuck 255 s
      × ((after : List Choice) → run sample_net files 255 10 s after ≡ s))
deadlock-reached_example = deadlock-reached sample_net 255 4 10 (omega arith) (omega arith)

counters-final_example :
    (whole_run.files_serviced ≡ total (opens sample_files) (f_name ∷ []))
    × (whole_run.hosts_resolved ≡ length (targets sample_files (f_name ∷ [])))
counters-final_example =
    counters-final sample_net sample_files 1 1 1 (f_name ∷ []) (rounds 30) (omega arith)
      (omega arith) refl whole_run_ends

-- "a\nb"
abbrev full_bytes : Text
full_bytes = b'a' ∷ b'\n' ∷ b'b' ∷ []

abbrev full_files : Files
full_files = record { read = λ name. some full_bytes; can_write = λ name. true }

abbrev full_run : State
full_run = run sample_net full_files 1 1 (start (f_name ∷ []) 1) (rounds 30)

-- "a, 1\nb, 1\n"
abbrev full_log : Output
full_log = record {
  log = b'a' ∷ b',' ∷ b' ' ∷ b'1' ∷ b'\n' ∷ b'b' ∷ b',' ∷ b' ' ∷ b'1' ∷ b'\n' ∷ [];
  invalid = [];
}

full_run_ends : full_run.main ≡ main_done
unfolding run step main_step requester_step resolver_step logger_step start Fifo.put Fifo.get
    Fifo.close getline break_line host_of log_message dns_resolve
full_run_ends = refl

full_log_written :
    Simple.main sample_net full_files (λ log. true) 4 (log_name ∷ f_name ∷ [])
    ≡ some (exit_success, full_log)
unfolding main_spec entries entry all_hosts file_hosts dns_resolve invalid_names hosts hosts_of
    getline break_line host_of
full_log_written =
    main_correct sample_net full_files (λ log. true) 4 log_name f_name [] (λ log. refl)
      (omega arith)
    ∙ refl

full_hosts-IsNonempty : All IsNonempty (all_hosts full_files (f_name ∷ []))
unfolding all_hosts file_hosts hosts hosts_of getline break_line host_of
full_hosts-IsNonempty = omega arith

logs-agree_example :
    (lines : List Text) × (full_log.log ≡ print_hosts lines []) × Perm full_run.resolver_log lines
logs-agree_example =
    logs-agree sample_net full_files (λ log. true) 4 log_name f_name [] full_log 1 1 1 (rounds 30)
      (λ log. refl) (omega arith) full_log_written full_hosts-IsNonempty (omega arith) (omega arith)
      refl full_run_ends

-- atoi of one digit.
abbrev digit : Text → ℤ
digit [] = pos 0
digit (b ∷ bs) = pos (b - b'0')

abbrev two : ℕ
two = 2

abbrev three : ℕ
three = 3

-- "2" and "3"
check_arguments-starts_example :
    (check_arguments sample_files digit
        ((b'2' ∷ []) ∷ (b'3' ∷ []) ∷ log_name ∷ f_name ∷ f_name ∷ [])
      ≡ starts 2 3 [] (f_name ∷ []))
    ↔ (IsAccepted sample_files (pos 2) (pos 3) log_name f_name (f_name ∷ [])
        × (two ≡ two)
        × (three ≡ three)
        × ([] ≡ invalid_names sample_files (f_name ∷ []))
        × ((f_name ∷ []) ≡ (f_name ∷ [])))
check_arguments-starts_example =
    check_arguments-starts sample_files digit (b'2' ∷ []) (b'3' ∷ []) log_name f_name (f_name ∷ [])
      2 3 [] (f_name ∷ [])

-- The turns of main and the requester until the requester has opened the file.
abbrev first_turns : List Choice
first_turns =
    main_runs true
    ∷ main_runs true
    ∷ requester_runs 0 true
    ∷ requester_runs 0 true
    ∷ main_runs true
    ∷ []

differs : (s t : State) → work sample_files 1 s < work sample_files 1 t → s ≢ t
differs s t h e = omega (arith, h, ap (work sample_files 1) e)

first_turns-IsActive : IsActive sample_net sample_files 1 1 (start (f_name ∷ []) 1) first_turns
unfolding step main_step requester_step start Fifo.put Fifo.get getline break_line host_of
first_turns-IsActive = (
  differs _ _ (omega arith),
  (
    differs _ _ (omega arith),
    (differs _ _ (omega arith), (differs _ _ (omega arith), (differs _ _ (omega arith), _))),
  ),
)

active-bounded_example :
    length first_turns ≤ 11 * bytes_named sample_files (f_name ∷ []) + 4 * 1 + 6 * 1 + 1 + 15
active-bounded_example =
    active-bounded sample_net sample_files 1 1 1 (f_name ∷ []) first_turns first_turns-IsActive

abbrev closed_queue : Fifo Text
closed_queue = record { items = []; closed = true }

abbrev end_state : State
end_state = record {
  main = main_done;
  shared = record {
    filename_queue = closed_queue;
    hostname_queue = closed_queue;
    requester_logfile_queue = closed_queue;
    resolver_logfile_queue = closed_queue;
    active_file_readers = 0;
    stderr = [];
  };
  requesters = req_done ∷ [];
  resolvers = res_done ∷ [];
  requester_logger = log_done;
  resolver_logger = log_done;
  requester_log = (b'a' ∷ []) ∷ (b'b' ∷ []) ∷ [];
  resolver_log = (b'a' ∷ b',' ∷ b' ' ∷ b'1' ∷ []) ∷ (b'b' ∷ b',' ∷ b' ' ∷ b'1' ∷ []) ∷ [];
  files_serviced = 1;
  hosts_resolved = 2;
}

whole_run-eq : whole_run ≡ end_state
unfolding run step main_step requester_step resolver_step logger_step start Fifo.put Fifo.get
    Fifo.close getline break_line host_of log_message dns_resolve
whole_run-eq = refl

end_state-IsAtRest : IsAtRest sample_net sample_files 1 1 1 end_state
unfolding step main_step requester_step resolver_step logger_step
end_state-IsAtRest (main_runs ok) h = refl
end_state-IsAtRest (requester_runs zero ok) h = refl
end_state-IsAtRest (requester_runs (suc i) ok) h = refl
end_state-IsAtRest (resolver_runs zero ip_ok ok) h = refl
end_state-IsAtRest (resolver_runs (suc i) ip_ok ok) h = refl
end_state-IsAtRest requester_logger_runs h = refl
end_state-IsAtRest resolver_logger_runs h = refl

rest_completes_example : whole_run.main ≡ main_done
rest_completes_example =
    rest_completes sample_net sample_files 1 1 1 (f_name ∷ []) (rounds 30) (omega arith)
      (omega arith) (omega arith) (omega arith)
      (subst (IsAtRest sample_net sample_files 1 1 1) (sym whole_run-eq) end_state-IsAtRest)

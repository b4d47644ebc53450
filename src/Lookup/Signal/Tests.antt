-- ===== src/Lookup/Signal/Tests.antt =====
-- Signals in runs on a concrete file.
use os_dns_resolver.Base.{
  ◌≡◌, ◌≢◌, ◌<◌, ◌+◌, ◌++◌, refl, List, [], ◌∷◌, true, false, replicate, arith,
}
use os_dns_resolver.Strings.{host_of}
use os_dns_resolver.Lines.{getline, break_line}
use os_dns_resolver.Samples.{sample_net, sample_files, f_name}
use os_dns_resolver.Schedules.{joined}
use os_dns_resolver.Lookup.Threads.{requester_step, logger_step, log_write}
use os_dns_resolver.Lookup.Program.{
  State, Choice, main_runs, requester_runs, requester_logger_runs, start, step, main_step,
}
use os_dns_resolver.Lookup.Phases.{IsEnded, is_before_create}
use os_dns_resolver.Lookup.Work.{work}
use os_dns_resolver.Lookup.Fair.Tests.{round, full_rounds}
use os_dns_resolver.Lookup.Signal.{
  Interrupted, main_thread, handler_exited, handler_step, interrupt, signal_step,
}
use os_dns_resolver.Lookup.Signal.Drained.{exit-IsEnded}
use os_dns_resolver.Lookup.Signal.Hangs.{handler-hangs}
use os_dns_resolver.Lookup.Signal.Exits.{handler-exits}
use os_dns_resolver.Lookup.Program
use os_dns_resolver.Schedules
use os_dns_resolver.Fifo

-- One name, one requester.
abbrev start_one : State
start_one = start (f_name ∷ []) 1

-- main has put the name and created the requester, which has read the file.
abbrev host_waits : State
host_waits =
    Program.run sample_net sample_files 1 1 start_one
      (main_runs true ∷ main_runs true ∷ replicate 5 (requester_runs 0 true))

host_waits-items : host_waits.shared.hostname_queue.items ≡ (b'a' ∷ []) ∷ []
unfolding start Program.run step main_step requester_step Fifo.put Fifo.get Fifo.close getline
    break_line host_of
host_waits-items = refl

handler-hangs_example :
    (Schedules.run
      (signal_step sample_net sample_files 1 1)
      (interrupt main_thread host_waits)
      (joined (replicate 9 round))).handler
    ≢ handler_exited
unfolding start Program.run step main_step requester_step Fifo.put Fifo.get Fifo.close getline
    break_line host_of
handler-hangs_example =
    handler-hangs sample_net sample_files 1 1 host_waits (joined (replicate 9 round)) refl
      (ground arith)

-- main has created the resolver too.
abbrev created : List Choice
created = replicate 4 (main_runs true)

created-main :
    is_before_create (Program.run sample_net sample_files 1 1 start_one created).main ≡ false
unfolding start Program.run step main_step Fifo.put
created-main = refl

created-work :
    8 + work sample_files 1 (Program.run sample_net sample_files 1 1 start_one created) < 80
unfolding start Program.run step main_step Fifo.put
created-work = omega arith

handler-exits_example :
    (Schedules.run
      (signal_step sample_net sample_files 1 1)
      (interrupt main_thread (Program.run sample_net sample_files 1 1 start_one created))
      (joined (replicate 80 round))).handler
    ≡ handler_exited
handler-exits_example =
    handler-exits sample_net sample_files 1 1 1 (f_name ∷ []) created (replicate 80 round)
      (omega arith) (omega arith) (omega arith) created-main (full_rounds 80) created-work

-- The logger of the requesters has taken a line out of its queue and not written it yet.
abbrev line_taken : State
line_taken =
    Program.run sample_net sample_files 1 1 start_one
      (created ++ replicate 3 (requester_runs 0 true) ++ requester_logger_runs ∷ [])

-- main takes the signal, and has its turns before the logger has another one.
abbrev after_signal : Interrupted
after_signal =
    Schedules.run (signal_step sample_net sample_files 1 1) (interrupt main_thread line_taken)
      (replicate 8 (main_runs true))

after_signal-exited : after_signal.handler ≡ handler_exited
unfolding start Program.run step main_step requester_step logger_step handler_step signal_step
    Schedules.run Fifo.put Fifo.get Fifo.close getline break_line host_of
after_signal-exited = refl

-- The line is not in the log.
line_lost :
    (after_signal.state.requester_log ≡ [])
    × (after_signal.state.requester_logger ≡ log_write (b'a' ∷ []))
unfolding start Program.run step main_step requester_step logger_step handler_step signal_step
    Schedules.run Fifo.put Fifo.get Fifo.close getline break_line host_of
line_lost = (refl, refl)

exit-IsEnded_example :
    let shared = after_signal.state.shared in
    IsEnded shared.hostname_queue
    × IsEnded shared.requester_logfile_queue
    × IsEnded shared.resolver_logfile_queue
    × IsEnded shared.filename_queue
exit-IsEnded_example =
    exit-IsEnded sample_net sample_files 1 1 main_thread line_taken (replicate 8 (main_runs true))
      after_signal-exited

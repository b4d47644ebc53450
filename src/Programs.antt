-- ===== src/Programs.antt =====
-- The whole programs turnin/multi-lookup.c and dnsthreaded.c, from the command line to the end of main.
-- They are the same text. They differ in the ARRAY_SIZE of the array.h beside them.
--
-- The checks of the arguments open the data files before main opens the logs for writing. That makes
-- the logs empty files. What the loggers write later into a log that is also a data file, and other
-- names of the same file, are left out: the properties assume logs that differ from each other and
-- from all data files.
pub mod Logs
pub mod Correct
mod Tests
use os_dns_resolver.Base.{
  ℕ, ◌-◌, List, [], ◌∷◌, ℤ, Bool, true, false, ◌==◌, ◌&&◌, some, if◌then◌else◌,
}
use os_dns_resolver.Strings.{Text}
use os_dns_resolver.Resolve.{Net}
use os_dns_resolver.Simple.{Files}
use os_dns_resolver.Lookup.Arguments.{Failure, Checked, fails, starts, check_arguments}
use os_dns_resolver.Lookup.Startup.{
  Answers, Stage, Cleanup, Started, aborts, goes_on, start_threads,
}
use os_dns_resolver.Lookup.Program.{State, Choice, run}

-- main exits at the checks or at the start of the threads, or has run as far as the schedule goes.
-- Where the checks have passed, with the names that are reported as invalid.
pub data Outcome : Type 0 where
  rejects : Failure → List Text → Outcome
  gives_up : Stage → List Cleanup → List Text → Outcome
  has_run : State → List Text → Outcome

abbrev pub same_text : Text → Text → Bool
same_text [] [] = true
same_text (x ∷ xs) (y ∷ ys) = x == y && same_text xs ys
same_text xs ys = false

-- The files behind fopen(log, "w").
abbrev pub truncated : Text → Files → Files
truncated log files = record files {
  read = λ name. if same_text name log then some [] else files.read name;
}

-- The files that the threads find, once main has opened the two logs.
pub with_logs : List Text → Files → Files
with_logs (num_requesters ∷ num_resolvers ∷ requester_log_file ∷ resolver_log_file ∷ names) files =
    truncated resolver_log_file (truncated requester_log_file files)
with_logs arguments files = files

module _ (array_size : ℕ) (net : Net) (files : Files) (answers : Answers)
    (schedule : List Choice) where
  abbrev pub run_threads : Files → List Text → Started → Outcome
  run_threads opened invalid (aborts stage cleanup) = gives_up stage cleanup invalid
  run_threads opened invalid (goes_on s resolvers) =
      has_run (run net opened (array_size - 1) resolvers s schedule) invalid

  abbrev pub run_checked : Files → Checked → Outcome
  run_checked opened (fails failure invalid) = rejects failure invalid
  run_checked opened (starts requesters resolvers invalid names) =
      run_threads opened invalid (start_threads names requesters resolvers answers)

  -- main, on the arguments behind the program's name.
  pub threaded_main : (Text → ℤ) → List Text → Outcome
  unfolding with_logs
  threaded_main atoi arguments =
      run_checked (with_logs arguments files) (check_arguments files atoi arguments)

-- ARRAY_SIZE of turnin/array.h, and of array.h.
abbrev pub large_array_size : ℕ
large_array_size = 256

abbrev pub small_array_size : ℕ
small_array_size = 8

unfoldable pub multi_lookup : Net → Files → (Text → ℤ) → Answers → List Text → List Choice → Outcome
multi_lookup net files atoi answers arguments schedule =
    threaded_main large_array_size net files answers schedule atoi arguments

unfoldable pub dnsthreaded : Net → Files → (Text → ℤ) → Answers → List Text → List Choice → Outcome
dnsthreaded net files atoi answers arguments schedule =
    threaded_main small_array_size net files answers schedule atoi arguments

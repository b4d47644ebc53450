-- ===== src/Lookup/Startup.antt =====
-- main of turnin/multi-lookup.c from the initialization of the queues to the creation of the
-- requesters (lines 351-435) and of the resolvers (lines 459-471), with what it does when a queue, a
-- thread or its memory cannot be had. The outcome of each call is an argument.
pub mod Laws
pub mod Abandoned
mod Tests
use os_dns_resolver.Base.{
  ℕ, ◌+◌, ◌-◌, List, [], ◌∷◌, ◌++◌, Bool, true, false, if◌then◌else◌, length, ◌&&◌, not, suc, zero,
}
use os_dns_resolver.Strings.{Text}
use os_dns_resolver.Lookup.Program.{State, all, start}

-- What main has to give back before it exits.
pub data Cleanup : Type 0 where
  -- fclose of the two logs
  close_requester_logfile close_resolver_logfile : Cleanup
  -- array_free
  free_hostname_queue free_requester_logfile_queue free_resolver_logfile_queue free_filename_queue :
      Cleanup
  -- free of the four arrays of threads and counters
  free_thread_arrays : Cleanup

-- The calls that may fail, in their order: the four array_init, the creation of the two loggers, the
-- four allocations, and pthread_create of each requester and of each resolver, by its number.
pub record Answers : Type 0 where
  pub inits : List Bool
  pub requester_log_thread : Bool
  pub resolver_log_thread : Bool
  pub memory : List Bool
  pub requesters : ℕ → Bool
  pub resolvers : ℕ → Bool

-- The answers to the calls number `i` to `i + k - 1`.
abbrev pub answers_from : (ℕ → Bool) → ℕ → ℕ → List Bool
answers_from answer i zero = []
answers_from answer i (suc k) = answer i ∷ answers_from answer (i + 1) k

-- Where main has failed.
pub data Stage : Type 0 where
  at_queues at_requester_log_thread at_resolver_log_thread at_memory : Stage

-- main exits with EXIT_FAILURE, or goes on to queue the file names, in a state and with the number
-- of resolvers that it will create.
pub data Started : Type 0 where
  aborts : Stage → List Cleanup → Started
  goes_on : State → ℕ → Started

abbrev pub is_success : Bool → Bool
is_success b = b

-- fclose and array_free, as on every one of the four exits.
pub release : List Cleanup
release =
    close_requester_logfile ∷ close_resolver_logfile ∷ free_hostname_queue
    ∷ free_requester_logfile_queue ∷ free_resolver_logfile_queue ∷ free_filename_queue ∷ []

-- The loop of pthread_create over the requesters, from the count of active readers on: the number
-- of threads, and the count that is left.
pub create_requesters : List Bool → ℕ → ℕ × ℕ
create_requesters [] active = (0, active)
create_requesters (ok ∷ oks) active =
    let (threads, left) = create_requesters oks (if ok then active else active - 1) in
    (if ok then threads + 1 else threads, left)

-- The loop of pthread_create over the resolvers.
pub create_resolvers : List Bool → ℕ
create_resolvers [] = 0
create_resolvers (ok ∷ oks) = if ok then create_resolvers oks + 1 else create_resolvers oks

-- The state in which main queues the first file name.
pub with_requesters : List Text → ℕ × ℕ → State
unfolding start
with_requesters names (threads, active) =
    let s = start names threads in
    record s { shared = record s.shared { active_file_readers = active } }

pub start_threads : List Text → ℕ → ℕ → Answers → Started
unfolding release create_requesters create_resolvers with_requesters
start_threads names num_requesters num_resolvers a =
    if not (all is_success a.inits)
    then aborts at_queues release
    else (if not a.requester_log_thread
        then aborts at_requester_log_thread release
        else (if not a.resolver_log_thread
            then aborts at_resolver_log_thread release
            else (if not (all is_success a.memory)
                then aborts at_memory (release ++ free_thread_arrays ∷ [])
                else goes_on
                    (with_requesters names (
                      create_requesters (answers_from a.requesters 0 num_requesters)
                        num_requesters))
                    (create_resolvers (answers_from a.resolvers 0 num_resolvers)))))

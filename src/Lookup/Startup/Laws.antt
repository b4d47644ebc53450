-- ===== src/Lookup/Startup/Laws.antt =====
-- The start of the threads, with the calls that fail in it.
use os_dns_resolver.Base.{
  refl, zero, suc, ℕ, ◌+◌, ◌-◌, ◌≡◌, ◌≤◌, ap, List, [], ◌∷◌, Bool, true, false, length, arith, ◌++◌,
  map, Option, some, none, if◌then◌else◌,
}
use os_dns_resolver.Lookup.Startup.{
  answers_from, create_requesters, with_requesters, Stage, start_threads, Answers, Cleanup,
  is_success, goes_on, free_thread_arrays, close_requester_logfile, close_resolver_logfile,
  free_hostname_queue, free_requester_logfile_queue, free_resolver_logfile_queue,
  free_filename_queue, create_resolvers, at_queues, at_requester_log_thread, at_memory,
  at_resolver_log_thread,
}
use os_dns_resolver.Strings.{Text}
use os_dns_resolver.Lookup.Program.{start, all}

create_requesters-active :
    (oks : List Bool) (active : ℕ)
    → length oks ≤ active
    → (create_requesters oks active).1 + length oks ≡ active + (create_requesters oks active).0
unfolding create_requesters
create_requesters-active [] active h = omega arith
create_requesters-active (true ∷ oks) active h = ground (arith, create_requesters-active oks active)
create_requesters-active (false ∷ oks) active h =
    ground (arith, create_requesters-active oks (active - 1))

length-answers_from : (answer : ℕ → Bool) (i k : ℕ) → length (answers_from answer i k) ≡ k
length-answers_from answer i zero = refl
length-answers_from answer i (suc k) = omega (arith, length-answers_from answer (i + 1) k)

-- The requesters and the resolvers whose creation succeeds.
pub created_requesters : ℕ → Answers → ℕ
created_requesters n a = (create_requesters (answers_from a.requesters 0 n) n).0

pub created_resolvers : ℕ → Answers → ℕ
created_resolvers m a = create_resolvers (answers_from a.resolvers 0 m)

-- The count of active readers is the number of the requesters that exist.
create_requesters-eq :
    (n : ℕ) (a : Answers)
    → (create_requesters (answers_from a.requesters 0 n) n).1 ≡ created_requesters n a
unfolding created_requesters
create_requesters-eq n a =
    let oks = answers_from a.requesters 0 n in
    let same = length-answers_from a.requesters 0 n in
    omega (arith, same, create_requesters-active oks n (omega (arith, same)))

with_requesters-eq :
    (names : List Text) (n : ℕ) (a : Answers)
    → with_requesters names (create_requesters (answers_from a.requesters 0 n) n)
      ≡ start names (created_requesters n a)
unfolding with_requesters created_requesters start
with_requesters-eq names n a =
    ap (λ k. with_requesters names (created_requesters n a, k)) (create_requesters-eq n a)

-- The calls that have to succeed, in their order, with the stage at which main gives up.
abbrev pub at_stage : Stage → List Bool → List (Stage × Bool)
at_stage stage oks = map (λ ok. (stage, ok)) oks

pub calls : Answers → List (Stage × Bool)
calls a =
    at_stage at_queues a.inits
    ++ (at_requester_log_thread, a.requester_log_thread)
      ∷ (at_resolver_log_thread, a.resolver_log_thread)
      ∷ at_stage at_memory a.memory

-- The stage of the first call that fails.
pub first_failure : List (Stage × Bool) → Option Stage
first_failure [] = none
first_failure ((stage, true) ∷ rest) = first_failure rest
first_failure ((stage, false) ∷ rest) = some stage

-- Whether the same is given back.
abbrev same_cleanup : Cleanup → Cleanup → Bool
same_cleanup close_requester_logfile close_requester_logfile = true
same_cleanup close_resolver_logfile close_resolver_logfile = true
same_cleanup free_hostname_queue free_hostname_queue = true
same_cleanup free_requester_logfile_queue free_requester_logfile_queue = true
same_cleanup free_resolver_logfile_queue free_resolver_logfile_queue = true
same_cleanup free_filename_queue free_filename_queue = true
same_cleanup free_thread_arrays free_thread_arrays = true
same_cleanup c d = false

-- How often something is given back.
pub times : Cleanup → List Cleanup → ℕ
times c [] = 0
times c (d ∷ ds) = if same_cleanup c d then times c ds + 1 else times c ds

-- What has to be given back at a stage, and how often.
pub due : Stage → Cleanup → ℕ
due at_memory free_thread_arrays = 1
due stage free_thread_arrays = 0
due stage c = 1

-- Every call succeeds.
pub record HasResources (a : Answers) : Type 0 where
  pub inits : all is_success a.inits ≡ true
  pub requester_log_thread : a.requester_log_thread ≡ true
  pub resolver_log_thread : a.resolver_log_thread ≡ true
  pub memory : all is_success a.memory ≡ true
  pub requesters : (i : ℕ) → a.requesters i ≡ true
  pub resolvers : (i : ℕ) → a.resolvers i ≡ true

all_requesters :
    (answer : ℕ → Bool) (i k active : ℕ)
    → ((j : ℕ) → answer j ≡ true)
    → (create_requesters (answers_from answer i k) active).0 ≡ k
unfolding create_requesters
all_requesters answer i zero active h = refl
all_requesters answer i (suc k) active h =
    ground (arith, h i, all_requesters answer (i + 1) k active h)

all_resolvers :
    (answer : ℕ → Bool) (i k : ℕ)
    → ((j : ℕ) → answer j ≡ true)
    → create_resolvers (answers_from answer i k) ≡ k
unfolding create_resolvers
all_resolvers answer i zero h = refl
all_resolvers answer i (suc k) h = ground (arith, h i, all_resolvers answer (i + 1) k h)

pub start_threads-all :
    (names : List Text) (n m : ℕ) (a : Answers)
    → HasResources a
    → start_threads names n m a ≡ goes_on (start names n) m
unfolding start_threads created_requesters
start_threads-all names n m a h = ground (
  arith,
  h.inits,
  h.memory,
  with_requesters-eq names n a,
  all_requesters a.requesters 0 n n h.requesters,
  all_resolvers a.resolvers 0 m h.resolvers,
)

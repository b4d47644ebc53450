-- ===== src/Lookup/Counts/Final.antt =====
-- What main prints when it returns.
use os_dns_resolver.Base.{ℕ, ◌≡◌, ◌<◌, refl, List, [], ◌∷◌, true, length, map, total, arith}
use os_dns_resolver.Strings.{Text}
use os_dns_resolver.Resolve.{Net}
use os_dns_resolver.Simple.{Files}
use os_dns_resolver.Lookup.Program.{State, start, run, Choice, main_done, all}
use os_dns_resolver.Lookup.Phases.{IsPhased}
use os_dns_resolver.Lookup.Phases.Runs.{run-IsPhased, start-IsPhased}
use os_dns_resolver.Lookup.Staff.{IsStaffed, run-IsStaffed, start-IsStaffed}
use os_dns_resolver.Lookup.Weights.{resolved}
use os_dns_resolver.Lookup.Weights.Runs.{allocates}
use os_dns_resolver.Lookup.Complete.{targets, logged-total, requesters-le}
use os_dns_resolver.Lookup.Counts.{messages, run_messages}
use os_dns_resolver.Lookup.Counts.Serviced.{opens, data_files, run_files}

total-one : {A : Type 0} (xs : List A) → total (λ x. 1) xs ≡ length xs
total-one [] = refl
total-one (x ∷ xs) = omega (arith, total-one xs)

total-zero : {A : Type 0} (xs : List A) → total (λ x. 0) xs ≡ 0
total-zero [] = refl
total-zero (x ∷ xs) = omega (arith, total-zero xs)

length-map : {A B : Type 0} (f : A → B) (xs : List A) → length (map f xs) ≡ length xs
length-map f [] = refl
length-map f (x ∷ xs) = omega (arith, length-map f xs)

-- At the end no message is under way, and no file name.
messages-done : (s : State) → IsPhased s → s.main ≡ main_done → messages s ≡ length s.resolver_log
messages-done s p e = ground (arith, p)

data_files-done :
    (files : Files) (n m : ℕ) (s : State)
    → 0 < n
    → IsPhased s
    → IsStaffed n m s
    → s.main ≡ main_done
    → data_files files s ≡ s.files_serviced
data_files-done files n m s hn p staff e = ground (arith, p, staff, requesters-le s.requesters)

start-counts :
    (net : Net) (files : Files) (names : List Text) (n : ℕ)
    → ((start names n).hosts_resolved ≡ messages (start names n))
      × (data_files files (start names n) ≡ total (opens files) names)
unfolding start
start-counts net files names n = ground arith

-- When main is done, in any interleaving in which the allocations succeed, with at least one
-- requester and one resolver: `files_serviced` is the number of data files that open, and
-- `hosts_resolved` the number of their non-empty lines.
pub counters-final :
    (net : Net) (files : Files) (cap n m : ℕ) (names : List Text) (cs : List Choice)
    → 0 < n
    → 0 < m
    → all allocates cs ≡ true
    → (run net files cap m (start names n) cs).main ≡ main_done
    → let final = run net files cap m (start names n) cs in
      (final.files_serviced ≡ total (opens files) names)
      × (final.hosts_resolved ≡ length (targets files names))
counters-final net files cap n m names cs hn hm memory ended = (
  omega (
    arith,
    data_files-done files n m final hn phased staffed ended,
    run_files files net cap m (start names n) cs memory (start-IsPhased names n),
    start-counts net files names n,
  ),
  omega (
    arith,
    messages-done final phased ended,
    run_messages net files cap m (start names n) cs (start-counts net files names n).0,
    logged-total net files cap n m names cs hn hm memory ended (λ t. 0) (λ t. 1),
    total-zero final.requester_log,
    total-zero (targets files names),
    total-one final.resolver_log,
    total-one (map (resolved net) (targets files names)),
    length-map (resolved net) (targets files names),
  ),
)
  where
    final : State
    final = run net files cap m (start names n) cs

    phased : IsPhased final
    phased = run-IsPhased net files cap m (start names n) cs (start-IsPhased names n)

    staffed : IsStaffed n m final
    staffed = run-IsStaffed net files cap n m (start names n) cs (start-IsStaffed n m names)

-- ===== src/Lookup/Complete.antt =====
-- What the program has logged when main returns.
use os_dns_resolver.Base.{
  ℕ, ◌+◌, ◌≡◌, ◌<◌, ◌≤◌, refl, List, [], ◌∷◌, map, arith, length, total, total-replicate,
  Option-cases, inl, inr, total-append, true, sym, perm_of_totals, ◌∙◌,
}
use os_dns_resolver.Strings.{Text}
use os_dns_resolver.Resolve.{Net}
use os_dns_resolver.Simple.{Files}
use os_dns_resolver.Simple.Correct.{all_hosts, file_hosts}
use os_dns_resolver.Lookup.Threads.{Requester, req_get, Resolver}
use os_dns_resolver.Lookup.Program.{State, main_done, start, Choice, run, all}
use os_dns_resolver.Lookup.Phases.{is_reading, is_past_files, is_resolving, is_past_hosts, IsPhased}
use os_dns_resolver.Lookup.Weights.{
  weight, file_weight, host_weight, requester_weight, resolver_weight, resolved,
}
use os_dns_resolver.Lookup.Staff.{IsStaffed, run-IsStaffed, start-IsStaffed}
use os_dns_resolver.Lines.{hosts}
use os_dns_resolver.Lookup.Weights.Runs.{allocates, run-weight}
use mathlib.Core.List.{Perm}
use os_dns_resolver.Lookup.Phases.Runs.{run-IsPhased, start-IsPhased}
use os_dns_resolver.Strings.Laws.{Text-discrete}

-- The hosts to look up: the lines of the files that open, but for the empty ones.
unfoldable pub nonempty : List Text → List Text
nonempty [] = []
nonempty ([] ∷ hs) = nonempty hs
nonempty ((b ∷ h) ∷ hs) = (b ∷ h) ∷ nonempty hs

unfoldable pub targets : Files → List Text → List Text
targets files names = nonempty (all_hosts files names)

-- Each thread is in one of two places.
pub requesters-le : (rs : List Requester) → length rs ≤ total is_reading rs + total is_past_files rs
requesters-le [] = omega arith
requesters-le (r ∷ rs) = ground (arith, requesters-le rs)

pub resolvers-eq : (rs : List Resolver) → length rs ≡ total is_resolving rs + total is_past_hosts rs
resolvers-eq [] = refl
resolvers-eq (r ∷ rs) = ground (arith, resolvers-eq rs)

module _ (u v : Text → ℕ) (net : Net) (files : Files) where
  requesters-zero :
      (rs : List Requester)
      → total is_reading rs ≡ 0
      → total (requester_weight u v net files) rs ≡ 0
  requesters-zero [] h = refl
  requesters-zero (r ∷ rs) h = ground (arith, requesters-zero rs)

  resolvers-zero :
      (rs : List Resolver)
      → total is_resolving rs ≡ 0
      → total (resolver_weight u v net files) rs ≡ 0
  resolvers-zero [] h = refl
  resolvers-zero (r ∷ rs) h = ground (arith, resolvers-zero rs)

  -- At the end everything that has weight has been logged.
  weight-done :
      (n m : ℕ) (s : State)
      → 0 < n
      → 0 < m
      → IsPhased s
      → IsStaffed n m s
      → s.main ≡ main_done
      → weight u v net files s ≡ total u s.requester_log + total v s.resolver_log
  weight-done n m s hn hm p staff e = ground (
    arith,
    p,
    staff,
    requesters-le s.requesters,
    resolvers-eq s.resolvers,
    requesters-zero s.requesters,
    resolvers-zero s.resolvers,
  )

  -- At the start it is all in the names of the files.
  weight-start :
      (names : List Text) (n : ℕ)
      → weight u v net files (start names n) ≡ total (file_weight u v net files) names
  unfolding start
  weight-start names n =
      ground (arith, total-replicate (requester_weight u v net files) n req_get refl)

  hosts-weight :
      (hs : List Text)
      → total (host_weight u v net files) hs
        ≡ total u (nonempty hs) + total v (map (resolved net) (nonempty hs))
  unfolding nonempty
  hosts-weight [] = refl
  hosts-weight ([] ∷ hs) = omega (arith, hosts-weight hs)
  hosts-weight ((b ∷ h) ∷ hs) = omega (arith, hosts-weight hs)

  files-weight :
      (names : List Text)
      → total (file_weight u v net files) names
        ≡ total (host_weight u v net files) (all_hosts files names)
  unfolding all_hosts file_hosts
  files-weight [] = refl
  files-weight (name ∷ names) = elim (Option-cases (files.read name)) [
    | inl e ↦ rw e (omega (arith, files-weight names))
    | inr (bytes, e) ↦ rw e (
        omega (
          arith,
          files-weight names,
          total-append (host_weight u v net files) (hosts bytes) (all_hosts files names),
        ))
  ]

-- What a run that has ended has logged: each target, and the message of each target, however the
-- lines of the two logs are weighed.
module _ (net : Net) (files : Files) (cap n m : ℕ) (names : List Text) (cs : List Choice)
    (some_requester : 0 < n) (some_resolver : 0 < m) (memory : all allocates cs ≡ true)
    (ended : (run net files cap m (start names n) cs).main ≡ main_done) where
  abbrev final : State
  final = run net files cap m (start names n) cs

  pub logged-total :
      (u v : Text → ℕ)
      → total u final.requester_log + total v final.resolver_log
        ≡ total u (targets files names) + total v (map (resolved net) (targets files names))
  unfolding targets
  logged-total u v =
      sym (
        weight-done u v net files n m final some_requester some_resolver
          (run-IsPhased net files cap m (start names n) cs (start-IsPhased names n))
          (run-IsStaffed net files cap n m (start names n) cs (start-IsStaffed n m names)) ended)
      ∙ run-weight u v net files cap m (start names n) cs memory (start-IsPhased names n)
      ∙ weight-start u v net files names n
      ∙ files-weight u v net files names
      ∙ hosts-weight u v net files (all_hosts files names)

  -- When main returns, in any interleaving of the threads in which the allocations succeed, with at
  -- least one requester and one resolver: the requester log has each non-empty line of each file
  -- that opens, as often as it stands there, and the resolver log has the message of each of them,
  -- in some order and nothing else.
  pub logs-perm :
      Perm final.requester_log (targets files names)
      × Perm final.resolver_log (map (resolved net) (targets files names))
  logs-perm = (
    perm_of_totals Text-discrete _ _ (λ u. omega (
      arith,
      logged-total u (λ t. 0),
      no_weight final.resolver_log,
      no_weight (map (resolved net) (targets files names)),
    )),
    perm_of_totals Text-discrete _ _ (λ v. omega (
      arith,
      logged-total (λ t. 0) v,
      no_weight final.requester_log,
      no_weight (targets files names),
    )),
  )
    where
      no_weight : (xs : List Text) → total (λ t. 0) xs ≡ 0
      no_weight [] = refl
      no_weight (x ∷ xs) = omega (arith, no_weight xs)

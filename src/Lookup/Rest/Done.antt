-- ===== src/Lookup/Rest/Done.antt =====
-- Where the program comes to rest.
use os_dns_resolver.Base.{
  ℕ, ◌≡◌, ◌<◌, ◌≤◌, ◌⊎◌, inl, inr, refl, ap, List, [], ◌∷◌, Bool, true, false, some, length, total,
  arith, get_elem?,
}
use os_dns_resolver.Strings.{Text}
use os_dns_resolver.Resolve.{Net}
use os_dns_resolver.Simple.{Files}
use os_dns_resolver.Lookup.Threads.{Requester, Resolver}
use os_dns_resolver.Lookup.Program.{
  State, main_done, Choice, main_runs, step, run, start, all, is_req_done, is_res_done,
}
use os_dns_resolver.Lookup.Phases.{IsPhased, is_reading, is_past_files}
use os_dns_resolver.Lookup.Phases.Runs.{run-IsPhased, start-IsPhased}
use os_dns_resolver.Lookup.Staff.{IsStaffed, run-IsStaffed, start-IsStaffed}
use os_dns_resolver.Lookup.Seen.{IsSeen}
use os_dns_resolver.Lookup.Rest.Threads.{
  all_of, AreThreadsAtRest, requester_lines, resolver_lines, resolver-rests, requesters_done,
}
use os_dns_resolver.Lookup.Work.{work}
use os_dns_resolver.Lookup.Weights.Runs.{allocates}
use os_dns_resolver.Lookup.Ready.{IsReady, is_closing}
use os_dns_resolver.Lookup.Ready.Runs.{run-IsReady, start-IsReady}
use os_dns_resolver.Lookup.Rest.{main_step-rests}

pub all_past :
    (rs : List Requester) → all is_req_done rs ≡ true → total is_past_files rs ≡ length rs
all_past [] h = refl
all_past (r ∷ rs) h = ground (arith, all_past rs)

none_reading :
    (rs : List Requester)
    → all is_req_done rs ≡ true
    → (total is_reading rs ≡ 0) × (total is_closing rs ≡ 0)
none_reading [] h = (refl, refl)
none_reading (r ∷ rs) h = ground (arith, none_reading rs)

closed_hosts : {k : ℕ} {b : Bool} → k ≡ 0 → (b ≡ true) ⊎ (0 < k) → b ≡ true
closed_hosts h (inl c) = c
closed_hosts h (inr less) = ground (arith, h, less)

differ : {b : Bool} {P : Type 0} → b ≡ true → b ≡ false → P
differ h k = cc

first_resolver : (rs : List Resolver) → 0 < length rs → (r : Resolver) × (get_elem? rs 0 ≡ some r)
first_resolver [] h = elim h [ ]
first_resolver (r ∷ rs) h = (r, refl)

module _ (net : Net) (files : Files) (cap n m : ℕ) where
  -- No step in which the allocations succeed changes anything.
  abbrev pub IsAtRest : State → Type 0
  IsAtRest s = (c : Choice) → allocates c ≡ true → step net files cap m s c ≡ s

  module _ (s : State) (p : IsPhased s) (v : IsReady cap s) (rest : IsAtRest s)
      (some_room : 0 < cap) where
    seen : IsSeen s
    seen = record {
      files = p.files_ended;
      hosts = p.hosts_ended;
      requester_log = p.requester_logged;
      resolver_log = p.resolver_logged;
    }

    threads : AreThreadsAtRest net files cap n m s
    threads c h other = rest c h

    pub comes_to_end : 0 < n → 0 < m → IsStaffed n m s → s.main ≡ main_done
    unfolding step
    comes_to_end hn hm staff =
        elim (main_step-rests files cap some_room m s.main s refl v p.uncreated
          (requester_lines net files cap n m s seen threads some_room).0
          (resolver_lines net files cap n m s seen threads some_room).0
          (requester_lines net files cap n m s seen threads some_room).1
          (resolver_lines net files cap n m s seen threads some_room).1
          (ap (work files m) (rest (main_runs true) refl))) [
            | inl done ↦ done
            | inr (closed, created, waits) ↦
                let (r, e) =
                  first_resolver s.resolvers (omega (arith, hm, staff.resolvers created)) in
                let no_hosts =
                  (resolver-rests net files cap n m s seen threads some_room 0 r e).0 in
                let done =
                  requesters_done net files cap n m s seen threads some_room (v.files closed)
                    no_hosts in
                let (none_reads, none_closes) = none_reading s.requesters done in
                let (c, no_names) =
                  p.files_ended (omega (arith, all_past s.requesters done, hn, staff.requesters)) in
                let hosts_closed = closed_hosts none_closes (v.hosts none_reads) in
                differ
                  (all_of is_res_done s.resolvers (λ i x e.
                    (resolver-rests net files cap n m s seen threads some_room i x e).1
                      hosts_closed))
                  (waits no_names done)
          ]

-- multi-lookup cannot get stuck before its end when the file names fit in their queue: with at least
-- one requester, one resolver and room for one item, and at most as many file names as the queue has
-- room for, a state that a run from the start reaches, with any allocations failing, and that no
-- step changes in which the allocations succeed, is one in which main is done.
pub rest_completes :
    (net : Net) (files : Files) (cap n m : ℕ) (names : List Text) (cs : List Choice)
    → 0 < n
    → 0 < m
    → 0 < cap
    → length names ≤ cap
    → IsAtRest net files cap n m (run net files cap m (start names n) cs)
    → (run net files cap m (start names n) cs).main ≡ main_done
rest_completes net files cap n m names cs hn hm hc fits rest =
    comes_to_end net files cap n m (run net files cap m (start names n) cs)
      (run-IsPhased net files cap m (start names n) cs (start-IsPhased names n))
      (run-IsReady net files cap m (start names n) cs (start-IsPhased names n)
        (start-IsReady cap n names hn fits))
      rest hc hn hm (run-IsStaffed net files cap n m (start names n) cs (start-IsStaffed n m names))

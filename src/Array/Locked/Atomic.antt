-- ===== src/Array/Locked/Atomic.antt =====
-- Every run of single statements is a run of whole stretches.
use os_dns_resolver.Base.{
  ℕ, ◌<◌, ◌≡◌, ◌⊎◌, inl, inr, refl, ap, ap₂, sym, ◌∙◌, true, false, Option, none, some, List, [],
  ◌∷◌, ◌++◌, arith, length, get_elem?, get_elem?-total, get_elem?-lt, total-replicate, total_one,
  get_elem?-replicate, length-replicate, total-le, Bool-cases,
}
use mathlib.Core.Path.{subst}
use os_dns_resolver.Array.{Item, array_init}
use os_dns_resolver.Array.System.{Pc, idle, Action, Event, System, init, record_outcome, Schedule}
use os_dns_resolver.Array.Locked.{Place, outside, Machine, start, step_at, step, run}
use os_dns_resolver.Array.Locked.Links.{is_critical, Linked}
use os_dns_resolver.Array.Locked.Others.{written-outside}
use os_dns_resolver.Array.Window.{contents}
use os_dns_resolver.Array.System.Invariant.{run-history}
use os_dns_resolver.Array.Locked.Follows.{Reached, IsFollowed, at_place-IsFollowed}
use os_dns_resolver.Array.Locked.Simulation.{in_section, Simulates}
use os_dns_resolver.Array.System

step_at-IsFollowed :
    {size : ℕ} (from : System) (m : Machine) (s : System) (i : ℕ) (act : Action)
    → Reached size from s
    → Simulates size m s
    → (o : Option Place) → get_elem? m.places i ≡ o
    → IsFollowed size from (step_at size m i act o)
step_at-IsFollowed from m s i act r k none e = inr (s, r, k)
step_at-IsFollowed from m s i act r k (some p) e =
    let (q, f) = get_elem?-total s.pcs i (omega (arith, k.threads, get_elem?-lt m.places i e)) in
    at_place-IsFollowed from r k i act e f

step-IsFollowed :
    (size : ℕ) (from : System) (m : Machine) (i : ℕ) (act : Action)
    → IsFollowed size from m
    → IsFollowed size from (step size m i act)
unfolding step
step-IsFollowed size from m i act h = elim (Bool-cases m.faulted) [
  | inl gone ↦ simp gone (inl refl)
  | inr running ↦ elim h [
    | inl gone ↦ ground (arith, gone, running)
    | inr (s, r, k) ↦
        simp running (step_at-IsFollowed from m s i act r k (get_elem? m.places i) refl)
  ]
]

run-IsFollowed :
    (size : ℕ) (from : System) (m : Machine) (sched : Schedule)
    → IsFollowed size from m
    → IsFollowed size from (run size m sched)
unfolding run
run-IsFollowed size from m [] h = h
run-IsFollowed size from m ((i, act) ∷ rest) h =
    run-IsFollowed size from (step size m i act) rest (step-IsFollowed size from m i act h)

start-Simulates :
    (store : List Item) (n : ℕ) → Simulates (length store) (start store n) (init store n)
unfolding array_init
start-Simulates store n = record {
  owner = outside;
  mem = refl;
  own = λ j p e c. get_elem?-replicate n j e;
  unheld = λ h. refl;
  sections = total-replicate in_section n outside refl;
  alive = λ h. refl;
  threads = length-replicate n outside ∙ sym (length-replicate n idle);
  links = λ j p q e f.
      subst (λ r. Linked (length store) r q (array_init store)) (sym (get_elem?-replicate n j e))
        (get_elem?-replicate n j f);
  accepted = refl;
  delivered = refl;
  running = refl;
}

-- A run of single statements that comes to no fault is followed by a run of whole stretches.
pub run-Simulates :
    (store : List Item) (n : ℕ) (sched : Schedule)
    → (run (length store) (start store n) sched).faulted ≡ false
    → (s : System) × Reached (length store) (init store n) s
      × Simulates (length store) (run (length store) (start store n) sched) s
unfolding System.run
run-Simulates store n sched running =
    elim (run-IsFollowed (length store) (init store n) (start store n) sched
      (inr (init store n, ([], refl), start-Simulates store n))) [
        | inl gone ↦ ground (arith, gone, running)
        | inr followed ↦ followed
      ]

-- The stretches under the lock are atomic. Take any run of single statements, in any interleaving of
-- any number of threads from array_init on, that takes no destroyed lock and destroys none that is
-- taken. Then there is a run of whole stretches that accepts the same items and delivers the same
-- items, in order, comes to no fault, and leaves the same array, unless a thread is in the middle of a
-- stretch.
pub run-IsAtomic :
    (store : List Item) (n : ℕ) (sched : Schedule)
    → (run (length store) (start store n) sched).faulted ≡ false
    → (stretches : Schedule) × (let m = run (length store) (start store n) sched in
        let s = System.run (length store) (init store n) stretches in
        (m.accepted ≡ s.accepted)
        × (m.delivered ≡ s.delivered)
        × (s.faulted ≡ false)
        × ((m.held ≡ true) ⊎ (m.mem ≡ s.mem)))
run-IsAtomic store n sched running =
    let (s, (stretches, r), k) = run-Simulates store n sched running in
    (
      stretches,
      (
        k.accepted ∙ ap (λ t. t.accepted) (sym r),
        k.delivered ∙ ap (λ t. t.delivered) (sym r),
        ap (λ t. t.faulted) r ∙ k.running,
        elim (Bool-cases (run (length store) (start store n) sched).held) [
          | inl held ↦ inl held
          | inr free ↦
              inr (k.mem ∙ written-outside k.owner s.mem (k.unheld free) ∙ ap (λ t. t.mem) (sym r))
        ],
      ),
    )

-- Two threads are never in their critical sections together, as long as no destroyed lock has been
-- taken and none has been destroyed that is taken, and while a thread is in one the lock is taken.
pub one_in_section :
    (store : List Item) (n : ℕ) (sched : Schedule)
    → (run (length store) (start store n) sched).faulted ≡ false
    → (i j : ℕ) (p r : Place)
    → get_elem? (run (length store) (start store n) sched).places i ≡ some p
    → get_elem? (run (length store) (start store n) sched).places j ≡ some r
    → is_critical p ≡ true
    → is_critical r ≡ true
    → (i ≡ j) × ((run (length store) (start store n) sched).held ≡ true)
one_in_section store n sched running i j p r e f c d =
    let (s, _, k) = run-Simulates store n sched running in
    let m = run (length store) (start store n) sched in
    let here = total-le in_section m.places i e in
    let held : (m.held ≡ true) = elim (Bool-cases m.held) [
      | inl held ↦ held
      | inr free ↦ ground (arith, c, free, k.sections, here)
    ] in
    (
      total_one in_section m.places i j p r (ground (arith, held, k.sections)) e f
          (ground (arith, c)) (ground (arith, d)),
      held,
    )

-- What the stretches keep, the statements keep: in every run of single statements, from array_init on
-- a storage of ARRAY_SIZE ≥ 1 places, that comes to no fault, the items that array_put has accepted
-- are, in order, those that array_get has taken out and then those in the buffer, which are at most
-- ARRAY_SIZE - 1, whenever the lock is free.
pub items_kept :
    (store : List Item) (n : ℕ) (sched : Schedule)
    → 0 < length store
    → (run (length store) (start store n) sched).faulted ≡ false
    → (run (length store) (start store n) sched).held ≡ false
    → let m = run (length store) (start store n) sched in
      let inside = contents (length store) m.mem in
      (m.accepted ≡ m.delivered ++ inside) × (length inside < length store)
items_kept store n sched h running free =
    let (stretches, (accepts, delivers, _, same)) = run-IsAtomic store n sched running in
    let mem : ((run (length store) (start store n) sched).mem
        ≡ (System.run (length store) (init store n) stretches).mem) =
      elim same [ inl held ↦ ground (arith, held, free) | inr mem ↦ mem ] in
    let (history, bound, _) = run-history store n stretches h in
    (
      accepts ∙ history ∙ sym (ap₂ (λ xs a. xs ++ contents (length store) a) delivers mem),
      subst (λ a. length (contents (length store) a) < length store) (sym mem) bound,
    )

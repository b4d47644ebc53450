-- ===== src/Array/Locked/Interrupted.antt =====
-- A thread that is interrupted while it holds the lock of the array, by a signal whose handler calls
-- array_free on the same array (handle_signal of turnin/multi-lookup.c). The thread comes back to its
-- own statements only when the handler returns.
use os_dns_resolver.Base.{
  ℕ, ◌≡◌, ◌⊎◌, inl, inr, refl, sym, ap, ◌∙◌, true, false, Option, none, some, List, [], ◌∷◌, arith,
  length, get_elem?, get_elem?-set_self, get_elem?-set_ne, set, total, total-set, total-le,
  Bool-cases, if◌then◌else◌,
}
use mathlib.Core.Path.{subst}
use native.Mathlib.Decide.{ℕ_discrete}
use os_dns_resolver.Array.{Item, Array}
use os_dns_resolver.Array.System.{Action, accept, deliver, silent, Schedule}
use os_dns_resolver.Array.Locked.{
  Place, free_lock, keeps, takes, releases, destroys, Statement, fault, put_outcome, statement,
  Machine, start, with_lock, step_at, step, run,
}
use os_dns_resolver.Array.Locked.Links.{is_critical}
use os_dns_resolver.Array.Locked.Simulation.{in_section}
use os_dns_resolver.Array.Locked.Atomic.{run-Simulates}

-- Thread `i` comes to the lock of array_free, whichever statement it stood at.
abbrev pub interrupted : ℕ → Machine → Machine
interrupted i m = record m { places = set m.places i free_lock }

-- A statement outside the critical sections takes the lock, destroys it, or leaves it alone.
record IsOutside (p : Place) (st : Statement) : Type 0 where
  place : is_critical st.1 ≡ false
  event : st.3 ≡ silent
  lock : st.2 ≡ keeps
  waits : p ≡ free_lock → st.1 ≡ free_lock

statement-IsOutside :
    (size : ℕ) (a : Array) (p : Place) (act : Action)
    → is_critical p ≡ false
    → let st = statement size a p act in (st.2 ≡ takes) ⊎ (st.2 ≡ destroys) ⊎ IsOutside p st
unfolding statement
statement-IsOutside size a p act c = ground arith

-- The thread waits for the lock that it holds itself, and so does everybody else.
record IsHeldUp (i : ℕ) (from m : Machine) : Type 0 where
  waiting : get_elem? m.places i ≡ some free_lock
  held : m.held ≡ true
  nobody : total in_section m.places ≡ 0
  accepted : m.accepted ≡ from.accepted
  delivered : m.delivered ≡ from.delivered

module _ (size i : ℕ) (from m : Machine) (k : IsHeldUp i from m) where
  outside_section : (j : ℕ) (p : Place) → get_elem? m.places j ≡ some p → is_critical p ≡ false
  outside_section j p e = ground (arith, k.nobody, total-le in_section m.places j e)

  fault-IsHeldUp : IsHeldUp i from (fault m)
  fault-IsHeldUp = record {
    waiting = k.waiting;
    held = k.held;
    nobody = k.nobody;
    accepted = k.accepted;
    delivered = k.delivered;
  }

  -- Thread `j` goes on outside its critical section.
  keeps-IsHeldUp :
      (j : ℕ) (p : Place) (st : Statement)
      → get_elem? m.places j ≡ some p
      → IsOutside p st
      → IsHeldUp i from (put_outcome m j m.held st.0 st.1 st.3)
  keeps-IsHeldUp j p st e o = record {
    waiting = elim (ℕ_discrete j i) [
      | yes same ↦
          let at : (get_elem? m.places i ≡ some p) = ap (get_elem? m.places) (sym same) ∙ e in
          ap (get_elem? (set m.places j st.1)) (sym same)
          ∙ get_elem?-set_self m.places j st.1 e
          ∙ ap some (o.waits (ground (arith, at, k.waiting)))
      | no ne ↦ get_elem?-set_ne m.places st.1 ne ∙ k.waiting
    ];
    held = k.held;
    nobody =
        ground
          (arith, k.nobody, o.place, outside_section j p e, total-set in_section m.places j st.1 e);
    accepted = ap (λ ev. accept ev m.accepted) o.event ∙ k.accepted;
    delivered = ap (λ ev. deliver ev m.delivered) o.event ∙ k.delivered;
  }

  with_lock-IsHeldUp :
      (j : ℕ) (p : Place) (st : Statement)
      → get_elem? m.places j ≡ some p
      → (st.2 ≡ takes) ⊎ (st.2 ≡ destroys) ⊎ IsOutside p st
      → IsHeldUp i from (with_lock m j st)
  with_lock-IsHeldUp j p (a, q, keeps, ev) e (inr (inr o)) =
      keeps-IsHeldUp j p (a, q, keeps, ev) e o
  with_lock-IsHeldUp j p (a, q, takes, ev) e h = elim (Bool-cases m.mem.destroyed) [
    | inl gone ↦ simp gone fault-IsHeldUp
    | inr alive ↦ simp (alive, k.held) k
  ]
  with_lock-IsHeldUp j p (a, q, destroys, ev) e h =
      subst (λ b. IsHeldUp i from (if b then fault m else put_outcome m j false a q ev))
        (sym k.held) fault-IsHeldUp
  with_lock-IsHeldUp j p (a, q, keeps, ev) e (inl l) = ground (arith, l)
  with_lock-IsHeldUp j p (a, q, keeps, ev) e (inr (inl l)) = ground (arith, l)
  with_lock-IsHeldUp j p (a, q, releases, ev) e h = ground (arith, h)

  step_at-IsHeldUp :
      (j : ℕ) (act : Action) (o : Option Place)
      → get_elem? m.places j ≡ o
      → IsHeldUp i from (step_at size m j act o)
  step_at-IsHeldUp j act none e = k
  step_at-IsHeldUp j act (some p) e =
      with_lock-IsHeldUp j p (statement size m.mem p act) e
        (statement-IsOutside size m.mem p act (outside_section j p e))

  step-IsHeldUp : (j : ℕ) (act : Action) → IsHeldUp i from (step size m j act)
  unfolding step
  step-IsHeldUp j act = elim (Bool-cases m.faulted) [
    | inl gone ↦ simp gone k
    | inr running ↦ simp running (step_at-IsHeldUp j act (get_elem? m.places j) refl)
  ]

run-IsHeldUp :
    (size i : ℕ) (from m : Machine) (sched : Schedule)
    → IsHeldUp i from m
    → IsHeldUp i from (run size m sched)
unfolding run
run-IsHeldUp size i from m [] k = k
run-IsHeldUp size i from m ((j, act) ∷ rest) k =
    run-IsHeldUp size i from (step size m j act) rest (step-IsHeldUp size i from m k j act)

-- A thread that takes the signal while it holds the lock of the array hangs in the handler, and with
-- it all others: take any run of single statements, in any interleaving of any number of threads from
-- array_init on, that comes to no fault and in which a thread is in its critical section, and let the
-- handler call array_free in that thread. However the threads run from then on, that call stands in
-- front of its lock, the lock stays taken, and no item is put in or taken out any more.
pub interrupted-hangs :
    (store : List Item) (n : ℕ) (sched : Schedule) (i : ℕ) (p : Place) (later : Schedule)
    → (run (length store) (start store n) sched).faulted ≡ false
    → get_elem? (run (length store) (start store n) sched).places i ≡ some p
    → is_critical p ≡ true
    → let m = run (length store) (start store n) sched in
      let m' = run (length store) (interrupted i m) later in
      (get_elem? m'.places i ≡ some free_lock)
      × (m'.held ≡ true)
      × (m'.accepted ≡ m.accepted)
      × (m'.delivered ≡ m.delivered)
interrupted-hangs store n sched i p later running e c =
    let (_, _, s) = run-Simulates store n sched running in
    let m = run (length store) (start store n) sched in
    let here = total-le in_section m.places i e in
    let held : (m.held ≡ true) = elim (Bool-cases m.held) [
      | inl held ↦ held
      | inr free ↦ ground (arith, c, free, s.sections, here)
    ] in
    let k = run-IsHeldUp (length store) i m (interrupted i m) later (record {
      waiting = get_elem?-set_self m.places i free_lock e;
      held = held;
      nobody = ground (arith, held, s.sections, c, total-set in_section m.places i free_lock e);
      accepted = refl;
      delivered = refl;
    }) in
    (k.waiting, k.held, k.accepted, k.delivered)

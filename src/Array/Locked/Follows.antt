-- ===== src/Array/Locked/Follows.antt =====
-- A statement of a thread, and the stretches that keep up with it.
use os_dns_resolver.Base.{
  ℕ, ◌≡◌, ◌⊎◌, inl, inr, refl, ap, sym, ◌∙◌, true, false, Option, none, some, [], ◌∷◌, ◌++◌, arith,
  get_elem?, set-same, total-le, Bool-cases,
}
use mathlib.Core.Path.{subst}
use os_dns_resolver.Array.System.{Pc, idle, Action, Event, System, init, record_outcome, Schedule}
use os_dns_resolver.Array.System.Rules.{step-some, run-append}
use os_dns_resolver.Array.Locked.{
  Place, keeps, takes, releases, destroys, Statement, statement, Machine, put_outcome, with_lock,
}
use os_dns_resolver.Array.Locked.Links.{is_critical, written, effect}
use os_dns_resolver.Array.Locked.Moves.{after, IsStep, statement-IsStep, statement-unreleased}
use os_dns_resolver.Array.Locked.Others.{written-outside}
use os_dns_resolver.Array.Locked.Simulation.{
  in_section, Simulates, next, IsAlone, solo, plain, link,
}
use os_dns_resolver.Array.System

-- A run of whole stretches leads there.
abbrev pub Reached : ℕ → System → System → Type 0
Reached size from s = (sched : Schedule) × (System.run size from sched ≡ s)

next-Reached :
    (size : ℕ) (from s : System) (i : ℕ) (q : Pc) (o : Option Action)
    → Reached size from s
    → s.faulted ≡ false
    → get_elem? s.pcs i ≡ some q
    → Reached size from (record_outcome s i (after size s.mem q o))
unfolding System.run
next-Reached size from s i q none (sched, r) running f =
    (sched, r ∙ ground (arith, running, set-same s.pcs i f))
next-Reached size from s i q (some act) (sched, r) running f = (
  sched ++ (i, act) ∷ [],
  run-append size from sched ((i, act) ∷ [])
      ∙ ap (λ t. System.step size t i act) r
      ∙ step-some size s i act q running f,
)

-- The machine has come to a fault, or a run of whole stretches keeps up with it.
abbrev pub IsFollowed : ℕ → System → Machine → Type 0
IsFollowed size from m =
    (m.faulted ≡ true) ⊎ ((s : System) × Reached size from s × Simulates size m s)

module _ {size : ℕ} {m : Machine} {s : System} (from : System) (r : Reached size from s)
    (k : Simulates size m s) (i : ℕ) (act : Action) {p : Place} {q : Pc}
    (e : get_elem? m.places i ≡ some p) (f : get_elem? s.pcs i ≡ some q) where
  reached : Reached size from (next k i act e f)
  reached = next-Reached size from s i q (effect size s.mem p q act) r k.running f

  inside_held : is_critical p ≡ true → m.held ≡ true
  inside_held c = elim (Bool-cases m.held) [
    | inl held ↦ held
    | inr free ↦ ground (arith, c, free, k.sections, total-le in_section m.places i e)
  ]

  -- A thread in its critical section.
  inside :
      is_critical p ≡ true
      → (st : Statement) → IsStep size s.mem p q act st
      → IsFollowed size from (with_lock m i st)
  inside c (a, p', keeps, ev) x = inr (
    next k i act e f,
    reached,
    solo k i act e f (ground (arith, c, inside_held c, k.sections)) (a, p', keeps, ev) x m.held
        (inside_held c ∙ sym c ∙ sym x.locking),
  )
  inside c (a, p', releases, ev) x = inr (
    next k i act e f,
    reached,
    solo k i act e f (ground (arith, c, inside_held c, k.sections)) (a, p', releases, ev) x false
        (sym x.locking.1),
  )
  inside c (a, p', takes, ev) x = ground (arith, c, x.locking)
  inside c (a, p', destroys, ev) x = ground (arith, c, x.locking)

  -- A thread that takes or destroys the lock, which is free.
  border-IsStep :
      is_critical p ≡ false
      → m.held ≡ false
      → (st : Statement) → statement size m.mem p act ≡ st
      → (st.2 ≡ takes → m.mem.destroyed ≡ false)
      → IsStep size s.mem p q act st
  border-IsStep c free st eq alive = subst (IsStep size s.mem p q act) there (
      statement-IsStep size s.mem p q act (λ d. ground (arith, c, d))
        (λ d. ap (λ b. b.destroyed) (sym same) ∙ alive (ap (λ t. t.2) (sym there) ∙ d))
        (link k i act e f))
    where
      same : m.mem ≡ s.mem
      same = k.mem ∙ written-outside k.owner s.mem (k.unheld free)

      there : statement size (written p s.mem) p act ≡ st
      there = ap (λ b. statement size b p act) (written-outside p s.mem c ∙ sym same) ∙ eq

  border_alone : is_critical p ≡ false → m.held ≡ false → IsAlone k i act e f
  border_alone c free = ground (arith, c, free, k.sections)

  -- A thread outside it.
  border :
      is_critical p ≡ false
      → (st : Statement) → statement size m.mem p act ≡ st
      → IsFollowed size from (with_lock m i st)
  border c (a, p', keeps, ev) eq = inr (
    next k i act e f,
    reached,
    subst (λ t. Simulates size (put_outcome m i m.held t.0 t.1 t.3) (next k i act e f)) eq
        (plain k i act e f c (ap (λ t. t.2) eq)),
  )
  border c (a, p', releases, ev) eq =
      absurd (statement-unreleased size m.mem p act c (ap (λ t. t.2) eq))
  border c (a, p', takes, ev) eq = elim (Bool-cases m.mem.destroyed) [
    | inl gone ↦ simp gone (inl refl)
    | inr alive ↦ elim (Bool-cases m.held) [
      | inl held ↦ simp (alive, held) (inr (s, r, k))
      | inr free ↦
          let x = border-IsStep c free (a, p', takes, ev) eq (λ _. alive) in
          simp (alive, free)
            (inr (
              next k i act e f,
              reached,
              solo k i act e f (border_alone c free) (a, p', takes, ev) x true (sym x.locking.1),
            ))
    ]
  ]
  border c (a, p', destroys, ev) eq = elim (Bool-cases m.held) [
    | inl held ↦ simp held (inl refl)
    | inr free ↦
        let x = border-IsStep c free (a, p', destroys, ev) eq (λ t. ground (arith, t)) in
        simp free (
          inr (
            next k i act e f,
            reached,
            solo k i act e f (border_alone c free) (a, p', destroys, ev) x false (sym x.locking.1),
          ))
  ]

  pub at_place-IsFollowed : IsFollowed size from (with_lock m i (statement size m.mem p act))
  at_place-IsFollowed = elim (Bool-cases (is_critical p)) [
    | inl c ↦
        let mine : (m.mem ≡ written p s.mem) =
          k.mem ∙ ap (λ o. written o s.mem) (sym (k.own i p e c)) in
        inside c (statement size m.mem p act) (
          subst (λ b. IsStep size s.mem p q act (statement size b p act)) (sym mine)
            (statement-IsStep size s.mem p q act (λ _. k.alive (inside_held c))
              (λ _. k.alive (inside_held c)) (link k i act e f)))
    | inr c ↦ border c (statement size m.mem p act) refl
  ]

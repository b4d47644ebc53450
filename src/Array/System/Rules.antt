-- ===== src/Array/System/Rules.antt =====
-- How to prove that a property of the system holds throughout a run.
use os_dns_resolver.Base.{
  true, if◌then◌else◌, ap, ◌∙◌, ◌++◌, Bool, ℕ, ◌≡◌, refl, false, Option, none, some, [], ◌∷◌,
  get_elem?,
}
use os_dns_resolver.Array.System.{
  Pc, Action, move, System, record_outcome, step_at, step, Schedule, run,
}

module _ {ℓ} (size : ℕ) (P : System → Type ℓ) where
  step_at_rule :
      (s : System) (i : ℕ) (act : Action) (o : Option Pc)
      → P s
      → ((p : Pc) → o ≡ some p → P (record_outcome s i (move size s.mem p act)))
      → P (step_at size s i act o)
  step_at_rule s i act none h k = h
  step_at_rule s i act (some p) h k = k p refl

  if_rule : (b : Bool) (x y : System) → P x → (b ≡ false → P y) → P (if b then x else y)
  if_rule true x y h k = h
  if_rule false x y h k = k refl

  -- A step does nothing, or it is a move of a thread of a system with no fault.
  pub step_rule :
      (s : System) (i : ℕ) (act : Action)
      → P s
      → ((p : Pc)
          → get_elem? s.pcs i ≡ some p
          → s.faulted ≡ false
          → P (record_outcome s i (move size s.mem p act)))
      → P (step size s i act)
  unfolding step
  step_rule s i act h k =
      if_rule s.faulted s (step_at size s i act (get_elem? s.pcs i)) h
        (λ e. step_at_rule s i act (get_elem? s.pcs i) h (λ p f. k p f e))

  -- What each step keeps, a run keeps.
  pub run_rule :
      ((s : System) (i : ℕ) (act : Action) → P s → P (step size s i act))
      → (s : System) (sched : Schedule) → P s
      → P (run size s sched)
  unfolding run
  run_rule keep s [] h = h
  run_rule keep s ((i, act) ∷ rest) h = run_rule keep (step size s i act) rest (keep s i act h)

-- A step of a thread that is there.
pub step-some :
    (size : ℕ) (s : System) (i : ℕ) (act : Action) (p : Pc)
    → s.faulted ≡ false
    → get_elem? s.pcs i ≡ some p
    → step size s i act ≡ record_outcome s i (move size s.mem p act)
unfolding step
step-some size s i act p f e =
    ap (λ b. if b then s else step_at size s i act (get_elem? s.pcs i)) f
    ∙ ap (step_at size s i act) e

pub run-append :
    (size : ℕ) (s : System) (xs ys : Schedule) → run size s (xs ++ ys) ≡ run size (run size s xs) ys
unfolding run
run-append size s [] ys = refl
run-append size s ((i, act) ∷ xs) ys = run-append size (step size s i act) xs ys

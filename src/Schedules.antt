-- ===== src/Schedules.antt =====
-- Schedules of a system that runs by choices, and what holds at the end of a fair one: shared by the
-- pipeline and by the stress test.
use os_dns_resolver.Base.{
  ℕ, suc, zero, ◌≡◌, ◌<◌, ◌≤◌, ◌⊎◌, inl, inr, ap, sym, List, [], ◌∷◌, ◌++◌, some, length, arith,
  get_elem?, All, refl,
}
use mathlib.Core.Path.{subst}

-- The choice stands in the round.
abbrev pub Has {ℓ} : {C : Type ℓ} → List C → C → Type ℓ
Has cs c = (k : ℕ) × (get_elem? cs k ≡ some c)

abbrev pub joined {ℓ} : {C : Type ℓ} → List (List C) → List C
joined [] = []
joined (cs ∷ rounds) = cs ++ joined rounds

module _ {ℓ κ} {S : Type ℓ} {C : Type κ} (step : S → C → S) where
  unfoldable pub run : S → List C → S
  run s [] = s
  run s (c ∷ cs) = run (step s c) cs

  run-append : (s : S) (cs ds : List C) → run s (cs ++ ds) ≡ run (run s cs) ds
  unfolding run
  run-append s [] ds = refl
  run-append s (c ∷ cs) ds = run-append (step s c) cs ds

  -- What each step keeps, a run keeps.
  pub run_rule {μ} :
      (P : S → Type μ)
      → ((s : S) (c : C) → P s → P (step s c))
      → (s : S) (cs : List C) → P s
      → P (run s cs)
  unfolding run
  run_rule P keep s [] h = h
  run_rule P keep s (c ∷ cs) h = run_rule P keep (step s c) cs (keep s c h)

  -- No choice of the round changes anything.
  abbrev pub IsIdleRound : S → List C → Type (ℓ ⊔ κ)
  IsIdleRound s cs = (k : ℕ) (c : C) → get_elem? cs k ≡ some c → step s c ≡ s

  pub idle_step : (s : S) (cs : List C) (c : C) → IsIdleRound s cs → Has cs c → step s c ≡ s
  idle_step s cs c idle (k, at) = idle k c at

  idle_cons :
      (s : S) (c : C) (cs : List C) → step s c ≡ s → IsIdleRound s cs → IsIdleRound s (c ∷ cs)
  idle_cons s c cs e h zero d at = subst (λ x. step s x ≡ s) (some_eq at) e
    where
      some_eq : some c ≡ some d → c ≡ d
      some_eq f = cc
  idle_cons s c cs e h (suc k) d at = h k d at

  -- A system in which a step changes nothing or takes some work away, as long as `Good` holds.
  module _ {μ} (Good : S → Type μ) (keep : (s : S) (c : C) → Good s → Good (step s c))
      (work : S → ℕ)
      (moves : (s : S) (c : C) → Good s → (step s c ≡ s) ⊎ (work (step s c) < work s)) where
    run-work : (s : S) (cs : List C) → Good s → work (run s cs) ≤ work s
    unfolding run
    run-work s [] g = omega arith
    run-work s (c ∷ cs) g =
        let below = run-work (step s c) cs (keep s c g) in
        elim (moves s c g) [
          | inl same ↦ omega (arith, below, ap work same)
          | inr less ↦ omega (arith, below, less)
        ]

    round_cases : (s : S) (cs : List C) → Good s → IsIdleRound s cs ⊎ (work (run s cs) < work s)
    unfolding run
    round_cases s [] g = inl (λ k c at. ground arith)
    round_cases s (c ∷ cs) g = elim (moves s c g) [
      | inl same ↦ elim (round_cases s cs g) [
        | inl idle ↦ inl (idle_cons s c cs same idle)
        | inr less ↦ inr (omega (arith, less, ap (λ t. work (run t cs)) same))
      ]
      | inr less ↦ inr (omega (arith, less, run-work (step s c) cs (keep s c g)))
    ]

    -- Where a full round that changes nothing means that the system is done, more full rounds than
    -- there is work bring it there.
    pub rounds_done {ν ρ} :
        (Full : List C → Type ν) (Done : S → Type ρ)
        → ((s : S) (c : C) → Done s → Done (step s c))
        → ((s : S) (cs : List C) → Good s → Full cs → IsIdleRound s cs → Done s)
        → (s : S) (rounds : List (List C)) → Good s
        → All Full rounds
        → work s < length rounds
        → Done (run s (joined rounds))
    unfolding run
    rounds_done Full Done stay rest s [] g full enough = absurd (omega arith)
    rounds_done Full Done stay rest s (cs ∷ rounds) g full enough =
        subst Done (sym (run-append s cs (joined rounds))) (elim (round_cases s cs g) [
          | inl idle ↦
              run_rule Done stay (run s cs) (joined rounds)
                (run_rule Done stay s cs (rest s cs g full.0 idle))
          | inr less ↦
              rounds_done Full Done stay rest (run s cs) rounds (run_rule Good keep s cs g) full.1
                (omega arith)
        ])

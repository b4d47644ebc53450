-- ===== src/Array/System/Waiting/Ends.antt =====
-- The end of the turns on an array that stays open.
use mathlib.Core.Path.{subst}
use os_dns_resolver.Base.{
  ℕ, ◌+◌, ◌*◌, ◌<◌, ◌≡◌, ap, sym, ◌∙◌, List, arith, length, some, total_le_mul, get_elem?, All, map,
  get_elem?-lt,
}
use os_dns_resolver.Array.{timed_out}
use os_dns_resolver.Array.System.{Pc, proceed, wake, System, step, run}
use os_dns_resolver.Array.System.Rules.{step_rule}
use os_dns_resolver.Array.System.Closing.{
  weight, work, Turn, goes_on, wakes, turn, turn_step, IsFullRound, turn-timeout, step-same,
  run-turns,
}
use os_dns_resolver.Array.System.Closing.Ends.{weight-le, bit-le}
use os_dns_resolver.Array.System.Waiting.{
  IsSettled, IsOpen, move-IsSettled, move-IsSame, turn_step-IsOpen, turn_step-moves, outside,
  same_outcome,
}
use os_dns_resolver.Schedules.{joined, IsIdleRound, idle_step, rounds_done}
use os_dns_resolver.Schedules

-- No thread has a call before it that could go on.
abbrev pub AllSettled : ℕ → System → Type 0
AllSettled size s = (i : ℕ) (p : Pc) → get_elem? s.pcs i ≡ some p → IsSettled size s.mem p

module _ (size n j : ℕ) where
  settled-stays :
      (s : System) (c : Turn)
      → IsOpen n s × AllSettled size s
      → IsOpen n (turn_step size j s c) × AllSettled size (turn_step size j s c)
  settled-stays s c (k, settled) =
      step_rule size (λ t. IsOpen n t × AllSettled size t) s (turn j c).0 (turn j c).1 (k, settled)
        (λ p e f.
          subst (λ t. IsOpen n t × AllSettled size t)
            (sym (
              same_outcome size n j s c k e (
                move-IsSame size s.mem s.emptied k.alive k.still_open j c p
                  (outside size n j s c k e) (settled (turn j c).0 p e))))
            (k, settled))

  round-settled :
      (s : System) (cs : List Turn)
      → IsOpen n s
      → IsFullRound n cs
      → IsIdleRound (turn_step size j) s cs
      → IsOpen n s × AllSettled size s
  round-settled s cs k round still = (
    k,
    λ i p e.
        let lt : (i < n) = omega (arith, k.threads, get_elem?-lt s.pcs i e) in
        move-IsSettled size s.mem s.emptied k.alive k.still_open p
          (outside size n j s (goes_on i) k e)
          (step-same size s i proceed p k.running e
            (idle_step (turn_step size j) s cs (goes_on i) still (round.going i lt)))
          (step-same size s i (wake timed_out) p k.running e (
            ap (λ t. step size s t.0 t.1) (sym (turn-timeout j i))
            ∙ idle_step (turn_step size j) s cs (wakes i timed_out) still (round.waking i lt))),
  )

-- No call waits in vain. Take any state of n threads over an array that is open and not destroyed,
-- with no fault and no thread in array_free. If no thread makes another call, then after more than
-- 5 n + 1 rounds, in each of which each thread has a turn to go on and one in which its wait runs
-- out, every thread has returned from its call, or waits in array_put and the array is full, or
-- waits in array_get and the array is empty.
pub waits_settle :
    {n : ℕ} (size j : ℕ) (s : System) (rounds : List (List Turn))
    → IsOpen n s
    → All (IsFullRound n) rounds
    → n * 5 + 1 < length rounds
    → AllSettled size (run size s (map (turn j) (joined rounds)))
waits_settle {n} size j s rounds k full many =
    subst (AllSettled size) (sym (run-turns size j s (joined rounds))) done.1
  where
    t : System
    t = Schedules.run (turn_step size j) s (joined rounds)

    done : IsOpen n t × AllSettled size t
    done =
        rounds_done (turn_step size j) (IsOpen n) (λ u c o. turn_step-IsOpen size n j u c o) work
          (λ u c o. turn_step-moves size n j u c o) (IsFullRound n)
          (λ u. IsOpen n u × AllSettled size u) (settled-stays size n j)
          (λ u cs o round still. round-settled size n j u cs o round still) s rounds k full
          (omega (arith, total_le_mul weight 5 weight-le s.pcs, k.threads, many, bit-le s.emptied))

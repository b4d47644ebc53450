-- ===== src/Array/System/Closing/Tests.antt =====
-- A run in which thread 0 frees the array while thread 1 is on its way to the last item.
use os_dns_resolver.Base.{
  ℕ, ◌<◌, ◌≡◌, zero, suc, refl, true, false, List, [], ◌∷◌, arith, replicate, All, map,
}
use os_dns_resolver.Array.{
  timed_out, array_init, put_enter, put_wake, get_begin, get_enter, get_wake, get_leave, free_enter,
  free_drain_wake, free_getters_wake, free_destroy,
}
use os_dns_resolver.Array.System.{
  System, init, Schedule, run, step, move, call_put, call_get, call_free, proceed,
}
use os_dns_resolver.Array.System.Invariant.{Inv, init-Inv, run-Inv}
use os_dns_resolver.Array.System.Closing.{Turn, goes_on, wakes, turn, IsFullRound}
use os_dns_resolver.Array.System.Closing.Ends.{Returned, free_returns}
use os_dns_resolver.Array.Samples.{one, storage}
use os_dns_resolver.Schedules.{joined, Has}

abbrev before : Schedule
before = (0, call_put one) ∷ (0, proceed) ∷ (0, call_free) ∷ (1, call_get) ∷ []

abbrev started : System
started = run 3 (init storage 2) before

abbrev pub round : List Turn
round = goes_on 0 ∷ goes_on 1 ∷ wakes 0 timed_out ∷ wakes 1 timed_out ∷ []

round-IsFullRound : IsFullRound 2 round
round-IsFullRound = record { going = going; waking = waking }
  where
    going : (i : ℕ) → i < 2 → Has round (goes_on i)
    going zero h = (0, refl)
    going (suc zero) h = (1, refl)
    going (suc (suc i)) h = absurd (omega arith)

    waking : (i : ℕ) → i < 2 → Has round (wakes i timed_out)
    waking zero h = (2, refl)
    waking (suc zero) h = (3, refl)
    waking (suc (suc i)) h = absurd (omega arith)

pub full_rounds : (k : ℕ) → All (IsFullRound 2) (replicate k round)
full_rounds zero = _
full_rounds (suc k) = (round-IsFullRound, full_rounds k)

started-Inv : Inv 3 started
started-Inv = run-Inv (init storage 2) before (init-Inv storage 2 (omega arith))

-- Three rounds are enough here.
three_rounds :
    let t = run 3 started (map (turn 0) (joined (replicate 3 round))) in
    (t.mem.destroyed ≡ true) × (t.faulted ≡ false) × (t.delivered ≡ one ∷ [])
unfolding run step move put_enter put_wake get_begin get_enter get_wake get_leave array_init
    free_enter free_drain_wake free_getters_wake free_destroy
three_rounds = (refl, refl, refl)

free_returns_example : Returned (run 3 started (map (turn 0) (joined (replicate 12 round))))
unfolding run step move put_enter get_begin array_init
free_returns_example =
    free_returns 0 started (replicate 12 round) started-Inv refl refl refl refl refl refl
      (omega arith) (full_rounds 12) (omega arith)

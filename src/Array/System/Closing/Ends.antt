-- ===== src/Array/System/Closing/Ends.antt =====
-- The end of the turns.
use os_dns_resolver.Base.{
  ℕ, ◌+◌, ◌*◌, ◌≤◌, ◌<◌, ◌≡◌, refl, ap, sym, ◌∙◌, Bool, true, false, List, [], ◌++◌, arith, length,
  some, total, total-set, total-le, total_zero, total_one, total_sum_le, total_le_mul, get_elem?,
  All, map, append-nil, get_elem?-lt,
}
use mathlib.Core.Path.{subst}
use os_dns_resolver.Array.{Array, timed_out, is_empty}
use os_dns_resolver.Array.Window.{contents}
use os_dns_resolver.Array.Valid.{IsValid}
use os_dns_resolver.Array.Refine.{length-contents, contents-empty}
use os_dns_resolver.Array.System.{Pc, idle, free_called, proceed, wake, move, System, step, run}
use os_dns_resolver.Array.System.Moves.{in_get}
use os_dns_resolver.Array.System.Invariant.{Inv}
use os_dns_resolver.Array.System.Rules.{step_rule}
use os_dns_resolver.Array.System.Closing.{
  turn-timeout, step-same, run-turns, weight, bit, work, in_put, in_free, wanting, at_free_called,
  at_free_leaving, Turn, goes_on, wakes, turn, turn_step, IsFullRound,
}
use os_dns_resolver.Array.System.Closing.Moves.{IsResting, move-rests}
use os_dns_resolver.Array.System.Closing.Steps.{
  IsClosing, no_put, outside, turn_step-IsClosing, turn_step-moves,
}
use os_dns_resolver.Schedules.{joined, IsIdleRound, idle_step, rounds_done, run_rule}
use os_dns_resolver.Schedules

contents_none :
    {size : ℕ} {a : Array} → IsValid size a → length (contents size a) ≡ 0 → is_empty a ≡ true
contents_none v e = ground (arith, length-contents v)

module _ {size n j : ℕ} (s : System) (k : IsClosing size n j s) where
  module _ (cs : List Turn) (round : IsFullRound n cs)
      (still : IsIdleRound (turn_step size j) s cs) where
    rests : (i : ℕ) (p : Pc) → get_elem? s.pcs i ≡ some p → IsResting s.mem p
    rests i p e =
        let lt : (i < n) = omega (arith, k.threads, get_elem?-lt s.pcs i e) in
        move-rests size s.mem s.emptied p (no_put k i e) (outside k i e)
          (step-same size s i proceed p k.running e
            (idle_step (turn_step size j) s cs (goes_on i) still (round.going i lt)))
          (step-same size s i (wake timed_out) p k.running e (
            ap (λ t. step size s t.0 t.1) (sym (turn-timeout j i))
            ∙ idle_step (turn_step size j) s cs (wakes i timed_out) still (round.waking i lt)))

    round-weight : total weight s.pcs ≡ 0
    round-weight =
        let called = total_zero at_free_called s.pcs (λ i p e. (rests i p e).entered) in
        let shut : (s.mem.shutdown ≡ true) = ground (arith, called, k.shuts) in
        let wants = total_zero wanting s.pcs (λ i p e. (rests i p e).blocked shut) in
        let gets =
          total_zero in_get s.pcs
            (λ i p e. (rests i p e).not_leaving ∙ (rests i p e).blocked shut) in
        let none_left = contents_none k.inv.valid (omega (arith, k.enough, wants)) in
        total_zero weight s.pcs (λ i p e.
          (rests i p e).over none_left (k.inv.counted ∙ gets) ((rests i p e).blocked shut))

idle_turn :
    (size j : ℕ) (a : Array) (c : Turn) (p : Pc)
    → weight p ≡ 0
    → weight (move size a p (turn j c).1).1 ≡ 0
unfolding move
idle_turn size j a (goes_on i) idle h = refl
idle_turn size j a (wakes i r) idle h = refl
idle_turn size j a c p h = ground arith

-- A system in which nobody has anything left to do stays as it is.
turn_step-done :
    (size j : ℕ) (s : System) (c : Turn)
    → total weight s.pcs ≡ 0
    → total weight (turn_step size j s c).pcs ≡ 0
turn_step-done size j s c done =
    step_rule size (λ t. total weight t.pcs ≡ 0) s (turn j c).0 (turn j c).1 done
      (λ p e f. omega (
        arith,
        done,
        idle_turn size j s.mem c p (omega (arith, done, total-le weight s.pcs (turn j c).0 e)),
        total-set weight s.pcs (turn j c).0 (move size s.mem p (turn j c).1).1 e,
      ))

pub weight-le : (p : Pc) → weight p ≤ 5
weight-le idle = omega arith
weight-le p = ground arith

idle_of_weight : (p : Pc) → weight p ≡ 0 → p ≡ idle
idle_of_weight idle h = refl
idle_of_weight p h = ground arith

wanting-le : (p : Pc) → in_put p + wanting p ≤ weight p
wanting-le idle = omega arith
wanting-le p = ground arith

in_free-le : (p : Pc) → in_put p + in_free p ≤ weight p
in_free-le idle = omega arith
in_free-le p = ground arith

pub bit-le : (b : Bool) → bit b ≤ 1
bit-le true = omega arith
bit-le false = omega arith

calls-le : (p : Pc) → at_free_called p + at_free_leaving p ≤ in_free p
calls-le idle = omega arith
calls-le p = ground arith

module _ {size n j : ℕ} {s : System} (v : Inv size s) (threads : length s.pcs ≡ n)
    (running : s.faulted ≡ false) (alive : s.mem.destroyed ≡ false)
    (no_put : total in_put s.pcs ≡ 0) (one_free : total in_free s.pcs ≡ 1)
    (calling : get_elem? s.pcs j ≡ some free_called)
    (enough : length (contents size s.mem) ≤ total wanting s.pcs) where
  start-IsClosing : IsClosing size n j s
  start-IsClosing = record {
    inv = v;
    threads = threads;
    running = running;
    puts = no_put;
    frees = ground (arith, one_free);
    owner = λ i p e h. total_one in_free s.pcs i j p free_called one_free e calling h (omega arith);
    enough = enough;
    shuts = λ b. omega (arith, called, counts);
    leaves = λ h. ground (arith, called, counts, h);
  }
    where
      called : 1 ≤ total at_free_called s.pcs
      called = total-le at_free_called s.pcs j calling

      counts : total at_free_called s.pcs + total at_free_leaving s.pcs ≤ 1
      counts =
          omega
            (arith, one_free, total_sum_le at_free_called at_free_leaving in_free calls-le s.pcs)

-- Every thread has returned, and array_free has come to its end.
abbrev pub Returned : System → Type 0
Returned t =
    ((i : ℕ) (p : Pc) → get_elem? t.pcs i ≡ some p → p ≡ idle)
    × (t.faulted ≡ false)
    × (t.mem.destroyed ≡ true)
    × (t.delivered ≡ t.accepted)

-- array_free comes to its end. Take a state that keeps the invariant of the runs, with no fault and
-- the array not destroyed, in which thread `j` has called array_free, alone, nobody is in array_put,
-- and at least as many threads are on their way through array_get as items are left. If no thread
-- makes another call, and the waits of array_free end by their timeouts alone, then after more than
-- 5 n + 1 rounds, in each of which each of the n threads has a turn to go on and one in which its
-- wait runs out, every thread has returned, no destroyed lock has been taken, the array is destroyed,
-- and each accepted item has been taken out.
pub free_returns :
    {size n : ℕ} (j : ℕ) (s : System) (rounds : List (List Turn))
    → Inv size s
    → length s.pcs ≡ n
    → s.faulted ≡ false
    → s.mem.destroyed ≡ false
    → total in_put s.pcs ≡ 0
    → total in_free s.pcs ≡ 1
    → get_elem? s.pcs j ≡ some free_called
    → length (contents size s.mem) ≤ total wanting s.pcs
    → All (IsFullRound n) rounds
    → n * 5 + 1 < length rounds
    → Returned (run size s (map (turn j) (joined rounds)))
free_returns {size} {n} j s rounds v threads running alive no_put one_free calling enough full
      many =
    subst Returned (sym (run-turns size j s (joined rounds))) ended
  where
    first : IsClosing size n j s
    first = start-IsClosing v threads running alive no_put one_free calling enough

    t : System
    t = Schedules.run (turn_step size j) s (joined rounds)

    closing : IsClosing size n j t
    closing =
        run_rule (turn_step size j) (IsClosing size n j) turn_step-IsClosing s (joined rounds) first

    done : total weight t.pcs ≡ 0
    done =
        rounds_done (turn_step size j) (IsClosing size n j) turn_step-IsClosing work turn_step-moves
          (IsFullRound n) (λ u. total weight u.pcs ≡ 0) (turn_step-done size j)
          (λ u cs k round still. round-weight u k cs round still) s rounds first full
          (omega (arith, total_le_mul weight 5 weight-le s.pcs, threads, many, bit-le s.emptied))

    empty : contents size t.mem ≡ []
    empty = contents-empty closing.inv.valid (
        contents_none closing.inv.valid (
          omega (arith, done, closing.enough, total_sum_le in_put wanting weight wanting-le t.pcs)))

    ended : Returned t
    ended = (
      (λ i p e. idle_of_weight p (omega (arith, done, total-le weight t.pcs i e))),
      closing.running,
      ground (arith, closing.frees, total_sum_le in_put in_free weight in_free-le t.pcs, done),
      sym (closing.inv.history ∙ ap (λ held. t.delivered ++ held) empty ∙ append-nil t.delivered),
    )

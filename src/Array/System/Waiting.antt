-- ===== src/Array/System/Waiting.antt =====
-- Turns of threads in array_put and array_get, none of which makes a new call, on an array that
-- nobody frees.
pub mod Ends
mod Tests
use os_dns_resolver.Base.{
  ℕ, ◌+◌, ◌*◌, ◌≤◌, ◌<◌, ◌≡◌, ◌⊎◌, inl, inr, refl, ap, sym, ◌∙◌, Bool, true, false, not, List, [],
  ◌∷◌, arith, length, some, total, total-set, total-le, total_le_mul, get_elem?, set, set-same,
  length-set, All, map, get_elem?-lt,
}
use mathlib.Core.Path.{subst}
use os_dns_resolver.Array.{
  Array, Wait, timed_out, is_empty, is_full, put_enter, put_wake, get_begin, get_enter, get_wake,
  get_leave,
}
use os_dns_resolver.Array.System.{
  Pc, idle, put_called, put_waiting, get_called, get_waiting, get_leaving, Action, proceed, wake,
  Outcome, move, System, record_outcome, step, silent, is_fault, note_emptied, run,
}
use os_dns_resolver.Array.System.Moves.{in_get}
use os_dns_resolver.Array.System.Rules.{step-some, step_rule}
use os_dns_resolver.Array.System.Closing.{
  weight, bit, work, in_put, in_free, Turn, goes_on, wakes, turn, turn_step, IsFullRound,
}
use os_dns_resolver.Schedules
use os_dns_resolver.Schedules.{joined, IsIdleRound, idle_step, rounds_done}

-- What a move leaves of the array, and whether it is one.
record IsMoved (size : ℕ) (a : Array) (emptied : Bool) (p : Pc) (out : Outcome) : Type 0 where
  alive : out.0.destroyed ≡ false
  still_open : out.0.shutdown ≡ false
  faultless : is_fault out.2 ≡ false
  no_free : in_free out.1 ≡ 0
  moved :
      ((out.0 ≡ a) × (out.1 ≡ p) × (out.2 ≡ silent) × (note_emptied out.1 out.3 emptied ≡ emptied))
      ⊎ (weight out.1 + bit (note_emptied out.1 out.3 emptied) < weight p + bit emptied)

abbrev is_between : Pc → Bool
is_between (put_called x) = true
is_between get_called = true
is_between (get_leaving x) = true
is_between p = false

-- Outside the three functions, or waiting as it must: to put into a full array, or to get from an
-- empty one.
pub record IsSettled (size : ℕ) (a : Array) (p : Pc) : Type 0 where
  pub puts : 0 < in_put p → is_full size a ≡ true
  pub gets : 0 < in_get p → is_empty a ≡ true
  pub waits : is_between p ≡ false

module _ (size : ℕ) (a : Array) (emptied : Bool) (alive : a.destroyed ≡ false)
    (still_open : a.shutdown ≡ false) where
  move-IsMoved :
      (j : ℕ) (c : Turn) (p : Pc)
      → in_free p ≡ 0
      → IsMoved size a emptied p (move size a p (turn j c).1)
  unfolding move put_enter put_wake get_enter get_wake get_leave
  move-IsMoved j (goes_on i) idle h = ground arith
  move-IsMoved j (goes_on i) (put_called x) h = ground arith
  move-IsMoved j (goes_on i) get_called h = ground arith
  move-IsMoved j (goes_on i) (get_leaving x) h = ground arith
  move-IsMoved j (wakes i r) (put_waiting x) h = ground arith
  move-IsMoved j (wakes i r) get_waiting h = ground arith
  move-IsMoved j c p h = ground arith

  abbrev IsSame : Pc → Outcome → Type 0
  IsSame p out =
      (out.0 ≡ a) × (out.1 ≡ p) × (out.2 ≡ silent) × (note_emptied out.1 out.3 emptied ≡ emptied)

  pub move-IsSettled :
      (p : Pc)
      → in_free p ≡ 0
      → (let out = move size a p proceed in
          weight out.1 + bit (note_emptied out.1 out.3 emptied) ≡ weight p + bit emptied)
      → (let out = move size a p (wake timed_out) in
          weight out.1 + bit (note_emptied out.1 out.3 emptied) ≡ weight p + bit emptied)
      → IsSettled size a p
  unfolding move put_enter put_wake get_enter get_wake get_leave
  move-IsSettled idle h e f = ground arith
  move-IsSettled (put_called x) h e f = ground arith
  move-IsSettled (put_waiting x) h e f = ground arith
  move-IsSettled get_called h e f = ground arith
  move-IsSettled get_waiting h e f = ground arith
  move-IsSettled (get_leaving x) h e f = ground arith
  move-IsSettled p h e f = ground arith

  pub move-IsSame :
      (j : ℕ) (c : Turn) (p : Pc)
      → in_free p ≡ 0
      → IsSettled size a p
      → IsSame p (move size a p (turn j c).1)
  unfolding move put_wake get_wake
  move-IsSame j (goes_on i) idle h k = ground arith
  move-IsSame j (wakes i r) (put_waiting x) h k = ground (arith, k)
  move-IsSame j (wakes i r) get_waiting h k = ground (arith, k)
  move-IsSame j c p h k = ground (arith, k)

-- The array is open, and no thread is in array_free.
pub record IsOpen (n : ℕ) (s : System) : Type 0 where
  pub threads : length s.pcs ≡ n
  pub running : s.faulted ≡ false
  pub alive : s.mem.destroyed ≡ false
  pub still_open : s.mem.shutdown ≡ false
  pub no_free : total in_free s.pcs ≡ 0

module _ (size n j : ℕ) (s : System) (c : Turn) (k : IsOpen n s) where
  abbrev i : ℕ
  i = (turn j c).0

  module _ {p : Pc} (e : get_elem? s.pcs i ≡ some p) where
    pub outside : in_free p ≡ 0
    outside = omega (arith, k.no_free, total-le in_free s.pcs i e)

    abbrev out : Outcome
    out = move size s.mem p (turn j c).1

    went : IsMoved size s.mem s.emptied p out
    went = move-IsMoved size s.mem s.emptied k.alive k.still_open j c p outside

    record_outcome-IsOpen : IsOpen n (record_outcome s i out)
    record_outcome-IsOpen = record {
      threads = omega (arith, length-set s.pcs i out.1, k.threads);
      running = went.faultless;
      alive = went.alive;
      still_open = went.still_open;
      no_free = omega (arith, went.no_free, k.no_free, total-set in_free s.pcs i out.1 e);
    }

    pub same_outcome :
        IsSame size s.mem s.emptied k.alive k.still_open p out → record_outcome s i out ≡ s
    same_outcome same = ground (arith, same, k.running, set-same s.pcs i e)

    record_outcome-moves : (record_outcome s i out ≡ s) ⊎ (work (record_outcome s i out) < work s)
    record_outcome-moves = elim went.moved [
      | inl same ↦ inl (same_outcome same)
      | inr less ↦ inr (omega (arith, less, total-set weight s.pcs i out.1 e))
    ]

  pub turn_step-IsOpen : IsOpen n (turn_step size j s c)
  turn_step-IsOpen = step_rule size (IsOpen n) s i (turn j c).1 k (λ p e f. record_outcome-IsOpen e)

  pub turn_step-moves : (turn_step size j s c ≡ s) ⊎ (work (turn_step size j s c) < work s)
  turn_step-moves =
      step_rule size (λ t. (t ≡ s) ⊎ (work t < work s)) s i (turn j c).1 (inl refl)
        (λ p e f. record_outcome-moves e)

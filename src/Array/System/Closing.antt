-- ===== src/Array/System/Closing.antt =====
-- Turns of threads that make no new call while one thread is in array_free, and the numbers that tell
-- how far they are.
pub mod Moves
pub mod Steps
pub mod Ends
pub mod Tests
use os_dns_resolver.Base.{
  ℕ, ◌+◌, ◌<◌, ◌==◌, Bool, true, false, if◌then◌else◌, map, total, List, ◌≡◌, arith, [], refl, ap,
  sym, ◌∙◌, total-set,
}
use os_dns_resolver.Array.{Wait, timed_out, ◌∷◌}
use os_dns_resolver.Array.System.{
  Pc, idle, put_called, put_waiting, get_called, get_waiting, get_leaving, free_called,
  free_draining, free_waiting, free_leaving, Action, proceed, wake, System, step, run, get_elem?,
  some, move, note_emptied,
}
use os_dns_resolver.Array.System.Rules.{step-some}
use os_dns_resolver.Schedules.{Has}
use os_dns_resolver.Schedules

-- A thread goes on, or its wait returns.
pub data Turn : Type 0 where
  goes_on : ℕ → Turn
  wakes : ℕ → Wait → Turn

-- The waits of thread `j` end by their timeout alone.
abbrev pub turn : ℕ → Turn → ℕ × Action
turn j (goes_on i) = (i, proceed)
turn j (wakes i r) = (i, wake (if i == j then timed_out else r))

abbrev pub turn_step : ℕ → ℕ → System → Turn → System
turn_step size j s c = let (i, act) = turn j c in step size s i act

-- Each thread has a turn to go on, and its wait, if it waits, runs out.
pub record IsFullRound (n : ℕ) (cs : List Turn) : Type 0 where
  pub going : (i : ℕ) → i < n → Has cs (goes_on i)
  pub waking : (i : ℕ) → i < n → Has cs (wakes i timed_out)

-- How much of its call a thread has still before it.
abbrev pub weight : Pc → ℕ
weight idle = 0
weight (put_called x) = 2
weight (put_waiting x) = 1
weight get_called = 4
weight get_waiting = 3
weight (get_leaving x) = 1
weight free_called = 5
weight free_draining = 3
weight free_waiting = 2
weight free_leaving = 1

abbrev pub bit : Bool → ℕ
bit true = 1
bit false = 0

abbrev pub work : System → ℕ
work s = total weight s.pcs + bit s.emptied

abbrev pub in_put : Pc → ℕ
in_put (put_called x) = 1
in_put (put_waiting x) = 1
in_put p = 0

abbrev pub in_free : Pc → ℕ
in_free free_called = 1
in_free free_draining = 1
in_free free_waiting = 1
in_free free_leaving = 1
in_free p = 0

-- In array_get, with no item taken out as yet.
abbrev pub wanting : Pc → ℕ
wanting get_called = 1
wanting get_waiting = 1
wanting p = 0

abbrev pub at_free_called : Pc → ℕ
at_free_called free_called = 1
at_free_called p = 0

abbrev pub at_free_leaving : Pc → ℕ
at_free_leaving free_leaving = 1
at_free_leaving p = 0

pub turn-timeout : (j i : ℕ) → turn j (wakes i timed_out) ≡ (i, wake timed_out)
turn-timeout j i = ground arith

-- The turns as actions of the threads.
pub run-turns :
    (size j : ℕ) (s : System) (cs : List Turn)
    → run size s (map (turn j) cs) ≡ Schedules.run (turn_step size j) s cs
unfolding run Schedules.run
run-turns size j s [] = refl
run-turns size j s (c ∷ cs) = run-turns size j (turn_step size j s c) cs

-- A step that changes nothing takes no work away from its thread.
pub step-same :
    (size : ℕ) (s : System) (i : ℕ) (act : Action) (p : Pc)
    → s.faulted ≡ false
    → get_elem? s.pcs i ≡ some p
    → step size s i act ≡ s
    → let out = move size s.mem p act in
      weight out.1 + bit (note_emptied out.1 out.3 s.emptied) ≡ weight p + bit s.emptied
step-same size s i act p running e same = omega (
  arith,
  ap work (sym (step-some size s i act p running e) ∙ same),
  total-set weight s.pcs i (move size s.mem p act).1 e,
)

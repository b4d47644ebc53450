-- ===== src/Array/System/Drained.antt =====
-- What array_free waits for.
use os_dns_resolver.Base.{
  ◌⊎◌, inl, ◌||◌, ℕ, ◌≡◌, ◌∙◌, sym, Bool, true, false, some, List, [], ◌∷◌, arith, All,
  All-get_elem?, All-set, All-map, get_elem?, length, zero, suc, replicate, ◌<◌, append-nil, ◌++◌,
  ap,
}
use os_dns_resolver.Array.{
  Item, Array, woken, timed_out, Notify, is_empty, put_enter, put_wake, get_begin, get_enter,
  get_wake, get_leave, free_enter, free_drain_wake, free_getters_wake, free_destroy, array_init,
}
use os_dns_resolver.Array.Refine.{contents-empty}
use os_dns_resolver.Array.System.{
  Pc, idle, put_called, free_called, free_draining, free_waiting, free_leaving, Action, call_put,
  proceed, wake, Outcome, move, System, init, record_outcome, step, Schedule, run, signals_emptied,
  note_emptied,
}
use os_dns_resolver.Array.System.Rules.{step_rule}
use os_dns_resolver.Array.System.Invariant.{Inv, init-Inv, run-Inv}
use os_dns_resolver.Array.System.Shutdown.{IsQuiet, move-IsQuiet}

abbrev is_draining : Pc → Bool
is_draining free_draining = true
is_draining p = false

-- Behind the first loop of array_free, and not yet through with its end.
abbrev pub is_past_drain : Pc → Bool
is_past_drain free_waiting = true
is_past_drain free_leaving = true
is_past_drain p = false

abbrev is_wakeup : Action → Bool
is_wakeup (wake woken) = true
is_wakeup act = false

-- No wait for array_emptied returns 0 unless that condition has been signalled since it began.
abbrev pub Honest : ℕ → System → Schedule → Type 0
Honest size s [] = Unit
Honest size s ((i, act) ∷ rest) =
    ((p : Pc)
      → get_elem? s.pcs i ≡ some p
      → is_draining p ≡ true
      → is_wakeup act ≡ true
      → s.emptied ≡ true)
    × Honest size (step size s i act) rest

-- A thread in array_free has shut the array down; past the first loop it has seen it empty.
record IsStaged (a : Array) (emptied : Bool) (p : Pc) : Type 0 where
  closed : is_draining p || is_past_drain p ≡ true → a.shutdown ≡ true
  prompt : is_draining p ≡ true → emptied ≡ true → is_empty a ≡ true
  seen : is_past_drain p ≡ true → is_empty a ≡ true

record IsDraining (s : System) : Type 0 where
  staged : All (IsStaged s.mem s.emptied) s.pcs
  ended : s.mem.destroyed ≡ true → (s.mem.shutdown ≡ true) × (is_empty s.mem ≡ true)

-- The thread that moves.
move-IsStaged :
    (size : ℕ) (a : Array) (emptied : Bool) (p : Pc) (act : Action)
    → (is_draining p ≡ true → is_wakeup act ≡ true → emptied ≡ true)
    → IsStaged a emptied p
    → let (b, q, ev, ns) = move size a p act in IsStaged b (note_emptied q ns emptied) q
unfolding move put_enter put_wake get_begin get_enter get_wake get_leave free_enter free_drain_wake
    free_getters_wake free_destroy
move-IsStaged size a emptied idle (call_put x) k h = ground arith
move-IsStaged size a emptied (put_called x) proceed k h = ground arith
move-IsStaged size a emptied free_called proceed k h = ground arith
move-IsStaged size a emptied free_draining (wake woken) k h = ground arith
move-IsStaged size a emptied free_draining (wake timed_out) k h = ground arith
move-IsStaged size a emptied free_waiting (wake r) k h = ground arith
move-IsStaged size a emptied free_leaving proceed k h = ground arith
move-IsStaged size a emptied p act k h = ground arith

-- The threads that do not move: what they have seen stays so.
keep-IsStaged :
    (a b : Array) (was now : Bool)
    → (a.shutdown ≡ true → b.shutdown ≡ true)
    → (a.shutdown ≡ true → is_empty a ≡ true → is_empty b ≡ true)
    → (a.shutdown ≡ true → now ≡ true → (was ≡ true) ⊎ (is_empty b ≡ true))
    → (p : Pc) → IsStaged a was p
    → IsStaged b now p
keep-IsStaged a b was now closed stays note p h = ground arith

note_emptied-true :
    (p : Pc) (ns : List Notify) (was : Bool)
    → note_emptied p ns was ≡ true
    → (was ≡ true) ⊎ (signals_emptied ns ≡ true)
note_emptied-true p [] was h = inl h
note_emptied-true p (n ∷ ns) was h = ground arith

-- Only the end of array_free destroys the array.
move-destroyed :
    (size : ℕ) (a : Array) (p : Pc) (act : Action)
    → (move size a p act).0.destroyed ≡ true
    → (a.destroyed ≡ true) ⊎ (is_past_drain p ≡ true)
unfolding move put_enter put_wake get_begin get_enter get_wake get_leave free_enter free_drain_wake
    free_getters_wake free_destroy
move-destroyed size a idle (call_put x) h = ground arith
move-destroyed size a free_leaving proceed h = ground arith
move-destroyed size a p act h = ground arith

module _ (size : ℕ) (s : System) (i : ℕ) (act : Action) (d : IsDraining s) (p : Pc) where
  abbrev out : Outcome
  out = move size s.mem p act

  abbrev now : Bool
  now = note_emptied out.1 out.3 s.emptied

  quiet : s.mem.shutdown ≡ true → IsQuiet s.mem s.accepted out
  quiet = move-IsQuiet size s.mem s.accepted p act

  others-IsStaged : All (IsStaged out.0 now) s.pcs
  others-IsStaged =
      All-map (IsStaged s.mem s.emptied) (IsStaged out.0 now) s.pcs
        (keep-IsStaged s.mem out.0 s.emptied now (λ c. (quiet c).closed)
          (λ c. (quiet c).stays_empty)
          (λ c. ground (arith, quiet c, note_emptied-true out.1 out.3 s.emptied)))
        d.staged

  out-ended :
      IsStaged s.mem s.emptied p
      → out.0.destroyed ≡ true
      → (out.0.shutdown ≡ true) × (is_empty out.0 ≡ true)
  out-ended mine h = ground (arith, move-destroyed size s.mem p act h, quiet, d.ended)

  record_outcome-IsDraining :
      get_elem? s.pcs i ≡ some p
      → (is_draining p ≡ true → is_wakeup act ≡ true → s.emptied ≡ true)
      → IsDraining (record_outcome s i out)
  record_outcome-IsDraining e honest =
      let mine = All-get_elem? (IsStaged s.mem s.emptied) s.pcs i d.staged e in
      record {
        staged =
            All-set (IsStaged out.0 now) s.pcs i out.1 others-IsStaged
              (move-IsStaged size s.mem s.emptied p act honest mine);
        ended = out-ended mine;
      }

run-IsDraining :
    (size : ℕ) (s : System) (sched : Schedule)
    → Honest size s sched
    → IsDraining s
    → IsDraining (run size s sched)
unfolding run
run-IsDraining size s [] h d = d
run-IsDraining size s ((i, act) ∷ rest) h d = run-IsDraining size (step size s i act) rest h.1 (
    step_rule size IsDraining s i act d
      (λ p e f. record_outcome-IsDraining size s i act d p e (h.0 p e)))

init-IsDraining : (store : List Item) (n : ℕ) → IsDraining (init store n)
unfolding array_init
init-IsDraining store n = record { staged = idle_threads n; ended = λ h. cc }
  where
    idle_threads : (n : ℕ) → All (IsStaged (array_init store) false) (replicate n idle)
    idle_threads zero = tt
    idle_threads (suc n) = (ground arith, idle_threads n)

-- If no wait for array_emptied returns 0 without a signal, array_free leaves its first loop, and
-- destroys the array, only when each item that array_put accepted has been taken out.
pub run-drained :
    (store : List Item) (n : ℕ) (sched : Schedule)
    → 0 < length store
    → Honest (length store) (init store n) sched
    → let s = run (length store) (init store n) sched in
      ((i : ℕ) (p : Pc)
        → get_elem? s.pcs i ≡ some p
        → is_past_drain p ≡ true
        → s.delivered ≡ s.accepted)
      × (s.mem.destroyed ≡ true → s.delivered ≡ s.accepted)
run-drained store n sched h honest = (
  λ i p e past.
      nothing_left ((All-get_elem? (IsStaged s.mem s.emptied) s.pcs i d.staged e).seen past),
  λ gone. nothing_left (d.ended gone).1,
)
  where
    s : System
    s = run (length store) (init store n) sched

    v : Inv (length store) s
    v = run-Inv (init store n) sched (init-Inv store n h)

    d : IsDraining s
    d = run-IsDraining (length store) (init store n) sched honest (init-IsDraining store n)

    nothing_left : is_empty s.mem ≡ true → s.delivered ≡ s.accepted
    nothing_left e = sym (
        v.history
        ∙ ap (λ held. s.delivered ++ held) (contents-empty v.valid e)
        ∙ append-nil s.delivered)

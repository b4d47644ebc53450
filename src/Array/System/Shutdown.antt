-- ===== src/Array/System/Shutdown.antt =====
-- The shutdown flag along a run.
use os_dns_resolver.Base.{◌∙◌, ℕ, ◌≡◌, refl, true, List, arith}
use os_dns_resolver.Array.{
  Item, Array, is_empty, put_enter, put_wake, get_begin, get_enter, get_wake, get_leave, free_enter,
  free_drain_wake, free_getters_wake, free_destroy,
}
use os_dns_resolver.Array.System.{
  System, step, Schedule, run, Pc, idle, put_called, put_waiting, Action, call_put, call_get,
  proceed, wake, Outcome, move, accept, signals_emptied,
}
use os_dns_resolver.Array.System.Rules.{step_rule, run_rule}

-- What a step does to an array that is shut down, and to the items accepted so far.
pub record IsQuiet (a : Array) (xs : List Item) (out : Outcome) : Type 0 where
  pub closed : out.0.shutdown ≡ true
  pub refuses : accept out.2 xs ≡ xs
  pub stays_empty : is_empty a ≡ true → is_empty out.0 ≡ true
  pub empties : signals_emptied out.3 ≡ true → is_empty out.0 ≡ true

pub move-IsQuiet :
    (size : ℕ) (a : Array) (xs : List Item) (p : Pc) (act : Action)
    → a.shutdown ≡ true
    → IsQuiet a xs (move size a p act)
unfolding move put_enter put_wake get_begin get_enter get_wake get_leave free_enter free_drain_wake
    free_getters_wake free_destroy
move-IsQuiet size a xs idle (call_put x) h = ground arith
move-IsQuiet size a xs idle call_get h = ground arith
move-IsQuiet size a xs (put_called x) proceed h = ground arith
move-IsQuiet size a xs (put_waiting x) (wake r) h = ground arith
move-IsQuiet size a xs p act h = ground arith

-- Once the shutdown flag is set, it stays set, and no interleaving of calls makes array_put accept
-- another item.
pub run-refuses :
    (size : ℕ) (s : System) (sched : Schedule)
    → s.mem.shutdown ≡ true
    → let t = run size s sched in (t.mem.shutdown ≡ true) × (t.accepted ≡ s.accepted)
run-refuses size s sched h =
    run_rule size (λ t. (t.mem.shutdown ≡ true) × (t.accepted ≡ s.accepted)) keep s sched (h, refl)
  where
    keep :
        (t : System) (i : ℕ) (act : Action)
        → (t.mem.shutdown ≡ true) × (t.accepted ≡ s.accepted)
        → ((step size t i act).mem.shutdown ≡ true) × ((step size t i act).accepted ≡ s.accepted)
    keep t i act k =
        step_rule size (λ u. (u.mem.shutdown ≡ true) × (u.accepted ≡ s.accepted)) t i act k
          (λ p e f. ((quiet p).closed, (quiet p).refuses ∙ k.1))
      where
        quiet : (p : Pc) → IsQuiet t.mem t.accepted (move size t.mem p act)
        quiet p = move-IsQuiet size t.mem t.accepted p act k.0

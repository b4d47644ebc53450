-- ===== src/Array/System/Moves.antt =====
-- What one step of a thread does to the array, the counter of getters and the history.
use os_dns_resolver.Base.{ℕ, ◌+◌, ◌≤◌, ◌<◌, ◌≡◌, true, List, [], ◌∷◌, arith}
use os_dns_resolver.Array.{
  Item, Array, Wait, put_enter, put_wake, get_begin, get_enter, get_wake, get_leave, free_enter,
  free_drain_wake, free_getters_wake, free_destroy,
}
use os_dns_resolver.Array.Window.{contents}
use os_dns_resolver.Array.Valid.{
  IsValid, put_enter-IsValid, put_wake-IsValid, get_begin-IsValid, get_leave-IsValid,
  get_enter-IsValid, get_wake-IsValid, free_enter-IsValid, free_drain_wake-IsValid,
  free_getters_wake-IsValid, free_destroy-IsValid,
}
use os_dns_resolver.Array.Refine.{contents-put_add, contents-get_take}
use os_dns_resolver.Array.System.{
  Pc, idle, put_called, put_waiting, get_called, get_waiting, get_leaving, free_called,
  free_draining, free_waiting, free_leaving, Action, call_put, call_get, proceed, wake, Event,
  silent, delivers, Outcome, put_outcome, get_outcome, free_outcome, move, accept,
}

-- 1 for a thread that array_get counts as active.
abbrev pub in_get : Pc → ℕ
in_get get_called = 1
in_get get_waiting = 1
in_get (get_leaving x) = 1
in_get p = 0

-- The items before a delivery, given those after it.
abbrev pub undeliver : Event → List Item → List Item
undeliver (delivers x) xs = x ∷ xs
undeliver ev xs = xs

-- A step keeps the invariant and accounts for the items and for the active getters.
pub record IsSound (size : ℕ) (a : Array) (p : Pc) (out : Outcome) : Type 0 where
  pub valid : IsValid size out.0
  pub items : accept out.2 (contents size a) ≡ undeliver out.2 (contents size out.0)
  pub counted : out.0.active_getters + in_get p ≡ a.active_getters + in_get out.1
  pub closed : a.shutdown ≡ true → out.0.shutdown ≡ true

module _ {size : ℕ} {a : Array} (v : IsValid size a) where
  put_enter-IsSound :
      (x : Item) → IsSound size a (put_called x) (put_outcome x (put_enter size a x))
  unfolding put_enter
  put_enter-IsSound x = ground (arith, put_enter-IsValid v x, contents-put_add v x)

  put_wake-IsSound : (x : Item) → IsSound size a (put_waiting x) (put_outcome x (put_wake size a x))
  unfolding put_wake
  put_wake-IsSound x = ground (arith, put_wake-IsValid v x, contents-put_add v x)

  module _ (counting : 0 < a.active_getters) where
    get_enter-IsSound : IsSound size a get_called (get_outcome (get_enter size a))
    unfolding get_enter
    get_enter-IsSound = ground (arith, get_enter-IsValid v, contents-get_take v)

    get_wake-IsSound : IsSound size a get_waiting (get_outcome (get_wake size a))
    unfolding get_wake
    get_wake-IsSound = ground (arith, get_wake-IsValid v, contents-get_take v)

  free_enter-IsSound : IsSound size a free_called (free_outcome (free_enter a))
  unfolding free_enter
  free_enter-IsSound = ground (arith, free_enter-IsValid v)

  free_drain_wake-IsSound :
      (r : Wait) → IsSound size a free_draining (free_outcome (free_drain_wake a r))
  unfolding free_drain_wake
  free_drain_wake-IsSound r = ground (arith, free_drain_wake-IsValid v r)

  free_getters_wake-IsSound :
      (r : Wait) → IsSound size a free_waiting (free_outcome (free_getters_wake a r))
  unfolding free_getters_wake
  free_getters_wake-IsSound r = ground (arith, free_getters_wake-IsValid v r)

  get_begin-IsSound : IsSound size a idle (get_begin a, get_called, silent, [])
  unfolding get_begin
  get_begin-IsSound = ground (arith, get_begin-IsValid v)

  get_leave-IsSound :
      (x : Item)
      → 0 < a.active_getters
      → IsSound size a (get_leaving x) (get_leave a, idle, silent, [])
  unfolding get_leave
  get_leave-IsSound x h = ground (arith, get_leave-IsValid v)

  free_destroy-IsSound : IsSound size a free_leaving (free_destroy a, idle, silent, [])
  unfolding free_destroy
  free_destroy-IsSound = ground (arith, free_destroy-IsValid v)

  pub move-IsSound :
      (p : Pc) (act : Action) → in_get p ≤ a.active_getters → IsSound size a p (move size a p act)
  unfolding move
  move-IsSound idle (call_put x) h = ground arith
  move-IsSound idle call_get h = get_begin-IsSound
  move-IsSound (put_called x) proceed h = ground (arith, put_enter-IsSound x)
  move-IsSound (put_waiting x) (wake r) h = ground (arith, put_wake-IsSound x)
  move-IsSound get_called proceed h = ground (arith, get_enter-IsSound h)
  move-IsSound get_waiting (wake r) h = ground (arith, get_wake-IsSound h)
  move-IsSound (get_leaving x) proceed h = get_leave-IsSound x h
  move-IsSound free_called proceed h = ground (arith, free_enter-IsSound)
  move-IsSound free_draining (wake r) h = ground (arith, free_drain_wake-IsSound r)
  move-IsSound free_waiting (wake r) h = ground (arith, free_getters_wake-IsSound r)
  move-IsSound free_leaving proceed h = free_destroy-IsSound
  move-IsSound p act h = ground arith

-- ===== src/Array/System/Closing/Moves.antt =====
-- One turn of a thread while one thread is in array_free.
use os_dns_resolver.Base.{ℕ, ◌+◌, ◌≤◌, ◌<◌, ◌≡◌, ◌⊎◌, Bool, true, false, arith, length}
use os_dns_resolver.Array.{
  Array, woken, timed_out, is_empty, put_enter, put_wake, get_begin, get_enter, get_wake, get_leave,
  free_enter, free_drain_wake, free_getters_wake, free_destroy,
}
use os_dns_resolver.Array.Window.{contents}
use os_dns_resolver.Array.Valid.{IsValid}
use os_dns_resolver.Array.Refine.{contents-empty, contents-get_take}
use os_dns_resolver.Array.System.{
  Pc, idle, get_called, get_waiting, get_leaving, free_called, free_draining, free_waiting,
  free_leaving, Action, proceed, wake, Outcome, move, silent, is_fault, note_emptied,
}
use os_dns_resolver.Array.System.Moves.{in_get, move-IsSound}
use os_dns_resolver.Array.System.Closing.{
  weight, bit, in_put, in_free, wanting, at_free_called, at_free_leaving,
}

-- What a thread may be let do: no call, and no end of a wait in array_free but by the timeout.
abbrev pub is_turn : Pc → Action → Bool
is_turn p proceed = true
is_turn free_draining (wake woken) = false
is_turn free_waiting (wake woken) = false
is_turn p (wake r) = true
is_turn p act = false

abbrev pub IsTurn : Pc → Action → Type 0
IsTurn p act = is_turn p act ≡ true

-- What a turn does to the numbers, for a thread outside array_put.
pub record IsTurned (size : ℕ) (a : Array) (emptied : Bool) (p : Pc) (out : Outcome) : Type 0 where
  pub puts : in_put out.1 ≡ 0
  pub frees : in_free out.1 + bit out.0.destroyed ≡ in_free p + bit a.destroyed
  pub stays : in_free out.1 ≤ in_free p
  pub shuts :
      out.0.shutdown ≡ false → (a.shutdown ≡ false) × (at_free_called out.1 ≡ at_free_called p)
  pub gets : out.0.active_getters ≤ a.active_getters
  pub leaves :
      (out.0.active_getters ≡ 0)
      ⊎ (at_free_leaving out.1 + bit out.0.destroyed ≤ at_free_leaving p + bit a.destroyed)
  pub moved :
      ((out.0 ≡ a) × (out.1 ≡ p) × (out.2 ≡ silent) × (note_emptied out.1 out.3 emptied ≡ emptied))
      ⊎ (weight out.1 + bit (note_emptied out.1 out.3 emptied) < weight p + bit emptied)
  pub faultless : is_fault out.2 ≡ false

-- The thread that moves is not inside a call on a destroyed array.
pub move-IsTurned :
    (size : ℕ) (a : Array) (emptied : Bool) (p : Pc) (act : Action)
    → IsTurn p act
    → in_put p ≡ 0
    → in_get p ≤ a.active_getters
    → (a.destroyed ≡ true → weight p ≡ 0)
    → IsTurned size a emptied p (move size a p act)
unfolding move put_enter put_wake get_begin get_enter get_wake get_leave free_enter free_drain_wake
    free_getters_wake free_destroy
move-IsTurned size a emptied get_called proceed t h g d = ground arith
move-IsTurned size a emptied get_waiting (wake r) t h g d = ground arith
move-IsTurned size a emptied (get_leaving x) proceed t h g d = ground arith
move-IsTurned size a emptied free_called proceed t h g d = ground arith
move-IsTurned size a emptied free_draining (wake timed_out) t h g d = ground arith
move-IsTurned size a emptied free_waiting (wake timed_out) t h g d = ground arith
move-IsTurned size a emptied free_leaving proceed t h g d = ground arith
move-IsTurned size a emptied p act t h g d = ground arith

-- The items that are left when a thread takes one out, or learns of the shutdown.
pub move-wanting :
    {size : ℕ} {a : Array}
    → IsValid size a
    → (p : Pc) (act : Action) → IsTurn p act
    → in_put p ≡ 0
    → in_get p ≤ a.active_getters
    → let out = move size a p act in
      (length (contents size out.0) ≡ 0)
      ⊎ (length (contents size out.0) + wanting p ≤ length (contents size a) + wanting out.1)
unfolding move put_enter put_wake get_begin get_enter get_wake get_leave free_enter free_drain_wake
    free_getters_wake free_destroy
move-wanting {size} {a} v get_called proceed t h g =
    ground (arith, contents-get_take v, contents-empty v, move-IsSound v get_called proceed g)
move-wanting {size} {a} v get_waiting (wake r) t h g =
    ground (arith, contents-get_take v, contents-empty v)
move-wanting v p act t h g = ground arith

-- Where a turn to go on and a timeout leave a thread as it is.
pub record IsResting (a : Array) (p : Pc) : Type 0 where
  pub not_leaving : in_get p ≡ wanting p
  pub blocked : a.shutdown ≡ true → wanting p ≡ 0
  pub entered : at_free_called p ≡ 0
  pub left : at_free_leaving p ≡ 0
  pub over : is_empty a ≡ true → a.active_getters ≡ 0 → wanting p ≡ 0 → weight p ≡ 0

pub move-rests :
    (size : ℕ) (a : Array) (emptied : Bool) (p : Pc)
    → in_put p ≡ 0
    → (a.destroyed ≡ true → weight p ≡ 0)
    → (let out = move size a p proceed in
        weight out.1 + bit (note_emptied out.1 out.3 emptied) ≡ weight p + bit emptied)
    → (let out = move size a p (wake timed_out) in
        weight out.1 + bit (note_emptied out.1 out.3 emptied) ≡ weight p + bit emptied)
    → IsResting a p
unfolding move put_enter put_wake get_begin get_enter get_wake get_leave free_enter free_drain_wake
    free_getters_wake free_destroy
move-rests size a emptied idle h d e f = ground arith
move-rests size a emptied get_called h d e f = ground arith
move-rests size a emptied get_waiting h d e f = ground arith
move-rests size a emptied (get_leaving x) h d e f = ground arith
move-rests size a emptied free_called h d e f = ground arith
move-rests size a emptied free_draining h d e f = ground arith
move-rests size a emptied free_waiting h d e f = ground arith
move-rests size a emptied free_leaving h d e f = ground arith
move-rests size a emptied p h d e f = ground arith

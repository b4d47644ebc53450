-- ===== src/Array.antt =====
-- turnin/array.h and turnin/array.c (and array.h, array.c, which differ in ARRAY_SIZE and in
-- `get_timeout` alone): the circular queue of strings that all threads share.
--
-- A call of array_put, array_get or array_free is a row of stretches, each run under the lock from
-- its acquisition (at the call, or when a timed wait returns) to its release (at the return, or
-- when a timed wait begins). A function below is one stretch: it returns the new array, whether
-- the call now blocks or returns, and the condition variables that it notifies.
-- The atomic counter of getters also changes outside the lock: `get_begin`, `get_leave`.
mod Window
pub mod Valid
pub mod Refine
pub mod System
pub mod Locked
mod Samples
mod Tests
use os_dns_resolver.Strings.{Text}
use os_dns_resolver.Base.{
  ℕ, ◌+◌, ◌-◌, ◌%◌, Bool, true, false, not, ◌&&◌, ◌||◌, Option, none, List, [], ◌∷◌, get_or, set,
  ltb, ◌==◌, if◌then◌else◌,
}

-- A `char *`: `none` is NULL.
abbrev pub Item : Type 0
Item = Option Text

-- The typedef `array`. `destroyed` tells whether the lock and the condition variables have been
-- destroyed; their own state is that of the threads which hold them or wait (`System`).
pub record Array : Type 0 where
  pub store : List Item
  pub head : ℕ
  pub tail : ℕ
  pub shutdown : Bool
  pub active_getters : ℕ
  pub destroyed : Bool

-- The return codes ARRAY_SUCCESS and ARRAY_SHUTDOWN.
pub data Code : Type 0 where
  array_success array_shutdown : Code

pub data Cond : Type 0 where
  not_empty not_full all_getters_done array_emptied : Cond

pub data Notify : Type 0 where
  signal : Cond → Notify
  broadcast : Cond → Notify

-- What pthread_cond_timedwait returned: 0, or ETIMEDOUT.
pub data Wait : Type 0 where
  woken timed_out : Wait

-- How a stretch of array_put, array_get and array_free ends.
pub data PutEnd : Type 0 where
  put_blocks : PutEnd
  put_returns : Code → PutEnd

pub data GetEnd : Type 0 where
  get_blocks : GetEnd
  -- ARRAY_SHUTDOWN, with NULL in `*storeString`
  get_shutdown : GetEnd
  -- ARRAY_SUCCESS, with the item in `*storeString`; the counter is still to be decremented
  get_found : Item → GetEnd

pub data FreeEnd : Type 0 where
  -- in the wait for array_emptied
  free_drains : FreeEnd
  -- in the wait for all_getters_done
  free_waits : FreeEnd
  -- unlocked, before the synchronization objects are destroyed
  free_unlocked : FreeEnd

-- array_init does not write `storeString`: the storage keeps what it held.
pub array_init : List Item → Array
array_init store = record {
  store = store;
  head = 0;
  tail = 0;
  shutdown = false;
  active_getters = 0;
  destroyed = false;
}

abbrev pub is_empty : Array → Bool
is_empty a = a.head == a.tail

-- `size` is ARRAY_SIZE: 256 in turnin/array.h, 8 in array.h.
module _ (size : ℕ) where
  abbrev pub next : ℕ → ℕ
  next i = (i + 1) % size

  abbrev pub is_full : Array → Bool
  is_full a = next a.tail == a.head

  -- The write of an item behind the tail.
  pub put_add : Array → Item → Array
  put_add a x = record a { store = set a.store a.tail x; tail = next a.tail }

  -- From the test of the loop `while (!s->shutdown && full)` on.
  pub put_loop : Array → Item → Array × PutEnd × List Notify
  unfolding put_add
  put_loop a x =
      if not a.shutdown && is_full a
      then (a, put_blocks, [])
      else (put_add a x, put_returns array_success, signal not_empty ∷ [])

  -- array_put from its call on.
  pub put_enter : Array → Item → Array × PutEnd × List Notify
  unfolding put_loop
  put_enter a x = if a.shutdown then (a, put_returns array_shutdown, []) else put_loop a x

  -- array_put from the return of its timed wait on: its result is not looked at.
  pub put_wake : Array → Item → Array × PutEnd × List Notify
  unfolding put_loop
  put_wake a x = if a.shutdown then (a, put_returns array_shutdown, []) else put_loop a x

  -- The read of an item at the head.
  pub get_take : Array → Array × GetEnd × List Notify
  get_take a =
      let b = record a { head = next a.head } in
      (
        b,
        get_found (get_or a.store a.head none),
        if is_empty b then signal array_emptied ∷ signal not_full ∷ [] else signal not_full ∷ [],
      )

-- atomic_fetch_add, before the lock is taken.
pub get_begin : Array → Array
get_begin a = record a { active_getters = a.active_getters + 1 }

-- atomic_fetch_sub, after the lock is released.
pub get_leave : Array → Array
get_leave a = record a { active_getters = a.active_getters - 1 }

-- The return of ARRAY_SHUTDOWN: the last getter signals.
pub get_stop : Array → Array × GetEnd × List Notify
get_stop a =
    let b = record a { active_getters = a.active_getters - 1 } in
    (b, get_shutdown, if b.active_getters == 0 then signal all_getters_done ∷ [] else [])

module _ (size : ℕ) where
  -- array_get from the test of its loop on.
  pub get_loop : Array → Array × GetEnd × List Notify
  unfolding get_stop get_take
  get_loop a =
      if not a.shutdown && is_empty a
      then (a, get_blocks, [])
      else (if a.shutdown && is_empty a then get_stop a else get_take size a)

  -- array_get from the lock on.
  pub get_enter : Array → Array × GetEnd × List Notify
  unfolding get_loop
  get_enter a = get_loop a

  -- array_get from the return of its timed wait on.
  pub get_wake : Array → Array × GetEnd × List Notify
  unfolding get_loop get_stop
  get_wake a = if a.shutdown && is_empty a then get_stop a else get_loop a

-- The second loop of array_free, from its test on.
pub free_getters : Array → Array × FreeEnd × List Notify
free_getters a = (a, if ltb 0 a.active_getters then free_waits else free_unlocked, [])

-- array_free from the broadcasts behind the first loop on.
pub free_rest : Array → Array × FreeEnd × List Notify
unfolding free_getters
free_rest a =
    let (b, end, more) = free_getters a in (b, end, broadcast not_empty ∷ broadcast not_full ∷ more)

-- The first loop of array_free, from its test on.
pub free_drain : Array → Array × FreeEnd × List Notify
unfolding free_rest
free_drain a =
    if not (is_empty a)
    then (a, free_drains, broadcast not_empty ∷ broadcast not_full ∷ [])
    else free_rest a

-- array_free from its call on.
pub free_enter : Array → Array × FreeEnd × List Notify
unfolding free_drain free_rest
free_enter a =
    let b = record a { shutdown = true } in if not (is_empty b) then free_drain b else free_rest b

-- `result == 0`
abbrev pub is_woken : Wait → Bool
is_woken woken = true
is_woken timed_out = false

-- array_free from the return of the wait for array_emptied on.
pub free_drain_wake : Array → Wait → Array × FreeEnd × List Notify
unfolding free_drain free_rest
free_drain_wake a result = if is_woken result || is_empty a then free_rest a else free_drain a

-- array_free from the return of the wait for all_getters_done on.
pub free_getters_wake : Array → Wait → Array × FreeEnd × List Notify
unfolding free_getters
free_getters_wake a result = if is_woken result then (a, free_unlocked, []) else free_getters a

-- The end of array_free, behind the unlock.
pub free_destroy : Array → Array
free_destroy a = record a { destroyed = true }

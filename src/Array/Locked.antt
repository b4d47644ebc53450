-- ===== src/Array/Locked.antt =====
-- array.c statement by statement (turnin/array.c has the same text): threads that call array_put,
-- array_get and array_free of one array, with its lock. Any thread may run between any two statements
-- of another; a thread that finds the lock taken waits for it.
--
-- pthread_mutex_lock and the return of pthread_cond_timedwait take the lock, pthread_mutex_unlock and
-- the wait release it. When a wait ends, and with what, is the choice of the environment, and so the
-- notifications have no effect here. To take a destroyed lock, or to destroy a lock that is taken, is
-- undefined behaviour: a fault, which stops the system.
pub mod Links
pub mod Moves
pub mod Others
pub mod Simulation
pub mod Follows
pub mod Atomic
pub mod Release
pub mod Interrupted
mod Tests
use os_dns_resolver.Base.{
  ℕ, ◌+◌, ◌-◌, Bool, true, false, not, ◌&&◌, ◌||◌, Option, none, some, List, [], ◌∷◌, get_elem?,
  get_or, set, ltb, ◌==◌, if◌then◌else◌, replicate,
}
use os_dns_resolver.Array.{
  Item, Array, Code, array_success, array_shutdown, Wait, woken, array_init, is_empty, is_full,
  is_woken, next,
}
use os_dns_resolver.Array.System.{
  Action, call_put, call_get, call_free, proceed, wake, Event, silent, accepts, delivers, accept,
  deliver,
}

-- The statement that a thread comes to next.
pub data Place : Type 0 where
  outside : Place
  -- array_put: the lock (30), the test of the flag (33), the loop's test (39), the wait (43), the test
  -- behind it (46), the two writes (53, 54), the signal (57), and the unlock (34, 47, 59)
  put_lock : Item → Place
  put_check : Item → Place
  put_test : Item → Place
  put_wait : Item → Place
  put_recheck : Item → Place
  put_store : Item → Place
  put_advance : Item → Place
  put_signal : Place
  put_unlock : Code → Place
  -- array_get: the increment (66), the lock (68), the loop's test (71), the wait (75), the test behind
  -- it (78), the test behind the loop (93), the decrement (79, 94) and what follows (82, 96), the
  -- unlock (86, 100)
  get_add : Place
  get_lock : Place
  get_test : Place
  get_wait : Place
  get_recheck : Place
  get_final : Place
  get_sub : Place
  get_last : ℕ → Place
  get_unlock_null : Place
  -- the read (106), the write (107), the two signals (110, 115), the unlock (117), the decrement (120)
  get_read : Place
  get_advance : Item → Place
  get_emptied : Item → Place
  get_not_full : Item → Place
  get_unlock : Item → Place
  get_leave : Item → Place
  -- array_free: the lock (126), the flag (129), the test (132), the loop's test (134), the broadcasts
  -- before the wait (136), the wait (144), the test of its result (145)
  free_lock : Place
  free_set : Place
  free_test : Place
  free_loop : Place
  free_broadcast : Place
  free_wait : Place
  free_result : Wait → Place
  -- the broadcasts (152), the loop's test (156), the start of the wait and the wait (161), the test of
  -- its result (162), the unlock (167), the destruction (170)
  free_wake_all : Place
  free_load : Place
  free_sleep : Place
  free_wait_getters : Place
  free_result_getters : Wait → Place
  free_unlock : Place
  free_destroy : Place

-- What a statement does with the lock.
pub data Lock : Type 0 where
  keeps takes releases destroys : Lock

-- The array, the next statement, what is done with the lock, and what is recorded.
abbrev pub Statement : Type 0
Statement = Array × Place × Lock × Event

abbrev pub goes_to : Array → Place → Statement
goes_to a p = (a, p, keeps, silent)

-- `!s->shutdown && s->head == s->tail`, and `s->shutdown && s->head == s->tail`
abbrev pub must_wait : Array → Bool
must_wait a = not a.shutdown && is_empty a

abbrev pub is_over : Array → Bool
is_over a = a.shutdown && is_empty a

-- The statement of a thread at a place. An action that does not fit the place does nothing.
pub statement : ℕ → Array → Place → Action → Statement
statement size a outside (call_put x) = goes_to a (put_lock x)
statement size a outside call_get = goes_to a get_add
statement size a outside call_free = goes_to a free_lock
statement size a (put_lock x) proceed = (a, put_check x, takes, silent)
statement size a (put_check x) proceed =
    goes_to a (if a.shutdown then put_unlock array_shutdown else put_test x)
statement size a (put_test x) proceed =
    if not a.shutdown && is_full size a
    then (a, put_wait x, releases, silent)
    else goes_to a (put_store x)
statement size a (put_wait x) (wake r) = (a, put_recheck x, takes, silent)
statement size a (put_recheck x) proceed =
    goes_to a (if a.shutdown then put_unlock array_shutdown else put_test x)
statement size a (put_store x) proceed =
    goes_to (record a { store = set a.store a.tail x }) (put_advance x)
statement size a (put_advance x) proceed =
    (record a { tail = next size a.tail }, put_signal, keeps, accepts x)
statement size a put_signal proceed = goes_to a (put_unlock array_success)
statement size a (put_unlock c) proceed = (a, outside, releases, silent)
statement size a get_add proceed =
    goes_to (record a { active_getters = a.active_getters + 1 }) get_lock
statement size a get_lock proceed = (a, get_test, takes, silent)
statement size a get_test proceed =
    if must_wait a then (a, get_wait, releases, silent) else goes_to a get_final
statement size a get_wait (wake r) = (a, get_recheck, takes, silent)
statement size a get_recheck proceed = goes_to a (if is_over a then get_sub else get_test)
statement size a get_final proceed = goes_to a (if is_over a then get_sub else get_read)
statement size a get_sub proceed =
    goes_to (record a { active_getters = a.active_getters - 1 }) (get_last (a.active_getters - 1))
statement size a (get_last remaining) proceed = goes_to a get_unlock_null
statement size a get_unlock_null proceed = (a, outside, releases, silent)
statement size a get_read proceed = goes_to a (get_advance (get_or a.store a.head none))
statement size a (get_advance x) proceed =
    (record a { head = next size a.head }, get_emptied x, keeps, delivers x)
statement size a (get_emptied x) proceed = goes_to a (get_not_full x)
statement size a (get_not_full x) proceed = goes_to a (get_unlock x)
statement size a (get_unlock x) proceed = (a, get_leave x, releases, silent)
statement size a (get_leave x) proceed =
    goes_to (record a { active_getters = a.active_getters - 1 }) outside
statement size a free_lock proceed = (a, free_set, takes, silent)
statement size a free_set proceed = goes_to (record a { shutdown = true }) free_test
statement size a free_test proceed = goes_to a (if is_empty a then free_wake_all else free_loop)
statement size a free_loop proceed =
    goes_to a (if is_empty a then free_wake_all else free_broadcast)
statement size a free_broadcast proceed = (a, free_wait, releases, silent)
statement size a free_wait (wake r) = (a, free_result r, takes, silent)
statement size a (free_result r) proceed =
    goes_to a (if is_woken r || is_empty a then free_wake_all else free_loop)
statement size a free_wake_all proceed = goes_to a free_load
statement size a free_load proceed =
    goes_to a (if ltb 0 a.active_getters then free_sleep else free_unlock)
statement size a free_sleep proceed = (a, free_wait_getters, releases, silent)
statement size a free_wait_getters (wake r) = (a, free_result_getters r, takes, silent)
statement size a (free_result_getters r) proceed =
    goes_to a (if is_woken r then free_unlock else free_load)
statement size a free_unlock proceed = (a, free_destroy, releases, silent)
statement size a free_destroy proceed = (record a { destroyed = true }, outside, destroys, silent)
statement size a p act = goes_to a p

-- The array, whether its lock is taken, the threads, and the history as in `System`: an item is
-- accepted when the tail moves behind it, and delivered when the head does.
pub record Machine : Type 0 where
  pub mem : Array
  pub held : Bool
  pub places : List Place
  pub accepted : List Item
  pub delivered : List Item
  pub faulted : Bool

abbrev pub start : List Item → ℕ → Machine
start store n = record {
  mem = array_init store;
  held = false;
  places = replicate n outside;
  accepted = [];
  delivered = [];
  faulted = false;
}

abbrev pub fault : Machine → Machine
fault m = record m { faulted = true }

abbrev pub put_outcome : Machine → ℕ → Bool → Array → Place → Event → Machine
put_outcome m i held a p ev = record {
  mem = a;
  held = held;
  places = set m.places i p;
  accepted = accept ev m.accepted;
  delivered = deliver ev m.delivered;
  faulted = false;
}

-- A thread whose statement takes the lock does nothing while the lock is taken.
abbrev pub with_lock : Machine → ℕ → Statement → Machine
with_lock m i (a, p, keeps, ev) = put_outcome m i m.held a p ev
with_lock m i (a, p, takes, ev) =
    if m.mem.destroyed then fault m else (if m.held then m else put_outcome m i true a p ev)
with_lock m i (a, p, releases, ev) = put_outcome m i false a p ev
with_lock m i (a, p, destroys, ev) = if m.held then fault m else put_outcome m i false a p ev

abbrev pub step_at : ℕ → Machine → ℕ → Action → Option Place → Machine
step_at size m i act none = m
step_at size m i act (some p) = with_lock m i (statement size m.mem p act)

-- One statement of thread `i`; after a fault nothing happens any more.
unfoldable pub step : ℕ → Machine → ℕ → Action → Machine
step size m i act = if m.faulted then m else step_at size m i act (get_elem? m.places i)

unfoldable pub run : ℕ → Machine → List (ℕ × Action) → Machine
run size m [] = m
run size m ((i, act) ∷ rest) = run size (step size m i act) rest

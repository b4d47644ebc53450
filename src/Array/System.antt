-- ===== src/Array/System.antt =====
-- Any number of threads that call array_put, array_get and array_free of one array, in any
-- interleaving. A step of a thread is a stretch under the lock (turnin/array.c:52-191), or one
-- access of the atomic counter outside it. Within a stretch the counter is accessed at most once,
-- so no finer interleaving shows other behaviour.
--
-- Nothing but the choice of the environment says when a timed wait returns and with what: a signal,
-- the timeout and a spurious wakeup may all end it. Taking the destroyed lock is undefined
-- behaviour: it is recorded as a fault, and the system stops.
pub mod Rules
pub mod Moves
pub mod Invariant
pub mod Shutdown
pub mod Drained
pub mod Destroyed
pub mod Closing
pub mod Operations
pub mod Waiting
mod Tests
use os_dns_resolver.Base.{
  ℕ, Bool, true, false, Option, none, some, List, [], ◌∷◌, ◌++◌, get_elem?, set, if◌then◌else◌,
  replicate,
}
use os_dns_resolver.Array.{
  Item, Array, Code, array_success, array_shutdown, Cond, Notify, signal, array_emptied, Wait,
  woken, PutEnd, put_blocks, put_returns, GetEnd, get_blocks, get_shutdown, get_found, FreeEnd,
  free_drains, free_waits, free_unlocked, array_init, put_enter, put_wake, get_begin, get_enter,
  get_wake, get_leave, free_enter, free_drain_wake, free_getters_wake, free_destroy,
}

-- Where a thread stands.
pub data Pc : Type 0 where
  -- outside the three functions
  idle : Pc
  -- array_put: before the lock, and in the wait for not_full
  put_called : Item → Pc
  put_waiting : Item → Pc
  -- array_get: before the lock, in the wait for not_empty, and before the last fetch_sub
  get_called : Pc
  get_waiting : Pc
  get_leaving : Item → Pc
  -- array_free: before the lock, in its two waits, and behind the unlock
  free_called : Pc
  free_draining : Pc
  free_waiting : Pc
  free_leaving : Pc

-- What the environment lets a thread do. An action that does not fit the thread does nothing.
pub data Action : Type 0 where
  call_put : Item → Action
  call_get : Action
  call_free : Action
  proceed : Action
  wake : Wait → Action

-- What the history records of a step.
pub data Event : Type 0 where
  silent : Event
  accepts : Item → Event
  delivers : Item → Event
  faults : Event

abbrev pub Outcome : Type 0
Outcome = Array × Pc × Event × List Notify

-- The lock is taken: undefined behaviour once it has been destroyed.
abbrev pub locked : Array → Pc → Outcome → Outcome
locked a p next = if a.destroyed then (a, p, faults, []) else next

abbrev pub put_outcome : Item → Array × PutEnd × List Notify → Outcome
put_outcome x (a, put_blocks, ns) = (a, put_waiting x, silent, ns)
put_outcome x (a, put_returns array_success, ns) = (a, idle, accepts x, ns)
put_outcome x (a, put_returns array_shutdown, ns) = (a, idle, silent, ns)

abbrev pub get_outcome : Array × GetEnd × List Notify → Outcome
get_outcome (a, get_blocks, ns) = (a, get_waiting, silent, ns)
get_outcome (a, get_shutdown, ns) = (a, idle, silent, ns)
get_outcome (a, get_found x, ns) = (a, get_leaving x, delivers x, ns)

abbrev pub free_outcome : Array × FreeEnd × List Notify → Outcome
free_outcome (a, free_drains, ns) = (a, free_draining, silent, ns)
free_outcome (a, free_waits, ns) = (a, free_waiting, silent, ns)
free_outcome (a, free_unlocked, ns) = (a, free_leaving, silent, ns)

-- One step of a thread at `p`.
unfoldable pub move : ℕ → Array → Pc → Action → Outcome
move size a idle (call_put x) = (a, put_called x, silent, [])
move size a idle call_get = (get_begin a, get_called, silent, [])
move size a idle call_free = (a, free_called, silent, [])
move size a (put_called x) proceed = locked a (put_called x) (put_outcome x (put_enter size a x))
move size a (put_waiting x) (wake r) = locked a (put_waiting x) (put_outcome x (put_wake size a x))
move size a get_called proceed = locked a get_called (get_outcome (get_enter size a))
move size a get_waiting (wake r) = locked a get_waiting (get_outcome (get_wake size a))
move size a (get_leaving x) proceed = (get_leave a, idle, silent, [])
move size a free_called proceed = locked a free_called (free_outcome (free_enter a))
move size a free_draining (wake r) = locked a free_draining (free_outcome (free_drain_wake a r))
move size a free_waiting (wake r) = locked a free_waiting (free_outcome (free_getters_wake a r))
move size a free_leaving proceed = (free_destroy a, idle, silent, [])
move size a p act = (a, p, silent, [])

-- The array, the threads, and the history: the items that array_put accepted and those that
-- array_get took out, in order. `emptied` tells whether array_emptied has been signalled since a
-- thread last began to wait for it.
pub record System : Type 0 where
  pub mem : Array
  pub pcs : List Pc
  pub accepted : List Item
  pub delivered : List Item
  pub emptied : Bool
  pub faulted : Bool

abbrev pub init : List Item → ℕ → System
init store n = record {
  mem = array_init store;
  pcs = replicate n idle;
  accepted = [];
  delivered = [];
  emptied = false;
  faulted = false;
}

abbrev pub accept : Event → List Item → List Item
accept (accepts x) xs = xs ++ x ∷ []
accept _ xs = xs

abbrev pub deliver : Event → List Item → List Item
deliver (delivers x) xs = xs ++ x ∷ []
deliver _ xs = xs

abbrev pub is_fault : Event → Bool
is_fault faults = true
is_fault _ = false

abbrev pub signals_emptied : List Notify → Bool
signals_emptied [] = false
signals_emptied (signal array_emptied ∷ ns) = true
signals_emptied (n ∷ ns) = signals_emptied ns

-- The flag after a step of a thread that is now at `p`. One that begins to wait for array_emptied
-- has just broadcast.
abbrev pub note_emptied : Pc → List Notify → Bool → Bool
note_emptied p [] b = b
note_emptied free_draining (n ∷ ns) b = false
note_emptied p (n ∷ ns) b = if signals_emptied (n ∷ ns) then true else b

abbrev pub record_outcome : System → ℕ → Outcome → System
record_outcome s i (a, p, ev, ns) = record {
  mem = a;
  pcs = set s.pcs i p;
  accepted = accept ev s.accepted;
  delivered = deliver ev s.delivered;
  emptied = note_emptied p ns s.emptied;
  faulted = is_fault ev;
}

abbrev pub step_at : ℕ → System → ℕ → Action → Option Pc → System
step_at size s i act none = s
step_at size s i act (some p) = record_outcome s i (move size s.mem p act)

-- A step of thread `i`; after a fault nothing happens any more.
unfoldable pub step : ℕ → System → ℕ → Action → System
step size s i act = if s.faulted then s else step_at size s i act (get_elem? s.pcs i)

abbrev pub Schedule : Type 0
Schedule = List (ℕ × Action)

unfoldable pub run : ℕ → System → Schedule → System
run size s [] = s
run size s ((i, act) ∷ rest) = run size (step size s i act) rest

-- ===== src/Array/Locked/Links.antt =====
-- How a thread among single statements stands to the same thread among whole stretches (`System`).
-- A stretch takes effect at one of its statements: the test that sends the call to its return or to
-- its wait, the write of the tail or of the head, or the access of the counter of getters.
use os_dns_resolver.Base.{
  ℕ, ◌≡◌, ◌⊎◌, Bool, true, false, Option, none, some, get_or, set, if◌then◌else◌,
}
use os_dns_resolver.Array.{Item, Array, woken, timed_out, is_empty, is_full}
use os_dns_resolver.Array.System.{
  Pc, idle, put_called, put_waiting, get_called, get_waiting, get_leaving, free_called,
  free_draining, free_waiting, free_leaving, Action, call_put, call_get, call_free, proceed, wake,
}
use os_dns_resolver.Array.Locked.{
  Place, outside, put_lock, put_check, put_test, put_wait, put_recheck, put_store, put_advance,
  put_signal, put_unlock, get_add, get_lock, get_test, get_wait, get_recheck, get_final, get_sub,
  get_last, get_unlock_null, get_read, get_advance, get_emptied, get_not_full, get_unlock,
  get_leave, free_lock, free_set, free_test, free_loop, free_broadcast, free_wait, free_result,
  free_wake_all, free_load, free_sleep, free_wait_getters, free_result_getters, free_unlock,
  free_destroy, must_wait, is_over,
}

-- Between the statement that takes the lock and the one that releases it.
abbrev pub is_critical : Place → Bool
is_critical outside = false
is_critical (put_lock x) = false
is_critical (put_wait x) = false
is_critical get_add = false
is_critical get_lock = false
is_critical get_wait = false
is_critical (get_leave x) = false
is_critical free_lock = false
is_critical free_wait = false
is_critical free_wait_getters = false
is_critical free_destroy = false
is_critical p = true

-- What the thread has written of a stretch that has not taken effect.
abbrev pub written : Place → Array → Array
written (put_advance x) a = record a { store = set a.store a.tail x }
written free_test a = record a { shutdown = true }
written free_loop a = record a { shutdown = true }
written free_broadcast a = record a { shutdown = true }
written (free_result r) a = record a { shutdown = true }
written free_wake_all a = record a { shutdown = true }
written free_load a = record a { shutdown = true }
written p a = a

-- Where a stretch may begin.
abbrev pub AtPut : Item → Pc → Type 0
AtPut x q = (q ≡ put_called x) ⊎ (q ≡ put_waiting x)

abbrev pub AtGet : Pc → Type 0
AtGet q = (q ≡ get_called) ⊎ (q ≡ get_waiting)

-- array_free behind its first stretch has set the flag.
abbrev pub AtFree : Array → Pc → Type 0
AtFree a q = (q ≡ free_called) ⊎ ((q ≡ free_draining) × (a.shutdown ≡ true))

-- The place `p` of a thread, given where it stands among whole stretches, `q`, and the array as the
-- stretches have left it: what the tests since the start of the stretch have found.
abbrev pub Linked : ℕ → Place → Pc → Array → Type 0
Linked size outside q a = q ≡ idle
Linked size (put_lock x) q a = q ≡ put_called x
Linked size (put_check x) q a = q ≡ put_called x
Linked size (put_test x) q a = AtPut x q × (a.shutdown ≡ false)
Linked size (put_wait x) q a = q ≡ put_waiting x
Linked size (put_recheck x) q a = q ≡ put_waiting x
Linked size (put_store x) q a = AtPut x q × (a.shutdown ≡ false) × (is_full size a ≡ false)
Linked size (put_advance x) q a = AtPut x q × (a.shutdown ≡ false) × (is_full size a ≡ false)
Linked size put_signal q a = q ≡ idle
Linked size (put_unlock c) q a = q ≡ idle
Linked size get_add q a = q ≡ idle
Linked size get_lock q a = q ≡ get_called
Linked size get_test q a = AtGet q
Linked size get_wait q a = q ≡ get_waiting
Linked size get_recheck q a = q ≡ get_waiting
Linked size get_final q a = AtGet q × (must_wait a ≡ false)
Linked size get_sub q a = AtGet q × (is_over a ≡ true)
Linked size (get_last n) q a = q ≡ idle
Linked size get_unlock_null q a = q ≡ idle
Linked size get_read q a = AtGet q × (is_empty a ≡ false)
Linked size (get_advance x) q a = AtGet q × (is_empty a ≡ false) × (x ≡ get_or a.store a.head none)
Linked size (get_emptied x) q a = q ≡ get_leaving x
Linked size (get_not_full x) q a = q ≡ get_leaving x
Linked size (get_unlock x) q a = q ≡ get_leaving x
Linked size (get_leave x) q a = q ≡ get_leaving x
Linked size free_lock q a = q ≡ free_called
Linked size free_set q a = q ≡ free_called
Linked size free_test q a = q ≡ free_called
Linked size free_loop q a = AtFree a q × (is_empty a ≡ false)
Linked size free_broadcast q a = AtFree a q × (is_empty a ≡ false)
Linked size free_wait q a = (q ≡ free_draining) × (a.shutdown ≡ true)
Linked size (free_result r) q a = (q ≡ free_draining) × (a.shutdown ≡ true)
Linked size free_wake_all q a =
    ((q ≡ free_called) × (is_empty a ≡ true)) ⊎ ((q ≡ free_draining) × (a.shutdown ≡ true))
Linked size free_load q a =
    ((q ≡ free_called) × (is_empty a ≡ true))
    ⊎ ((q ≡ free_draining) × (a.shutdown ≡ true))
    ⊎ ((q ≡ free_waiting) × (a.shutdown ≡ true))
Linked size free_sleep q a = (q ≡ free_waiting) × (a.shutdown ≡ true)
Linked size free_wait_getters q a = (q ≡ free_waiting) × (a.shutdown ≡ true)
Linked size (free_result_getters r) q a = (q ≡ free_waiting) × (a.shutdown ≡ true)
Linked size free_unlock q a = q ≡ free_leaving
Linked size free_destroy q a = q ≡ free_leaving

-- The action that begins the stretch, or goes on with it: a wait has run out.
abbrev pub retry : Pc → Action
retry (put_called x) = proceed
retry (put_waiting x) = wake timed_out
retry get_waiting = wake timed_out
retry free_draining = wake timed_out
retry free_waiting = wake timed_out
retry q = proceed

-- The step among whole stretches that the statement brings about, if it is the one at which its
-- stretch takes effect.
abbrev pub effect : ℕ → Array → Place → Pc → Action → Option Action
effect size a outside q (call_put x) = some (call_put x)
effect size a outside q call_free = some call_free
effect size a get_add q proceed = some call_get
effect size a (put_check x) q proceed = if a.shutdown then some proceed else none
effect size a (put_test x) q proceed = if is_full size a then some (retry q) else none
effect size a (put_recheck x) q proceed = if a.shutdown then some (wake timed_out) else none
effect size a (put_advance x) q proceed = some (retry q)
effect size a get_test q proceed = if must_wait a then some (retry q) else none
effect size a get_sub q proceed = some (retry q)
effect size a (get_advance x) q proceed = some (retry q)
effect size a (get_leave x) q proceed = some proceed
effect size a free_broadcast q proceed = some (retry q)
effect size a free_load free_draining proceed =
    some (wake (if is_empty a then timed_out else woken))
effect size a free_load q proceed = some (retry q)
effect size a (free_result_getters woken) q proceed = some (wake woken)
effect size a free_destroy q proceed = some proceed
effect size a p q act = none

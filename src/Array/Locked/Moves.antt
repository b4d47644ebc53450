-- ===== src/Array/Locked/Moves.antt =====
-- One statement of a thread, next to the stretch that it belongs to.
use os_dns_resolver.Base.{ℕ, ◌+◌, ◌-◌, ◌≡◌, ◌≢◌, true, false, Option, none, some, [], arith}
use os_dns_resolver.Array.{
  Item, Array, Wait, woken, timed_out, is_empty, is_full, put_enter, put_wake, get_begin, get_enter,
  get_wake, free_enter, free_drain_wake, free_getters_wake,
}
use os_dns_resolver.Array.System.{
  Pc, Action, call_put, call_get, call_free, proceed, wake, Outcome, move, silent, is_fault,
}
use os_dns_resolver.Array.Locked.{
  Place, outside, put_lock, put_check, put_test, put_wait, put_recheck, put_store, put_advance,
  put_signal, put_unlock, get_add, get_lock, get_test, get_wait, get_recheck, get_final, get_sub,
  get_last, get_unlock_null, get_read, get_advance, get_emptied, get_not_full, get_unlock,
  get_leave, free_lock, free_set, free_test, free_loop, free_broadcast, free_wait, free_result,
  free_wake_all, free_load, free_sleep, free_wait_getters, free_result_getters, free_unlock,
  free_destroy, Lock, Statement, keeps, takes, releases, destroys, statement,
}
use os_dns_resolver.Array.Locked.Links.{is_critical, written, Linked, effect}
use os_dns_resolver.Array

-- What the statement brings about among whole stretches.
abbrev pub after : ℕ → Array → Pc → Option Action → Outcome
after size a q none = (a, q, silent, [])
after size a q (some act) = move size a q act

-- How the statement moves the thread into its critical section and out of it.
abbrev pub IsLocking : Place → Place → Lock → Type 0
IsLocking p p' keeps = is_critical p' ≡ is_critical p
IsLocking p p' takes = (is_critical p ≡ false) × (is_critical p' ≡ true)
IsLocking p p' releases = (is_critical p ≡ true) × (is_critical p' ≡ false)
IsLocking p p' destroys = (is_critical p ≡ false) × (is_critical p' ≡ false)

pub record IsStep (size : ℕ) (a : Array) (p : Place) (q : Pc) (act : Action) (st : Statement)
    : Type 0 where
  pub linked : let t = after size a q (effect size a p q act) in Linked size st.1 t.1 t.0
  pub mem : st.0 ≡ written st.1 (after size a q (effect size a p q act)).0
  pub event : st.3 ≡ (after size a q (effect size a p q act)).2
  pub locking : IsLocking p st.1 st.2
  pub closed : a.shutdown ≡ true → (after size a q (effect size a p q act)).0.shutdown ≡ true
  pub alive : is_critical st.1 ≡ true → (after size a q (effect size a p q act)).0.destroyed ≡ false
  pub faultless : is_fault (after size a q (effect size a p q act)).2 ≡ false

pub statement-IsStep :
    (size : ℕ) (a : Array) (p : Place) (q : Pc) (act : Action)
    → (is_critical p ≡ true → a.destroyed ≡ false)
    → ((statement size (written p a) p act).2 ≡ takes → a.destroyed ≡ false)
    → Linked size p q a
    → IsStep size a p q act (statement size (written p a) p act)
unfolding statement move put_enter put_wake get_begin get_enter get_wake Array.get_leave free_enter
    free_drain_wake free_getters_wake Array.free_destroy
statement-IsStep size a outside q (call_put x) alive t h = ground arith
statement-IsStep size a outside q call_get alive t h = ground arith
statement-IsStep size a outside q call_free alive t h = ground arith
statement-IsStep size a (put_lock x) q proceed alive t h = ground arith
statement-IsStep size a (put_check x) q proceed alive t h = ground arith
statement-IsStep size a (put_test x) q proceed alive t h = ground arith
statement-IsStep size a (put_wait x) q (wake r) alive t h = ground arith
statement-IsStep size a (put_recheck x) q proceed alive t h = ground arith
statement-IsStep size a (put_store x) q proceed alive t h = ground arith
statement-IsStep size a (put_advance x) q proceed alive t h = ground arith
statement-IsStep size a put_signal q proceed alive t h = ground arith
statement-IsStep size a (put_unlock c) q proceed alive t h = ground arith
statement-IsStep size a get_add q proceed alive t h = ground arith
statement-IsStep size a get_lock q proceed alive t h = ground arith
statement-IsStep size a get_test q proceed alive t h = ground arith
statement-IsStep size a get_wait q (wake r) alive t h = ground arith
statement-IsStep size a get_recheck q proceed alive t h = ground arith
statement-IsStep size a get_final q proceed alive t h = ground arith
statement-IsStep size a get_sub q proceed alive t h = ground arith
statement-IsStep size a (get_last n) q proceed alive t h = ground arith
statement-IsStep size a get_unlock_null q proceed alive t h = ground arith
statement-IsStep size a get_read q proceed alive t h = ground arith
statement-IsStep size a (get_advance x) q proceed alive t h = ground arith
statement-IsStep size a (get_emptied x) q proceed alive t h = ground arith
statement-IsStep size a (get_not_full x) q proceed alive t h = ground arith
statement-IsStep size a (get_unlock x) q proceed alive t h = ground arith
statement-IsStep size a (get_leave x) q proceed alive t h = ground arith
statement-IsStep size a free_lock q proceed alive t h = ground arith
statement-IsStep size a free_set q proceed alive t h = ground arith
statement-IsStep size a free_test q proceed alive t h = ground arith
statement-IsStep size a free_loop q proceed alive t h = ground arith
statement-IsStep size a free_broadcast q proceed alive t h = ground arith
statement-IsStep size a free_wait q (wake r) alive t h = ground arith
statement-IsStep size a (free_result woken) q proceed alive t h = ground arith
statement-IsStep size a (free_result timed_out) q proceed alive t h = ground arith
statement-IsStep size a free_wake_all q proceed alive t h = ground arith
statement-IsStep size a free_load q proceed alive t h = ground arith
statement-IsStep size a free_sleep q proceed alive t h = ground arith
statement-IsStep size a free_wait_getters q (wake r) alive t h = ground arith
statement-IsStep size a (free_result_getters woken) q proceed alive t h = ground arith
statement-IsStep size a (free_result_getters timed_out) q proceed alive t h = ground arith
statement-IsStep size a free_unlock q proceed alive t h = ground arith
statement-IsStep size a free_destroy q proceed alive t h = ground arith
statement-IsStep size a p q act alive t h = ground arith

-- A statement outside the critical section that leaves the lock alone changes at most the counter.
abbrev pub changed : Place → Action → Array → Array
changed get_add proceed a = record a { active_getters = a.active_getters + 1 }
changed (get_leave x) proceed a = record a { active_getters = a.active_getters - 1 }
changed p act a = a

-- So does what it brings about among whole stretches.
pub record IsPlain (size : ℕ) (m a : Array) (p : Place) (q : Pc) (act : Action) : Type 0 where
  pub same :
      statement size m p act
      ≡ (changed p act m, (statement size a p act).1, keeps, (statement size a p act).3)
  pub brings : (after size a q (effect size a p q act)).0 ≡ changed p act a
  pub unwritten : written p a ≡ a
  pub keeps_lock : (statement size a p act).2 ≡ keeps

pub statement-IsPlain :
    (size : ℕ) (m a : Array) (p : Place) (q : Pc) (act : Action)
    → is_critical p ≡ false
    → (statement size m p act).2 ≡ keeps
    → Linked size p q a
    → IsPlain size m a p q act
unfolding statement move get_begin Array.get_leave
statement-IsPlain size m a outside q (call_put x) c k h = ground arith
statement-IsPlain size m a outside q call_get c k h = ground arith
statement-IsPlain size m a outside q call_free c k h = ground arith
statement-IsPlain size m a get_add q proceed c k h = ground arith
statement-IsPlain size m a (get_leave x) q proceed c k h = ground arith
statement-IsPlain size m a free_destroy q proceed c k h = ground arith
statement-IsPlain size m a p q act c k h = ground arith

-- Outside the critical section there is no lock to release.
pub statement-unreleased :
    (size : ℕ) (m : Array) (p : Place) (act : Action)
    → is_critical p ≡ false
    → (statement size m p act).2 ≢ releases
unfolding statement
statement-unreleased size m outside (call_put x) c k = ground arith
statement-unreleased size m outside call_get c k = ground arith
statement-unreleased size m p act c k = ground arith

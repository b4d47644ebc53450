-- ===== src/Array/Locked/Others.antt =====
-- The threads that do not move.
use os_dns_resolver.Base.{ℕ, ◌≡◌, refl, true, false, arith}
use os_dns_resolver.Array.{Array}
use os_dns_resolver.Array.System.{Pc, Action, proceed}
use os_dns_resolver.Array.Locked.{
  Place, put_lock, put_check, put_test, put_recheck, put_store, put_advance, get_add, get_leave,
  get_test, get_recheck, get_final, get_sub, get_read, get_advance, free_set, free_test, free_loop,
  free_broadcast, free_wait, free_result, free_wake_all, free_load, free_sleep, free_wait_getters,
  free_result_getters,
}
use os_dns_resolver.Array.Locked.Links.{is_critical, written, Linked}
use os_dns_resolver.Array.Locked.Moves.{changed}

-- The writes of a critical section leave the counter and the destruction alone.
pub written-destroyed : (p : Place) (a : Array) → (written p a).destroyed ≡ a.destroyed
written-destroyed (put_advance x) a = refl
written-destroyed p a = ground arith

written-active : (p : Place) (a : Array) → (written p a).active_getters ≡ a.active_getters
written-active (put_advance x) a = refl
written-active p a = ground arith

written-counter :
    (p : Place) (a : Array) (n : ℕ)
    → record (written p a) { active_getters = n } ≡ written p (record a { active_getters = n })
written-counter (put_advance x) a n = refl
written-counter p a n = ground arith

pub written-outside : (p : Place) (a : Array) → is_critical p ≡ false → written p a ≡ a
written-outside (put_lock x) a h = refl
written-outside p a h = ground arith

pub written-changed :
    (r p : Place) (act : Action) (a : Array)
    → changed p act (written r a) ≡ written r (changed p act a)
written-changed r get_add proceed a = simp (written-active, written-counter)
written-changed r (get_leave x) proceed a = simp (written-active, written-counter)
written-changed r p act a = refl

-- What a thread has found stays so: outside its critical section while the flag stays set, inside it
-- while the counter alone changes.
pub keep-Linked :
    (size : ℕ) (a b : Array) (p : Place) (q : Pc)
    → (a.shutdown ≡ true → b.shutdown ≡ true)
    → (is_critical p ≡ true → b ≡ record a { active_getters = b.active_getters })
    → Linked size p q a
    → Linked size p q b
keep-Linked size a b (put_check x) q closed same h = ground arith
keep-Linked size a b (put_test x) q closed same h = ground arith
keep-Linked size a b (put_recheck x) q closed same h = ground arith
keep-Linked size a b (put_store x) q closed same h = ground arith
keep-Linked size a b (put_advance x) q closed same h = ground arith
keep-Linked size a b get_test q closed same h = ground arith
keep-Linked size a b get_recheck q closed same h = ground arith
keep-Linked size a b get_final q closed same h = ground arith
keep-Linked size a b get_sub q closed same h = ground arith
keep-Linked size a b get_read q closed same h = ground arith
keep-Linked size a b (get_advance x) q closed same h = ground arith
keep-Linked size a b free_set q closed same h = ground arith
keep-Linked size a b free_test q closed same h = ground arith
keep-Linked size a b free_loop q closed same h = ground arith
keep-Linked size a b free_broadcast q closed same h = ground arith
keep-Linked size a b (free_result r) q closed same h = ground arith
keep-Linked size a b free_wake_all q closed same h = ground arith
keep-Linked size a b free_load q closed same h = ground arith
keep-Linked size a b free_sleep q closed same h = ground arith
keep-Linked size a b (free_result_getters r) q closed same h = ground arith
keep-Linked size a b free_wait q closed same h = ground arith
keep-Linked size a b free_wait_getters q closed same h = ground arith
keep-Linked size a b p q closed same h = ground arith

pub changed-destroyed :
    (p : Place) (act : Action) (a : Array) → (changed p act a).destroyed ≡ a.destroyed
changed-destroyed get_add proceed a = refl
changed-destroyed (get_leave x) proceed a = refl
changed-destroyed p act a = refl

pub changed-counter :
    (p : Place) (act : Action) (a : Array)
    → changed p act a ≡ record a { active_getters = (changed p act a).active_getters }
changed-counter get_add proceed a = refl
changed-counter (get_leave x) proceed a = refl
changed-counter p act a = refl

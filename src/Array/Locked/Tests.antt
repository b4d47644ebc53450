-- ===== src/Array/Locked/Tests.antt =====
-- Threads over one array, statement by statement.
use os_dns_resolver.Base.{
  ℕ, ◌≡◌, ◌⊎◌, ◌≤◌, ◌<◌, refl, true, false, [], ◌∷◌, ◌++◌, arith, length, replicate, get_elem?,
  some,
}
use os_dns_resolver.Array.{array_init}
use os_dns_resolver.Array.Samples.{one, storage}
use os_dns_resolver.Array.System.{System, init, Schedule, call_put, call_get, proceed}
use os_dns_resolver.Array.Window.{contents}
use os_dns_resolver.Array.Locked.{
  put_store, get_lock, free_lock, outside, statement, Machine, start, step, run,
}
use os_dns_resolver.Array.Locked.Atomic.{run-IsAtomic, one_in_section, items_kept}
use os_dns_resolver.Array.Locked.Release.{section_ends}
use os_dns_resolver.Array.Locked.Interrupted.{interrupted, interrupted-hangs}
use os_dns_resolver.Array.System

-- Thread 0 is about to write an item when thread 1 has called array_get and finds the lock taken.
abbrev contended : Schedule
contended =
    (0, call_put one)
    ∷ (0, proceed)
    ∷ (1, call_get)
    ∷ (0, proceed)
    ∷ (1, proceed)
    ∷ (0, proceed)
    ∷ (1, proceed)
    ∷ []

-- Both go on, in turns.
abbrev finishing : Schedule
finishing = contended ++ replicate 4 (0, proceed) ++ replicate 9 (1, proceed)

abbrev at_store : Machine
at_store = run 3 (start storage 2) contended

abbrev at_end : Machine
at_end = run 3 (start storage 2) finishing

at_store-places : (at_store.places ≡ put_store one ∷ get_lock ∷ []) × (at_store.held ≡ true)
unfolding run step statement array_init
at_store-places = (refl, refl)

at_end-places :
    (at_end.places ≡ outside ∷ outside ∷ []) × (at_end.held ≡ false) × (at_end.delivered ≡ one ∷ [])
unfolding run step statement array_init
at_end-places = (refl, refl, refl)

run-IsAtomic_example :
    (stretches : Schedule) × (let s = System.run 3 (init storage 2) stretches in
      (at_end.accepted ≡ s.accepted)
      × (at_end.delivered ≡ s.delivered)
      × (s.faulted ≡ false)
      × ((at_end.held ≡ true) ⊎ (at_end.mem ≡ s.mem)))
unfolding run step statement array_init
run-IsAtomic_example = run-IsAtomic storage 2 finishing refl

one_in_section_example : (◌≡◌ {A = ℕ} 0 0) × (at_store.held ≡ true)
unfolding run step statement array_init
one_in_section_example =
    one_in_section storage 2 contended refl 0 0 (put_store one) (put_store one) refl refl refl refl

items_kept_example :
    (at_end.accepted ≡ at_end.delivered ++ contents 3 at_end.mem)
    × (length (contents 3 at_end.mem) < 3)
unfolding run step statement array_init
items_kept_example = items_kept storage 2 finishing (omega arith) refl refl

section_ends_example :
    (k : ℕ) × (k ≤ 8) × ((run 3 at_store (replicate k (0, proceed))).held ≡ false)
unfolding run step statement array_init
section_ends_example = section_ends 3 at_store 0 (put_store one) refl refl refl

-- Thread 0 takes a signal whose handler frees the array; both threads go on as they can.
abbrev after_signal : Machine
after_signal = run 3 (interrupted 0 at_store) (replicate 9 (0, proceed) ++ replicate 9 (1, proceed))

interrupted-hangs_example :
    (get_elem? after_signal.places 0 ≡ some free_lock)
    × (after_signal.held ≡ true)
    × (after_signal.accepted ≡ at_store.accepted)
    × (after_signal.delivered ≡ at_store.delivered)
unfolding run step statement array_init
interrupted-hangs_example =
    interrupted-hangs storage 2 contended 0 (put_store one)
      (replicate 9 (0, proceed) ++ replicate 9 (1, proceed)) refl refl refl

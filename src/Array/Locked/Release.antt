-- ===== src/Array/Locked/Release.antt =====
-- How long a thread holds the lock.
use os_dns_resolver.Base.{
  ℕ, suc, zero, ◌≤◌, ◌<◌, ◌≡◌, ◌⊎◌, inl, inr, refl, ap, ◌∙◌, true, false, some, arith, get_elem?,
  get_elem?-set_self, replicate,
}
use os_dns_resolver.Array.{Array, woken, timed_out}
use os_dns_resolver.Array.System.{proceed}
use os_dns_resolver.Array.Locked.{
  Place, outside, put_check, put_test, put_recheck, put_store, put_advance, put_signal, put_unlock,
  get_test, get_recheck, get_final, get_sub, get_last, get_unlock_null, get_read, get_advance,
  get_emptied, get_not_full, get_unlock, free_set, free_test, free_loop, free_broadcast,
  free_result, free_wake_all, free_load, free_sleep, free_result_getters, free_unlock, keeps,
  releases, Statement, statement, Machine, with_lock, put_outcome, step_at, step, run,
}
use os_dns_resolver.Array.Locked.Links.{is_critical}

-- The statements up to the one that releases the lock.
abbrev pub remaining : Place → ℕ
remaining (put_check x) = 6
remaining (put_recheck x) = 6
remaining (put_test x) = 5
remaining (put_store x) = 4
remaining (put_advance x) = 3
remaining put_signal = 2
remaining (put_unlock c) = 1
remaining get_recheck = 8
remaining get_test = 7
remaining get_final = 6
remaining get_sub = 3
remaining (get_last n) = 2
remaining get_unlock_null = 1
remaining get_read = 5
remaining (get_advance x) = 4
remaining (get_emptied x) = 3
remaining (get_not_full x) = 2
remaining (get_unlock x) = 1
remaining free_set = 6
remaining (free_result r) = 5
remaining free_test = 5
remaining free_loop = 4
remaining free_broadcast = 1
remaining free_wake_all = 3
remaining free_load = 2
remaining free_sleep = 1
remaining (free_result_getters r) = 3
remaining free_unlock = 1
remaining p = 0

-- A statement inside releases the lock, or brings the thread closer to the statement that does.
statement-remaining :
    (size : ℕ) (a : Array) (p : Place)
    → is_critical p ≡ true
    → let st = statement size a p proceed in
      (st.2 ≡ releases)
      ⊎ ((st.2 ≡ keeps) × (is_critical st.1 ≡ true) × (remaining st.1 < remaining p))
unfolding statement
statement-remaining size a (free_result woken) c = ground arith
statement-remaining size a (free_result timed_out) c = ground arith
statement-remaining size a (free_result_getters woken) c = ground arith
statement-remaining size a (free_result_getters timed_out) c = ground arith
statement-remaining size a (put_check x) c = ground arith
statement-remaining size a p c = ground arith

remaining-le : (p : Place) → remaining p ≤ 8
remaining-le outside = omega arith
remaining-le p = ground arith

-- A turn of a thread on its way to the release.
with_lock-keeps :
    (m : Machine) (i : ℕ) (st : Statement)
    → st.2 ≡ keeps
    → with_lock m i st ≡ put_outcome m i m.held st.0 st.1 st.3
with_lock-keeps m i (a, p, keeps, ev) k = refl
with_lock-keeps m i (a, p, l, ev) k = ground arith

with_lock-releases :
    (m : Machine) (i : ℕ) (st : Statement)
    → st.2 ≡ releases
    → with_lock m i st ≡ put_outcome m i false st.0 st.1 st.3
with_lock-releases m i (a, p, releases, ev) k = refl
with_lock-releases m i (a, p, l, ev) k = ground arith

step-at :
    (size : ℕ) (m : Machine) (i : ℕ) (p : Place)
    → m.faulted ≡ false
    → get_elem? m.places i ≡ some p
    → step size m i proceed ≡ with_lock m i (statement size m.mem p proceed)
unfolding step
step-at size m i p running e = simp running (ap (step_at size m i proceed) e)

remaining-positive : (p : Place) → is_critical p ≡ true → 0 < remaining p
remaining-positive (put_check x) c = omega arith
remaining-positive p c = ground arith

-- With at least as many turns as statements are left, the thread comes to its release.
releases_within :
    (size i fuel : ℕ) (m : Machine) (p : Place)
    → m.faulted ≡ false
    → get_elem? m.places i ≡ some p
    → is_critical p ≡ true
    → remaining p ≤ fuel
    → (k : ℕ) × (k ≤ fuel) × ((run size m (replicate k (i, proceed))).held ≡ false)
unfolding run
releases_within size i zero m p running e c le = absurd (omega (arith, le, remaining-positive p c))
releases_within size i (suc fuel) m p running e c le =
    let st = statement size m.mem p proceed in
    elim (statement-remaining size m.mem p c) [
      | inl free ↦ (
        1,
        omega arith,
        ap (λ t. t.held) (step-at size m i p running e ∙ with_lock-releases m i st free),
      )
      | inr (keep, c', less) ↦
          let (k, small, free) =
            releases_within size i fuel (put_outcome m i m.held st.0 st.1 st.3) st.1 refl
              (get_elem?-set_self m.places i st.1 e) c' (omega (arith, less, le)) in
          (
            suc k,
            omega (arith, small),
            ap (λ t. (run size t (replicate k (i, proceed))).held)
                  (step-at size m i p running e ∙ with_lock-keeps m i st keep)
                ∙ free,
          )
    ]

-- A thread in its critical section is never held up there: whatever the state, if it alone runs, it
-- has released the lock after at most eight statements.
pub section_ends :
    (size : ℕ) (m : Machine) (i : ℕ) (p : Place)
    → m.faulted ≡ false
    → get_elem? m.places i ≡ some p
    → is_critical p ≡ true
    → (k : ℕ) × (k ≤ 8) × ((run size m (replicate k (i, proceed))).held ≡ false)
section_ends size m i p running e c = releases_within size i 8 m p running e c (remaining-le p)

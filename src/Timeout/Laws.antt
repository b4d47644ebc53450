-- ===== src/Timeout/Laws.antt =====
-- The time that get_timeout computes.
use os_dns_resolver.Base.{
  ◌≡◌, ◌<ℤ◌, ◌≤ℤ◌, int_laws, pos, negsuc, ℤ, ◌*ℤ◌, ◌+ℤ◌, Bool-cases, ltb_ℤ, inl, inr, pos_part,
  Option, ◌<◌, ℕ, neg_part, ltb→lt, ◌∙◌, arith, not-ltb→le, ap, sym,
}
use os_dns_resolver.Timeout.{
  Timespec, ns_per_s, carry, borrow, get_timeout, get_timeout_once, clock_time, ns_per_ms,
  ns_to_add, add_ns,
}

-- A normal timespec: the nanoseconds make less than a second.
pub record IsNormal (ts : Timespec) : Type 0 where
  pub not_negative : pos 0 ≤ℤ ts.tv_nsec
  pub below_second : ts.tv_nsec <ℤ pos ns_per_s

-- The time in nanoseconds.
pub nanoseconds : Timespec → ℤ
nanoseconds ts = ts.tv_sec *ℤ pos ns_per_s +ℤ ts.tv_nsec

carry-same : (ts : Timespec) → nanoseconds (carry ts) ≡ nanoseconds ts
unfolding carry nanoseconds
carry-same ts = omega int_laws

borrow-same : (ts : Timespec) → nanoseconds (borrow ts) ≡ nanoseconds ts
unfolding borrow nanoseconds
borrow-same ts = elim (Bool-cases (ltb_ℤ ts.tv_nsec (pos 0))) [
  | inl e ↦ rw e (omega int_laws)
  | inr e ↦ rw e
]

carry_bounds :
    (ts : Timespec)
    → (pos_part (carry ts).tv_nsec < ns_per_s) × (neg_part (carry ts).tv_nsec < ns_per_s)
unfolding carry
carry_bounds ts = omega int_laws

borrow-IsNormal :
    (ts : Timespec)
    → (pos_part ts.tv_nsec < ns_per_s) × (neg_part ts.tv_nsec < ns_per_s)
    → IsNormal (borrow ts)
unfolding borrow
borrow-IsNormal ts h = elim (Bool-cases (ltb_ℤ ts.tv_nsec (pos 0))) [
  | inl e ↦ rw e (omega (int_laws, ltb→lt _ _ e))
  | inr e ↦ rw e (ground (arith, e))
]

-- The sum that get_timeout normalizes.
abbrev later : Timespec → Option Timespec → ℤ → Timespec
later ts clock ms = add_ns (clock_time ts clock) (ns_to_add ms)

later-nanoseconds :
    (ts : Timespec) (clock : Option Timespec) (ms : ℤ)
    → nanoseconds (later ts clock ms) ≡ nanoseconds (clock_time ts clock) +ℤ ms *ℤ pos ns_per_ms
unfolding nanoseconds
later-nanoseconds ts clock ms = omega int_laws

get_timeout-exact :
    (ts : Timespec) (clock : Option Timespec) (ms : ℤ)
    → IsNormal (get_timeout ts clock ms)
      × (nanoseconds (get_timeout ts clock ms)
          ≡ nanoseconds (clock_time ts clock) +ℤ ms *ℤ pos ns_per_ms)
unfolding get_timeout
get_timeout-exact ts clock ms = (
  borrow-IsNormal _ (carry_bounds (later ts clock ms)),
  borrow-same (carry (later ts clock ms))
      ∙ carry-same (later ts clock ms)
      ∙ later-nanoseconds ts clock ms,
)

once-nanoseconds :
    (ts : Timespec) (clock : Option Timespec) (ms : ℕ)
    → nanoseconds (get_timeout_once ts clock (pos ms)) ≡ nanoseconds (later ts clock (pos ms))
unfolding get_timeout_once nanoseconds
once-nanoseconds ts clock ms =
    elim (Bool-cases (ltb_ℤ (later ts clock (pos ms)).tv_nsec (pos ns_per_s))) [
      | inl e ↦ rw e
      | inr e ↦ rw e (omega int_laws)
    ]

once-IsNormal :
    (ts : Timespec) (clock : Option Timespec) (ms : ℕ)
    → IsNormal (clock_time ts clock)
    → ms < 1000
    → IsNormal (get_timeout_once ts clock (pos ms))
unfolding get_timeout_once
once-IsNormal ts clock ms v h =
    elim (Bool-cases (ltb_ℤ (later ts clock (pos ms)).tv_nsec (pos ns_per_s))) [
      | inl e ↦ rw e (omega (int_laws, ltb→lt _ _ e))
      | inr e ↦ rw e (omega (int_laws, not-ltb→le _ _ e))
    ]

-- A normal timespec is determined by its time.
normal_unique : (a b : Timespec) → IsNormal a → IsNormal b → nanoseconds a ≡ nanoseconds b → a ≡ b
unfolding nanoseconds
normal_unique a b va vb e = λ i. record { tv_sec = secs i; tv_nsec = nsecs i }
  where
    secs : a.tv_sec ≡ b.tv_sec
    secs = omega (int_laws, ap pos_part e, ap neg_part e)

    nsecs : a.tv_nsec ≡ b.tv_nsec
    nsecs = omega (int_laws, ap pos_part e, ap neg_part e)

-- The simpler get_timeout of array.c agrees with it for a normal start and a timeout of at least 0
-- and less than 1000 milliseconds; the two callers pass 100.
pub get_timeout_once-eq :
    (ts : Timespec) (clock : Option Timespec) (ms : ℕ)
    → IsNormal (clock_time ts clock)
    → ms < 1000
    → get_timeout_once ts clock (pos ms) ≡ get_timeout ts clock (pos ms)
get_timeout_once-eq ts clock ms v h =
    normal_unique _ _ (once-IsNormal ts clock ms v h) after.0
      (once-nanoseconds ts clock ms ∙ later-nanoseconds ts clock (pos ms) ∙ sym after.1)
  where
    after :
        IsNormal (get_timeout ts clock (pos ms))
        × (nanoseconds (get_timeout ts clock (pos ms))
            ≡ nanoseconds (clock_time ts clock) +ℤ pos ms *ℤ pos ns_per_ms)
    after = get_timeout-exact ts clock (pos ms)

-- The values of `int` (32 bits), of `long`, `long long` and `time_t` (64 bits), and the seconds that
-- lie at least 2147485 away from the ends of `time_t`: an `int` of milliseconds and a second at most.
abbrev pub IsInt : ℤ → Type 0
IsInt a = (negsuc 2147483647 ≤ℤ a) × (a ≤ℤ pos 2147483647)

abbrev pub IsLong : ℤ → Type 0
IsLong a = (negsuc 9223372036854775807 ≤ℤ a) × (a ≤ℤ pos 9223372036854775807)

abbrev pub IsFarFromEnds : ℤ → Type 0
IsFarFromEnds a = (negsuc 9223372036852628322 ≤ℤ a) × (a ≤ℤ pos 9223372036852628322)

-- Both fields fit into their types.
abbrev pub IsRepresentable : Timespec → Type 0
IsRepresentable ts = IsLong ts.tv_sec × IsLong ts.tv_nsec

ns_to_add-IsLong : (ms : ℤ) → IsInt ms → IsLong (ns_to_add ms)
ns_to_add-IsLong ms h = omega (int_laws, h)

module _ (now : Timespec) (ms : ℤ) (v : IsNormal now) (h : IsInt ms)
    (far : IsFarFromEnds now.tv_sec) where
  add_ns-IsRepresentable : IsRepresentable (add_ns now (ns_to_add ms))
  add_ns-IsRepresentable =
      (omega (int_laws, far), omega (int_laws, v.not_negative, v.below_second, h))

  carry-IsRepresentable : IsRepresentable (carry (add_ns now (ns_to_add ms)))
  unfolding carry
  carry-IsRepresentable = (
    omega (int_laws, far, v.not_negative, v.below_second, h),
    omega (int_laws, v.not_negative, v.below_second, h),
  )

  carry-IsFar : negsuc 9223372036854775806 ≤ℤ (carry (add_ns now (ns_to_add ms))).tv_sec
  unfolding carry
  carry-IsFar = omega (int_laws, far, v.not_negative, v.below_second, h)

  borrow-IsRepresentable : IsRepresentable (borrow (carry (add_ns now (ns_to_add ms))))
  unfolding borrow
  borrow-IsRepresentable =
      let small = carry_bounds (add_ns now (ns_to_add ms)) in
      elim (Bool-cases (ltb_ℤ (carry (add_ns now (ns_to_add ms))).tv_nsec (pos 0))) [
        | inl e ↦
            rw e (omega (int_laws, carry-IsFar, carry-IsRepresentable), omega (int_laws, small))
        | inr e ↦ rw e carry-IsRepresentable
      ]

-- get_timeout of turnin/array.c is right, and none of its sums and products overflows. Let the time that
-- it starts from, the clock's, or what `*ts` held where the clock fails, have nanoseconds in [0, 10^9)
-- and seconds that lie at least 2147485 away from the ends of a 64-bit time_t, and let the milliseconds
-- be an int, negative ones included. Then the nanoseconds of the timeout, and both fields after the
-- addition, after the carry of full seconds and at the end, fit into 64 bits; and the result has
-- nanoseconds in [0, 10^9) and is exactly the milliseconds after the start.
pub get_timeout-after :
    (ts : Timespec) (clock : Option Timespec) (ms : ℤ)
    → IsNormal (clock_time ts clock)
    → IsFarFromEnds (clock_time ts clock).tv_sec
    → IsInt ms
    → let added = add_ns (clock_time ts clock) (ns_to_add ms) in
      let result = get_timeout ts clock ms in
      IsLong (ns_to_add ms)
      × IsRepresentable added
      × IsRepresentable (carry added)
      × IsRepresentable result
      × IsNormal result
      × (nanoseconds result ≡ nanoseconds (clock_time ts clock) +ℤ ms *ℤ pos ns_per_ms)
unfolding get_timeout
get_timeout-after ts clock ms v far h =
    let now = clock_time ts clock in
    let (normal, exact) = get_timeout-exact ts clock ms in
    (
      ns_to_add-IsLong ms h,
      add_ns-IsRepresentable now ms v h far,
      carry-IsRepresentable now ms v h far,
      borrow-IsRepresentable now ms v h far,
      normal,
      exact,
    )

-- ===== src/Timeout.antt =====
-- get_timeout of turnin/array.c and of array.c: the absolute time at which a timed wait ends.
-- The clock is outside code: it answers with the time, or fails and leaves `*ts` as it was. The
-- numbers are exact integers: they are those of the C code as long as each value fits into its type.
pub mod Laws
mod Tests
use os_dns_resolver.Base.{
  ℕ, ◌≡◌, ◌≤◌, Option, none, some, ℤ, pos, negsuc, ◌+ℤ◌, ◌-ℤ◌, ◌*ℤ◌, ◌/ℤ◌, ◌%ℤ◌, ltb_ℤ,
  if◌then◌else◌,
}

-- struct timespec
pub record Timespec : Type 0 where
  pub tv_sec : ℤ
  pub tv_nsec : ℤ

abbrev pub ns_per_s : ℕ
ns_per_s = 1000000000

abbrev pub ns_per_ms : ℕ
ns_per_ms = 1000000

-- `*ts` after clock_gettime.
abbrev pub clock_time : Timespec → Option Timespec → Timespec
clock_time ts none = ts
clock_time ts (some now) = now

-- The seconds in the nanoseconds go over to tv_sec (turnin/array.c:24-26), and a negative rest
-- borrows one (turnin/array.c:30-33).
pub carry : Timespec → Timespec
carry ts = record { tv_sec = ts.tv_sec +ℤ ts.tv_nsec /ℤ ns_per_s; tv_nsec = ts.tv_nsec %ℤ ns_per_s }

pub borrow : Timespec → Timespec
borrow ts =
    if ltb_ℤ ts.tv_nsec (pos 0)
    then record { tv_sec = ts.tv_sec -ℤ pos 1; tv_nsec = ts.tv_nsec +ℤ pos ns_per_s }
    else ts

-- The nanoseconds of the timeout (turnin/array.c:18), and their sum with the time (line 20).
abbrev pub ns_to_add : ℤ → ℤ
ns_to_add milliseconds = milliseconds *ℤ pos ns_per_ms

abbrev pub add_ns : Timespec → ℤ → Timespec
add_ns ts ns = record ts { tv_nsec = ts.tv_nsec +ℤ ns }

-- get_timeout of turnin/array.c.
pub get_timeout : Timespec → Option Timespec → ℤ → Timespec
unfolding carry borrow
get_timeout ts clock milliseconds =
    borrow (carry (add_ns (clock_time ts clock) (ns_to_add milliseconds)))

-- get_timeout of array.c, which carries at most one second.
pub get_timeout_once : Timespec → Option Timespec → ℤ → Timespec
get_timeout_once ts clock milliseconds =
    let now = clock_time ts clock in
    let nsec : ℤ = now.tv_nsec +ℤ ns_to_add milliseconds in
    if ltb_ℤ nsec (pos ns_per_s)
    then record { tv_sec = now.tv_sec; tv_nsec = nsec }
    else record { tv_sec = now.tv_sec +ℤ pos 1; tv_nsec = nsec -ℤ pos ns_per_s }

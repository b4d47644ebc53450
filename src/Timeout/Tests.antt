-- ===== src/Timeout/Tests.antt =====
-- The time-outs of both programs at concrete clocks.
use os_dns_resolver.Base.{some, arith, ◌≡◌, pos, ◌+ℤ◌, ◌*ℤ◌}
use os_dns_resolver.Timeout.{
  Timespec, ns_to_add, add_ns, carry, ns_per_ms, get_timeout, get_timeout_once,
}
use os_dns_resolver.Timeout.Laws.{
  IsNormal, IsLong, IsRepresentable, nanoseconds, get_timeout-after, get_timeout_once-eq,
}

abbrev start : Timespec
start = record { tv_sec = pos 5; tv_nsec = pos 950000000 }

-- The clock answers, and 100 milliseconds carry a second.
get_timeout-after_example :
    let result = get_timeout start (some start) (pos 100) in
    IsLong (ns_to_add (pos 100))
    × IsRepresentable (add_ns start (ns_to_add (pos 100)))
    × IsRepresentable (carry (add_ns start (ns_to_add (pos 100))))
    × IsRepresentable result
    × IsNormal result
    × (nanoseconds result ≡ nanoseconds start +ℤ pos 100 *ℤ pos ns_per_ms)
get_timeout-after_example =
    get_timeout-after start (some start) (pos 100)
      (record { not_negative = omega arith; below_second = omega arith }) (omega arith, omega arith)
      (omega arith, omega arith)

get_timeout_once-eq_example :
    get_timeout_once start (some start) (pos 100) ≡ get_timeout start (some start) (pos 100)
get_timeout_once-eq_example =
    get_timeout_once-eq start (some start) 100
      (record { not_negative = omega arith; below_second = omega arith }) (omega arith)

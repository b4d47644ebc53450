-- ===== src/Array/Tests.antt =====
-- The theorems about turnin/array.c at concrete arrays, and small runs.
use os_dns_resolver.Base.{◌≡◌, refl, arith}
use os_dns_resolver.Array.{put_enter, get_enter, put_wake, get_wake}
use os_dns_resolver.Array.Valid.{IsValid}
use os_dns_resolver.Array.Refine.{view, put_reply, get_reply, put_refines, get_refines}
use os_dns_resolver.Array.Samples.{two, wrapped}
use os_dns_resolver.Fifo

wrapped-IsValid : IsValid 3 wrapped
wrapped-IsValid = record { storage = refl; head_in = omega arith; tail_in = omega arith }

put_refines_example :
    (let (b, end, _) = put_enter 3 wrapped two in
      (view 3 b, put_reply end) ≡ Fifo.put 2 (view 3 wrapped) two)
    × (let (b, end, _) = put_wake 3 wrapped two in
        (view 3 b, put_reply end) ≡ Fifo.put 2 (view 3 wrapped) two)
put_refines_example = put_refines wrapped-IsValid two

get_refines_example :
    (let (b, end, _) = get_enter 3 wrapped in (view 3 b, get_reply end) ≡ Fifo.get (view 3 wrapped))
    × (let (b, end, _) = get_wake 3 wrapped in
        (view 3 b, get_reply end) ≡ Fifo.get (view 3 wrapped))
get_refines_example = get_refines wrapped-IsValid

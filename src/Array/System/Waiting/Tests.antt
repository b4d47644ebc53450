-- ===== src/Array/System/Waiting/Tests.antt =====
-- Two threads over one array, one on its way through array_put and one through array_get.
use os_dns_resolver.Base.{[], ◌∷◌, refl, ◌≡◌, replicate, map, arith}
use os_dns_resolver.Array.{
  array_init, get_begin, put_enter, get_enter, put_wake, get_wake, get_leave,
}
use os_dns_resolver.Array.System.{System, init, run, step, move, call_put, call_get, idle}
use os_dns_resolver.Array.System.Closing.{turn}
use os_dns_resolver.Array.System.Closing.Tests.{round, full_rounds}
use os_dns_resolver.Array.System.Waiting.{IsOpen}
use os_dns_resolver.Array.System.Waiting.Ends.{AllSettled, waits_settle}
use os_dns_resolver.Array.Samples.{one, storage}
use os_dns_resolver.Schedules.{joined}

abbrev called : System
called = run 3 (init storage 2) ((1, call_get) ∷ (0, call_put one) ∷ [])

called-IsOpen : IsOpen 2 called
unfolding run step move get_begin array_init
called-IsOpen = record {
  threads = refl;
  running = refl;
  alive = refl;
  still_open = refl;
  no_free = refl;
}

-- Both return.
called-idle : (run 3 called (map (turn 0) (joined (replicate 3 round)))).pcs ≡ idle ∷ idle ∷ []
unfolding run step move get_begin array_init put_enter get_enter put_wake get_wake get_leave
called-idle = refl

waits_settle_example : AllSettled 3 (run 3 called (map (turn 0) (joined (replicate 12 round))))
waits_settle_example =
    waits_settle 3 0 called (replicate 12 round) called-IsOpen (full_rounds 12) (omega arith)

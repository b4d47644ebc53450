-- ===== src/Array/System/Tests.antt =====
-- Runs of threads over one array, and the theorems about them at those runs.
use os_dns_resolver.Base.{
  ℕ, ◌≡◌, refl, true, false, some, [], ◌∷◌, ◌<◌, arith, ◌++◌, get_elem?, length, total,
}
use os_dns_resolver.Array.{
  woken, timed_out, put_enter, get_enter, put_wake, get_wake, array_init, get_begin, get_leave,
  free_enter, free_drain_wake, free_getters_wake, free_destroy,
}
use os_dns_resolver.Array.System.{
  Pc, idle, call_put, call_get, call_free, proceed, wake, System, init, Schedule, run, step, move,
}
use os_dns_resolver.Array.System.Moves.{in_get}
use os_dns_resolver.Array.System.Invariant.{run-history}
use os_dns_resolver.Array.System.Shutdown.{run-refuses}
use os_dns_resolver.Fifo.{added, full, found}
use os_dns_resolver.Array.Refine.{view}
use os_dns_resolver.Array.System.Operations.{put_done, get_done, trace, Explains}
use os_dns_resolver.Array.System.Operations.Items.{added_items, found_items, run-Explains}
use os_dns_resolver.Array.System.Drained.{Honest, is_past_drain, run-drained}
use os_dns_resolver.Array.System.Destroyed.{free_schedule, late_call-faults}
use os_dns_resolver.Array.Window.{contents}
use os_dns_resolver.Array.Samples.{one, two, storage, wrapped}

-- Thread 0 puts three items, the last of which has to wait for thread 1.
abbrev busy : Schedule
busy =
    (0, call_put one)
    ∷ (0, proceed)
    ∷ (0, call_put two)
    ∷ (0, proceed)
    ∷ (0, call_put one)
    ∷ (1, call_get)
    ∷ (0, proceed)
    ∷ (1, proceed)
    ∷ (0, wake timed_out)
    ∷ (1, proceed)
    ∷ []

-- Thread 0 frees the array while an item is left, which thread 1 takes out.
abbrev closing : Schedule
closing =
    (0, call_put one)
    ∷ (0, proceed)
    ∷ (0, call_free)
    ∷ (0, proceed)
    ∷ (1, call_get)
    ∷ (1, proceed)
    ∷ (0, wake woken)
    ∷ (1, proceed)
    ∷ (0, wake timed_out)
    ∷ (0, proceed)
    ∷ []

abbrev after_busy : System
after_busy = run 3 (init storage 2) busy

abbrev after_closing : System
after_closing = run 3 (init storage 2) closing

-- The third put waits, and goes on after thread 1 has made room.
busy_run :
    (after_busy.accepted ≡ one ∷ two ∷ one ∷ [])
    × (after_busy.delivered ≡ one ∷ [])
    × (after_busy.pcs ≡ idle ∷ idle ∷ [])
unfolding run step move put_enter put_wake get_begin get_enter get_wake get_leave array_init
busy_run = (refl, refl, refl)

closing_run :
    (after_closing.mem.destroyed ≡ true)
    × (after_closing.delivered ≡ one ∷ [])
    × (after_closing.faulted ≡ false)
unfolding run step move put_enter put_wake get_begin get_enter get_wake get_leave array_init
    free_enter free_drain_wake free_getters_wake free_destroy
closing_run = (refl, refl, refl)

run-history_example :
    (after_busy.accepted ≡ after_busy.delivered ++ contents 3 after_busy.mem)
    × (length (contents 3 after_busy.mem) < 3)
    × (after_busy.mem.active_getters ≡ total in_get after_busy.pcs)
run-history_example = run-history storage 2 busy (omega arith)

abbrev shut_system : System
shut_system = record (init storage 2) { mem = record wrapped { shutdown = true } }

run-refuses_example : let t = run 3 shut_system busy in (t.mem.shutdown ≡ true) × (t.accepted ≡ [])
run-refuses_example = run-refuses 3 shut_system busy refl

closing-Honest : Honest 3 (init storage 2) closing
unfolding run step move put_enter put_wake get_begin get_enter get_wake get_leave array_init
    free_enter free_drain_wake free_getters_wake free_destroy
closing-Honest = (
  (λ p e d w. cc),
  (
    (λ p e d w. cc),
    (
      (λ p e d w. cc),
      (
        (λ p e d w. cc),
        (
          (λ p e d w. cc),
          (
            (λ p e d w. cc),
            ((λ p e d w. refl), ((λ p e d w. cc), ((λ p e d w. cc), ((λ p e d w. cc), tt)))),
          ),
        ),
      ),
    ),
  ),
)

run-drained_example :
    ((i : ℕ) (p : Pc)
      → get_elem? after_closing.pcs i ≡ some p
      → is_past_drain p ≡ true
      → after_closing.delivered ≡ after_closing.accepted)
    × (after_closing.mem.destroyed ≡ true → after_closing.delivered ≡ after_closing.accepted)
run-drained_example = run-drained storage 2 closing (omega arith) closing-Honest

late_call-faults_example :
    (run 3 (init storage 2) (free_schedule 0 ++ (1, call_get) ∷ (1, proceed) ∷ [])).faulted ≡ true
unfolding array_init
late_call-faults_example =
    late_call-faults 3 (init storage 2) 0 1 refl refl refl refl refl refl (omega arith) call_get
      refl

-- The operations of that run: the put that has to wait finds the queue full first.
busy-trace :
    trace 3 (init storage 2) busy
    ≡ put_done one added
      ∷ put_done two added
      ∷ put_done one full
      ∷ get_done (found one)
      ∷ put_done one added
      ∷ []
unfolding run step move put_enter put_wake get_begin get_enter get_wake get_leave array_init
busy-trace = refl

run-Explains_example :
    Explains 2
      (record { items = []; closed = false })
      (trace 3 (init storage 2) busy)
      (view 3 after_busy.mem)
    × (after_busy.accepted ≡ added_items (trace 3 (init storage 2) busy))
    × (after_busy.delivered ≡ found_items (trace 3 (init storage 2) busy))
run-Explains_example = run-Explains storage 2 busy (omega arith)

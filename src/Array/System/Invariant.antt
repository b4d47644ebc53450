-- ===== src/Array/System/Invariant.antt =====
-- What every interleaving keeps: the representation, the account of the items, and the account of
-- the active getters.
use os_dns_resolver.Base.{
  ℕ, suc, zero, ◌<◌, ◌≡◌, refl, sym, some, List, ◌++◌, arith, length, replicate, total, total-set,
  total-le, get_elem?, append_assoc,
}
use os_dns_resolver.Array.{Item, array_init}
use os_dns_resolver.Array.Window.{contents}
use os_dns_resolver.Array.Valid.{IsValid, array_init-IsValid}
use os_dns_resolver.Array.System.{
  Pc, idle, Action, Event, silent, accepts, delivers, faults, Outcome, move, accept, deliver,
  System, init, record_outcome, step, Schedule, run,
}
use os_dns_resolver.Array.System.Rules.{step_rule, run_rule}
use os_dns_resolver.Array.Refine.{length-contents}
use os_dns_resolver.Array.System.Moves.{in_get, undeliver, IsSound, move-IsSound}

pub record Inv (size : ℕ) (s : System) : Type 0 where
  pub valid : IsValid size s.mem
  pub history : s.accepted ≡ s.delivered ++ contents size s.mem
  pub counted : s.mem.active_getters ≡ total in_get s.pcs

-- A step appends to the history at the end where the queue is, or at the end where it is not.
history_step :
    (ev : Event) (old new accepted delivered : List Item)
    → accept ev old ≡ undeliver ev new
    → accepted ≡ delivered ++ old
    → accept ev accepted ≡ deliver ev delivered ++ new
history_step silent old new acc del e h = rw (h, e)
history_step (accepts x) old new acc del e h = rw (h, append_assoc, e)
history_step (delivers x) old new acc del e h = rw (h, e, append_assoc)
history_step faults old new acc del e h = rw (h, e)

record_outcome-Inv :
    {size : ℕ} {s : System} (i : ℕ) {p : Pc} (out : Outcome)
    → Inv size s
    → get_elem? s.pcs i ≡ some p
    → IsSound size s.mem p out
    → Inv size (record_outcome s i out)
record_outcome-Inv {size} {s} i {p} (a, q, ev, ns) v e sound = record {
  valid = sound.valid;
  history =
      history_step ev (contents size s.mem) (contents size a) s.accepted s.delivered sound.items
        v.history;
  counted = omega (arith, total-set in_get s.pcs i q e);
}

pub step-Inv :
    {size : ℕ} (s : System) (i : ℕ) (act : Action) → Inv size s → Inv size (step size s i act)
step-Inv {size} s i act v = step_rule size (Inv size) s i act v λ p e _.
    record_outcome-Inv i (move size s.mem p act) v e
      (move-IsSound v.valid p act (omega (arith, v.counted, total-le in_get s.pcs i e)))

pub run-Inv : {size : ℕ} (s : System) (sched : Schedule) → Inv size s → Inv size (run size s sched)
run-Inv {size} s sched v = run_rule size (Inv size) step-Inv s sched v

total-idle : (n : ℕ) → total in_get (replicate n idle) ≡ 0
total-idle zero = refl
total-idle (suc n) = omega (arith, total-idle n)

pub init-Inv : (store : List Item) (n : ℕ) → 0 < length store → Inv (length store) (init store n)
unfolding array_init
init-Inv store n h = record {
  valid = array_init-IsValid store h;
  history = refl;
  counted = sym (total-idle n);
}

-- In every interleaving of any number of threads, starting from array_init on a storage of
-- ARRAY_SIZE ≥ 1 places, the items accepted by array_put are, in order, those that array_get has
-- taken out followed by those still in the buffer, which are at most ARRAY_SIZE - 1; and the
-- counter of active getters is the number of threads inside array_get.
pub run-history :
    (store : List Item) (n : ℕ) (sched : Schedule)
    → 0 < length store
    → let s = run (length store) (init store n) sched in
      let held = contents (length store) s.mem in
      (s.accepted ≡ s.delivered ++ held)
      × (length held < length store)
      × (s.mem.active_getters ≡ total in_get s.pcs)
run-history store n sched h =
    (v.history, ground (arith, length-contents v.valid, v.valid), v.counted)
  where
    v : Inv (length store) (run (length store) (init store n) sched)
    v = run-Inv (init store n) sched (init-Inv store n h)

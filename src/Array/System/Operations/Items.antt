-- ===== src/Array/System/Operations/Items.antt =====
-- The items of the operations of a run.
use os_dns_resolver.Base.{
  ℕ, ◌-◌, ◌<◌, ◌≡◌, refl, ap, sym, ◌∙◌, true, false, Option, none, some, List, [], ◌∷◌, ◌++◌, arith,
  length, Bool-cases, inl, inr, get_elem?, append-nil, append_assoc,
}
use os_dns_resolver.Fifo.{added, found}
use os_dns_resolver.Array.{
  Item, Array, array_init, get_begin, get_leave, free_enter, free_drain_wake, free_getters_wake,
  free_destroy,
}
use os_dns_resolver.Array.Refine.{view}
use os_dns_resolver.Array.System.{
  Pc, idle, put_called, put_waiting, get_called, get_waiting, Action, call_put, proceed, wake,
  System, init, move, step, step_at, Schedule, run, accept, deliver,
}
use os_dns_resolver.Array.System.Invariant.{init-Inv}
use os_dns_resolver.Array.System.Operations.{
  Operation, put_done, get_done, effect, performed, performed_at, trace, Explains, trace-Explains,
}

-- The items that were added and those that were found, in order.
abbrev pub added_items : List Operation → List Item
added_items [] = []
added_items (put_done x added ∷ ds) = x ∷ added_items ds
added_items (d ∷ ds) = added_items ds

abbrev pub found_items : List Operation → List Item
found_items [] = []
found_items (get_done (found x) ∷ ds) = x ∷ found_items ds
found_items (d ∷ ds) = found_items ds

added_items-append :
    (ds es : List Operation) → added_items (ds ++ es) ≡ added_items ds ++ added_items es
added_items-append [] es = refl
added_items-append (put_done x added ∷ ds) es = ap (λ xs. x ∷ xs) (added_items-append ds es)
added_items-append (d ∷ ds) es = ground (arith, added_items-append ds es)

found_items-append :
    (ds es : List Operation) → found_items (ds ++ es) ≡ found_items ds ++ found_items es
found_items-append [] es = refl
found_items-append (get_done (found x) ∷ ds) es = ap (λ xs. x ∷ xs) (found_items-append ds es)
found_items-append (d ∷ ds) es = ground (arith, found_items-append ds es)

-- What the history takes up of a move, on an array that is not destroyed and on one that is.
record IsRecorded (size : ℕ) (a : Array) (p : Pc) (act : Action) (ds : List Operation)
    (xs ys : List Item) : Type 0 where
  accepts : accept (move size a p act).2 xs ≡ xs ++ added_items ds
  delivers : deliver (move size a p act).2 ys ≡ ys ++ found_items ds

move-IsRecorded :
    (size : ℕ) (a : Array) (p : Pc) (act : Action) (xs ys : List Item)
    → a.destroyed ≡ false
    → IsRecorded size a p act (effect size a p act) xs ys
unfolding move get_begin get_leave free_enter free_drain_wake free_getters_wake free_destroy
move-IsRecorded size a (put_called x) proceed xs ys alive =
    ground (arith, append-nil xs, append-nil ys)
move-IsRecorded size a (put_waiting x) (wake r) xs ys alive =
    ground (arith, append-nil xs, append-nil ys)
move-IsRecorded size a get_called proceed xs ys alive = ground (arith, append-nil xs, append-nil ys)
move-IsRecorded size a get_waiting (wake r) xs ys alive =
    ground (arith, append-nil xs, append-nil ys)
move-IsRecorded size a idle (call_put x) xs ys alive = ground (arith, append-nil xs, append-nil ys)
move-IsRecorded size a p act xs ys alive = ground (arith, append-nil xs, append-nil ys)

destroyed-IsRecorded :
    (size : ℕ) (a : Array) (p : Pc) (act : Action) (xs ys : List Item)
    → a.destroyed ≡ true
    → IsRecorded size a p act [] xs ys
unfolding move
destroyed-IsRecorded size a idle (call_put x) xs ys gone =
    ground (arith, append-nil xs, append-nil ys)
destroyed-IsRecorded size a p act xs ys gone = ground (arith, append-nil xs, append-nil ys)

module _ (size : ℕ) (s : System) (i : ℕ) (act : Action) where
  step_at-items :
      (o : Option Pc)
      → let t = step_at size s i act o in
        let ds = performed_at size s act o in
        (t.accepted ≡ s.accepted ++ added_items ds) × (t.delivered ≡ s.delivered ++ found_items ds)
  step_at-items none = (sym (append-nil s.accepted), sym (append-nil s.delivered))
  step_at-items (some p) = elim (Bool-cases s.mem.destroyed) [
    | inl gone ↦
        let r = destroyed-IsRecorded size s.mem p act s.accepted s.delivered gone in
        simp gone (r.accepts, r.delivers)
    | inr alive ↦
        let r = move-IsRecorded size s.mem p act s.accepted s.delivered alive in
        simp alive (r.accepts, r.delivers)
  ]

  step-items :
      let t = step size s i act in
      let ds = performed size s i act in
      (t.accepted ≡ s.accepted ++ added_items ds) × (t.delivered ≡ s.delivered ++ found_items ds)
  unfolding step
  step-items = elim (Bool-cases s.faulted) [
    | inl fault ↦ simp fault (sym (append-nil s.accepted), sym (append-nil s.delivered))
    | inr running ↦ simp running (step_at-items (get_elem? s.pcs i))
  ]

trace-items :
    (size : ℕ) (s : System) (sched : Schedule)
    → let t = run size s sched in
      let ds = trace size s sched in
      (t.accepted ≡ s.accepted ++ added_items ds) × (t.delivered ≡ s.delivered ++ found_items ds)
unfolding run
trace-items size s [] = (sym (append-nil s.accepted), sym (append-nil s.delivered))
trace-items size s ((i, act) ∷ rest) =
    let ds = performed size s i act in
    let es = trace size (step size s i act) rest in
    let (a, d) = step-items size s i act in
    let (b, e) = trace-items size (step size s i act) rest in
    (
      b
          ∙ ap (λ xs. xs ++ added_items es) a
          ∙ append_assoc s.accepted (added_items ds) (added_items es)
          ∙ ap (λ xs. s.accepted ++ xs) (sym (added_items-append ds es)),
      e
          ∙ ap (λ xs. xs ++ found_items es) d
          ∙ append_assoc s.delivered (found_items ds) (found_items es)
          ∙ ap (λ xs. s.delivered ++ xs) (sym (found_items-append ds es)),
    )

-- Every run is that of a bounded queue. In every interleaving of any number of threads, from
-- array_init on a storage of ARRAY_SIZE ≥ 1 places, take the stretches of array_put and array_get
-- under the lock and the first one of each array_free, in their order, those on the destroyed lock
-- left out. Done one after the other on an empty queue of capacity ARRAY_SIZE - 1, they come to the
-- results that the code has there, and lead to the queue that the array then stands for. Their added
-- items are the items that array_put accepted, their found items those that array_get took out.
pub run-Explains :
    (store : List Item) (n : ℕ) (sched : Schedule)
    → 0 < length store
    → let size = length store in
      let s = run size (init store n) sched in
      let ds = trace size (init store n) sched in
      Explains (size - 1) (record { items = []; closed = false }) ds (view size s.mem)
      × (s.accepted ≡ added_items ds)
      × (s.delivered ≡ found_items ds)
unfolding array_init
run-Explains store n sched h =
    let (accepts, delivers) = trace-items (length store) (init store n) sched in
    (trace-Explains (init store n) sched (init-Inv store n h), accepts, delivers)

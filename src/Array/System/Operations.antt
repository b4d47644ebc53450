-- ===== src/Array/System/Operations.antt =====
-- The operations of a bounded queue that a run of the threads comes to, one for each stretch of
-- array_put and array_get under the lock and for the first one of array_free, in the order of the
-- run, each with the result that the code returns there.
pub mod Items
use os_dns_resolver.Base.{
  ℕ, ◌-◌, ◌<◌, ◌≤◌, ◌≡◌, refl, ap, sym, ◌∙◌, Bool, true, false, Option, none, some, List, [], ◌∷◌,
  ◌++◌, arith, length, get_elem?, Bool-cases, inl, inr, if◌then◌else◌, total-le,
}
use mathlib.Core.Path.{subst}
use os_dns_resolver.Fifo
use os_dns_resolver.Fifo.{Fifo, PutReply, GetReply}
use os_dns_resolver.Array.{
  Item, Array, array_init, put_enter, put_wake, get_begin, get_enter, get_wake, get_leave,
  free_enter, free_drain_wake, free_getters_wake, free_destroy, Wait, woken, timed_out,
}
use os_dns_resolver.Array.Window.{contents}
use os_dns_resolver.Array.Valid.{IsValid}
use os_dns_resolver.Array.Refine.{
  view, put_reply, get_reply, put_refines, get_refines, free_enter-refines,
}
use os_dns_resolver.Array.System.{
  Pc, idle, put_called, put_waiting, get_called, get_waiting, get_leaving, free_called,
  free_draining, free_waiting, free_leaving, Action, call_put, call_get, call_free, proceed, wake,
  System, init, move, step, step_at, record_outcome, Schedule, run,
}
use os_dns_resolver.Array.System.Invariant.{Inv, step-Inv, init-Inv}

pub data Operation : Type 0 where
  put_done : Item → PutReply → Operation
  get_done : GetReply Item → Operation
  close_done : Operation

-- What the thread at `p` does to the queue; on the destroyed lock, nothing.
abbrev pub effect : ℕ → Array → Pc → Action → List Operation
effect size a (put_called x) proceed = put_done x (put_reply (put_enter size a x).1) ∷ []
effect size a (put_waiting x) (wake r) = put_done x (put_reply (put_wake size a x).1) ∷ []
effect size a get_called proceed = get_done (get_reply (get_enter size a).1) ∷ []
effect size a get_waiting (wake r) = get_done (get_reply (get_wake size a).1) ∷ []
effect size a free_called proceed = close_done ∷ []
effect size a p act = []

abbrev pub performed_at : ℕ → System → Action → Option Pc → List Operation
performed_at size s act none = []
performed_at size s act (some p) = if s.mem.destroyed then [] else effect size s.mem p act

abbrev pub performed : ℕ → System → ℕ → Action → List Operation
performed size s i act = if s.faulted then [] else performed_at size s act (get_elem? s.pcs i)

abbrev pub trace : ℕ → System → Schedule → List Operation
trace size s [] = []
trace size s ((i, act) ∷ rest) = performed size s i act ++ trace size (step size s i act) rest

-- The operations, done one after the other on the queue `q`, come to the same results and lead to `r`.
abbrev pub Explains : ℕ → Fifo Item → List Operation → Fifo Item → Type 0
Explains cap q [] r = q ≡ r
Explains cap q (put_done x reply ∷ ds) r =
    let (u, answer) = Fifo.put cap q x in (answer ≡ reply) × Explains cap u ds r
Explains cap q (get_done reply ∷ ds) r =
    let (u, answer) = Fifo.get q in (answer ≡ reply) × Explains cap u ds r
Explains cap q (close_done ∷ ds) r = Explains cap (Fifo.close q) ds r

append-Explains :
    (cap : ℕ) (q r t : Fifo Item) (ds es : List Operation)
    → Explains cap q ds r
    → Explains cap r es t
    → Explains cap q (ds ++ es) t
append-Explains cap q r t [] es h k = subst (λ u. Explains cap u es t) (sym h) k
append-Explains cap q r t (put_done x reply ∷ ds) es h k =
    (h.0, append-Explains cap (Fifo.put cap q x).0 r t ds es h.1 k)
append-Explains cap q r t (get_done reply ∷ ds) es h k =
    (h.0, append-Explains cap (Fifo.get q).0 r t ds es h.1 k)
append-Explains cap q r t (close_done ∷ ds) es h k =
    append-Explains cap (Fifo.close q) r t ds es h k

module _ {size : ℕ} {a : Array} (v : IsValid size a) (alive : a.destroyed ≡ false) where
  move-Explains :
      (p : Pc) (act : Action)
      → Explains (size - 1) (view size a) (effect size a p act) (view size (move size a p act).0)
  unfolding move get_begin get_leave free_drain_wake free_getters_wake free_destroy
  move-Explains idle (call_put x) = refl
  move-Explains (put_called x) proceed = ground (arith, put_refines v x)
  move-Explains (put_waiting x) (wake r) = ground (arith, put_refines v x)
  move-Explains get_called proceed = ground (arith, get_refines v)
  move-Explains get_waiting (wake r) = ground (arith, get_refines v)
  move-Explains free_called proceed = ground (arith, free_enter-refines size a)
  move-Explains free_draining (wake r) = ground arith
  move-Explains free_waiting (wake r) = ground arith
  move-Explains p act = ground arith

-- On the destroyed lock nothing happens to the queue.
move-view :
    (size : ℕ) (a : Array) (p : Pc) (act : Action)
    → a.destroyed ≡ true
    → view size a ≡ view size (move size a p act).0
unfolding move get_begin get_leave free_destroy
move-view size a idle (call_put x) gone = refl
move-view size a p act gone = ground arith

module _ {size : ℕ} (s : System) (v : Inv size s) where
  step_at-Explains :
      (i : ℕ) (act : Action) (o : Option Pc)
      → Explains
          (size - 1)
          (view size s.mem)
          (performed_at size s act o)
          (view size (step_at size s i act o).mem)
  step_at-Explains i act none = refl
  step_at-Explains i act (some p) = elim (Bool-cases s.mem.destroyed) [
    | inl gone ↦ simp gone (move-view size s.mem p act gone)
    | inr alive ↦ simp alive (move-Explains v.valid alive p act)
  ]

  step-Explains :
      (i : ℕ) (act : Action)
      → Explains
          (size - 1)
          (view size s.mem)
          (performed size s i act)
          (view size (step size s i act).mem)
  unfolding step
  step-Explains i act = elim (Bool-cases s.faulted) [
    | inl fault ↦ simp fault
    | inr running ↦ simp running (step_at-Explains i act (get_elem? s.pcs i))
  ]

pub trace-Explains :
    {size : ℕ} (s : System) (sched : Schedule)
    → Inv size s
    → Explains (size - 1) (view size s.mem) (trace size s sched) (view size (run size s sched).mem)
unfolding run
trace-Explains s [] v = refl
trace-Explains {size} s ((i, act) ∷ rest) v =
    append-Explains (size - 1) _ _ _ (performed size s i act) (trace size (step size s i act) rest)
      (step-Explains s v i act) (trace-Explains (step size s i act) rest (step-Inv s i act v))

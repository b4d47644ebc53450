-- ===== src/Array/System/Destroyed.antt =====
-- What awaits a thread that comes back to an array after array_free has destroyed it.
use os_dns_resolver.Base.{
  ℕ, ◌≡◌, refl, ◌∙◌, ap, Bool, true, false, some, [], ◌∷◌, get_elem?, arith, get_elem?-set_self,
  ◌≢◌, get_elem?-set_ne, ◌++◌,
}
use os_dns_resolver.Array.{
  Array, get_begin, is_empty, List, free_enter, free_destroy, Notify, broadcast, not_empty,
  not_full,
}
use os_dns_resolver.Array.System.Rules.{step-some, run-append}
use os_dns_resolver.Array.System.{
  idle, Action, call_put, call_get, call_free, proceed, System, silent, faults, Outcome, move,
  record_outcome, step, run, Schedule, free_called, free_leaving,
}

-- The call of one of the three functions.
abbrev pub is_call : Action → Bool
is_call (call_put x) = true
is_call call_get = true
is_call call_free = true
is_call act = false

abbrev entered : ℕ → Array → Action → Outcome
entered size a act = move size a idle act

call-faults :
    (size : ℕ) (a : Array) (act : Action)
    → a.destroyed ≡ true
    → is_call act ≡ true
    → (move size (entered size a act).0 (entered size a act).1 proceed).2 ≡ faults
unfolding move get_begin
call-faults size a (call_put x) h c = ground arith
call-faults size a call_get h c = ground arith
call-faults size a act h c = ground arith

call-silent :
    (size : ℕ) (a : Array) (act : Action) → is_call act ≡ true → (entered size a act).2 ≡ silent
unfolding move
call-silent size a (call_put x) c = refl
call-silent size a call_get c = refl
call-silent size a act c = ground arith

-- A call of an idle thread on a destroyed array.
call_destroyed :
    (size : ℕ) (s : System) (j : ℕ) (act : Action)
    → s.faulted ≡ false
    → s.mem.destroyed ≡ true
    → get_elem? s.pcs j ≡ some idle
    → is_call act ≡ true
    → (run size s ((j, act) ∷ (j, proceed) ∷ [])).faulted ≡ true
unfolding run
call_destroyed size s j act f d e c =
    ap (λ t. (step size t j proceed).faulted) (step-some size s j act idle f e)
    ∙ ap (λ t. t.faulted)
        (step-some size s₁ j proceed (entered size s.mem act).1
          (ground (arith, call-silent size s.mem act c)) (get_elem?-set_self s.pcs j _ e))
    ∙ ground (arith, call-faults size s.mem act d c)
  where
    s₁ : System
    s₁ = record_outcome s j (entered size s.mem act)

-- array_free from its call to its end, by a thread that need not wait.
abbrev pub free_schedule : ℕ → Schedule
free_schedule i = (i, call_free) ∷ (i, proceed) ∷ (i, proceed) ∷ []

module _ (size : ℕ) (s : System) (i j : ℕ) (f : s.faulted ≡ false) (alive : s.mem.destroyed ≡ false)
    (e : is_empty s.mem ≡ true) (quiet : s.mem.active_getters ≡ 0)
    (hi : get_elem? s.pcs i ≡ some idle) (hj : get_elem? s.pcs j ≡ some idle) (ne : i ≢ j) where
  abbrev ns : List Notify
  ns = broadcast not_empty ∷ broadcast not_full ∷ []

  abbrev shut : Array
  shut = record s.mem { shutdown = true }

  abbrev called : System
  called = record_outcome s i (s.mem, free_called, silent, [])

  abbrev unlocked : System
  unlocked = record_outcome called i (shut, free_leaving, silent, ns)

  abbrev ended : System
  ended = record_outcome unlocked i (record shut { destroyed = true }, idle, silent, [])

  move-unlocked : move size s.mem free_called proceed ≡ (shut, free_leaving, silent, ns)
  unfolding move free_enter
  move-unlocked = ground arith

  run-ended : run size s (free_schedule i) ≡ ended
  unfolding run move free_destroy
  run-ended =
      ap (λ t. step size (step size t i proceed) i proceed) (step-some size s i call_free idle f hi)
      ∙ ap (λ t. step size t i proceed)
          (step-some size called i proceed free_called refl (get_elem?-set_self s.pcs i _ hi)
            ∙ ap (record_outcome called i) move-unlocked)
      ∙ step-some size unlocked i proceed free_leaving refl
          (get_elem?-set_self called.pcs i _ (get_elem?-set_self s.pcs i _ hi))

  still_idle : get_elem? ended.pcs j ≡ some idle
  still_idle =
      get_elem?-set_ne unlocked.pcs _ ne
      ∙ get_elem?-set_ne called.pcs _ ne
      ∙ get_elem?-set_ne s.pcs _ ne
      ∙ hj

  -- array_free does not know of a thread that is between two calls: if the array is empty and no
  -- thread is inside array_get, one thread can run array_free to its end, and the next call that
  -- another idle thread makes, of any of the three functions, takes the destroyed lock.
  pub late_call-faults :
      (act : Action)
      → is_call act ≡ true
      → (run size s (free_schedule i ++ (j, act) ∷ (j, proceed) ∷ [])).faulted ≡ true
  late_call-faults act c =
      ap (λ t. t.faulted) (run-append size s (free_schedule i) ((j, act) ∷ (j, proceed) ∷ []))
      ∙ ap (λ t. (run size t ((j, act) ∷ (j, proceed) ∷ [])).faulted) run-ended
      ∙ call_destroyed size ended j act refl refl still_idle c

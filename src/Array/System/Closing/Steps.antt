-- ===== src/Array/System/Closing/Steps.antt =====
-- What holds throughout while one thread is in array_free and no thread makes a new call.
use os_dns_resolver.Base.{
  ℕ, ◌+◌, ◌≤◌, ◌<◌, ◌≡◌, ◌⊎◌, inl, inr, refl, ap, sym, ◌∙◌, true, false, arith, length, some, total,
  total-set, total-le, get_elem?, set, length-set, set-same, get_elem?-set_self, get_elem?-set_ne,
}
use native.Mathlib.Decide.{ℕ_discrete}
use os_dns_resolver.Array.{timed_out, woken}
use os_dns_resolver.Array.Window.{contents}
use os_dns_resolver.Array.System.{Pc, idle, Action, move, System, record_outcome}
use os_dns_resolver.Array.System.Moves.{in_get}
use os_dns_resolver.Array.System.Invariant.{Inv, step-Inv}
use os_dns_resolver.Array.System.Rules.{step_rule}
use os_dns_resolver.Array.System.Closing.{
  weight, bit, work, in_put, in_free, wanting, at_free_called, at_free_leaving, Turn, turn,
  turn_step, goes_on, wakes,
}
use os_dns_resolver.Array.System.Closing.Moves.{IsTurn, IsTurned, move-IsTurned, move-wanting}

-- Nobody is in array_put; thread `j` alone is in array_free or has destroyed the array; the threads
-- in array_get can take every item; and it ends with nobody in array_get.
pub record IsClosing (size n j : ℕ) (s : System) : Type 0 where
  pub inv : Inv size s
  pub threads : length s.pcs ≡ n
  pub running : s.faulted ≡ false
  pub puts : total in_put s.pcs ≡ 0
  pub frees : total in_free s.pcs + bit s.mem.destroyed ≡ 1
  pub owner : (i : ℕ) (p : Pc) → get_elem? s.pcs i ≡ some p → 0 < in_free p → i ≡ j
  pub enough : length (contents size s.mem) ≤ total wanting s.pcs
  pub shuts : s.mem.shutdown ≡ false → total at_free_called s.pcs ≡ 1
  pub leaves : 0 < total at_free_leaving s.pcs + bit s.mem.destroyed → s.mem.active_getters ≡ 0

free_of_calls : (p : Pc) → in_put p ≡ 0 → in_get p ≡ 0 → in_free p ≡ 0 → weight p ≡ 0
free_of_calls idle a b c = refl
free_of_calls p a b c = ground arith

module _ {size n j : ℕ} {s : System} (k : IsClosing size n j s) (i : ℕ) {p : Pc}
    (e : get_elem? s.pcs i ≡ some p) where
  pub no_put : in_put p ≡ 0
  no_put = omega (arith, k.puts, total-le in_put s.pcs i e)

  pub counted : in_get p ≤ s.mem.active_getters
  counted = omega (arith, k.inv.counted, total-le in_get s.pcs i e)

  pub outside : s.mem.destroyed ≡ true → weight p ≡ 0
  outside d =
      free_of_calls p no_put (omega (arith, counted, gone))
        (omega (arith, frees, total-le in_free s.pcs i e))
    where
      gone : s.mem.active_getters ≡ 0
      gone = k.leaves (ground arith)

      frees : total in_free s.pcs ≡ 0
      frees = ground (arith, k.frees)

  turned : (act : Action) → IsTurn p act → IsTurned size s.mem s.emptied p (move size s.mem p act)
  turned act t = move-IsTurned size s.mem s.emptied p act t no_put counted outside

  owner_set :
      (q : Pc)
      → in_free q ≤ in_free p
      → (i' : ℕ) (p' : Pc) → get_elem? (set s.pcs i q) i' ≡ some p'
      → 0 < in_free p'
      → i' ≡ j
  owner_set q le i' p' f h = elim (ℕ_discrete i i') [
    | yes same ↦
        let mine : (get_elem? (set s.pcs i q) i ≡ some p') =
          ap (get_elem? (set s.pcs i q)) same ∙ f in
        ground (arith, same, mine, get_elem?-set_self s.pcs i q e, k.owner i p e)
    | no ne ↦ k.owner i' p' (sym (get_elem?-set_ne s.pcs q ne) ∙ f) h
  ]

  record_outcome-IsClosing :
      (act : Action)
      → IsTurn p act
      → Inv size (record_outcome s i (move size s.mem p act))
      → IsClosing size n j (record_outcome s i (move size s.mem p act))
  record_outcome-IsClosing act t inv =
      let q = (move size s.mem p act).1 in
      let x = turned act t in
      record {
        inv = inv;
        threads = omega (arith, length-set s.pcs i q, k.threads);
        running = x.faultless;
        puts = omega (arith, x.puts, k.puts, total-set in_put s.pcs i q e);
        frees = omega (arith, x.frees, k.frees, total-set in_free s.pcs i q e);
        owner = owner_set q x.stays;
        enough = omega (
          arith,
          k.enough,
          total-set wanting s.pcs i q e,
          move-wanting k.inv.valid p act t no_put counted,
        );
        shuts = λ b.
            omega (arith, x.shuts b, k.shuts (x.shuts b).0, total-set at_free_called s.pcs i q e);
        leaves = λ h. elim x.leaves [
          | inl none_left ↦ none_left
          | inr less ↦ omega (
            arith,
            x.gets,
            k.leaves (omega (arith, h, less, total-set at_free_leaving s.pcs i q e)),
          )
        ];
      }

  record_outcome-moves :
      (act : Action)
      → IsTurn p act
      → let t = record_outcome s i (move size s.mem p act) in (t ≡ s) ⊎ (work t < work s)
  record_outcome-moves act t =
      let q = (move size s.mem p act).1 in
      let x = turned act t in
      elim x.moved [
        | inl same ↦ inl (ground (arith, same, x.faultless, k.running, set-same s.pcs i e))
        | inr less ↦ inr (omega (arith, less, total-set weight s.pcs i q e))
      ]

-- A turn fits the thread that has it, if thread `j` alone is in array_free.
turn-IsTurn :
    (j : ℕ) (c : Turn) (p : Pc) → (0 < in_free p → (turn j c).0 ≡ j) → IsTurn p (turn j c).1
turn-IsTurn j (goes_on i) p h = refl
turn-IsTurn j (wakes i woken) p h = ground arith
turn-IsTurn j (wakes i timed_out) p h = ground arith

module _ {size n j : ℕ} (s : System) (c : Turn) (k : IsClosing size n j s) where
  abbrev i : ℕ
  i = (turn j c).0

  abbrev act : Action
  act = (turn j c).1

  fits : (p : Pc) → get_elem? s.pcs i ≡ some p → IsTurn p act
  fits p e = turn-IsTurn j c p (k.owner i p e)

  pub turn_step-IsClosing : IsClosing size n j (turn_step size j s c)
  turn_step-IsClosing =
      step_rule size (λ t. Inv size t → IsClosing size n j t) s i act (λ v. k)
        (λ p e f. record_outcome-IsClosing k i e act (fits p e)) (step-Inv s i act k.inv)

  pub turn_step-moves : (turn_step size j s c ≡ s) ⊎ (work (turn_step size j s c) < work s)
  turn_step-moves =
      step_rule size (λ t. (t ≡ s) ⊎ (work t < work s)) s i act (inl refl)
        (λ p e f. record_outcome-moves k i e act (fits p e))

-- ===== src/Array/Locked/Simulation.antt =====
-- A machine among single statements next to a system among whole stretches.
use os_dns_resolver.Base.{
  ℕ, ◌≤◌, ◌≡◌, ◌≢◌, inl, inr, ap, ap₂, sym, ◌∙◌, Bool, true, false, some, arith, length, get_elem?,
  get_elem?-set_cases, set, length-set, total, total-set, total-le, total_one, Bool-cases,
  if◌then◌else◌,
}
use mathlib.Core.Path.{subst}
use os_dns_resolver.Array.System.{Pc, Action, Outcome, System, record_outcome, accept, deliver}
use os_dns_resolver.Array.Locked.{Place, keeps, Statement, statement, Machine, put_outcome}
use os_dns_resolver.Array.Locked.Links.{is_critical, written, Linked, effect}
use os_dns_resolver.Array.Locked.Moves.{
  after, IsStep, statement-IsStep, changed, IsPlain, statement-IsPlain,
}
use os_dns_resolver.Array.Locked.Others.{
  written-changed, keep-Linked, changed-destroyed, changed-counter,
}

abbrev pub in_section : Place → ℕ
in_section p = if is_critical p then 1 else 0

abbrev pub count_held : Bool → ℕ
count_held b = if b then 1 else 0

-- The place of the thread in its critical section, `owner`, or `outside`, tells how far the array is
-- ahead of the stretches.
pub record Simulates (size : ℕ) (m : Machine) (s : System) : Type 0 where
  pub owner : Place
  pub mem : m.mem ≡ written owner s.mem
  pub own : (j : ℕ) (p : Place) → get_elem? m.places j ≡ some p → is_critical p ≡ true → p ≡ owner
  pub unheld : m.held ≡ false → is_critical owner ≡ false
  pub sections : total in_section m.places ≡ count_held m.held
  pub alive : m.held ≡ true → s.mem.destroyed ≡ false
  pub threads : length m.places ≡ length s.pcs
  pub links :
      (j : ℕ) (p : Place) (q : Pc)
      → get_elem? m.places j ≡ some p
      → get_elem? s.pcs j ≡ some q
      → Linked size p q s.mem
  pub accepted : m.accepted ≡ s.accepted
  pub delivered : m.delivered ≡ s.delivered
  pub running : s.faulted ≡ false

module _ {size : ℕ} {m : Machine} {s : System} (k : Simulates size m s) (i : ℕ) (act : Action)
    {p : Place} {q : Pc} (e : get_elem? m.places i ≡ some p) (f : get_elem? s.pcs i ≡ some q) where
  abbrev pub done : Outcome
  done = after size s.mem q (effect size s.mem p q act)

  abbrev pub next : System
  next = record_outcome s i done

  pub link : Linked size p q s.mem
  link = k.links i p q e f

  -- The links after a move of thread `i` to `p'`.
  links_after :
      (p' : Place)
      → Linked size p' done.1 done.0
      → (s.mem.shutdown ≡ true → done.0.shutdown ≡ true)
      → ((j : ℕ) (r : Place)
          → i ≢ j
          → get_elem? m.places j ≡ some r
          → is_critical r ≡ true
          → done.0 ≡ record s.mem { active_getters = done.0.active_getters })
      → (j : ℕ) (r : Place) (o : Pc) → get_elem? (set m.places i p') j ≡ some r
      → get_elem? (set s.pcs i done.1) j ≡ some o
      → Linked size r o done.0
  links_after p' mine closed same j r o g h = elim (get_elem?-set_cases m.places i j p' e g) [
    | inl (eq, er) ↦ elim (get_elem?-set_cases s.pcs i j done.1 f h) [
      | inl (_, eo) ↦
          subst (λ t. Linked size t o done.0) (sym er)
            (subst (λ t. Linked size p' t done.0) (sym eo) mine)
      | inr (ne, _) ↦ absurd (ne eq)
    ]
    | inr (ne, g') ↦ elim (get_elem?-set_cases s.pcs i j done.1 f h) [
      | inl (eq, _) ↦ absurd (ne eq)
      | inr (_, h') ↦
          keep-Linked size s.mem done.0 r o closed (same j r ne g') (k.links j r o g' h')
    ]
  ]

  -- No other thread is in its critical section.
  abbrev pub IsAlone : Type 0
  IsAlone = total in_section m.places ≡ in_section p

  pub others_outside :
      IsAlone → (j : ℕ) (r : Place) → i ≢ j → get_elem? m.places j ≡ some r → is_critical r ≡ false
  others_outside alone j r ne g = elim (Bool-cases (is_critical r)) [
    | inr out ↦ out
    | inl c ↦
        let one : (1 ≤ total in_section m.places) =
          ground (arith, c, total-le in_section m.places j g) in
        absurd (
          ne (
            total_one in_section m.places i j p r (ground (arith, alone, one)) e g
              (ground (arith, alone, one)) (ground (arith, c))))
  ]

  -- A thread that is alone, in its critical section or at its border.
  pub solo :
      IsAlone
      → (st : Statement) → IsStep size s.mem p q act st
      → (held : Bool) → held ≡ is_critical st.1
      → Simulates size (put_outcome m i held st.0 st.1 st.3) next
  solo alone st x held same = record {
    owner = st.1;
    mem = x.mem;
    own = λ j r g c. elim (get_elem?-set_cases m.places i j st.1 e g) [
      | inl (_, er) ↦ er
      | inr (ne, g') ↦ ground (arith, c, others_outside alone j r ne g')
    ];
    unheld = λ h. sym same ∙ h;
    sections = ground (arith, alone, same, total-set in_section m.places i st.1 e);
    alive = λ h. x.alive (sym same ∙ h);
    threads = omega (arith, k.threads, length-set m.places i st.1, length-set s.pcs i done.1);
    links =
        links_after st.1 x.linked x.closed
          (λ j r ne g c. ground (arith, c, others_outside alone j r ne g));
    accepted = ap₂ accept x.event k.accepted;
    delivered = ap₂ deliver x.event k.delivered;
    running = x.faultless;
  }

  -- A statement that does not concern the lock.
  pub plain :
      is_critical p ≡ false
      → (statement size m.mem p act).2 ≡ keeps
      → let st = statement size m.mem p act in
        Simulates size (put_outcome m i m.held st.0 st.1 st.3) next
  plain c keep =
      subst (λ t. Simulates size (put_outcome m i m.held t.0 t.1 t.3) next) (sym y.same)
        (record {
          owner = k.owner;
          mem =
              ap (changed p act) k.mem
              ∙ written-changed k.owner p act s.mem
              ∙ ap (written k.owner) (sym y.brings);
          own = λ j r g d. elim (get_elem?-set_cases m.places i j st.1 e g) [
            | inl (_, er) ↦ ground (arith, d, er, still_out)
            | inr (ne, g') ↦ k.own j r g' d
          ];
          unheld = k.unheld;
          sections =
              ground (arith, c, still_out, k.sections, total-set in_section m.places i st.1 e);
          alive = λ h. ap (λ b. b.destroyed) y.brings ∙ changed-destroyed p act s.mem ∙ k.alive h;
          threads = omega (arith, k.threads, length-set m.places i st.1, length-set s.pcs i done.1);
          links = links_after st.1 x.linked x.closed (λ j r ne g d.
              subst (λ b. b ≡ record s.mem { active_getters = b.active_getters }) (sym y.brings)
                (changed-counter p act s.mem));
          accepted = ap₂ accept x.event k.accepted;
          delivered = ap₂ deliver x.event k.delivered;
          running = x.faultless;
        })
    where
      y : IsPlain size m.mem s.mem p q act
      y = statement-IsPlain size m.mem s.mem p q act c keep link

      st : Statement
      st = statement size s.mem p act

      x : IsStep size s.mem p q act st
      x =
          subst (λ a. IsStep size s.mem p q act (statement size a p act)) y.unwritten
            (statement-IsStep size s.mem p q act (λ d. ground (arith, c, d))
              (λ d. ground (arith, d, y.keeps_lock, y.unwritten)) link)

      still_out : is_critical st.1 ≡ false
      still_out = ground (arith, c, x.locking, y.keeps_lock)

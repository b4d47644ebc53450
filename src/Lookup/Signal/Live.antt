-- ===== src/Lookup/Signal/Live.antt =====
-- What holds while the handler runs in main, and the work that is left.
use os_dns_resolver.Base.{
  ℕ, ◌+◌, ◌-◌, ◌≡◌, ◌<◌, ◌≤◌, ◌⊎◌, inl, inr, refl, ap, sym, ◌∙◌, [], true, false, length, arith,
}
use os_dns_resolver.Fifo.{Fifo}
use os_dns_resolver.Resolve.{Net}
use os_dns_resolver.Simple.{Files}
use os_dns_resolver.Lookup.{Shared}
use os_dns_resolver.Lookup.Program.{Choice, main_runs, requester_runs, step}
use mathlib.Core.Path.{subst}
use os_dns_resolver.Lookup.Seen.{IsSeen, AllOnward, step-AllOnward}
use os_dns_resolver.Lookup.Work.{work, shared_work}
use os_dns_resolver.Lookup.Work.Runs.{is_main_choice, thread_step-work}
use os_dns_resolver.Lookup.Signal.Steps.{thread_step-IsSeen, thread_step-lengths}
use os_dns_resolver.Lookup.Signal.{
  main_thread, runs, Handler, handler_step, Interrupted, has_exited, set_handler, signal_step,
}
use os_dns_resolver.Lookup.Signal.Drained.{progress, IsFreed, signal_step-IsFreed}
use os_dns_resolver.Fifo

-- Only the handler runs in main.
abbrev main_runs-eq : Choice → Type 0
main_runs-eq c = runs main_thread c ≡ is_main_choice c

runs-main : (c : Choice) → main_runs-eq c
runs-main (main_runs ok) = refl
runs-main (requester_runs i ok) = refl
runs-main c = ground arith

pub record IsLive (n m : ℕ) (x : Interrupted) : Type 0 where
  pub by_main : x.thread ≡ main_thread
  pub seen : IsSeen x.state
  pub freed : IsFreed x.handler x.state.shared
  pub requesters : length x.state.requesters ≡ n
  pub resolvers : length x.state.resolvers ≡ m

-- A step of the handler, where it moves and where it waits.
handler_step-moves :
    (h : Handler) (s : Shared)
    → (handler_step h s ≡ (h, s)) ⊎ (progress h < progress (handler_step h s).0)
unfolding handler_step
handler_step-moves h s = ground arith

progress-le : (h : Handler) → progress h ≤ 8
progress-le h = ground arith

handler_step-same_work :
    (files : Files) (h : Handler) (s : Shared)
    → shared_work files (handler_step h s).1 ≡ shared_work files s
unfolding handler_step Fifo.close
handler_step-same_work files h s = ground arith

handler_step-AllOnward : (h : Handler) (s : Shared) → AllOnward s (handler_step h s).1
unfolding handler_step Fifo.close
handler_step-AllOnward h s = ground arith

-- The handler waits for a queue that is not empty.
pub handler_step-rests :
    (h : Handler) (s : Shared)
    → s.hostname_queue.items ≡ []
    → s.requester_logfile_queue.items ≡ []
    → s.resolver_logfile_queue.items ≡ []
    → (7 ≤ progress h → s.filename_queue.items ≡ [])
    → handler_step h s ≡ (h, s)
    → has_exited h ≡ true
unfolding handler_step
handler_step-rests h s a b c d e = ground (arith, ap (λ t. progress t.0) e)

module _ (net : Net) (files : Files) (cap n m : ℕ) where
  abbrev pub next : Interrupted → Choice → Interrupted
  next = signal_step net files cap m

  -- The work that is left to the handler and to the other threads.
  abbrev pub signal_work : Interrupted → ℕ
  signal_work x = (8 - progress x.handler) + work files m x.state

  -- One step, by cases.
  pub next-cases :
      (x : Interrupted) (c : Choice)
      → x.thread ≡ main_thread
      → ((has_exited x.handler ≡ true) × (next x c ≡ x))
        ⊎ ((has_exited x.handler ≡ false)
            × (is_main_choice c ≡ true)
            × (next x c ≡ set_handler x (handler_step x.handler x.state.shared)))
        ⊎ ((has_exited x.handler ≡ false)
            × (is_main_choice c ≡ false)
            × (next x c ≡ record x { state = step net files cap m x.state c }))
  unfolding signal_step
  next-cases x c e = ground (arith, e, runs-main c)

  pub next-IsLive : (x : Interrupted) (c : Choice) → IsLive n m x → IsLive n m (next x c)
  next-IsLive x c v = elim (next-cases x c v.by_main) [
    | inl (_, eq) ↦ subst (IsLive n m) (sym eq) v
    | inr (inl (_, _, eq)) ↦
        let o = handler_step-AllOnward x.handler x.state.shared in
        subst (IsLive n m) (sym eq) (record {
          by_main = v.by_main;
          seen = record {
            files = λ h. o.files.ended (v.seen.files h);
            hosts = λ h. o.hosts.ended (v.seen.hosts h);
            requester_log = λ h. o.requester_log.ended (v.seen.requester_log h);
            resolver_log = λ h. o.resolver_log.ended (v.seen.resolver_log h);
          };
          freed = freed eq;
          requesters = v.requesters;
          resolvers = v.resolvers;
        })
    | inr (inr (_, other, eq)) ↦
        let (a, b) = thread_step-lengths net files cap n m x.state c other in
        subst (IsLive n m) (sym eq) (record {
          by_main = v.by_main;
          seen =
              thread_step-IsSeen net files cap n m x.state c other v.seen
                (step-AllOnward net files cap m x.state c);
          freed = freed eq;
          requesters = a ∙ v.requesters;
          resolvers = b ∙ v.resolvers;
        })
  ]
    where
      freed : {y : Interrupted} → next x c ≡ y → IsFreed y.handler y.state.shared
      freed eq =
          subst (λ y. IsFreed y.handler y.state.shared) eq
            (signal_step-IsFreed net files cap m x c v.freed)

  pub next-work :
      (x : Interrupted) (c : Choice)
      → IsLive n m x
      → (next x c ≡ x) ⊎ (signal_work (next x c) < signal_work x)
  next-work x c v = elim (next-cases x c v.by_main) [
    | inl (_, eq) ↦ inl eq
    | inr (inl (_, _, eq)) ↦ elim (handler_step-moves x.handler x.state.shared) [
      | inl same ↦ inl (eq ∙ ap (set_handler x) same)
      | inr further ↦ inr (
          omega (
            arith,
            further,
            ap signal_work eq,
            handler_step-same_work files x.handler x.state.shared,
            progress-le (handler_step x.handler x.state.shared).0,
          ))
    ]
    | inr (inr (_, other, eq)) ↦ elim (thread_step-work net files cap m x.state c other) [
      | inl same ↦ inl (eq ∙ ap (λ s. record x { state = s }) same)
      | inr less ↦ inr (omega (arith, less, ap signal_work eq))
    ]
  ]

  pub next-exited :
      (x : Interrupted) (c : Choice)
      → has_exited x.handler ≡ true
      → has_exited (next x c).handler ≡ true
  unfolding signal_step
  next-exited x c e = simp e

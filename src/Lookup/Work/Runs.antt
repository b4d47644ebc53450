-- ===== src/Lookup/Work/Runs.antt =====
-- How long the program can go on.
use os_dns_resolver.Base.{
  set-same, replicate, zero, suc, ℕ, ◌+◌, ◌*◌, Option-cases, ◌≡◌, ◌≢◌, ◌<◌, ◌≤◌, ◌⊎◌, inl, inr,
  refl, List, [], ◌∷◌, Bool, Option, some, none, length, total, total-append, total-set, total-le,
  arith, get_elem?,
}
use os_dns_resolver.Strings.{Text}
use os_dns_resolver.Fifo.{Fifo}
use os_dns_resolver.Resolve.{Net}
use os_dns_resolver.Simple.{Files}
use os_dns_resolver.Simple.Correct.{file_size}
use os_dns_resolver.Lookup.Threads.{
  Requester, Resolver, res_get, req_get, requester_step, resolver_step,
}
use os_dns_resolver.Lookup.Program.{
  State, Main, main_fill, main_put, main_create, main_step, Choice, main_runs, requester_runs,
  resolver_runs, requester_logger_runs, resolver_logger_runs, run_requester, run_resolver, step,
  run, start,
}
use os_dns_resolver.Lookup.Phases.{is_before_create, IsPhased}
use os_dns_resolver.Lookup.Work.{
  requester_work, name_work, work, file_work, requester_work, resolver_work, requester_step-work,
  resolver_step-work, logger_step-work,
}
use os_dns_resolver.Lookup.Phases.Runs.{step-IsPhased, start-IsPhased}
use os_dns_resolver.Fifo

abbrev pub is_main_choice : Choice → Bool
is_main_choice (main_runs ok) = Bool.true
is_main_choice c = Bool.false

pub total-resting : (n : ℕ) → total resolver_work (replicate n res_get) ≡ n
total-resting zero = refl
total-resting (suc n) = omega (arith, total-resting n)

module _ (net : Net) (files : Files) (cap resolvers : ℕ) where
  main_step-work :
      (ok : Bool) (m : Main) (s : State)
      → s.main ≡ m
      → (is_before_create m ≡ Bool.true → s.resolvers ≡ [])
      → (main_step files cap resolvers ok m s ≡ s)
        ⊎ (work files resolvers (main_step files cap resolvers ok m s) < work files resolvers s)
  unfolding main_step Fifo.put Fifo.close
  main_step-work ok (main_fill []) s e new = ground arith
  main_step-work ok (main_fill (name ∷ names)) s e new = ground arith
  main_step-work ok (main_put name names) s e new =
      ground (arith, total-append (file_work files) s.shared.filename_queue.items (name ∷ []))
  main_step-work ok main_create s e new = ground (arith, total-resting resolvers)
  main_step-work ok m s e new = ground arith

  run_requester-work :
      (i : ℕ) (ok : Bool) (s : State) (o : Option Requester)
      → get_elem? s.requesters i ≡ o
      → (run_requester net files cap resolvers i ok s o ≡ s)
        ⊎ (work files resolvers (run_requester net files cap resolvers i ok s o)
            < work files resolvers s)
  run_requester-work i ok s none e = inl refl
  run_requester-work i ok s (some r) e = elim (requester_step-work files cap ok r s.shared) [
    | inl same ↦ inl (ground (arith, same, set-same s.requesters i e))
    | inr less ↦ inr (
        omega (
          arith,
          less,
          total-set requester_work s.requesters i (requester_step files cap ok r s.shared).0 e,
          total-le requester_work s.requesters i e,
        ))
  ]

  run_resolver-work :
      (i : ℕ) (ip_ok ok : Bool) (s : State) (o : Option Resolver)
      → get_elem? s.resolvers i ≡ o
      → (run_resolver net files cap resolvers i ip_ok ok s o ≡ s)
        ⊎ (work files resolvers (run_resolver net files cap resolvers i ip_ok ok s o)
            < work files resolvers s)
  run_resolver-work i ip_ok ok s none e = inl refl
  run_resolver-work i ip_ok ok s (some r) e =
      elim (resolver_step-work files net cap ip_ok ok r s.shared) [
        | inl same ↦ inl (ground (arith, same, set-same s.resolvers i e))
        | inr less ↦ inr (
            omega (
              arith,
              less,
              total-set resolver_work s.resolvers i (resolver_step net cap ip_ok ok r s.shared).0 e,
              total-le resolver_work s.resolvers i e,
            ))
      ]

  -- The threads but main.
  pub thread_step-work :
      (s : State) (c : Choice)
      → is_main_choice c ≡ Bool.false
      → (step net files cap resolvers s c ≡ s)
        ⊎ (work files resolvers (step net files cap resolvers s c) < work files resolvers s)
  unfolding step
  thread_step-work s (main_runs ok) h = ground (arith, h)
  thread_step-work s (requester_runs i ok) h =
      run_requester-work i ok s (get_elem? s.requesters i) refl
  thread_step-work s (resolver_runs i ip_ok ok) h =
      run_resolver-work i ip_ok ok s (get_elem? s.resolvers i) refl
  thread_step-work s requester_logger_runs h =
      elim (logger_step-work s.requester_logger s.shared.requester_logfile_queue s.requester_log) [
        | inl same ↦ inl (ground (arith, same))
        | inr less ↦ inr (omega (arith, less))
      ]
  thread_step-work s resolver_logger_runs h =
      elim (logger_step-work s.resolver_logger s.shared.resolver_logfile_queue s.resolver_log) [
        | inl same ↦ inl (ground (arith, same))
        | inr less ↦ inr (omega (arith, less))
      ]

  pub step-work :
      (s : State) (c : Choice)
      → IsPhased s
      → (step net files cap resolvers s c ≡ s)
        ⊎ (work files resolvers (step net files cap resolvers s c) < work files resolvers s)
  unfolding step
  step-work s (main_runs ok) p = main_step-work ok s.main s refl p.uncreated
  step-work s (requester_runs i ok) p = thread_step-work s (requester_runs i ok) refl
  step-work s (resolver_runs i ip_ok ok) p = thread_step-work s (resolver_runs i ip_ok ok) refl
  step-work s requester_logger_runs p = thread_step-work s requester_logger_runs refl
  step-work s resolver_logger_runs p = thread_step-work s resolver_logger_runs refl

  -- Each step of the run changes something.
  abbrev pub IsActive : State → List Choice → Type 0
  IsActive s [] = Unit
  IsActive s (c ∷ cs) =
      (step net files cap resolvers s c ≢ s) × IsActive (step net files cap resolvers s c) cs

  active-work :
      (s : State) (cs : List Choice)
      → IsPhased s
      → IsActive s cs
      → length cs + work files resolvers (run net files cap resolvers s cs) ≤ work files resolvers s
  unfolding run
  active-work s [] p a = omega arith
  active-work s (c ∷ cs) p a = elim (step-work s c p) [
    | inl same ↦ elim (a.0 same) [ ]
    | inr less ↦ omega (
      arith,
      less,
      active-work (step net files cap resolvers s c) cs
          (step-IsPhased net files cap resolvers s c p) a.1,
    )
  ]

-- The bytes of the files named, a file as often as it is named.
abbrev pub bytes_named : Files → List Text → ℕ
bytes_named files names = total (λ name. file_size (files.read name)) names

total-name_work :
    (files : Files) (names : List Text)
    → total (name_work files) names ≡ 11 * bytes_named files names + 4 * length names
total-name_work files [] = omega arith
total-name_work files (name ∷ names) = elim (Option-cases (files.read name)) [
  | inl e ↦ simp e (omega (arith, total-name_work files names))
  | inr (bytes, e) ↦ simp e (omega (arith, total-name_work files names))
]

total-requester_work : (n : ℕ) → total requester_work (replicate n req_get) ≡ 6 * n
total-requester_work zero = omega arith
total-requester_work (suc n) = omega (arith, total-requester_work n)

start-work :
    (files : Files) (n m : ℕ) (names : List Text)
    → work files m (start names n)
      ≡ 11 * bytes_named files names + 4 * length names + 6 * n + m + 15
unfolding start
start-work files n m names = omega (arith, total-name_work files names, total-requester_work n)

-- There is no livelock: a run from the start each step of which changes the state, whichever threads
-- run and however their allocations come out, has at most 11 steps for each byte of the files named, 4
-- for each name, 6 for each of the `n` requesters, one for each of the `m` resolvers, and 15 more.
pub active-bounded :
    (net : Net) (files : Files) (cap n m : ℕ) (names : List Text) (cs : List Choice)
    → IsActive net files cap m (start names n) cs
    → length cs ≤ 11 * bytes_named files names + 4 * length names + 6 * n + m + 15
active-bounded net files cap n m names cs a = omega (
  arith,
  start-work files n m names,
  active-work net files cap m (start names n) cs (start-IsPhased names n) a,
)

-- ===== src/Lookup/Stuck/Reached.antt =====
-- A run that fills the queues of the names and of the hosts, for any numbers of requesters and of
-- places.
use os_dns_resolver.Base.{
  ℕ, zero, suc, ◌+◌, ◌≡◌, ◌<◌, ◌≤◌, refl, sym, List, [], ◌∷◌, ◌++◌, true, arith, length,
  length-append, append_assoc, append-nil, length-replicate, replicate, All,
}
use mathlib.Core.Path.{subst}
use os_dns_resolver.Strings.{Text}
use os_dns_resolver.Resolve.{Net}
use os_dns_resolver.Simple.{Files}
use os_dns_resolver.Lookup.Threads.{Requester, req_get, req_read, req_host, requester_step}
use os_dns_resolver.Lookup.Program.{
  State, Main, main_fill, main_put, Choice, main_runs, main_step, step, run, start,
}
use os_dns_resolver.Lookup.Stuck.{IsStuck, IsAtHost, run-stuck}
use os_dns_resolver.Lookup.Stuck.Moves.{
  lines, host, name, files_of, at, Reaches, reaches_trans, turn, read_line, fill_hosts,
}
use os_dns_resolver.Fifo

AtHost_snoc :
    (ps : List Requester) (rest : Text)
    → All IsAtHost ps
    → All IsAtHost (ps ++ req_host host rest ∷ [])
AtHost_snoc [] rest h = ((host, rest, refl), _)
AtHost_snoc (p ∷ ps) rest (h, hs) = (h, AtHost_snoc ps rest hs)

module _ (net : Net) (cap resolvers readers : ℕ) (some_room : 0 < cap) where
  abbrev at_main : Main → List Requester → List Text → List Text → List Text → ℕ → State
  at_main = at readers

  abbrev ToState : State → State → Type 0
  ToState = Reaches net cap resolvers readers some_room

  abbrev next : (s t u : State) → ToState s t → ToState t u → ToState s u
  next = reaches_trans net cap resolvers readers some_room

  put_name :
      (rs : List Requester) (left names hosts log : List Text) (serviced : ℕ)
      → length names < cap
      → ToState
          (at_main (main_fill (name ∷ left)) rs names hosts log serviced)
          (at_main (main_fill left) rs (names ++ name ∷ []) hosts log serviced)
  unfolding run step main_step Fifo.put
  put_name rs left names hosts log serviced h =
      (main_runs true ∷ main_runs true ∷ [], ground (arith, h))

  -- main queues a name, and the requester behind `ps` opens that file.
  open_file :
      (ps qs : List Requester) (left hosts log : List Text) (serviced : ℕ)
      → ToState (at_main (main_fill (name ∷ left)) (ps ++ req_get ∷ qs) [] hosts log serviced) (
          at_main
            (main_fill left)
            (ps ++ req_read (lines (suc cap)) ∷ qs)
            []
            hosts
            log
            (serviced + 1))
  unfolding requester_step Fifo.get
  open_file ps qs left hosts log serviced =
      let s = at_main (main_fill left) (ps ++ req_get ∷ qs) (name ∷ []) hosts log serviced in
      let t = at_main (main_fill left) (ps ++ req_get ∷ qs) [] hosts log serviced in
      next _ s _ (put_name (ps ++ req_get ∷ qs) left [] hosts log serviced some_room) (
        turn net cap resolvers readers some_room s ps req_get qs (req_read (lines (suc cap)))
          t.shared 1 (serviced + 1) refl refl refl)

  -- Each requester that is left opens a file and comes to its first host.
  others_wait :
      (k : ℕ) (ps : List Requester) (left hosts log : List Text) (serviced : ℕ)
      → All IsAtHost ps
      → (rs : List Requester) × (log' : List Text) × (serviced' : ℕ) × All IsAtHost rs
        × ToState
            (at_main
              (main_fill (replicate k name ++ left))
              (ps ++ replicate k req_get)
              []
              hosts
              log
              serviced)
            (at_main (main_fill left) rs [] hosts log' serviced')
  unfolding run
  others_wait zero ps left hosts log serviced h =
      (ps ++ [], log, serviced, subst (All IsAtHost) (sym (append-nil ps)) h, ([], refl))
  others_wait (suc k) ps left hosts log serviced h =
      let x = req_host host (lines cap) in
      let (rs, log', serviced', hs, r) =
        others_wait k (ps ++ x ∷ []) left hosts (log ++ host ∷ []) (serviced + 1)
          (AtHost_snoc ps (lines cap) h) in
      (
        rs,
        log',
        serviced',
        hs,
        next _ _ _
            (open_file ps (replicate k req_get) (replicate k name ++ left) hosts log serviced)
            (next _ _ _
              (read_line net cap resolvers readers some_room ps (replicate k req_get)
                (main_fill (replicate k name ++ left)) cap [] hosts log (serviced + 1))
              (subst
                (λ qs.
                  ToState
                    (at_main (main_fill (replicate k name ++ left)) qs [] hosts (log ++ host ∷ [])
                      (serviced + 1))
                    (at_main (main_fill left) rs [] hosts log' serviced'))
                (append_assoc ps (x ∷ []) (replicate k req_get)) r)),
      )

  -- main queues one name after the other, up to the last.
  fill_names :
      (rs : List Requester) (k : ℕ) (names hosts log : List Text) (serviced : ℕ)
      → length names + k ≤ cap
      → (names' : List Text) × (length names' ≡ length names + k)
        × ToState
            (at_main (main_fill (replicate (suc k) name)) rs names hosts log serviced)
            (at_main (main_put name []) rs names' hosts log serviced)
  unfolding run step main_step
  fill_names rs zero names hosts log serviced h = (names, omega arith, (main_runs true ∷ [], refl))
  fill_names rs (suc k) names hosts log serviced h =
      let (names', e, r) =
        fill_names rs k (names ++ name ∷ []) hosts log serviced
          (omega (arith, h, length-append names (name ∷ []))) in
      (
        names',
        omega (arith, e, length-append names (name ∷ [])),
        next _ _ _
            (put_name rs (replicate (suc k) name) names hosts log serviced (omega (arith, h))) r,
      )

abbrev names_of : ℕ → ℕ → List Text
names_of n cap = replicate n name ++ replicate (suc cap) name

length-names_of : (n cap : ℕ) → length (names_of n cap) ≡ n + cap + 1
length-names_of n cap = omega (
  arith,
  length-append (replicate n name) (replicate (suc cap) name),
  length-replicate n name,
  length-replicate (suc cap) name,
)

start-IsStuck :
    (net : Net) (cap resolvers k : ℕ) (room : 0 < cap)
    → (s : State) × IsStuck cap s
      × Reaches net cap resolvers (suc k) room (start (names_of (suc k) cap) (suc k)) s
unfolding start
start-IsStuck net cap resolvers k room =
    let left = replicate (suc cap) name in
    let go = next net cap resolvers (suc k) room in
    let (hosts, log, full_hosts, r) =
      fill_hosts net cap resolvers (suc k) room [] (replicate k req_get)
        (main_fill (replicate k name ++ left)) cap [] [] [] 1 (omega arith) in
    let (rs, log', serviced, waiting, r') =
      others_wait net cap resolvers (suc k) room k (req_host host [] ∷ []) left hosts log 1
        ((host, [], refl), _) in
    let (names, full_names, r'') =
      fill_names net cap resolvers (suc k) room rs cap [] hosts log' serviced (omega arith) in
    (
      at (suc k) (main_put name []) rs names hosts log' serviced,
      record {
        filling = (name, [], refl);
        files = (refl, omega (arith, full_names));
        hosts = (refl, omega (arith, full_hosts));
        requester_lines = (refl, refl);
        resolver_lines = (refl, refl);
        waiting = waiting;
        no_resolvers = refl;
        loggers = (refl, refl);
      },
      go _ _ _
          (open_file net cap resolvers (suc k) room [] (replicate k req_get)
            (replicate k name ++ left) [] [] 0)
          (go _ _ _ r (go _ _ _ r' r'')),
    )

-- The deadlock is reached, whichever numbers of requesters and resolvers and whichever room in the
-- queues there are: for some files, and one more file name than there are requesters and places in the
-- queue of the names, there is a run from the start of the program to a state in which main, the
-- requesters and the loggers wait for each other, and from there no thread changes anything any more.
pub deadlock-reached :
    (net : Net) (cap n resolvers : ℕ)
    → 0 < cap
    → 0 < n
    → (names : List Text) × (files : Files) × (before : List Choice) × (let s =
          run net files cap resolvers (start names n) before in
        (length names ≡ n + cap + 1)
        × IsStuck cap s
        × ((after : List Choice) → run net files cap resolvers s after ≡ s))
deadlock-reached net cap zero resolvers room hn = absurd (omega (arith, hn))
deadlock-reached net cap (suc k) resolvers room hn =
    let (s, stuck, (before, e)) = start-IsStuck net cap resolvers k room in
    let there = subst (IsStuck cap) (sym e) stuck in
    (
      names_of (suc k) cap,
      files_of (suc cap),
      before,
      (
        length-names_of (suc k) cap,
        there,
        λ after. run-stuck net (files_of (suc cap)) cap resolvers _ after there,
      ),
    )

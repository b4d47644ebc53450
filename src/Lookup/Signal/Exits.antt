-- ===== src/Lookup/Signal/Exits.antt =====
-- A signal that main takes once the resolvers run.
use os_dns_resolver.Base.{
  get_elem?-beyond, get_elem?-total, ℕ, ◌+◌, ◌≡◌, ◌<◌, ◌≤◌, inl, inr, refl, ap, sym, ◌∙◌, List, [],
  true, false, length, arith, All, Bool-cases,
}
use native.Mathlib.Decide.{dec_lt}
use os_dns_resolver.Strings.{Text}
use os_dns_resolver.Resolve.{Net}
use os_dns_resolver.Simple.{Files}
use os_dns_resolver.Schedules.{Has, joined, run, IsIdleRound, idle_step, rounds_done}
use os_dns_resolver.Lookup.Program.{
  State, Choice, main_runs, requester_runs, resolver_runs, requester_logger_runs,
  resolver_logger_runs, run_requester, run_resolver, step, is_req_done, start,
}
use os_dns_resolver.Lookup.Staff.{IsStaffed, run-IsStaffed, start-IsStaffed}
use os_dns_resolver.Lookup.Phases.Runs.{run-IsPhased, start-IsPhased}
use os_dns_resolver.Lookup.Rest.Done.{all_past}
use os_dns_resolver.Lookup.Phases.{IsPhased, is_before_create}
use os_dns_resolver.Lookup.Work.{work}
use os_dns_resolver.Lookup.Work.Runs.{is_main_choice}
use os_dns_resolver.Lookup.Fair.{IsFullRound}
use os_dns_resolver.Lookup.Rest.Threads.{
  AreThreadsAtRest, requester_lines, resolver_lines, resolver-rests, requesters_done,
}
use os_dns_resolver.Lookup.Signal.{
  main_thread, Handler, handler_exited, handler_step, Interrupted, interrupt, has_exited,
  signal_step,
}
use os_dns_resolver.Lookup.Signal.Live.{
  IsLive, next, next-cases, next-IsLive, next-work, next-exited, signal_work, handler_step-rests,
}
use os_dns_resolver.Lookup.Signal.Drained.{progress}
use os_dns_resolver.Lookup.Program

module _ (net : Net) (files : Files) (cap n m : ℕ) where
  module _ (x : Interrupted) (cs : List Choice) (v : IsLive n m x) (full : IsFullRound n m cs)
      (idle : IsIdleRound (next net files cap n m) x cs)
      (still : has_exited x.handler ≡ false) where
    idle-thread :
        (c : Choice)
        → Has cs c
        → is_main_choice c ≡ false
        → step net files cap m x.state c ≡ x.state
    idle-thread c has other = elim (next-cases net files cap n m x c v.by_main) [
      | inl (gone, _) ↦ ground (arith, gone, still)
      | inr (inl (_, mine, _)) ↦ ground (arith, mine, other)
      | inr (inr (_, _, eq)) ↦
          ap (λ y. y.state) (sym eq ∙ idle_step (next net files cap n m) x cs c idle has)
    ]

    idle-handler : handler_step x.handler x.state.shared ≡ (x.handler, x.state.shared)
    idle-handler = elim (next-cases net files cap n m x (main_runs true) v.by_main) [
      | inl (gone, _) ↦ ground (arith, gone, still)
      | inr (inl (_, _, eq)) ↦
          ap (λ y. (y.handler, y.state.shared))
            (sym eq ∙ idle_step (next net files cap n m) x cs (main_runs true) idle full.main)
      | inr (inr (_, other, _)) ↦ ground (arith, other)
    ]

    idle-AreThreadsAtRest : AreThreadsAtRest net files cap n m x.state
    unfolding step
    idle-AreThreadsAtRest (main_runs ok) h other = ground (arith, other)
    idle-AreThreadsAtRest (requester_runs i true) h other = elim (dec_lt i n) [
      | yes lt ↦ idle-thread (requester_runs i true) (full.requesters i lt) refl
      | no ge ↦
          ap (run_requester net files cap m i true x.state)
            (get_elem?-beyond x.state.requesters i (omega (arith, ge, v.requesters)))
    ]
    idle-AreThreadsAtRest (requester_runs i false) h other = cc
    idle-AreThreadsAtRest (resolver_runs i true true) h other = elim (dec_lt i m) [
      | yes lt ↦ idle-thread (resolver_runs i true true) (full.resolvers i lt) refl
      | no ge ↦
          ap (run_resolver net files cap m i true true x.state)
            (get_elem?-beyond x.state.resolvers i (omega (arith, ge, v.resolvers)))
    ]
    idle-AreThreadsAtRest (resolver_runs i true false) h other = cc
    idle-AreThreadsAtRest (resolver_runs i false ok) h other = cc
    idle-AreThreadsAtRest requester_logger_runs h other =
        idle-thread requester_logger_runs full.requester_logger refl
    idle-AreThreadsAtRest resolver_logger_runs h other =
        idle-thread resolver_logger_runs full.resolver_logger refl

    module _ (some_room : 0 < cap) (hn : 0 < n) (hm : 0 < m) where
      no_hosts : x.state.shared.hostname_queue.items ≡ []
      no_hosts =
          let (r, e) = get_elem?-total x.state.resolvers 0 (omega (arith, hm, v.resolvers)) in
          (resolver-rests net files cap n m x.state v.seen idle-AreThreadsAtRest some_room 0 r e).0

      no_files : 7 ≤ progress x.handler → x.state.shared.filename_queue.items ≡ []
      no_files far =
          let done =
            requesters_done net files cap n m x.state v.seen idle-AreThreadsAtRest some_room
              (v.freed.files_closed far) no_hosts in
          (v.seen.files (omega (arith, all_past x.state.requesters done, hn, v.requesters))).1

      idle-exited : has_exited x.handler ≡ true
      idle-exited =
          handler_step-rests x.handler x.state.shared no_hosts
            (requester_lines net files cap n m x.state v.seen idle-AreThreadsAtRest some_room).0
            (resolver_lines net files cap n m x.state v.seen idle-AreThreadsAtRest some_room).0
            no_files idle-handler

exited-eq : (h : Handler) → has_exited h ≡ true → h ≡ handler_exited
exited-eq handler_exited e = refl
exited-eq h e = ground arith

-- The handler comes to its exit when main takes the signal after it has created the resolvers. Let the
-- program have run so far, in any way, with at least one requester, one resolver and room for one
-- item; let main be past the creation of the resolvers when it takes the signal. Then the process has
-- exited after more rounds, in each of which each thread has its turn, than there is work left and
-- eight, whichever further turns, with failing allocations or not, a round has.
pub handler-exits :
    (net : Net) (files : Files) (cap n m : ℕ) (names : List Text) (before : List Choice)
    (rounds : List (List Choice))
    → 0 < cap
    → 0 < n
    → 0 < m
    → is_before_create (Program.run net files cap m (start names n) before).main ≡ false
    → All (IsFullRound n m) rounds
    → 8 + work files m (Program.run net files cap m (start names n) before) < length rounds
    → (run
        (signal_step net files cap m)
        (interrupt main_thread (Program.run net files cap m (start names n) before))
        (joined rounds)).handler
      ≡ handler_exited
handler-exits net files cap n m names before rounds hc hn hm created full enough = exited-eq _ (
    rounds_done (next net files cap n m) (IsLive n m) (next-IsLive net files cap n m)
      (signal_work net files cap n m) (next-work net files cap n m) (IsFullRound n m)
      (λ x. has_exited x.handler ≡ true) (next-exited net files cap n m)
      (λ x cs v round idle. elim (Bool-cases (has_exited x.handler)) [
        | inl gone ↦ gone
        | inr still ↦ idle-exited net files cap n m x cs v round idle still hc hn hm
      ])
      (interrupt main_thread s) rounds live full (omega (arith, enough)))
  where
    s : State
    s = Program.run net files cap m (start names n) before

    phased : IsPhased s
    phased = run-IsPhased net files cap m (start names n) before (start-IsPhased names n)

    staffed : IsStaffed n m s
    staffed = run-IsStaffed net files cap n m (start names n) before (start-IsStaffed n m names)

    live : IsLive n m (interrupt main_thread s)
    live = record {
      by_main = refl;
      seen = record {
        files = phased.files_ended;
        hosts = phased.hosts_ended;
        requester_log = phased.requester_logged;
        resolver_log = phased.resolver_logged;
      };
      freed = ground arith;
      requesters = staffed.requesters;
      resolvers = staffed.resolvers created;
    }

-- ===== src/Lookup/Agreement.antt =====
-- multi-lookup and dnssimple on the same files.
use os_dns_resolver.Base.{
  ℕ, ◌≡◌, ◌<◌, refl, sym, ap, ◌∙◌, List, [], ◌∷◌, ◌++◌, Bool, true, some, map, length, All,
  append_assoc, arith,
}
use os_dns_resolver.Strings.{Text, newline}
use os_dns_resolver.Lines.Print.{print_hosts}
use os_dns_resolver.Resolve.{Net}
use os_dns_resolver.Simple.{Files, Output, exit_success}
use os_dns_resolver.Simple.Correct.{all_hosts, entries, entry, file_size, main_spec, main_correct}
use os_dns_resolver.Lookup.Program.{start, run, Choice, main_done, all}
use os_dns_resolver.Lookup.Weights.{resolved}
use os_dns_resolver.Lookup.Complete.{nonempty, targets, logs-perm}
use mathlib.Core.List.{Perm}
use std.Path.{subst}
use os_dns_resolver.Lookup.Weights.Runs.{allocates}
use os_dns_resolver.Simple

abbrev pub IsNonempty : Text → Type 0
IsNonempty h = 0 < length h

nonempty-eq : (hs : List Text) → All IsNonempty hs → nonempty hs ≡ hs
unfolding nonempty
nonempty-eq [] h = refl
nonempty-eq ([] ∷ hs) h = ground (arith, h)
nonempty-eq ((b ∷ t) ∷ hs) h = ap (λ ts. (b ∷ t) ∷ ts) (nonempty-eq hs h.1)

-- The log of dnssimple has one message to a line.
entries-lines :
    (net : Net) (hs : List Text) → entries net hs ≡ print_hosts (map (resolved net) hs) []
unfolding entries entry print_hosts
entries-lines net [] = refl
entries-lines net (h ∷ hs) =
    append_assoc (resolved net h) (newline ∷ []) (entries net hs)
    ∙ ap (λ t. resolved net h ++ (newline ∷ t)) (entries-lines net hs)

succeeded :
    (net : Net) (files : Files) (log_file : Text) (names : List Text) (out : Output)
    → some (main_spec net files log_file names) ≡ some (exit_success, out)
    → out.log ≡ entries net (all_hosts files names)
unfolding main_spec
succeeded net files log_file names out h = ground (arith, h)

-- When dnssimple has succeeded on data files none of which has an empty line, with fuel that exceeds
-- the size of each, and main of multi-lookup is done on the same files, in any interleaving, with at
-- least one requester and one resolver, and the allocations of both programs succeed: the resolver
-- log of multi-lookup has the lines of the log of dnssimple, each as often, in some order.
pub logs-agree :
    (net : Net) (files : Files) (allocated : Text → Bool) (fuel : ℕ) (log_file name : Text)
    (names : List Text) (out : Output) (cap n m : ℕ) (cs : List Choice)
    → ((log : Text) → allocated log ≡ true)
    → All (λ f. file_size (files.read f) < fuel) (name ∷ names)
    → Simple.main net files allocated fuel (log_file ∷ name ∷ names) ≡ some (exit_success, out)
    → All IsNonempty (all_hosts files (name ∷ names))
    → 0 < n
    → 0 < m
    → all allocates cs ≡ true
    → (run net files cap m (start (name ∷ names) n) cs).main ≡ main_done
    → (lines : List Text) × (out.log ≡ print_hosts lines [])
      × Perm (run net files cap m (start (name ∷ names) n) cs).resolver_log lines
unfolding targets
logs-agree net files allocated fuel log_file name names out cap n m cs enough fits ok full hn hm
      memory ended =
    (
      map (resolved net) (all_hosts files (name ∷ names)),
      succeeded net files log_file (name ∷ names) out
            (sym (main_correct net files allocated fuel log_file name names enough fits) ∙ ok)
          ∙ entries-lines net (all_hosts files (name ∷ names)),
      subst
          (λ hs.
            Perm (run net files cap m (start (name ∷ names) n) cs).resolver_log
              (map (resolved net) hs))
          (nonempty-eq (all_hosts files (name ∷ names)) full)
          (logs-perm net files cap n m (name ∷ names) cs hn hm memory ended).1,
    )

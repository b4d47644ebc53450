-- ===== src/Simple/Answers.antt =====
-- What dnssimple logs whichever of its allocations fail.
use os_dns_resolver.Base.{
  ◌<◌, ◌≡◌, arith, refl, sym, ap, ◌∙◌, true, false, List, Option, Bool, ◌∷◌, ℕ, [], ◌++◌, some,
  append_assoc, ◌⊎◌, inl, inr, length, suc, none, zero, append-nil, All,
}
use mathlib.Core.Path.{subst}
use os_dns_resolver.Strings.{Text, newline, host_of}
use os_dns_resolver.Lines.{getline, hosts, break_line}
use os_dns_resolver.Lines.Fuel.{hosts-nil, hosts-cons, length-break_line}
use os_dns_resolver.Resolve.{Net, message}
use os_dns_resolver.Resolve.Message.{dns_resolve-unallocated}
use os_dns_resolver.Simple.{
  Files, log_host, process_lines, process_opened, process_files, Output, process_file, check_files,
  main,
}
use os_dns_resolver.Simple.Correct.{
  outcome, entry, file_size, file_hosts, all_hosts, invalid_name, invalid_names,
  check_files-invalid, check_files-valid,
}

-- "%s, NOT_RESOLVED\n"
abbrev pub unresolved : Text → Text
unresolved h = message h none ++ newline ∷ []

-- A line for each host, in order: that of a run whose allocations succeed, or NOT_RESOLVED.
abbrev pub IsLog : Net → List Text → Text → Type 0
IsLog net [] log = log ≡ []
IsLog net (h ∷ hs) log =
    (rest : Text) × ((log ≡ entry net h ++ rest) ⊎ (log ≡ unresolved h ++ rest)) × IsLog net hs rest

append-IsLog :
    (net : Net) (xs ys : List Text) (a b : Text)
    → IsLog net xs a
    → IsLog net ys b
    → IsLog net (xs ++ ys) (a ++ b)
append-IsLog net [] ys a b e h = subst (λ t. IsLog net ys (t ++ b)) (sym e) h
append-IsLog net (x ∷ xs) ys a b (rest, first, h) k = (
  rest ++ b,
  elim first [
    | inl e ↦ inl (ap (λ t. t ++ b) e ∙ append_assoc (entry net x) rest b)
    | inr e ↦ inr (ap (λ t. t ++ b) e ∙ append_assoc (unresolved x) rest b)
  ],
  append-IsLog net xs ys rest b h k,
)

module _ (net : Net) (files : Files) (allocated : Text → Bool) where
  -- The line that a turn of the loop appends.
  log_host-line :
      (h log : Text) (ok : Bool)
      → (l : Text) × (log_host net h ok log ≡ log ++ l) × ((l ≡ entry net h) ⊎ (l ≡ unresolved h))
  unfolding log_host entry
  log_host-line h log true = (entry net h, refl, inl refl)
  log_host-line h log false = (
    unresolved h,
    ap (λ o. log ++ (message h o ++ newline ∷ [])) (dns_resolve-unallocated net h),
    inr refl,
  )

  process_lines-IsLog :
      (fuel : ℕ) (bytes log : Text)
      → length bytes < fuel
      → (t : Text) × (process_lines net files allocated fuel bytes log ≡ some (log ++ t))
        × IsLog net (hosts bytes) t
  unfolding process_lines getline
  process_lines-IsLog zero bytes log h = elim h [ ]
  process_lines-IsLog (suc fuel) [] log h =
      ([], ap some (sym (append-nil log)), subst (λ hs. IsLog net hs []) (sym hosts-nil) refl)
  process_lines-IsLog (suc fuel) (b ∷ bs) log h =
      let (line, rest) = break_line (b ∷ bs) in
      let host = host_of line in
      let (t, e, lines) =
        process_lines-IsLog fuel rest (log_host net host (allocated log) log)
          (omega (arith, length-break_line b bs)) in
      let (l, f, cases) = log_host-line host log (allocated log) in
      (
        l ++ t,
        e ∙ ap some (ap (λ x. x ++ t) f ∙ append_assoc log l t),
        subst (λ hs. IsLog net hs (l ++ t)) (sym (hosts-cons b bs))
            (
              t,
              elim cases [ inl g ↦ inl (ap (λ x. x ++ t) g) | inr g ↦ inr (ap (λ x. x ++ t) g) ],
              lines,
            ),
      )

  process_opened-IsLog :
      (fuel : ℕ) (name : Text) (o : Option Text) (out : Output)
      → file_size o < fuel
      → (t : Text) × (process_opened net files allocated fuel name o out
          ≡ some (record { log = out.log ++ t; invalid = out.invalid ++ invalid_name name o }))
        × IsLog net (file_hosts o) t
  unfolding process_opened file_hosts
  process_opened-IsLog fuel name none out h = (
    [],
    ap (λ t. some (record { log = t; invalid = out.invalid ++ name ∷ [] }))
        (sym (append-nil out.log)),
    refl,
  )
  process_opened-IsLog fuel name (some bytes) out h =
      let (t, e, lines) = process_lines-IsLog fuel bytes out.log h in
      (t, rw (e, process_opened, append-nil) refl, lines)

  process_files-IsLog :
      (fuel : ℕ) (names : List Text) (out : Output)
      → All (λ name. file_size (files.read name) < fuel) names
      → (t : Text) × (process_files net files allocated fuel names out
          ≡ some
              (record { log = out.log ++ t; invalid = out.invalid ++ invalid_names files names }))
        × IsLog net (all_hosts files names) t
  unfolding process_files process_file all_hosts invalid_names
  process_files-IsLog fuel [] out h = ([], simp append-nil, refl)
  process_files-IsLog fuel (name ∷ names) out h =
      let (t, e, lines) = process_opened-IsLog fuel name (files.read name) out h.0 in
      let (u, f, more) =
        process_files-IsLog fuel names
          (record {
            log = out.log ++ t;
            invalid = out.invalid ++ invalid_name name (files.read name);
          })
          h.1 in
      (
        t ++ u,
        rw (e, process_files) (f ∙ simp append_assoc),
        append-IsLog net (file_hosts (files.read name)) (all_hosts files names) t u lines more,
      )

-- dnssimple ends whichever of its allocations fail, if the fuel exceeds the size of each data file,
-- and exits as it does where they succeed, with the same names reported. The log, if it is written,
-- has a line for each line of each file that opens, in the order of the command line: the line that
-- is logged where the allocations succeed, or the host and NOT_RESOLVED.
pub main_answers :
    (net : Net) (files : Files) (allocated : Text → Bool) (fuel : ℕ) (log_file name : Text)
    (names : List Text)
    → All (λ n. file_size (files.read n) < fuel) (name ∷ names)
    → (logged : Text) × (main net files allocated fuel (log_file ∷ name ∷ names)
        ≡ some (outcome files log_file (name ∷ names) logged))
      × IsLog net (all_hosts files (name ∷ names)) logged
unfolding main outcome
main_answers net files allocated fuel log_file name names h =
    let (t, e, lines) =
      process_files-IsLog net files allocated fuel (name ∷ names)
        (record { log = []; invalid = (check_files files (name ∷ names)).1 }) h in
    (
      t,
      ground (
        arith,
        check_files-invalid files (name ∷ names),
        check_files-valid files (name ∷ names),
        e,
      ),
      lines,
    )

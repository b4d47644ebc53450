-- ===== src/Simple/Correct.antt =====
-- What dnssimple logs.
use os_dns_resolver.Base.{
  ◌<◌, ◌≡◌, arith, refl, sym, ap, ◌∙◌, true, List, Option, Bool, ◌∷◌, ℕ, [], ◌++◌, some,
  append_assoc, length, suc, none, zero, append-nil, All, Option-cases, ◌+◌, if◌then◌else◌, inl,
  ◌==◌, inr,
}
use os_dns_resolver.Strings.{Text, newline, host_of}
use os_dns_resolver.Lines.{getline, hosts, break_line}
use os_dns_resolver.Lines.Fuel.{hosts-nil, hosts-cons, length-break_line}
use os_dns_resolver.Resolve.{Net, dns_resolve, message}
use os_dns_resolver.Simple.{
  Files, log_host, process_lines, process_opened, process_files, Output, process_file, check_files,
  Exit, main, no_valid_files, exit_success, no_log_file,
}

-- The line that is logged for a host whose address finds memory, and those for a list of hosts.
unfoldable pub entry : Net → Text → Text
entry net h = message h (dns_resolve net h true) ++ newline ∷ []

unfoldable pub entries : Net → List Text → Text
entries net [] = []
entries net (h ∷ hs) = entry net h ++ entries net hs

abbrev pub file_size : Option Text → ℕ
file_size none = 0
file_size (some bytes) = length bytes

-- The hosts of the files that can be read, in order, and the names of the others.
unfoldable pub file_hosts : Option Text → List Text
file_hosts none = []
file_hosts (some bytes) = hosts bytes

unfoldable pub all_hosts : Files → List Text → List Text
all_hosts files [] = []
all_hosts files (name ∷ names) = file_hosts (files.read name) ++ all_hosts files names

entries-append :
    (net : Net) (xs ys : List Text) → entries net (xs ++ ys) ≡ entries net xs ++ entries net ys
unfolding entries
entries-append net [] ys = refl
entries-append net (x ∷ xs) ys = simp (entries-append net xs ys, append_assoc)

module _ (net : Net) (files : Files) (allocated : Text → Bool)
    (enough : (log : Text) → allocated log ≡ true) where
  append_nothing : (log : Text) → log ++ entries net (hosts []) ≡ log
  unfolding entries
  append_nothing log = ap (λ hs. log ++ entries net hs) hosts-nil ∙ append-nil log

  logged :
      (log h rest : Text)
      → log_host net h (allocated log) log ++ entries net (hosts rest)
        ≡ log ++ entries net (h ∷ hosts rest)
  unfolding log_host entries entry
  logged log h rest = rw (enough log) (append_assoc log (entry net h) (entries net (hosts rest)))

  process_lines-eq :
      (fuel : ℕ) (bytes log : Text)
      → length bytes < fuel
      → process_lines net files allocated fuel bytes log ≡ some (log ++ entries net (hosts bytes))
  unfolding process_lines getline
  process_lines-eq zero bytes log h = elim h [ ]
  process_lines-eq (suc fuel) [] log h = ap some (sym (append_nothing log))
  process_lines-eq (suc fuel) (b ∷ bs) log h =
      let (line, rest) = break_line (b ∷ bs) in
      process_lines-eq fuel rest (log_host net (host_of line) (allocated log) log)
        (omega (arith, length-break_line b bs))
      ∙ ap some (
          logged log (host_of line) rest ∙ ap (λ hs. log ++ entries net hs) (sym (hosts-cons b bs)))

-- The names that cannot be opened.
abbrev pub invalid_name : Text → Option Text → List Text
invalid_name name none = name ∷ []
invalid_name name (some bytes) = []

unfoldable pub invalid_names : Files → List Text → List Text
invalid_names files [] = []
invalid_names files (name ∷ names) =
    invalid_name name (files.read name) ++ invalid_names files names

module _ (net : Net) (files : Files) (allocated : Text → Bool)
    (enough : (log : Text) → allocated log ≡ true) where
  process_opened-eq :
      (fuel : ℕ) (name : Text) (o : Option Text) (out : Output)
      → file_size o < fuel
      → process_opened net files allocated fuel name o out
        ≡ some (record {
          log = out.log ++ entries net (file_hosts o);
          invalid = out.invalid ++ invalid_name name o;
        })
  unfolding process_opened file_hosts entries
  process_opened-eq fuel name none out h =
      ap (λ t. some (record { log = t; invalid = out.invalid ++ name ∷ [] }))
        (sym (append-nil out.log))
  process_opened-eq fuel name (some bytes) out h =
      rw (
        process_lines-eq net files allocated enough fuel bytes out.log h,
        process_opened,
        append-nil,
      )

  process_files-eq :
      (fuel : ℕ) (names : List Text) (out : Output)
      → All (λ name. file_size (files.read name) < fuel) names
      → process_files net files allocated fuel names out
        ≡ some (record {
          log = out.log ++ entries net (all_hosts files names);
          invalid = out.invalid ++ invalid_names files names;
        })
  unfolding process_files process_file all_hosts invalid_names entries
  process_files-eq fuel [] out h = simp append-nil
  process_files-eq fuel (name ∷ names) out h =
      rw (process_opened-eq fuel name (files.read name) out h.0, process_files)
        (process_files-eq fuel names _ h.1 ∙ simp (entries-append, append_assoc))

pub check_files-invalid :
    (files : Files) (names : List Text) → (check_files files names).1 ≡ invalid_names files names
unfolding check_files invalid_names
check_files-invalid files [] = refl
check_files-invalid files (name ∷ names) = elim (Option-cases (files.read name)) [
  | inl e ↦ rw (e, check_files) (ap (λ ns. name ∷ ns) (check_files-invalid files names))
  | inr (bytes, e) ↦ rw (e, check_files) (check_files-invalid files names)
]

pub check_files-valid :
    (files : Files) (names : List Text)
    → (check_files files names).0 + length (invalid_names files names) ≡ length names
unfolding check_files invalid_names
check_files-valid files [] = refl
check_files-valid files (name ∷ names) = elim (Option-cases (files.read name)) [
  | inl e ↦ rw (e, check_files) (omega (arith, check_files-valid files names))
  | inr (bytes, e) ↦ rw (e, check_files) (omega (arith, check_files-valid files names))
]

-- What main of dnssimple.c is to do with a log file and at least one data file, where the text that
-- it logs for all of them is `logged`.
unfoldable pub outcome : Files → Text → List Text → Text → Exit × Output
outcome files log_file names logged =
    let invalid = invalid_names files names in
    if length invalid == length names
    then (no_valid_files, record { log = []; invalid = invalid })
    else (if files.can_write log_file
        then (exit_success, record { log = logged; invalid = invalid ++ invalid })
        else (no_log_file, record { log = []; invalid = invalid }))

unfoldable pub main_spec : Net → Files → Text → List Text → Exit × Output
unfolding outcome
main_spec net files log_file names =
    outcome files log_file names (entries net (all_hosts files names))

-- dnssimple, where its allocations succeed and the fuel exceeds the size of each data file, ends,
-- and does the following: with no data file that opens it fails with the usage; else with a log
-- file that cannot be written it fails; else it writes, for each line of each file that opens, in
-- the order of the command line, the host, ", " and its address or NOT_RESOLVED, and succeeds. A
-- name that does not open is reported, by a run that goes on twice.
pub main_correct :
    (net : Net) (files : Files) (allocated : Text → Bool) (fuel : ℕ) (log_file name : Text)
    (names : List Text)
    → ((log : Text) → allocated log ≡ true)
    → All (λ n. file_size (files.read n) < fuel) (name ∷ names)
    → main net files allocated fuel (log_file ∷ name ∷ names)
      ≡ some (main_spec net files log_file (name ∷ names))
unfolding main main_spec outcome
main_correct net files allocated fuel log_file name names enough h = ground (
  arith,
  check_files-invalid files (name ∷ names),
  check_files-valid files (name ∷ names),
  process_files-eq net files allocated enough fuel (name ∷ names)
      (record { log = []; invalid = (check_files files (name ∷ names)).1 }) h,
)

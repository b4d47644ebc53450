-- ===== src/Simple.antt =====
-- dnssimple.c: the program with one thread. Every file system call is answered by `Files`: what
-- fopen reads (`none`: it fails), and whether the log file can be written. The log file is not one
-- of the data files.
pub mod Correct
pub mod Answers
mod Tests
use os_dns_resolver.Base.{
  ℕ, ◌+◌, zero, suc, List, [], ◌∷◌, ◌++◌, Bool, Option, none, some, length, if◌then◌else◌, ltb,
  ◌==◌,
}
use os_dns_resolver.Strings.{Text, newline, host_of}
use os_dns_resolver.Lines.{getline}
use os_dns_resolver.Resolve.{Net, dns_resolve, message}

pub record Files : Type 0 where
  pub read : Text → Option Text
  pub can_write : Text → Bool

-- What the program has written: the log file, and the names reported as invalid on stderr.
pub record Output : Type 0 where
  pub log : Text
  pub invalid : List Text

-- The exit of main: the two usage messages, the log file that cannot be opened, and success.
pub data Exit : Type 0 where
  missing_arguments no_valid_files no_log_file exit_success : Exit

-- One round of the loop of process_file; `allocated` answers the malloc of dns_resolve.
pub log_host : Net → Text → Bool → Text → Text
log_host net hostname allocated log =
    log ++ (message hostname (dns_resolve net hostname allocated) ++ newline ∷ [])

-- `allocated` answers the malloc of each round. The log so far differs from round to round, so any
-- sequence of answers is given by such a function.
module _ (net : Net) (files : Files) (allocated : Text → Bool) where
  -- The loop of process_file, on the bytes left in the file; `none` if the fuel runs out.
  pub process_lines : ℕ → Text → Text → Option Text
  unfolding log_host
  process_lines zero bytes log = none
  process_lines (suc fuel) bytes log = elim (getline bytes) [
    | none ↦ some log
    | some (line, rest) ↦
        let hostname = host_of line in
        process_lines fuel rest (log_host net hostname (allocated log) log)
  ]

  process_opened : ℕ → Text → Option Text → Output → Option Output
  unfolding process_lines
  process_opened fuel filename none out =
      some (record out { invalid = out.invalid ++ filename ∷ [] })
  process_opened fuel filename (some bytes) out = elim (process_lines fuel bytes out.log) [
    | none ↦ none
    | some log ↦ some (record out { log = log })
  ]

  -- process_file; main does not look at its result.
  pub process_file : ℕ → Text → Output → Option Output
  unfolding process_opened
  process_file fuel filename out = process_opened fuel filename (files.read filename) out

  pub process_files : ℕ → List Text → Output → Option Output
  unfolding process_file
  process_files fuel [] out = some out
  process_files fuel (name ∷ names) out = elim (process_file fuel name out) [
    | none ↦ none
    | some out' ↦ process_files fuel names out'
  ]

-- The first loop of main: the number of files that open, and the names of those that do not.
pub check_files : Files → List Text → ℕ × List Text
check_files files [] = (0, [])
check_files files (name ∷ names) =
    let (valid, invalid) = check_files files names in
    elim (files.read name) [ none ↦ (valid, name ∷ invalid) | some bytes ↦ (valid + 1, invalid) ]

abbrev nothing : Output
nothing = record { log = []; invalid = [] }

abbrev exits : Exit → Option Output → Option (Exit × Output)
exits e none = none
exits e (some out) = some (e, out)

-- main, on the arguments behind the program's name.
pub main : Net → Files → (Text → Bool) → ℕ → List Text → Option (Exit × Output)
unfolding check_files process_files
main net files allocated fuel [] = some (missing_arguments, nothing)
main net files allocated fuel (log_file ∷ []) = some (missing_arguments, nothing)
main net files allocated fuel (log_file ∷ name ∷ names) =
    let (valid, invalid) = check_files files (name ∷ names) in
    let out = record nothing { invalid = invalid } in
    if valid == 0
    then some (no_valid_files, out)
    else (if files.can_write log_file
        then exits exit_success (process_files net files allocated fuel (name ∷ names) out)
        else some (no_log_file, out))

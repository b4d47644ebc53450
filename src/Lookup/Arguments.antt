-- ===== src/Lookup/Arguments.antt =====
-- main of turnin/multi-lookup.c up to the start of the threads (lines 291-349): the checks of the
-- arguments and of the files. atoi is outside code: an argument. The two logs are different files.
use os_dns_resolver.Base.{
  ℕ, ◌≡◌, ◌<◌, List, [], ◌∷◌, Bool, true, not, length, ℤ, pos, pos_part, ltb_ℤ, arith, ◌==◌, ◌||◌,
  if◌then◌else◌, ◌↔◌,
}
use os_dns_resolver.Strings.{Text}
use os_dns_resolver.Simple.{Files, check_files}
use os_dns_resolver.Simple.Correct.{invalid_names, check_files-invalid, check_files-valid}

-- Why main exits with EXIT_FAILURE.
pub data Failure : Type 0 where
  missing_arguments bad_counts no_data_files no_valid_files no_requester_log no_resolver_log :
      Failure

-- The exit, or the numbers of requesters and resolvers and the data files that main goes on with.
-- Either way with the names reported as invalid.
pub data Checked : Type 0 where
  fails : Failure → List Text → Checked
  starts : ℕ → ℕ → List Text → List Text → Checked

-- `num <= 0`
abbrev pub is_nonpositive : ℤ → Bool
is_nonpositive num = not (ltb_ℤ (pos 0) num)

module _ (files : Files) where
  -- The opening of the logs.
  pub open_logs : Text → Text → Checked → List Text → Checked
  open_logs requester_log_file resolver_log_file go_on invalid =
      if not (files.can_write requester_log_file)
      then fails no_requester_log invalid
      else (if not (files.can_write resolver_log_file)
          then fails no_resolver_log invalid
          else go_on)

  -- The count of the files that open: the loop is that of dnssimple.c.
  pub check_data_files : ℕ → ℕ → Text → Text → List Text → Checked
  unfolding open_logs
  check_data_files requesters resolvers requester_log_file resolver_log_file [] =
      fails no_data_files []
  check_data_files requesters resolvers requester_log_file resolver_log_file (name ∷ names) =
      let (valid_files, invalid) = check_files files (name ∷ names) in
      if valid_files == 0
      then fails no_valid_files invalid
      else open_logs requester_log_file resolver_log_file
          (starts requesters resolvers invalid (name ∷ names)) invalid

  pub check_counts : ℤ → ℤ → Text → Text → List Text → Checked
  unfolding check_data_files
  check_counts num_requesters num_resolvers requester_log_file resolver_log_file names =
      if is_nonpositive num_requesters || is_nonpositive num_resolvers
      then fails bad_counts []
      else check_data_files (pos_part num_requesters) (pos_part num_resolvers) requester_log_file
          resolver_log_file names

  -- On the arguments behind the program's name.
  pub check_arguments : (Text → ℤ) → List Text → Checked
  unfolding check_counts
  check_arguments atoi
        (num_requesters ∷ num_resolvers ∷ requester_log_file ∷ resolver_log_file ∷ names) =
      check_counts (atoi num_requesters) (atoi num_resolvers) requester_log_file resolver_log_file
        names
  check_arguments atoi arguments = fails missing_arguments []

-- What has to hold for main to go on.
pub record IsAccepted (files : Files) (num_requesters num_resolvers : ℤ)
    (requester_log_file resolver_log_file : Text) (names : List Text) : Type 0 where
  pub requesters : 0 < pos_part num_requesters
  pub resolvers : 0 < pos_part num_resolvers
  pub some_file : length (invalid_names files names) < length names
  pub requester_log : files.can_write requester_log_file ≡ true
  pub resolver_log : files.can_write resolver_log_file ≡ true

module _ (files : Files) (a b : ℤ) (requester_log_file resolver_log_file : Text) where
  accepts :
      (names : List Text)
      → IsAccepted files a b requester_log_file resolver_log_file names
      → check_counts files a b requester_log_file resolver_log_file names
        ≡ starts (pos_part a) (pos_part b) (invalid_names files names) names
  unfolding check_counts check_data_files open_logs
  accepts [] h = ground (arith, h)
  accepts (name ∷ names) h =
      ground
        (arith, h, check_files-invalid files (name ∷ names), check_files-valid files (name ∷ names))

  accepted :
      (names : List Text) (n m : ℕ) (invalid data_files : List Text)
      → check_counts files a b requester_log_file resolver_log_file names
        ≡ starts n m invalid data_files
      → IsAccepted files a b requester_log_file resolver_log_file names
        × (n ≡ pos_part a)
        × (m ≡ pos_part b)
        × (invalid ≡ invalid_names files names)
        × (data_files ≡ names)
  unfolding check_counts check_data_files open_logs
  accepted [] n m invalid data_files h = ground (arith, h)
  accepted (name ∷ names) n m invalid data_files h =
      ground
        (arith, h, check_files-invalid files (name ∷ names), check_files-valid files (name ∷ names))

-- main goes on to start the threads if and only if both numbers are positive, a data file opens, and
-- both logs can be written. It goes on with those numbers and with all data files, having reported
-- the names that do not open.
pub check_arguments-starts :
    (files : Files) (atoi : Text → ℤ) (a b requester_log_file resolver_log_file : Text)
    (names : List Text) (n m : ℕ) (invalid data_files : List Text)
    → (check_arguments files atoi (a ∷ b ∷ requester_log_file ∷ resolver_log_file ∷ names)
        ≡ starts n m invalid data_files)
      ↔ (IsAccepted files (atoi a) (atoi b) requester_log_file resolver_log_file names
          × (n ≡ pos_part (atoi a))
          × (m ≡ pos_part (atoi b))
          × (invalid ≡ invalid_names files names)
          × (data_files ≡ names))
unfolding check_arguments
check_arguments-starts files atoi a b requester_log_file resolver_log_file names n m invalid
      data_files =
    (
      accepted files (atoi a) (atoi b) requester_log_file resolver_log_file names n m invalid
          data_files,
      λ (h, en, em, ei, ed).
          rw (en, em, ei, ed)
            (accepts files (atoi a) (atoi b) requester_log_file resolver_log_file names h),
    )

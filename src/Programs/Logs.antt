-- ===== src/Programs/Logs.antt =====
-- Data files that differ from the logs.
use os_dns_resolver.Base.{
  ℕ, ◌≡◌, ◌≢◌, refl, ap₂, List, [], ◌∷◌, ◌++◌, true, total, All, arith, inl, inr, Bool-cases,
}
use os_dns_resolver.Strings.{Text}
use os_dns_resolver.Simple.{Files}
use os_dns_resolver.Simple.Correct.{all_hosts, file_hosts}
use os_dns_resolver.Lookup.Complete.{targets}
use os_dns_resolver.Lookup.Counts.Serviced.{opens}
use os_dns_resolver.Lookup.Program.{start}
use os_dns_resolver.Lookup.Work.{work, name_work}
use os_dns_resolver.Programs.{same_text, truncated}

same_text-eq : (a b : Text) → same_text a b ≡ true → a ≡ b
same_text-eq [] [] h = refl
same_text-eq (x ∷ a) (y ∷ b) h = ground (arith, same_text-eq a b)
same_text-eq a b h = ground arith

-- The names mean the same files.
abbrev pub AreSame : Files → Files → List Text → Type 0
AreSame files opened names = All (λ name. opened.read name ≡ files.read name) names

pub truncated-AreSame :
    (files opened : Files) (log : Text) (names : List Text)
    → AreSame files opened names
    → All (λ name. name ≢ log) names
    → AreSame files (truncated log opened) names
truncated-AreSame files opened log [] s h = _
truncated-AreSame files opened log (name ∷ names) (same, s) (ne, h) = (
  elim (Bool-cases (same_text name log)) [
    | inl e ↦ absurd (ne (same_text-eq name log e))
    | inr e ↦ simp e same
  ],
  truncated-AreSame files opened log names s h,
)

module _ (files opened : Files) where
  all_hosts-same :
      (names : List Text)
      → AreSame files opened names
      → all_hosts opened names ≡ all_hosts files names
  unfolding all_hosts
  all_hosts-same [] s = refl
  all_hosts-same (name ∷ names) (e, s) = ap₂ (λ o hs. file_hosts o ++ hs) e (all_hosts-same names s)

  pub targets-same :
      (names : List Text) → AreSame files opened names → targets opened names ≡ targets files names
  unfolding targets
  targets-same names s = simp (all_hosts-same names s)

  pub opens-same :
      (names : List Text)
      → AreSame files opened names
      → total (opens opened) names ≡ total (opens files) names
  opens-same [] s = refl
  opens-same (name ∷ names) (e, s) = simp (e, opens-same names s)

  name_work-same :
      (names : List Text)
      → AreSame files opened names
      → total (name_work opened) names ≡ total (name_work files) names
  name_work-same [] s = refl
  name_work-same (name ∷ names) (e, s) = simp (e, name_work-same names s)

  pub work-same :
      (n m : ℕ) (names : List Text)
      → AreSame files opened names
      → work opened m (start names n) ≡ work files m (start names n)
  unfolding start
  work-same n m names s = simp (name_work-same names s)

-- ===== src/Lines/Fuel.antt =====
-- The fuel that the loop over getline needs.
use os_dns_resolver.Base.{
  ℕ, zero, suc, List, [], ◌∷◌, some, length, arith, ◌≡◌, ◌<◌, ◌≤◌, refl, ◌∙◌, ap, sym,
}
use os_dns_resolver.Strings.{Text, host_of}
use os_dns_resolver.Lines.{break_line, getline, hosts_of, hosts, or_nil, add_host}

pub length-break_line : (b : ℕ) (bs : Text) → length (break_line (b ∷ bs)).1 ≤ length bs
unfolding break_line
length-break_line b [] = ground arith
length-break_line b (c ∷ bs) = ground (arith, length-break_line c bs)

hosts_of-enough :
    (fuel : ℕ) (bytes : Text)
    → length bytes < fuel
    → (hs : List Text) × (hosts_of fuel bytes ≡ some hs)
unfolding hosts_of getline
hosts_of-enough zero bytes h = elim h [ ]
hosts_of-enough (suc fuel) [] h = ([], refl)
hosts_of-enough (suc fuel) (b ∷ bs) h =
    let (hs, e) =
      hosts_of-enough fuel (break_line (b ∷ bs)).1 (omega (arith, length-break_line b bs)) in
    (host_of (break_line (b ∷ bs)).0 ∷ hs, rw e)

hosts_of-same :
    (f g : ℕ) (bytes : Text)
    → length bytes < f
    → length bytes < g
    → hosts_of f bytes ≡ hosts_of g bytes
unfolding hosts_of getline
hosts_of-same zero g bytes h k = elim h [ ]
hosts_of-same (suc f) zero bytes h k = elim k [ ]
hosts_of-same (suc f) (suc g) [] h k = refl
hosts_of-same (suc f) (suc g) (b ∷ bs) h k = rw (
    hosts_of-same f g (break_line (b ∷ bs)).1 (omega (arith, length-break_line b bs))
      (omega (arith, length-break_line b bs)))

-- The loop over getline ends on every file, after at most as many rounds as the file has bytes, and
-- one more that finds the end: with that fuel or more it returns the hosts of the file.
pub hosts_of-total :
    (fuel : ℕ) (bytes : Text) → length bytes < fuel → hosts_of fuel bytes ≡ some (hosts bytes)
unfolding hosts
hosts_of-total fuel bytes h =
    let (hs, e) = hosts_of-enough (suc (length bytes)) bytes (omega arith) in
    hosts_of-same fuel (suc (length bytes)) bytes h (omega arith) ∙ e ∙ ap some (sym (ap or_nil e))

-- The equations of the loop, without fuel.
pub hosts-nil : hosts [] ≡ []
unfolding hosts hosts_of getline
hosts-nil = refl

pub hosts-cons :
    (b : ℕ) (bs : Text)
    → hosts (b ∷ bs) ≡ host_of (break_line (b ∷ bs)).0 ∷ hosts (break_line (b ∷ bs)).1
unfolding hosts hosts_of getline
hosts-cons b bs =
    ap (λ o. or_nil (add_host (host_of (break_line (b ∷ bs)).0) o))
      (hosts_of-total (suc (length bs)) (break_line (b ∷ bs)).1
        (omega (arith, length-break_line b bs)))

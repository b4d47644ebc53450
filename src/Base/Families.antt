-- ===== src/Base/Families.antt =====
-- A finite family of threads, each with a state: what holds of all, and what they add up to.
use Prim.Native.Nat.{ℕ, zero, suc, ◌+◌, ◌*◌, ◌≤◌, ◌<◌}
use mathlib.Core.Path.{◌≡◌, refl, ap}
use mathlib.Core.List.{List, [], ◌∷◌, ◌++◌}
use mathlib.Core.Option.{some}
use native.Mathlib.Omega.{arith}
use os_dns_resolver.Base.Lists.{get_elem?, length, set, replicate}

module _ {ℓ} {A : Type ℓ} where
  abbrev pub total : (A → ℕ) → List A → ℕ
  total f [] = 0
  total f (p ∷ ps) = f p + total f ps

  pub total-append : (f : A → ℕ) (xs ys : List A) → total f (xs ++ ys) ≡ total f xs + total f ys
  total-append f [] ys = omega arith
  total-append f (x ∷ xs) ys = omega (arith, total-append f xs ys)

  pub total-replicate : (f : A → ℕ) (n : ℕ) (p : A) → f p ≡ 0 → total f (replicate n p) ≡ 0
  total-replicate f zero p e = refl
  total-replicate f (suc n) p e = omega (arith, total-replicate f n p e)

  pub total-set :
      (f : A → ℕ) (ps : List A) (i : ℕ) {p : A} (q : A)
      → get_elem? ps i ≡ some p
      → total f (set ps i q) + f p ≡ total f ps + f q
  total-set f [] i q e = ground arith
  total-set f (r ∷ ps) zero q e = ground arith
  total-set f (r ∷ ps) (suc i) q e = omega (arith, total-set f ps i q e)

  pub total-le :
      (f : A → ℕ) (ps : List A) (i : ℕ) {p : A} → get_elem? ps i ≡ some p → f p ≤ total f ps
  total-le f [] i e = ground arith
  total-le f (r ∷ ps) zero e = ground arith
  total-le f (r ∷ ps) (suc i) e = omega (arith, total-le f ps i e)

  pub total_zero :
      (f : A → ℕ) (ps : List A)
      → ((i : ℕ) (p : A) → get_elem? ps i ≡ some p → f p ≡ 0)
      → total f ps ≡ 0
  total_zero f [] h = refl
  total_zero f (r ∷ ps) h = omega (arith, h 0 r refl, total_zero f ps (λ i. h (suc i)))

  -- Where the sum is 1, one element alone counts.
  pub total_one :
      (f : A → ℕ) (ps : List A) (i j : ℕ) (p q : A)
      → total f ps ≡ 1
      → get_elem? ps i ≡ some p
      → get_elem? ps j ≡ some q
      → 0 < f p
      → 0 < f q
      → i ≡ j
  total_one f [] i j p q one hp hq a b = ground arith
  total_one f (r ∷ ps) zero zero p q one hp hq a b = refl
  total_one f (r ∷ ps) zero (suc j) p q one hp hq a b = ground (arith, total-le f ps j hq)
  total_one f (r ∷ ps) (suc i) zero p q one hp hq a b = ground (arith, total-le f ps i hp)
  total_one f (r ∷ ps) (suc i) (suc j) p q one hp hq a b =
      ap suc (total_one f ps i j p q (omega (arith, total-le f ps i hp)) hp hq a b)

  pub total_sum_le :
      (f g h : A → ℕ)
      → ((p : A) → f p + g p ≤ h p)
      → (ps : List A) → total f ps + total g ps ≤ total h ps
  total_sum_le f g h le [] = omega arith
  total_sum_le f g h le (r ∷ ps) = omega (arith, le r, total_sum_le f g h le ps)

  pub total_le_mul :
      (f : A → ℕ) (k : ℕ) → ((p : A) → f p ≤ k) → (ps : List A) → total f ps ≤ length ps * k
  total_le_mul f k le [] = omega arith
  total_le_mul f k le (r ∷ ps) = omega (arith, le r, total_le_mul f k le ps)

module _ {ℓ κ} {A : Type ℓ} where
  abbrev pub All : (A → Type κ) → List A → Type κ
  All P [] = Unit
  All P (p ∷ ps) = P p × All P ps

  pub All-get_elem? :
      (P : A → Type κ) (ps : List A) (i : ℕ) {p : A} → All P ps → get_elem? ps i ≡ some p → P p
  All-get_elem? P [] i h e = ground arith
  All-get_elem? P (r ∷ ps) zero h e = ground arith
  All-get_elem? P (r ∷ ps) (suc i) h e = All-get_elem? P ps i h.1 e

  pub All-set : (P : A → Type κ) (ps : List A) (i : ℕ) (q : A) → All P ps → P q → All P (set ps i q)
  All-set P [] i q h k = h
  All-set P (r ∷ ps) zero q h k = (k, h.1)
  All-set P (r ∷ ps) (suc i) q h k = (h.0, All-set P ps i q h.1 k)

  pub All-map : (P Q : A → Type κ) (ps : List A) → ((p : A) → P p → Q p) → All P ps → All Q ps
  All-map P Q [] f h = h
  All-map P Q (r ∷ ps) f h = (f r h.0, All-map P Q ps f h.1)

-- ===== src/Base/Bags.antt =====
-- Two lists over which every function sums to the same are permutations of one another.
use Prim.Native.Nat.{ℕ, ◌+◌}
use mathlib.Core.Path.{◌≡◌, refl, sym, ap, ◌∙◌}
use mathlib.Core.Logic.{ite}
use mathlib.Core.List.{List, [], ◌∷◌, Perm, count, count-cons, perm_iff_count}
use native.Mathlib.Bridge.{from_ℕ, to_ℕ, to_ℕ-from_ℕ, to_ℕ-+, from_hom₂}
use native.Mathlib.Omega.{arith}
use os_dns_resolver.Base.Families.{total}
use mathlib.Core.Nat as Unary

abbrev one_if {ℓ} : {P : Type ℓ} → Dec P → ℕ
one_if (yes p) = 1
one_if (no p) = 0

from_ℕ-ite {ℓ} :
    {P : Type ℓ} (d : Dec P) → from_ℕ (ite {C = Unary.ℕ} d Unary.one Unary.ℕ.zero) ≡ one_if d
from_ℕ-ite (yes p) = refl
from_ℕ-ite (no p) = refl

module _ {ℓ} {A : Type ℓ} (dec : Discrete A) where
  -- 1 at `a`.
  abbrev at : A → A → ℕ
  at a x = one_if (dec x a)

  count-total : (a : A) (xs : List A) → from_ℕ (count dec a xs) ≡ total (at a) xs
  count-total a [] = refl
  count-total a (x ∷ xs) =
      ap from_ℕ (count-cons dec a x xs)
      ∙ from_hom₂ Unary.◌+◌ ◌+◌ to_ℕ-+ (count dec a xs) _
      ∙ omega (arith, count-total a xs, from_ℕ-ite (dec x a))

  pub perm_of_totals : (xs ys : List A) → ((f : A → ℕ) → total f xs ≡ total f ys) → Perm xs ys
  perm_of_totals xs ys h = (perm_iff_count dec).1 λ a.
      sym (to_ℕ-from_ℕ (count dec a xs))
      ∙ ap to_ℕ (count-total a xs ∙ h (at a) ∙ sym (count-total a ys))
      ∙ to_ℕ-from_ℕ (count dec a ys)

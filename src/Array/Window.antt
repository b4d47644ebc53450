-- ===== src/Array/Window.antt =====
-- The items of the circular buffer, oldest first, and what a write behind them does.
use os_dns_resolver.Base.{
  ℕ, zero, suc, ◌+◌, ◌-◌, ◌≤◌, ◌<◌, ◌≡◌, refl, ap, ap₂, none, List, [], ◌∷◌, ◌++◌, length, get_or,
  set, get_or-set_self, get_or-set_ne, ltb, leb, ◌==◌, if◌then◌else◌, arith,
}
use native.Mathlib.Nat.{mod-eq_of_lt, mod-eq-sub-mod}
use native.Mathlib.Decide.{dec_lt}
use os_dns_resolver.Array.{Item, Array, next}

-- The number of items between the head and the tail.
abbrev pub span : ℕ → ℕ → ℕ → ℕ
span size head tail = if leb head tail then tail - head else tail + size - head

-- The modulus acts at the last index alone.
pub next-eq : (size i : ℕ) → i < size → next size i ≡ (if suc i == size then 0 else suc i)
next-eq size i h = elim (dec_lt (i + 1) size) [
  | yes p ↦ ground (arith, mod-eq_of_lt p)
  | no p ↦ ground (
    arith,
    mod-eq-sub-mod {n = i + 1} {m = size} (omega arith),
    mod-eq_of_lt {n = 0} {m = size} (omega arith),
  )
]

module _ (size : ℕ) where
  -- The index `n` places after `h`.
  abbrev pub place : ℕ → ℕ → ℕ
  place h zero = h
  place h (suc n) = place (next size h) n

  pub place-eq :
      (n h : ℕ)
      → h < size
      → n < size
      → place h n ≡ (if ltb (h + n) size then h + n else h + n - size)
  place-eq zero h lh ln = ground arith
  place-eq (suc n) h lh ln = ground (arith, next-eq size h lh, place-eq n (next size h))

  abbrev pub window : List Item → ℕ → ℕ → List Item
  window store h zero = []
  window store h (suc n) = get_or store h none ∷ window store (next size h) n

  pub length-window : (store : List Item) (h n : ℕ) → length (window store h n) ≡ n
  length-window store h zero = refl
  length-window store h (suc n) = ap suc (length-window store (next size h) n)

  -- A write just behind a window extends it.
  pub window-set :
      (store : List Item) (x : Item) (n h i : ℕ)
      → size ≤ length store
      → h < size
      → n < size
      → i ≡ place h n
      → window (set store i x) h (suc n) ≡ window store h n ++ x ∷ []
  window-set store x zero h i ls lh ln e =
      ap₂ ◌∷◌ (ground (arith, get_or-set_self store h x none)) refl
  window-set store x (suc n) h i ls lh ln e =
      ap₂ ◌∷◌ (get_or-set_ne store x none (ground (arith, place-eq (suc n) h lh ln))) (
        window-set store x n (next size h) i ls (ground (arith, next-eq size h lh)) (omega arith) e)

-- The items that the array holds, oldest first.
abbrev pub contents : ℕ → Array → List Item
contents size a = window size a.store a.head (span size a.head a.tail)

-- ===== src/Fifo.antt =====
-- What turnin/array.h promises of the shared queue: a bounded first-in first-out queue that can be
-- closed. A call that cannot be served is told to wait.
use os_dns_resolver.Base.{ℕ, Bool, true, List, [], ◌∷◌, ◌++◌, length, ◌==◌, if◌then◌else◌}

-- What a call of `put` and of `get` on items of type `A` comes to.
pub data PutReply : Type 0 where
  added full refused : PutReply

pub data GetReply {ℓ} (A : Type ℓ) : Type ℓ where
  found : A → GetReply A
  empty finished : GetReply A

pub record Fifo {ℓ} (A : Type ℓ) : Type ℓ where
  pub items : List A
  pub closed : Bool

module _ {ℓ} {A : Type ℓ} where
  unfoldable pub put : ℕ → Fifo A → A → Fifo A × PutReply
  put cap q x =
      if q.closed
      then (q, refused)
      else (if length q.items == cap
          then (q, full)
          else (record q { items = q.items ++ x ∷ [] }, added))

  unfoldable pub get_items : List A → Bool → Fifo A × GetReply A
  get_items [] closed = (record { items = []; closed = closed }, if closed then finished else empty)
  get_items (x ∷ xs) closed = (record { items = xs; closed = closed }, found x)

  unfoldable pub get : Fifo A → Fifo A × GetReply A
  unfolding get_items
  get q = get_items q.items q.closed

  unfoldable pub close : Fifo A → Fifo A
  close q = record q { closed = true }

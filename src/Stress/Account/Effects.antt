-- ===== src/Stress/Account/Effects.antt =====
-- What a step of a producer and of a consumer does to the account.
use native.Mathlib.Decide.{ℕ_discrete}
use os_dns_resolver.Base.{
  length-append, sym, Bool, false, inl, inr, ◌==◌, All, All-set, get_or, set, get_or-set_self,
  get_or-set_ne, length-set, negsuc, pos, none, some, ℕ, ◌+◌, ◌≡◌, ◌<◌, ◌≤◌, ◌⊎◌, List, [], ◌∷◌,
  length, total, total-append, arith, ℤ, Option, refl,
}
use os_dns_resolver.Strings.{Text}
use os_dns_resolver.Fifo.{Fifo, GetReply, found, empty, finished}
use mathlib.Core.Path.{subst}
use os_dns_resolver.Stress.{
  took_name, main_exit, Producer, pro_test, pro_put, pro_count, pro_done, Consumer, con_get,
  con_read, con_done, State, producer_step, consumer_step, marked, mark,
}
use os_dns_resolver.Stress.Names.{scan_host, host_name}
use os_dns_resolver.Stress.Names.Laws.{scan_host-host_name}
use os_dns_resolver.Stress.Account.{
  producer_covers, text_covers, consumer_covers, left, uncounted, text_counts, consumer_counts,
  is_producing, is_consuming, has_ended, IsEnded,
}
use os_dns_resolver.Fifo

pub record IsProEffect (p p' : Producer) (s s' : State) : Type 0 where
  pub consumed_items : s'.consumed_items ≡ s.consumed_items
  pub items_consumed : s'.items_consumed ≡ s.items_consumed
  pub consumers : s'.consumers ≡ s.consumers
  pub main : (s'.main ≡ s.main) ⊎ (s'.main ≡ main_exit false)
  pub closed : s'.queue.closed ≡ s.queue.closed
  pub produced : s'.items_produced + left p' ≡ s.items_produced + left p
  pub counted :
      total text_counts s'.queue.items + s.items_produced + uncounted p
      ≡ total text_counts s.queue.items + s'.items_produced + uncounted p'
  pub scanned :
      total text_counts s.queue.items ≡ length s.queue.items
      → total text_counts s'.queue.items ≡ length s'.queue.items
  pub falls : is_producing p' ≤ is_producing p
  pub ended : IsEnded s.queue → IsEnded s'.queue

pub producer_step-IsProEffect :
    (cap : ℕ) (ok : Bool) (p : Producer) (s : State)
    → (0 < is_producing p → s.queue.closed ≡ false)
    → let (p', s') = producer_step cap ok p s in IsProEffect p p' s s'
unfolding producer_step Fifo.put
producer_step-IsProEffect cap ok (pro_test i end) s open_while = ground arith
producer_step-IsProEffect cap ok (pro_put i end) s open_while = ground (
  arith,
  total-append text_counts s.queue.items (host_name i ∷ []),
  length-append s.queue.items (host_name i ∷ []),
  scan_host-host_name i,
)
producer_step-IsProEffect cap ok (pro_count i end) s open_while = ground arith
producer_step-IsProEffect cap ok pro_done s open_while = ground arith

-- No number is lost, and none made twice.
pub producer_step-covers :
    (cap : ℕ) (ok : Bool) (p : Producer) (s : State) (j : ℕ)
    → (0 < is_producing p → s.queue.closed ≡ false)
    → let (p', s') = producer_step cap ok p s in
      total (text_covers j) s'.queue.items + producer_covers j p'
      ≡ total (text_covers j) s.queue.items + producer_covers j p
unfolding producer_step Fifo.put
producer_step-covers cap ok (pro_test i end) s j open_while = ground arith
producer_step-covers cap ok (pro_put i end) s j open_while =
    ground
      (arith, total-append (text_covers j) s.queue.items (host_name i ∷ []), scan_host-host_name i)
producer_step-covers cap ok (pro_count i end) s j open_while = ground arith
producer_step-covers cap ok pro_done s j open_while = ground arith

pub record IsConEffect (items : ℕ) (c c' : Consumer) (s s' : State) : Type 0 where
  pub items_produced : s'.items_produced ≡ s.items_produced
  pub producers : s'.producers ≡ s.producers
  pub main : s'.main ≡ s.main
  pub closed : s'.queue.closed ≡ s.queue.closed
  pub counted :
      s'.items_consumed + total text_counts s'.queue.items + consumer_counts c'
      ≡ s.items_consumed + total text_counts s.queue.items + consumer_counts c
  pub scanned :
      total text_counts s.queue.items ≡ length s.queue.items
      → total text_counts s'.queue.items ≡ length s'.queue.items
  pub grows : s.items_consumed ≤ s'.items_consumed
  pub falls : is_consuming c' ≤ is_consuming c
  pub ended : IsEnded s.queue → IsEnded s'.queue
  pub emptied : s.queue.items ≡ [] → s'.queue.items ≡ []
  pub over : 0 < has_ended c' → (0 < has_ended c) ⊎ IsEnded s.queue ⊎ (items ≤ s'.items_consumed)
  pub size : length s'.consumed_items ≡ length s.consumed_items

length-mark : (xs : List ℕ) (r : ℤ) → length (mark xs r) ≡ length xs
length-mark xs (pos n) = length-set xs n 1
length-mark xs (negsuc n) = refl

marked-IsConEffect :
    (items : ℕ) (h : Text) (s : State) (r : Option ℤ)
    → scan_host h ≡ r
    → let (c', s') = marked items s r in IsConEffect items (con_read h) c' s s'
marked-IsConEffect items h s none e = ground (arith, e)
marked-IsConEffect items h s (some n) e = ground (arith, e, length-mark s.consumed_items n)

text_counts-le : (xs : List Text) → total text_counts xs ≤ length xs
text_counts-le [] = omega arith
text_counts-le (x ∷ xs) = ground (arith, text_counts-le xs)

took_name-IsConEffect :
    (items : ℕ) (s : State) (closed : Bool) (ts : List Text)
    → s.queue.items ≡ ts
    → s.queue.closed ≡ closed
    → let (c', s') = took_name s (Fifo.get_items ts closed) in IsConEffect items con_get c' s s'
unfolding Fifo.get_items
took_name-IsConEffect items s closed [] e f = ground (arith, e, f)
took_name-IsConEffect items s closed (t ∷ ts) e f = ground (arith, e, f, text_counts-le ts)

pub consumer_step-IsConEffect :
    (items : ℕ) (c : Consumer) (s : State)
    → let (c', s') = consumer_step items c s in IsConEffect items c c' s s'
unfolding consumer_step Fifo.get
consumer_step-IsConEffect items con_get s =
    took_name-IsConEffect items s s.queue.closed s.queue.items refl refl
consumer_step-IsConEffect items (con_read h) s = marked-IsConEffect items h s (scan_host h) refl
consumer_step-IsConEffect items con_done s = ground arith

-- The mark of a number is 1, and the others stay.
mark_cases :
    (xs : List ℕ) (n j : ℕ)
    → j < length xs
    → ((n ≡ j) × (get_or (set xs n 1) j 0 ≡ 1))
      ⊎ (((n == j) ≡ false) × (get_or (set xs n 1) j 0 ≡ get_or xs j 0))
mark_cases xs n j h = elim (ℕ_discrete n j) [
  | yes e ↦ inl (e, rw e (get_or-set_self xs j 1 0 h))
  | no ne ↦ inr (ground arith, get_or-set_ne xs 1 0 ne)
]

marked-covers :
    (items : ℕ) (h : Text) (s : State) (r : Option ℤ) (j : ℕ)
    → scan_host h ≡ r
    → j < length s.consumed_items
    → let (c', s') = marked items s r in
      (1 ≤ get_or s'.consumed_items j 0)
      ⊎ (total (text_covers j) s'.queue.items + consumer_covers j c' + get_or s'.consumed_items j 0
          ≡ total (text_covers j) s.queue.items
            + consumer_covers j (con_read h)
            + get_or s.consumed_items j 0)
marked-covers items h s none j e lt = ground (arith, e)
marked-covers items h s (some (pos n)) j e lt =
    ground (arith, e, mark_cases s.consumed_items n j lt)
marked-covers items h s (some (negsuc n)) j e lt = ground (arith, e)

-- A number that a consumer takes is marked.
pub consumer_step-covers :
    (items : ℕ) (c : Consumer) (s : State) (j : ℕ)
    → j < length s.consumed_items
    → let (c', s') = consumer_step items c s in
      (1 ≤ get_or s'.consumed_items j 0)
      ⊎ (total (text_covers j) s'.queue.items + consumer_covers j c' + get_or s'.consumed_items j 0
          ≡ total (text_covers j) s.queue.items + consumer_covers j c + get_or s.consumed_items j 0)
unfolding consumer_step Fifo.get
consumer_step-covers items con_get s j lt = ground arith
consumer_step-covers items (con_read h) s j lt = marked-covers items h s (scan_host h) j refl lt
consumer_step-covers items con_done s j lt = ground arith

marked-bits :
    (items : ℕ) (s : State) (r : Option ℤ)
    → All (λ x. x ≤ 1) s.consumed_items
    → All (λ x. x ≤ 1) (marked items s r).1.consumed_items
marked-bits items s none h = h
marked-bits items s (some (pos n)) h = All-set (λ x. x ≤ 1) s.consumed_items n 1 h (omega arith)
marked-bits items s (some (negsuc n)) h = h

took_name-marks :
    (s : State) (r : Fifo Text × GetReply Text)
    → (took_name s r).1.consumed_items ≡ s.consumed_items
took_name-marks s (q, found h) = refl
took_name-marks s (q, empty) = refl
took_name-marks s (q, finished) = refl

pub consumer_step-bits :
    (items : ℕ) (c : Consumer) (s : State)
    → All (λ x. x ≤ 1) s.consumed_items
    → All (λ x. x ≤ 1) (consumer_step items c s).1.consumed_items
unfolding consumer_step Fifo.get
consumer_step-bits items con_get s h =
    subst (All (λ x. x ≤ 1)) (sym (took_name-marks s (Fifo.get s.queue))) h
consumer_step-bits items (con_read t) s h = marked-bits items s (scan_host t) h
consumer_step-bits items con_done s h = h

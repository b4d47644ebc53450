-- ===== src/Stress/Account.antt =====
-- What the stress test keeps: an account of every number, of the items produced and consumed, and of
-- the phases of main.
pub mod Effects
pub mod Steps
pub mod Start
use os_dns_resolver.Base.{
  ℕ, suc, ◌+◌, ◌-◌, ◌*◌, ◌≡◌, ◌<◌, ◌≤◌, ◌⊎◌, List, [], Bool, true, false, ◌&&◌, Option, none, some,
  ltb, leb, ◌==◌, if◌then◌else◌, length, get_or, total, All, ℤ, pos, negsuc, ◌||◌,
}
use os_dns_resolver.Strings.{Text}
use os_dns_resolver.Fifo.{Fifo}
use os_dns_resolver.Stress.Names.{scan_host}
use os_dns_resolver.Stress.{
  Producer, pro_test, pro_put, pro_count, pro_done, Consumer, con_get, con_read, con_done, Main,
  main_join_producers, main_wait, main_free, main_drain, main_join_consumers, main_verify,
  main_exit, State,
}

abbrev one_if : Bool → ℕ
one_if true = 1
one_if false = 0

-- 1 if the producer has still to put the number `j`.
abbrev pub producer_covers : ℕ → Producer → ℕ
producer_covers j (pro_test i end) = one_if (leb i j && ltb j end)
producer_covers j (pro_put i end) = one_if (leb i j && (ltb j end || j == i))
producer_covers j (pro_count i end) = one_if (ltb i j && ltb j end)
producer_covers j pro_done = 0

-- 1 if the text is read as `j`.
abbrev pub number_covers : ℕ → Option ℤ → ℕ
number_covers j (some (pos n)) = one_if (n == j)
number_covers j r = 0

abbrev pub text_covers : ℕ → Text → ℕ
text_covers j h = number_covers j (scan_host h)

abbrev pub consumer_covers : ℕ → Consumer → ℕ
consumer_covers j (con_read h) = text_covers j h
consumer_covers j c = 0

abbrev pub pending : ℕ → State → ℕ
pending j s =
    total (producer_covers j) s.producers
    + total (text_covers j) s.queue.items
    + total (consumer_covers j) s.consumers

-- The items that a producer has still to count, and 1 if it has put one that it has not counted.
abbrev pub left : Producer → ℕ
left (pro_test i end) = end - i
left (pro_put i end) = suc (end - (i + 1))
left (pro_count i end) = suc (end - (i + 1))
left pro_done = 0

abbrev pub uncounted : Producer → ℕ
uncounted (pro_count i end) = 1
uncounted p = 0

-- 1 if a consumer will count the text.
abbrev pub number_counts : Option ℤ → ℕ
number_counts none = 0
number_counts (some n) = 1

abbrev pub text_counts : Text → ℕ
text_counts h = number_counts (scan_host h)

abbrev pub consumer_counts : Consumer → ℕ
consumer_counts (con_read h) = text_counts h
consumer_counts c = 0

abbrev pub is_producing : Producer → ℕ
is_producing pro_done = 0
is_producing p = 1

abbrev pub is_consuming : Consumer → ℕ
is_consuming con_done = 0
is_consuming c = 1

abbrev pub has_ended : Consumer → ℕ
has_ended con_done = 1
has_ended c = 0

-- Behind the joins of the producers, array_free's closing and draining, and the joins of the
-- consumers. An exit counts only if it is the one at the end of main.
abbrev pub is_past_producers : Main → Bool
is_past_producers main_join_producers = false
is_past_producers (main_exit success) = success
is_past_producers m = true

abbrev pub is_past_closing : Main → Bool
is_past_closing main_wait = false
is_past_closing main_free = false
is_past_closing m = is_past_producers m

abbrev pub is_past_drain : Main → Bool
is_past_drain main_drain = false
is_past_drain m = is_past_closing m

abbrev pub is_past_consumers : Main → Bool
is_past_consumers main_join_consumers = false
is_past_consumers m = is_past_drain m

abbrev pub IsEnded : Fifo Text → Type 0
IsEnded q = (q.closed ≡ true) × (q.items ≡ [])

-- `items` is the number of all items, NUM_PRODUCERS * ITEMS_PER_PRODUCER.
pub record IsSound (items : ℕ) (s : State) : Type 0 where
  pub size : length s.consumed_items ≡ items
  pub bits : All (λ x. x ≤ 1) s.consumed_items
  pub covered : (j : ℕ) → j < items → 1 ≤ pending j s + get_or s.consumed_items j 0
  pub produced : s.items_produced + total left s.producers ≡ items
  pub consumed :
      s.items_consumed + total text_counts s.queue.items + total consumer_counts s.consumers
      ≡ s.items_produced + total uncounted s.producers
  pub scanned : total text_counts s.queue.items ≡ length s.queue.items
  pub closed : s.queue.closed ≡ true → total is_producing s.producers ≡ 0
  pub past_producers : is_past_producers s.main ≡ true → total is_producing s.producers ≡ 0
  pub past_closing : is_past_closing s.main ≡ true → s.queue.closed ≡ true
  pub past_drain : is_past_drain s.main ≡ true → s.queue.items ≡ []
  pub past_consumers : is_past_consumers s.main ≡ true → total is_consuming s.consumers ≡ 0
  pub over : 0 < total has_ended s.consumers → IsEnded s.queue ⊎ (items ≤ s.items_consumed)

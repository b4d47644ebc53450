-- ===== src/Stress/Account/Start.antt =====
-- The account at the start of the stress test.
use os_dns_resolver.Base.{
  refl, ℕ, zero, suc, ◌+◌, ◌*◌, ◌≡◌, ◌<◌, ◌≤◌, total, total-replicate, replicate, length-replicate,
  All, arith, refl,
}
use os_dns_resolver.Stress.{con_get, producers_from, start}
use os_dns_resolver.Stress.Account.{
  producer_covers, left, uncounted, consumer_counts, has_ended, IsSound,
}

-- The producers share the numbers out.
producers_from-covers :
    (items id k j : ℕ)
    → id * items ≤ j
    → j < (id + k) * items
    → 1 ≤ total (producer_covers j) (producers_from items id k)
producers_from-covers items id zero j lo hi = absurd (omega arith)
producers_from-covers items id (suc k) j lo hi =
    ground (arith, producers_from-covers items (id + 1) k j)

producers_from-left :
    (items id k : ℕ)
    → (total left (producers_from items id k) ≡ k * items)
      × (total uncounted (producers_from items id k) ≡ 0)
producers_from-left items id zero = omega arith
producers_from-left items id (suc k) = ground (arith, producers_from-left items (id + 1) k)

All-replicate : (n x : ℕ) → x ≤ 1 → All (λ y. y ≤ 1) (replicate n x)
All-replicate zero x h = _
All-replicate (suc n) x h = (h, All-replicate n x h)

pub start-IsSound :
    (num_producers num_consumers items : ℕ)
    → IsSound (num_producers * items) (start num_producers num_consumers items)
unfolding start
start-IsSound p c items = record {
  size = length-replicate (p * items) 0;
  bits = All-replicate (p * items) 0 (omega arith);
  covered = λ j lt. ground (arith, producers_from-covers items 0 p j);
  produced = omega (arith, producers_from-left items 0 p);
  consumed =
      omega (arith, producers_from-left items 0 p, total-replicate consumer_counts c con_get refl);
  scanned = refl;
  closed = λ h. cc;
  past_producers = λ h. cc;
  past_closing = λ h. cc;
  past_drain = λ h. cc;
  past_consumers = λ h. cc;
  over = λ h. ground (arith, h, total-replicate has_ended c con_get refl);
}

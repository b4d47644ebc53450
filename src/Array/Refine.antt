-- ===== src/Array/Refine.antt =====
-- Each stretch of array_put and array_get is an operation of the bounded queue (`Fifo`).
use os_dns_resolver.Base.{
  ℕ, suc, ◌-◌, ◌≡◌, ap, ◌∙◌, true, false, none, [], ◌∷◌, ◌++◌, length, get_or, ◌==◌, arith,
}
use os_dns_resolver.Fifo
use os_dns_resolver.Fifo.{Fifo, PutReply, added, full, refused, GetReply, found, empty, finished}
use os_dns_resolver.Array.{
  Item, Array, array_success, array_shutdown, PutEnd, put_blocks, put_returns, GetEnd, get_blocks,
  get_shutdown, get_found, next, is_empty, is_full, put_add, put_enter, put_wake, get_enter,
  get_wake, free_enter,
}
use os_dns_resolver.Array.Window.{
  span, window, place-eq, window-set, length-window, next-eq, contents,
}
use os_dns_resolver.Array.Valid.{IsValid}

-- The queue that an array stands for, and the replies that the ends of its calls stand for.
abbrev pub view : ℕ → Array → Fifo Item
view size a = record { items = contents size a; closed = a.shutdown }

abbrev pub put_reply : PutEnd → PutReply
put_reply put_blocks = full
put_reply (put_returns array_success) = added
put_reply (put_returns array_shutdown) = refused

abbrev pub get_reply : GetEnd → GetReply Item
get_reply get_blocks = empty
get_reply get_shutdown = finished
get_reply (get_found x) = found x

module _ {size : ℕ} {a : Array} (v : IsValid size a) where
  abbrev count : ℕ
  count = span size a.head a.tail

  pub length-contents : length (contents size a) ≡ count
  length-contents = length-window size a.store a.head count

  pub full-eq : is_full size a ≡ (length (contents size a) == size - 1)
  full-eq = ground (arith, length-contents, next-eq size a.tail)

  pub contents-put_add :
      (x : Item)
      → is_full size a ≡ false
      → contents size (put_add size a x) ≡ contents size a ++ x ∷ []
  unfolding put_add
  contents-put_add x h =
      ap (window size _ a.head) more
      ∙ window-set size a.store x count a.head a.tail (omega arith) (omega arith) (ground arith)
          (ground (arith, place-eq size count a.head))
    where
      more : span size a.head (next size a.tail) ≡ suc count
      more = ground (arith, next-eq size a.tail)

  pub contents-get_take :
      is_empty a ≡ false
      → contents size a
        ≡ get_or a.store a.head none
          ∷ window size a.store (next size a.head) (span size (next size a.head) a.tail)
  contents-get_take h = ap (window size a.store a.head) more
    where
      more : count ≡ suc (span size (next size a.head) a.tail)
      more = ground (arith, next-eq size a.head)

  pub contents-empty : is_empty a ≡ true → contents size a ≡ []
  contents-empty h = ap (window size a.store a.head) none_left
    where
      none_left : count ≡ 0
      none_left = ground arith

  put_enter-refines :
      (x : Item)
      → let (b, end, _) = put_enter size a x in
        (view size b, put_reply end) ≡ Fifo.put (size - 1) (view size a) x
  unfolding put_enter Fifo.put
  put_enter-refines x = ground (arith, full-eq, contents-put_add x)

  put_wake-refines :
      (x : Item)
      → let (b, end, _) = put_wake size a x in
        (view size b, put_reply end) ≡ Fifo.put (size - 1) (view size a) x
  unfolding put_wake Fifo.put
  put_wake-refines x = ground (arith, full-eq, contents-put_add x)

  get_enter-refines :
      let (b, end, _) = get_enter size a in (view size b, get_reply end) ≡ Fifo.get (view size a)
  unfolding get_enter Fifo.get
  get_enter-refines = ground (arith, contents-empty, contents-get_take)

  get_wake-refines :
      let (b, end, _) = get_wake size a in (view size b, get_reply end) ≡ Fifo.get (view size a)
  unfolding get_wake Fifo.get
  get_wake-refines = ground (arith, contents-empty, contents-get_take)

  -- On a valid array, array_put, both from its call on and from the return of its timed wait on,
  -- is `put` of the bounded queue of capacity ARRAY_SIZE - 1 that the array stands for: it refuses
  -- after a shutdown, waits when the queue is full, and else appends the item.
  pub put_refines :
      (x : Item)
      → (let (b, end, _) = put_enter size a x in
          (view size b, put_reply end) ≡ Fifo.put (size - 1) (view size a) x)
        × (let (b, end, _) = put_wake size a x in
            (view size b, put_reply end) ≡ Fifo.put (size - 1) (view size a) x)
  put_refines x = (put_enter-refines x, put_wake-refines x)

  -- On a valid array, array_get, both from its lock on and from the return of its timed wait on,
  -- is `get` of that queue: it takes out the oldest item, also after a shutdown; at an empty queue
  -- it waits, or reports the shutdown.
  pub get_refines :
      (let (b, end, _) = get_enter size a in (view size b, get_reply end) ≡ Fifo.get (view size a))
      × (let (b, end, _) = get_wake size a in (view size b, get_reply end) ≡ Fifo.get (view size a))
  get_refines = (get_enter-refines, get_wake-refines)

-- array_free closes the queue and leaves its items alone.
pub free_enter-refines :
    (size : ℕ) (a : Array) → view size (free_enter a).0 ≡ Fifo.close (view size a)
unfolding free_enter Fifo.close
free_enter-refines size a = ground arith

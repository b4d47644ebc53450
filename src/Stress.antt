-- ===== src/Stress.antt =====
-- test.c, the stress test of the queue: producers put numbered names into one queue, consumers take
-- them out and mark the numbers, and main checks that every number is marked.
-- The queue is a bounded queue (`Fifo`) of `cap` = ARRAY_SIZE - 1 texts. A thread that has to wait
-- takes no step. array_free closes the queue and goes on when it is empty; its wait for the getters
-- is left out. The numbers of threads and of items per producer are arguments.
pub mod Names
pub mod Account
pub mod Passes
pub mod Work
pub mod Ends
pub mod Fair
mod Tests
use os_dns_resolver.Base.{
  ℕ, zero, suc, ◌+◌, ◌*◌, List, [], ◌∷◌, Bool, true, false, Option, none, some, ltb, leb, ◌==◌,
  if◌then◌else◌, get_elem?, set, replicate, ℤ, pos, negsuc,
}
use os_dns_resolver.Strings.{Text}
use os_dns_resolver.Fifo.{Fifo, PutReply, added, full, refused, GetReply, found, empty, finished}
use os_dns_resolver.Stress.Names.{host_name, scan_host}
use os_dns_resolver.Fifo

-- Where a producer stands: at the test of its loop, with `i` and `end`; at array_put; and at the lock
-- of count_mutex.
pub data Producer : Type 0 where
  pro_test : ℕ → ℕ → Producer
  pro_put : ℕ → ℕ → Producer
  pro_count : ℕ → ℕ → Producer
  pro_done : Producer

-- Where a consumer stands: at array_get, and with a name that it has taken.
pub data Consumer : Type 0 where
  con_get : Consumer
  con_read : Text → Consumer
  con_done : Consumer

-- Where main stands: at the joins of the producers, in its loop that waits for the consumers, in
-- array_free, at the joins of the consumers, at the verification, and behind its return, which says
-- whether it is EXIT_SUCCESS. `main_exit false` is also where a failed malloc ends the process.
pub data Main : Type 0 where
  main_join_producers : Main
  main_wait : Main
  main_free : Main
  main_drain : Main
  main_join_consumers : Main
  main_verify : Main
  main_exit : Bool → Main

pub record State : Type 0 where
  pub queue : Fifo Text
  pub items_produced : ℕ
  pub items_consumed : ℕ
  pub consumed_items : List ℕ
  pub main : Main
  pub producers : List Producer
  pub consumers : List Consumer

-- Which thread runs, and whether the malloc of its step succeeds.
pub data Choice : Type 0 where
  main_runs : Choice
  producer_runs : ℕ → Bool → Choice
  consumer_runs : ℕ → Choice

-- producer
abbrev pub put_name : ℕ → ℕ → State → Fifo Text × PutReply → Producer × State
put_name i end s (q, added) = (pro_count i end, record s { queue = q })
put_name i end s (q, full) = (pro_put i end, s)
put_name i end s (q, refused) = (pro_done, s)

unfoldable pub producer_step : ℕ → Bool → Producer → State → Producer × State
producer_step cap ok (pro_test i end) s =
    if ltb i end
    then (if ok then (pro_put i end, s) else (pro_test i end, record s { main = main_exit false }))
    else (pro_done, s)
producer_step cap ok (pro_put i end) s = put_name i end s (Fifo.put cap s.queue (host_name i))
producer_step cap ok (pro_count i end) s =
    (pro_test (i + 1) end, record s { items_produced = s.items_produced + 1 })
producer_step cap ok pro_done s = (pro_done, s)

-- consumer
abbrev pub took_name : State → Fifo Text × GetReply Text → Consumer × State
took_name s (q, found h) = (con_read h, record s { queue = q })
took_name s (q, empty) = (con_get, s)
took_name s (q, finished) = (con_done, s)

-- consumed_items[item_num] = 1. A number out of range, which no producer writes, changes nothing.
abbrev pub mark : List ℕ → ℤ → List ℕ
mark marks (pos n) = set marks n 1
mark marks (negsuc n) = marks

abbrev pub marked : ℕ → State → Option ℤ → Consumer × State
marked total s none = (con_get, s)
marked total s (some item_num) =
    let consumed = s.items_consumed + 1 in
    (
      if leb total consumed then con_done else con_get,
      record s { consumed_items = mark s.consumed_items item_num; items_consumed = consumed },
    )

unfoldable pub consumer_step : ℕ → Consumer → State → Consumer × State
consumer_step total con_get s = took_name s (Fifo.get s.queue)
consumer_step total (con_read h) s = marked total s (scan_host h)
consumer_step total con_done s = (con_done, s)

-- The loop of the verification: it stops after 20 errors.
unfoldable pub verify : List ℕ → ℕ → ℕ
verify [] errors = errors
verify (x ∷ xs) errors =
    let rest = verify xs errors in
    let more = if leb 20 (errors + 1) then errors + 1 else verify xs (errors + 1) in
    if x == 1 then rest else more

abbrev pub all_produced : List Producer → Bool
all_produced [] = true
all_produced (pro_done ∷ ps) = all_produced ps
all_produced (p ∷ ps) = false

abbrev pub all_ended : List Consumer → Bool
all_ended [] = true
all_ended (con_done ∷ cs) = all_ended cs
all_ended (c ∷ cs) = false

abbrev pub drain : List Text → Main
drain [] = main_join_consumers
drain (h ∷ hs) = main_drain

unfoldable pub main_step : Main → State → State
main_step main_join_producers s =
    if all_produced s.producers then record s { main = main_wait } else s
main_step main_wait s =
    if ltb s.items_consumed s.items_produced then s else record s { main = main_free }
main_step main_free s = record s { queue = Fifo.close s.queue; main = main_drain }
main_step main_drain s = record s { main = drain s.queue.items }
main_step main_join_consumers s =
    if all_ended s.consumers then record s { main = main_verify } else s
main_step main_verify s = record s { main = main_exit (verify s.consumed_items 0 == 0) }
main_step (main_exit success) s = s

abbrev pub has_exited : Main → Bool
has_exited (main_exit success) = true
has_exited m = false

abbrev pub set_producer : ℕ → State → Producer × State → State
set_producer i s (p, s') = record s' { producers = set s.producers i p }

abbrev pub set_consumer : ℕ → State → Consumer × State → State
set_consumer i s (c, s') = record s' { consumers = set s.consumers i c }

abbrev pub run_producer : ℕ → ℕ → Bool → State → Option Producer → State
run_producer cap i ok s none = s
run_producer cap i ok s (some p) = set_producer i s (producer_step cap ok p s)

abbrev pub run_consumer : ℕ → ℕ → State → Option Consumer → State
run_consumer total i s none = s
run_consumer total i s (some c) = set_consumer i s (consumer_step total c s)

abbrev pub choose : ℕ → ℕ → State → Choice → State
choose cap total s main_runs = main_step s.main s
choose cap total s (producer_runs i ok) = run_producer cap i ok s (get_elem? s.producers i)
choose cap total s (consumer_runs i) = run_consumer total i s (get_elem? s.consumers i)

-- One step of the process, which stands still when main has returned.
unfoldable pub step : ℕ → ℕ → State → Choice → State
step cap total s c = if has_exited s.main then s else choose cap total s c

-- producer_ids[i] = i: the producers `id` to `id + k - 1`.
abbrev pub producers_from : ℕ → ℕ → ℕ → List Producer
producers_from items id zero = []
producers_from items id (suc k) =
    pro_test (id * items) (id * items + items) ∷ producers_from items (id + 1) k

-- main behind the creation of the threads.
unfoldable pub start : ℕ → ℕ → ℕ → State
start num_producers num_consumers items = record {
  queue = record { items = []; closed = false };
  items_produced = 0;
  items_consumed = 0;
  consumed_items = replicate (num_producers * items) 0;
  main = main_join_producers;
  producers = producers_from items 0 num_producers;
  consumers = replicate num_consumers con_get;
}

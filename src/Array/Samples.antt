-- ===== src/Array/Samples.antt =====
-- Concrete items and arrays for the tests.
use os_dns_resolver.Base.{false, none, some, List, [], ◌∷◌}
use os_dns_resolver.Array.{Item, Array}

abbrev pub one : Item
one = some (1 ∷ [])

abbrev pub two : Item
two = some (2 ∷ [])

abbrev pub storage : List Item
storage = none ∷ none ∷ none ∷ []

-- Two items, round the end of the storage: full.
abbrev pub wrapped : Array
wrapped = record {
  store = two ∷ none ∷ one ∷ [];
  head = 2;
  tail = 1;
  shutdown = false;
  active_getters = 1;
  destroyed = false;
}

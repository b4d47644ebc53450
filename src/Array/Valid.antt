-- ===== src/Array/Valid.antt =====
-- The representation invariant of the typedef `array`, which every stretch of a call keeps.
use os_dns_resolver.Base.{ℕ, ◌<◌, ◌≡◌, length, length-set, List, arith}
use os_dns_resolver.Array.{
  Item, Array, Wait, array_init, next, put_add, put_enter, put_wake, get_begin, get_enter, get_wake,
  get_leave, free_enter, free_drain_wake, free_getters_wake, free_destroy,
}
use os_dns_resolver.Array.Window.{next-eq}

-- Both indices lie in the storage, which has ARRAY_SIZE places.
pub record IsValid (size : ℕ) (a : Array) : Type 0 where
  pub storage : length a.store ≡ size
  pub head_in : a.head < size
  pub tail_in : a.tail < size

pub array_init-IsValid :
    (store : List Item) → 0 < length store → IsValid (length store) (array_init store)
unfolding array_init
array_init-IsValid store h = ground arith

module _ {size : ℕ} {a : Array} (v : IsValid size a) where
  pub next-lt : (i : ℕ) → i < size → next size i < size
  next-lt i h = ground (arith, next-eq size i h)

  pub put_add-IsValid : (x : Item) → IsValid size (put_add size a x)
  unfolding put_add
  put_add-IsValid x = ground (arith, length-set a.store a.tail x, next-lt a.tail)

  pub put_enter-IsValid : (x : Item) → IsValid size (put_enter size a x).0
  unfolding put_enter
  put_enter-IsValid x = ground (arith, length-set a.store a.tail x, next-lt a.tail)

  pub put_wake-IsValid : (x : Item) → IsValid size (put_wake size a x).0
  unfolding put_wake
  put_wake-IsValid x = ground (arith, length-set a.store a.tail x, next-lt a.tail)

  pub get_begin-IsValid : IsValid size (get_begin a)
  unfolding get_begin
  get_begin-IsValid = ground arith

  pub get_leave-IsValid : IsValid size (get_leave a)
  unfolding get_leave
  get_leave-IsValid = ground arith

  pub get_enter-IsValid : IsValid size (get_enter size a).0
  unfolding get_enter
  get_enter-IsValid = ground (arith, next-lt a.head)

  pub get_wake-IsValid : IsValid size (get_wake size a).0
  unfolding get_wake
  get_wake-IsValid = ground (arith, next-lt a.head)

  pub free_enter-IsValid : IsValid size (free_enter a).0
  unfolding free_enter
  free_enter-IsValid = ground arith

  pub free_drain_wake-IsValid : (r : Wait) → IsValid size (free_drain_wake a r).0
  unfolding free_drain_wake
  free_drain_wake-IsValid r = ground arith

  pub free_getters_wake-IsValid : (r : Wait) → IsValid size (free_getters_wake a r).0
  unfolding free_getters_wake
  free_getters_wake-IsValid r = ground arith

  pub free_destroy-IsValid : IsValid size (free_destroy a)
  unfolding free_destroy
  free_destroy-IsValid = ground arith

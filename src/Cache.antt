-- ===== src/Cache.antt =====
-- The LRU cache with a time to live, pkg/cache/cache.go. The elements of `container/list` are
-- pointers here too: the map leads from a key to a pointer, and the list holds each pointer with the
-- entry that it points to, the most recent first. A method returns `none` where it would read
-- through a pointer that is not in the list. `time.Now` is an argument, in nanoseconds.
pub mod Elements
pub mod Invariant
pub mod Methods
pub mod Expiry
pub mod Reads
pub mod Recency
mod Tests
use gkit_go.Prelude.{
  ℕ, ◌+◌, ◌%◌, ◌^◌, Bool, true, false, Option, none, some, List, [], ◌∷◌, map, reverse, ltb, leb,
  ◌==◌, length, if◌then◌else◌, Assoc, map_get, map_put, map_delete, ◌>>=◌,
}
use Elements.{Entry, element, list_remove, list_back, store_at, move_to_front, from_back}

pub record Cache (K V : Type 0) : Type 0 where
  pub capacity : ℕ
  pub ttl : ℕ
  pub list : List (ℕ × Entry K V)
  pub items : Assoc K ℕ
  pub hits : ℕ  -- uint64
  pub misses : ℕ  -- uint64
  pub evicts : ℕ  -- uint64
  pub fresh : ℕ  -- above every pointer in use

-- `x++` on a uint64
abbrev pub inc64 : ℕ → ℕ
inc64 n = (n + 1) % 2 ^ 64

abbrev after_expiry : ℕ → Option ℕ → Bool
after_expiry now none = false
after_expiry now (some t) = ltb t now

-- `New`; `none` is the panic on a capacity below 1. `ttl` is what the option `WithTTL` sets.
module _ {K V : Type 0} where
  unfoldable pub new : ℕ → ℕ → Option (Cache K V)
  new capacity ttl =
      if ltb capacity 1
      then none
      else some (record {
        capacity = capacity;
        ttl = ttl;
        list = [];
        items = [];
        hits = 0;
        misses = 0;
        evicts = 0;
        fresh = 0;
      })

  unfoldable pub new_expiry : ℕ → Cache K V → Option ℕ
  new_expiry now c = if c.ttl == 0 then none else some (now + c.ttl)

  unfoldable pub is_expired : ℕ → Entry K V → Bool
  is_expired now e = after_expiry now e.expires_at

  unfoldable pub clear : Cache K V → Cache K V
  clear c = record c { list = []; items = [] }

  -- `Stats`: hits, misses, evictions, and the length.
  unfoldable pub stats : Cache K V → ℕ × ℕ × ℕ × ℕ
  stats c = (c.hits, c.misses, c.evicts, length c.list)

-- One critical section of a cache that goroutines share, a tick of the janitor among them.
pub data Op (K V : Type 0) : Type 0 where
  op_get : ℕ → K → Op K V
  op_set : ℕ → K → V → Op K V
  op_delete : K → Op K V
  op_clear : Op K V
  op_delete_expired : ℕ → Op K V

module _ {K V : Type 0} (dec : Discrete K) where
  unfoldable pub remove_element : ℕ → Cache K V → Option (Cache K V)
  remove_element el c = do
    e ← element el c.list
    some (record c { list = list_remove el c.list; items = map_delete dec c.items e.key })

  unfoldable pub evict_oldest : Cache K V → Option (Cache K V)
  unfolding remove_element
  evict_oldest c = elim (list_back c.list) [
    | none ↦ some c
    | some el ↦ do c' ← remove_element el c; some (record c' { evicts = inc64 c'.evicts })
  ]

  -- The zero value and `false` are `none`.
  unfoldable pub get : ℕ → K → Cache K V → Option (Cache K V × Option V)
  unfolding remove_element is_expired
  get now key c = elim (map_get dec c.items key) [
    | none ↦ some (record c { misses = inc64 c.misses }, none)
    | some el ↦ do
      e ← element el c.list
      if is_expired now e
          then (do c' ← remove_element el c; some (record c' { misses = inc64 c'.misses }, none))
          else some (record c { list = move_to_front el c.list; hits = inc64 c.hits }, some e.value)
  ]

  unfoldable pub set : ℕ → K → V → Cache K V → Option (Cache K V)
  unfolding evict_oldest new_expiry
  set now key value c = elim (map_get dec c.items key) [
    | some el ↦ some (record c {
      list =
          store_at el (λ e. record e { value = value; expires_at = new_expiry now c })
            (move_to_front el c.list);
    })
    | none ↦ do
      c' ← if leb c.capacity (length c.list) then evict_oldest c else some c
      some (record c' {
        list =
            (c'.fresh, record { key = key; value = value; expires_at = new_expiry now c' })
            ∷ c'.list;
        items = map_put dec c'.items key c'.fresh;
        fresh = c'.fresh + 1;
      })
  ]

  -- `Delete`
  unfoldable pub delete : K → Cache K V → Option (Cache K V)
  unfolding remove_element
  delete key c = elim (map_get dec c.items key) [ none ↦ some c | some el ↦ remove_element el c ]

  -- The loop of `deleteExpired` over the pointers from the back; the one that is removed stands
  -- behind those still to visit.
  unfoldable pub delete_expired_from : ℕ → List ℕ → Cache K V → Option (Cache K V)
  unfolding remove_element is_expired
  delete_expired_from now [] c = some c
  delete_expired_from now (el ∷ els) c = do
    e ← element el c.list
    c' ← if is_expired now e then remove_element el c else some c
    delete_expired_from now els c'

  unfoldable pub delete_expired : ℕ → Cache K V → Option (Cache K V)
  unfolding delete_expired_from
  delete_expired now c = if c.ttl == 0 then some c else delete_expired_from now (from_back c.list) c

  unfoldable pub step : Op K V → Cache K V → Option (Cache K V)
  step (op_get now k) c = do (c', _) ← get now k c; some c'
  step (op_set now k v) c = set now k v c
  step (op_delete k) c = delete k c
  step op_clear c = some (clear c)
  step (op_delete_expired now) c = delete_expired now c

  unfoldable pub run : List (Op K V) → Cache K V → Option (Cache K V)
  run [] c = some c
  run (op ∷ ops) c = do c' ← step op c; run ops c'

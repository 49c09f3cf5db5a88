-- ===== src/Cache/Invariant.antt =====
-- What holds of a cache between two calls, and that no call reads through a stale pointer
-- (pkg/cache/cache.go).
use gkit_go.Prelude.{
  ℕ, ◌+◌, ◌≤◌, ◌<◌, ◌≡◌, refl, Option, none, some, List, [], ◌∷◌, arith, length, map_get, map_put,
  map_delete, get-delete, get-put,
}
use gkit_go.Cache.Elements.{
  Entry, element, list_remove, list_back, locate, IsProper, locate-element, locate-list_remove,
  element-list_remove, list_remove-IsProper, length-list_remove, IsProper-suc, element_fresh,
  element-lt, list_back-ne-none,
}
use gkit_go.Cache.{Cache, new, remove_element, clear}

abbrev pub pointer : {K V : Type 0} → Option (ℕ × Entry K V) → Option ℕ
pointer none = none
pointer (some x) = some x.0

module _ {K V : Type 0} (dec : Discrete K) where
  -- The map leads from each key to the element of the list that holds it, and from no other key;
  -- no key and no pointer stands in the list twice; the list is within the capacity.
  pub record Inv (c : Cache K V) : Type 0 where
    pub indexed : (k : K) → map_get dec c.items k ≡ pointer (locate dec k c.list)
    pub proper : IsProper dec c.fresh c.list
    pub bounded : length c.list ≤ c.capacity
    pub positive : 0 < c.capacity

  pub new-Inv :
      (capacity ttl : ℕ) → 0 < capacity → (c : Cache K V) × (new capacity ttl ≡ some c) × Inv c
  unfolding new map_get locate
  new-Inv capacity ttl h =
      let c : Cache K V = record {
        capacity = capacity;
        ttl = ttl;
        list = [];
        items = [];
        hits = 0;
        misses = 0;
        evicts = 0;
        fresh = 0;
      } in
      (
        c,
        ground arith,
        record { indexed = λ k. refl; proper = tt; bounded = omega arith; positive = h },
      )

  -- Removal of an element that the list holds.
  pub remove_element_lem :
      (el : ℕ) (e : Entry K V) (c : Cache K V)
      → element el c.list ≡ some e
      → remove_element dec el c
        ≡ some (record c { list = list_remove el c.list; items = map_delete dec c.items e.key })
  unfolding remove_element
  remove_element_lem el e c p = rw p

  pub removed-Inv :
      (el : ℕ) (e : Entry K V) (c : Cache K V)
      → Inv c
      → element el c.list ≡ some e
      → Inv (record c { list = list_remove el c.list; items = map_delete dec c.items e.key })
  removed-Inv el e c h p = record {
    indexed = λ k. ground (
      arith,
      h.indexed k,
      get-delete dec c.items e.key k,
      locate-list_remove dec k c.fresh el e c.list,
    );
    proper = list_remove-IsProper dec c.fresh el e c.list h.proper p;
    bounded = omega (arith, length-list_remove dec el e c.list p, h.bounded);
    positive = h.positive;
  }

  -- The element of a key moved to the front, with the same key.
  pub touched-Inv :
      (i : ℕ) (e e' : Entry K V) (c : Cache K V)
      → Inv c
      → element i c.list ≡ some e
      → e'.key ≡ e.key
      → Inv (record c { list = (i, e') ∷ list_remove i c.list })
  touched-Inv i e e' c h p q = record {
    indexed = λ k.
        unfold locate in
        ground (
          arith,
          h.indexed k,
          locate-list_remove dec k c.fresh i e c.list,
          locate-element dec c.fresh i e c.list,
        );
    proper = (
      element-lt dec c.fresh i e c.list h.proper p,
      ground (arith, locate-list_remove dec e'.key c.fresh i e c.list),
      ground (arith, element-list_remove dec c.fresh i i c.list),
      list_remove-IsProper dec c.fresh i e c.list h.proper p,
    );
    bounded = omega (arith, length-list_remove dec i e c.list p, h.bounded);
    positive = h.positive;
  }

  pub inserted-Inv :
      (e : Entry K V) (c : Cache K V)
      → Inv c
      → locate dec e.key c.list ≡ none
      → length c.list < c.capacity
      → Inv (record c {
        list = (c.fresh, e) ∷ c.list;
        items = map_put dec c.items e.key c.fresh;
        fresh = c.fresh + 1;
      })
  inserted-Inv e c h p room = record {
    indexed =
        λ k. unfold locate in ground (arith, h.indexed k, get-put dec c.items e.key c.fresh k);
    proper = (
      omega arith,
      p,
      element_fresh dec c.fresh c.list h.proper,
      IsProper-suc dec c.fresh c.list h.proper,
    );
    bounded = omega (arith, room);
    positive = h.positive;
  }

  -- The counters do not matter.
  pub counted-Inv :
      (c : Cache K V) (hits misses evicts : ℕ)
      → Inv c
      → Inv (record c { hits = hits; misses = misses; evicts = evicts })
  counted-Inv c hits misses evicts h = record {
    indexed = h.indexed;
    proper = h.proper;
    bounded = h.bounded;
    positive = h.positive;
  }

  -- A full cache has a least recent element.
  pub list_back_full :
      (c : Cache K V) → Inv c → c.capacity ≤ length c.list → (i : ℕ) × (list_back c.list ≡ some i)
  list_back_full c h full = back_of c.list (omega (arith, h.positive, full))
    where
      back_of : (l : List (ℕ × Entry K V)) → 0 < length l → (i : ℕ) × (list_back l ≡ some i)
      back_of [] p = absurd (omega arith)
      back_of (x ∷ l) p = list_back-ne-none dec x l

  pub cleared-Inv : (c : Cache K V) → Inv c → Inv (clear c)
  unfolding clear map_get locate
  cleared-Inv c h = record {
    indexed = λ k. refl;
    proper = tt;
    bounded = omega arith;
    positive = h.positive;
  }

-- ===== src/Cache/Methods.antt =====
-- What each method of the cache computes, with the pointers gone, and that none of them reads
-- through a stale pointer (pkg/cache/cache.go).
use gkit_go.Prelude.{
  ℕ, ◌+◌, ◌≤◌, ◌<◌, ◌≡◌, refl, true, false, Option, none, some, ◌∷◌, inl, inr, Option-cases,
  Bool-cases, arith, ltb, length, map_get, map_put, map_delete, ◌⊎◌,
}
use gkit_go.Cache.Elements.{
  Entry, element, list_remove, list_back, locate, element-locate, locate-list_remove,
  length-list_remove, element-list_back, store_at, move_to_front,
}
use gkit_go.Cache.{Cache, get, set, delete, inc64, is_expired, new_expiry}
use gkit_go.Cache.Invariant.{
  Inv, removed-Inv, touched-Inv, inserted-Inv, counted-Inv, list_back_full,
}

module _ {K V : Type 0} (dec : Discrete K) where
  -- The cache without an element that it holds.
  abbrev pub without : ℕ → Entry K V → Cache K V → Cache K V
  without el e c = record c { list = list_remove el c.list; items = map_delete dec c.items e.key }

  -- Either the key is in neither the map nor the list, or the map's pointer is the list's.
  pub key-cases :
      (k : K) (c : Cache K V)
      → Inv dec c
      → ((map_get dec c.items k ≡ none) × (locate dec k c.list ≡ none))
        ⊎ ((i : ℕ) × (e : Entry K V) × (map_get dec c.items k ≡ some i)
            × (locate dec k c.list ≡ some (i, e))
            × (element i c.list ≡ some e))
  key-cases k c h = elim (Option-cases (locate dec k c.list)) [
    | inl p ↦ inl (ground (arith, h.indexed k), p)
    | inr (x, p) ↦ inr (
      x.0,
      x.1,
      ground (arith, h.indexed k),
      p,
      element-locate dec k c.fresh x.0 x.1 c.list h.proper p,
    )
  ]

  pub get_miss :
      (now : ℕ) (k : K) (c : Cache K V)
      → map_get dec c.items k ≡ none
      → get dec now k c ≡ some (record c { misses = inc64 c.misses }, none)
  unfolding get
  get_miss now k c p = ground arith

  pub get_hit :
      (now : ℕ) (k : K) (c : Cache K V) (i : ℕ) (e : Entry K V)
      → map_get dec c.items k ≡ some i
      → element i c.list ≡ some e
      → is_expired now e ≡ false
      → get dec now k c
        ≡ some
            (record c { list = (i, e) ∷ list_remove i c.list; hits = inc64 c.hits }, some e.value)
  unfolding get move_to_front
  get_hit now k c i e p q x = ground arith

  pub get_expired :
      (now : ℕ) (k : K) (c : Cache K V) (i : ℕ) (e : Entry K V)
      → map_get dec c.items k ≡ some i
      → element i c.list ≡ some e
      → is_expired now e ≡ true
      → get dec now k c ≡ some (record (without i e c) { misses = inc64 c.misses }, none)
  unfolding get
  get_expired now k c i e p q x = ground arith

  -- The entry that `Set` writes.
  abbrev pub written : ℕ → K → V → Cache K V → Entry K V
  written now k v c = record { key = k; value = v; expires_at = new_expiry now c }

  pub set_update :
      (now : ℕ) (k : K) (v : V) (c : Cache K V) (i : ℕ) (e : Entry K V)
      → map_get dec c.items k ≡ some i
      → element i c.list ≡ some e
      → set dec now k v c
        ≡ some (record c {
          list = (i, record e { value = v; expires_at = new_expiry now c }) ∷ list_remove i c.list;
        })
  unfolding set move_to_front store_at
  set_update now k v c i e p q = ground arith

  abbrev pub inserted : ℕ → K → V → Cache K V → Cache K V
  inserted now k v c = record c {
    list = (c.fresh, written now k v c) ∷ c.list;
    items = map_put dec c.items k c.fresh;
    fresh = c.fresh + 1;
  }

  pub set_room :
      (now : ℕ) (k : K) (v : V) (c : Cache K V)
      → map_get dec c.items k ≡ none
      → length c.list < c.capacity
      → set dec now k v c ≡ some (inserted now k v c)
  unfolding set
  set_room now k v c p room = ground arith

  pub set_full :
      (now : ℕ) (k : K) (v : V) (c : Cache K V) (i : ℕ) (e : Entry K V)
      → map_get dec c.items k ≡ none
      → c.capacity ≤ length c.list
      → list_back c.list ≡ some i
      → element i c.list ≡ some e
      → set dec now k v c
        ≡ some (inserted now k v (record (without i e c) { evicts = inc64 c.evicts }))
  unfolding set
  set_full now k v c i e p full q x = ground arith

  pub get-Inv :
      (now : ℕ) (k : K) (c : Cache K V)
      → Inv dec c
      → (c' : Cache K V) × (o : Option V) × (get dec now k c ≡ some (c', o)) × Inv dec c'
  get-Inv now k c h = elim (key-cases k c h) [
    | inl (p, _) ↦
        (record c { misses = inc64 c.misses }, none, get_miss now k c p, counted-Inv dec c _ _ _ h)
    | inr (i, e, p, q, r) ↦ elim (Bool-cases (is_expired now e)) [
      | inl x ↦ (
        record (without i e c) { misses = inc64 c.misses },
        none,
        get_expired now k c i e p r x,
        counted-Inv dec (without i e c) _ _ _ (removed-Inv dec i e c h r),
      )
      | inr x ↦
          let c' : Cache K V = record c { list = (i, e) ∷ list_remove i c.list } in
          (
            record c' { hits = inc64 c.hits },
            some e.value,
            get_hit now k c i e p r x,
            counted-Inv dec c' _ _ _ (touched-Inv dec i e e c h r refl),
          )
    ]
  ]

  pub set-Inv :
      (now : ℕ) (k : K) (v : V) (c : Cache K V)
      → Inv dec c
      → (c' : Cache K V) × (set dec now k v c ≡ some c') × Inv dec c'
  set-Inv now k v c h = elim (key-cases k c h) [
    | inr (i, e, p, q, r) ↦ (_, set_update now k v c i e p r, touched-Inv dec i e _ c h r refl)
    | inl (p, q) ↦ elim (Bool-cases (ltb (length c.list) c.capacity)) [
      | inl room ↦ (
        inserted now k v c,
        set_room now k v c p (ground arith),
        inserted-Inv dec (written now k v c) c h q (ground arith),
      )
      | inr full ↦
          let (i, back) = list_back_full dec c h (ground arith) in
          let (e, r) = element-list_back dec c.fresh i c.list h.proper back in
          let c' : Cache K V = record (without i e c) { evicts = inc64 c.evicts } in
          (
            inserted now k v c',
            set_full now k v c i e p (ground arith) back r,
            inserted-Inv dec (written now k v c') c'
                (counted-Inv dec (without i e c) _ _ _ (removed-Inv dec i e c h r))
                (ground (arith, locate-list_remove dec k c.fresh i e c.list))
                (omega (arith, length-list_remove dec i e c.list r, h.bounded)),
          )
    ]
  ]

  pub delete-Inv :
      (k : K) (c : Cache K V)
      → Inv dec c
      → (c' : Cache K V) × (delete dec k c ≡ some c') × Inv dec c'
  unfolding delete
  delete-Inv k c h = elim (key-cases k c h) [
    | inl (p, _) ↦ (c, ground arith, h)
    | inr (i, e, p, q, r) ↦ (without i e c, ground arith, removed-Inv dec i e c h r)
  ]

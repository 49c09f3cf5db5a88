-- ===== src/Cache/Reads.antt =====
-- What `Get` returns after the other methods, and which entry is evicted (pkg/cache/cache.go).
use gkit_go.Prelude.{
  ℕ, ◌+◌, ◌≤◌, ◌≡◌, refl, subst, ap, ◌∙◌, Bool, true, false, Option, none, some, List, [], ◌∷◌, inl,
  inr, Bool-cases, arith, ite, ltb, leb, ◌==◌, ◌||◌, length, if◌then◌else◌, not, ◌&&◌, is_some,
}
use gkit_go.Cache.Elements.{
  Entry, locate, list_remove, element, list_back, locate-key, element-list_back, locate-list_remove,
  locate-element, IsProper,
}
use gkit_go.Cache.{Cache, get, set, is_expired, new_expiry, inc64}
use gkit_go.Cache.Invariant.{Inv, list_back_full}
use gkit_go.Cache.Methods.{
  key-cases, get-Inv, set-Inv, get_miss, get_hit, get_expired, set_update, set_room, set_full,
  without, inserted,
}

abbrev pub is_key : {K : Type 0} → Discrete K → K → Option K → Bool
is_key dec k none = false
is_key dec k (some j) = ite (dec j k) true false

module _ {K V : Type 0} (dec : Discrete K) where
  -- The value of an element that is not expired.
  abbrev pub live : ℕ → Option (ℕ × Entry K V) → Option V
  live now none = none
  live now (some x) = if is_expired now x.1 then none else some x.1.value

  -- What `Get` returns.
  abbrev pub read : ℕ → K → Cache K V → Option V
  read now k c = live now (locate dec k c.list)

  -- The key at the back of the list.
  unfoldable pub last_key : List (ℕ × Entry K V) → Option K
  last_key [] = none
  last_key (x ∷ []) = some x.1.key
  last_key (x ∷ y ∷ l) = last_key (y ∷ l)

  -- Whether `Set` of `k` evicts `j`: `k` is new, the cache is full, and `j` is the least recent key.
  abbrev pub evicts_key : Cache K V → K → K → Bool
  evicts_key c k j =
      not (is_some (locate dec k c.list))
      && leb c.capacity (length c.list)
      && is_key dec j (last_key c.list)

  last_key-list_back :
      (n i : ℕ) (e : Entry K V) (l : List (ℕ × Entry K V))
      → IsProper dec n l
      → list_back l ≡ some i
      → element i l ≡ some e
      → last_key l ≡ some e.key
  unfolding element list_back last_key
  last_key-list_back n i e [] h p q = cc
  last_key-list_back n i e ((j, d) ∷ []) h p q = ground arith
  last_key-list_back n i e ((j, d) ∷ x ∷ l) h p q =
      let (e', q') = element-list_back dec n i (x ∷ l) h.3 p in
      ground (arith, last_key-list_back n i e (x ∷ l))

  -- An entry that is expired stays so.
  is_expired_later :
      (now t : ℕ) (e : Entry K V) → now ≤ t → is_expired now e ≡ true → is_expired t e ≡ true
  unfolding is_expired
  is_expired_later now t e h p = ground arith

  -- `Get` returns the value of the key's entry if there is one that is not expired, and nothing
  -- otherwise; what a later `Get` of any key returns is as before.
  pub get-read :
      (now : ℕ) (k : K) (c : Cache K V)
      → Inv dec c
      → (c' : Cache K V) × (get dec now k c ≡ some (c', read now k c))
        × ((t : ℕ) (j : K) → now ≤ t → read t j c' ≡ read t j c)
  get-read now k c h = elim (key-cases dec k c h) [
    | inl (p, q) ↦
        (record c { misses = inc64 c.misses }, rw (get_miss dec now k c p, q), λ t j _. refl)
    | inr (i, e, p, q, r) ↦ elim (Bool-cases (is_expired now e)) [
      | inl x ↦ (
        record (without dec i e c) { misses = inc64 c.misses },
        rw (get_expired dec now k c i e p r x, q, x),
        λ t j later. ground (
          arith,
          locate-list_remove dec j c.fresh i e c.list,
          is_expired_later now t e later x,
          locate-element dec c.fresh i e c.list,
        ),
      )
      | inr x ↦ (
        record c { list = (i, e) ∷ list_remove i c.list; hits = inc64 c.hits },
        rw (get_hit dec now k c i e p r x, q, x),
        λ t j later.
            unfold locate in
            ground (
              arith,
              locate-list_remove dec j c.fresh i e c.list,
              locate-element dec c.fresh i e c.list,
            ),
      )
    ]
  ]

  -- What a `Get` at time `t` returns for a value that `Set` wrote at time `now`.
  abbrev pub written_read : ℕ → ℕ → V → Cache K V → Option V
  written_read now t v c = if c.ttl == 0 || leb t (now + c.ttl) then some v else none

  -- After `Set` of `k`, a `Get` of `k` returns the new value for as long as the time to live, or
  -- always if there is none; the key that `Set` evicts, if any, is gone; every other key is as before.
  pub set-read :
      (now : ℕ) (k : K) (v : V) (c : Cache K V)
      → Inv dec c
      → (c' : Cache K V) × (set dec now k v c ≡ some c')
        × ((t : ℕ) (j : K)
            → read t j c'
              ≡ ite
                  (dec k j)
                  (written_read now t v c)
                  (if evicts_key c k j then none else read t j c))
  set-read now k v c h = elim (key-cases dec k c h) [
    | inr (i, e, p, q, r) ↦ (
      _,
      set_update dec now k v c i e p r,
      λ t j.
          unfold locate is_expired new_expiry in
          ground (arith, locate-list_remove dec j c.fresh i e c.list, locate-key dec k i e c.list),
    )
    | inl (p, q) ↦ elim (Bool-cases (ltb (length c.list) c.capacity)) [
      | inl room ↦ (
        inserted dec now k v c,
        set_room dec now k v c p (ground arith),
        λ t j. unfold locate is_expired new_expiry in ground arith,
      )
      | inr full ↦
          let (i, back) = list_back_full dec c h (ground arith) in
          let (e, r) = element-list_back dec c.fresh i c.list h.proper back in
          let c' : Cache K V = record (without dec i e c) { evicts = inc64 c.evicts } in
          (
            inserted dec now k v c',
            set_full dec now k v c i e p (ground arith) back r,
            λ t j.
                unfold locate is_expired new_expiry in
                ground (
                  arith,
                  locate-list_remove dec j c.fresh i e c.list,
                  last_key-list_back c.fresh i e c.list h.proper back r,
                ),
          )
    ]
  ]

  -- On a cache with the invariant, `Set` of a key succeeds and keeps the invariant, and a `Get` that
  -- comes after it, at any time, keeps it too and returns: for that key the new value as long as the
  -- time to live, or always if there is none, and nothing later; nothing for the key that `Set`
  -- evicts, if any; and for every other key what the `Get` would have returned without the `Set`.
  pub set-get :
      (now : ℕ) (k : K) (v : V) (c : Cache K V)
      → Inv dec c
      → (c' : Cache K V) × (set dec now k v c ≡ some c')
        × Inv dec c'
        × ((t : ℕ) (j : K)
            → (c₁ c₂ : Cache K V) × (was : Option V) × (get dec t j c ≡ some (c₁, was))
              × (get dec t j c'
                  ≡ some (
                    c₂,
                    ite (dec k j) (written_read now t v c) (if evicts_key c k j then none else was),
                  ))
              × Inv dec c₂)
  set-get now k v c h =
      let (c', p, r) = set-read now k v c h in
      let (c'', q, i) = set-Inv dec now k v c h in
      let same : c'' ≡ c' = cc in
      let sound : Inv dec c' = subst (Inv dec) same i in
      (
        c',
        p,
        sound,
        λ t j.
            let (c₁, g, later) = get-read t j c h in
            let (c₂, g', later') = get-read t j c' sound in
            let (c₃, o, g'', i') = get-Inv dec t j c' sound in
            let moved : c₃ ≡ c₂ = ground (arith, g', g'') in
            (c₁, c₂, read t j c, g, g' ∙ ap (λ o. some (c₂, o)) (r t j), subst (Inv dec) moved i'),
      )

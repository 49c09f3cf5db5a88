-- ===== src/Cache/Recency.antt =====
-- The list is in the order of use, the most recent key first (pkg/cache/cache.go).
use gkit_go.Prelude.{
  ℕ, zero, suc, ◌-◌, ◌≤◌, ◌≡◌, refl, Option, none, some, List, [], ◌∷◌, inl, inr, Bool-cases, ap,
  arith, ite, ltb, length, is_some, if◌then◌else◌, take,
}
use gkit_go.Cache.Elements.{
  Entry, locate, list_remove, element, list_back, locate-key, element-list_back, IsProper,
  length-list_remove, locate-element,
}
use gkit_go.Cache.{Cache, get, set, is_expired, inc64}
use gkit_go.Cache.Invariant.{Inv, list_back_full}
use gkit_go.Cache.Methods.{
  key-cases, get_miss, get_hit, get_expired, set_update, set_room, set_full, without, inserted,
}

abbrev pub keys : {K V : Type 0} → List (ℕ × Entry K V) → List K
keys [] = []
keys (x ∷ l) = x.1.key ∷ keys l

-- A list of keys without the first occurrence of a key.
abbrev pub drop_key : {K : Type 0} → Discrete K → K → List K → List K
drop_key dec k [] = []
drop_key dec k (j ∷ js) = ite (dec j k) js (j ∷ drop_key dec k js)

take_all : {A : Type 0} (n : ℕ) (xs : List A) → length xs ≤ n → take n xs ≡ xs
take_all zero [] h = refl
take_all zero (x ∷ xs) h = absurd (omega arith)
take_all (suc n) [] h = refl
take_all (suc n) (x ∷ xs) h = ap (◌∷◌ x) (take_all n xs (omega arith))

length-keys : {K V : Type 0} (l : List (ℕ × Entry K V)) → length (keys l) ≡ length l
length-keys [] = refl
length-keys (x ∷ l) = ap suc (length-keys l)

module _ {K V : Type 0} (dec : Discrete K) where
  drop_key_absent :
      (k : K) (l : List (ℕ × Entry K V)) → locate dec k l ≡ none → drop_key dec k (keys l) ≡ keys l
  unfolding locate
  drop_key_absent k [] p = refl
  drop_key_absent k (x ∷ l) p = ground (arith, drop_key_absent k l)

  keys-list_remove :
      (n i : ℕ) (e : Entry K V) (l : List (ℕ × Entry K V))
      → IsProper dec n l
      → element i l ≡ some e
      → keys (list_remove i l) ≡ drop_key dec e.key (keys l)
  unfolding element list_remove
  keys-list_remove n i e [] h p = cc
  keys-list_remove n i e ((j, d) ∷ l) h p =
      ground (arith, keys-list_remove n i e l, locate-element dec n i e l)

  keys-remove_back :
      (n m i : ℕ) (l : List (ℕ × Entry K V))
      → IsProper dec n l
      → list_back l ≡ some i
      → length l ≡ suc m
      → keys (list_remove i l) ≡ take m (keys l)
  unfolding element list_remove list_back
  keys-remove_back n m i [] h p q = cc
  keys-remove_back n zero i ((j, d) ∷ []) h p q = ground arith
  keys-remove_back n (suc m) i ((j, d) ∷ []) h p q = absurd (omega arith)
  keys-remove_back n zero i ((j, d) ∷ x ∷ l) h p q = absurd (omega arith)
  keys-remove_back n (suc m) i ((j, d) ∷ x ∷ l) h p q =
      let (e, r) = element-list_back dec n i (x ∷ l) h.3 p in
      ground (arith, keys-remove_back n m i (x ∷ l))

  -- A `Get` that finds a value moves its key to the front; one that finds nothing drops the key if
  -- it was there, expired; all other keys keep their order.
  keys-get :
      (now : ℕ) (k : K) (c : Cache K V)
      → Inv dec c
      → (c' : Cache K V) × (o : Option V) × (get dec now k c ≡ some (c', o))
        × (keys c'.list ≡ (
            if is_some o then k ∷ drop_key dec k (keys c.list) else drop_key dec k (keys c.list)))
  keys-get now k c h = elim (key-cases dec k c h) [
    | inl (p, q) ↦ (
      record c { misses = inc64 c.misses },
      none,
      get_miss dec now k c p,
      ground (arith, drop_key_absent k c.list),
    )
    | inr (i, e, p, q, r) ↦ elim (Bool-cases (is_expired now e)) [
      | inl x ↦ (
        _,
        none,
        get_expired dec now k c i e p r x,
        ground (arith, keys-list_remove c.fresh i e c.list, locate-key dec k i e c.list),
      )
      | inr x ↦ (
        _,
        some e.value,
        get_hit dec now k c i e p r x,
        ground (arith, keys-list_remove c.fresh i e c.list, locate-key dec k i e c.list),
      )
    ]
  ]

  -- `Set` puts its key in front of the others, in their order, and keeps as many as the capacity
  -- allows: what it drops is the least recent key.
  pub keys-set :
      (now : ℕ) (k : K) (v : V) (c : Cache K V)
      → Inv dec c
      → (c' : Cache K V) × (set dec now k v c ≡ some c')
        × (keys c'.list ≡ take c.capacity (k ∷ drop_key dec k (keys c.list)))
  keys-set now k v c h =
      let pos : c.capacity ≡ suc (c.capacity - 1) = omega (arith, h.positive) in
      elim (key-cases dec k c h) [
        | inr (i, e, p, q, r) ↦ (
          _,
          set_update dec now k v c i e p r,
          ground (
            arith,
            keys-list_remove c.fresh i e c.list,
            locate-key dec k i e c.list,
            take_all (c.capacity - 1) (keys (list_remove i c.list)),
            length-keys (list_remove i c.list),
            length-list_remove dec i e c.list,
            h.bounded,
          ),
        )
        | inl (p, q) ↦ elim (Bool-cases (ltb (length c.list) c.capacity)) [
          | inl room ↦ (
            inserted dec now k v c,
            set_room dec now k v c p (ground arith),
            ground (
              arith,
              drop_key_absent k c.list,
              take_all (c.capacity - 1) (keys c.list),
              length-keys c.list,
            ),
          )
          | inr full ↦
              let (i, back) = list_back_full dec c h (ground arith) in
              let (e, r) = element-list_back dec c.fresh i c.list h.proper back in
              let c' : Cache K V = record (without dec i e c) { evicts = inc64 c.evicts } in
              (
                inserted dec now k v c',
                set_full dec now k v c i e p (ground arith) back r,
                ground (
                  arith,
                  drop_key_absent k c.list,
                  keys-remove_back c.fresh (c.capacity - 1) i c.list,
                  h.bounded,
                ),
              )
        ]
      ]

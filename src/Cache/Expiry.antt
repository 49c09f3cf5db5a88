-- ===== src/Cache/Expiry.antt =====
-- What `deleteExpired` leaves, and that no call reads through a stale pointer
-- (pkg/cache/cache.go).
use gkit_go.Prelude.{
  ℕ, ◌≡◌, refl, true, false, ◌&&◌, Option, none, some, List, [], ◌∷◌, inl, inr, Option-cases,
  Bool-cases, arith, ◌∙◌, if◌then◌else◌, ◌==◌, ◌<◌,
}
use gkit_go.Cache.Elements.{
  Entry, element, list_remove, locate, IsProper, locate-key, element-locate, locate-element,
  locate-list_remove, element-list_remove, from_back, elem, elem-from_back, IsDistinct,
  from_back-IsDistinct,
}
use gkit_go.Cache.{
  Cache, new, delete_expired_from, delete_expired, clear, Op, op_get, op_set, op_delete, op_clear,
  op_delete_expired, step, run, is_expired,
}
use gkit_go.Cache.Invariant.{Inv, new-Inv, removed-Inv, cleared-Inv}
use gkit_go.Cache.Methods.{without, get-Inv, set-Inv, delete-Inv}

module _ {K V : Type 0} (dec : Discrete K) where
  -- Every pointer leads to an element of the list.
  abbrev IsHeld : List (ℕ × Entry K V) → List ℕ → Type 0
  IsHeld l els = (i : ℕ) → elem i els ≡ true → (e : Entry K V) × (element i l ≡ some e)

  -- What the loop over `els` leaves of an element.
  abbrev pub sift : ℕ → List ℕ → Option (ℕ × Entry K V) → Option (ℕ × Entry K V)
  sift now els none = none
  sift now els (some x) = if elem x.0 els && is_expired now x.1 then none else some x

  sift-removed :
      (now n el : ℕ) (els : List ℕ) (e : Entry K V) (l : List (ℕ × Entry K V)) (k : K)
      → IsProper dec n l
      → element el l ≡ some e
      → is_expired now e ≡ true
      → elem el els ≡ false
      → sift now els (locate dec k (list_remove el l)) ≡ sift now (el ∷ els) (locate dec k l)
  sift-removed now n el els e l k h p x d = elim (Option-cases (locate dec k l)) [
    | inl q ↦ ground (arith, locate-list_remove dec k n el e l)
    | inr (y, q) ↦ ground (
      arith,
      locate-list_remove dec k n el e l,
      locate-element dec n el e l,
      element-locate dec k n y.0 y.1 l,
      locate-key dec k y.0 y.1 l,
    )
  ]

  sift-kept :
      (now n el : ℕ) (els : List ℕ) (e : Entry K V) (l : List (ℕ × Entry K V)) (k : K)
      → IsProper dec n l
      → element el l ≡ some e
      → is_expired now e ≡ false
      → sift now els (locate dec k l) ≡ sift now (el ∷ els) (locate dec k l)
  sift-kept now n el els e l k h p x = elim (Option-cases (locate dec k l)) [
    | inl q ↦ rw q
    | inr (y, q) ↦ ground (arith, element-locate dec k n y.0 y.1 l)
  ]

  IsHeld-removed :
      (n el : ℕ) (els : List ℕ) (l : List (ℕ × Entry K V))
      → IsProper dec n l
      → elem el els ≡ false
      → IsHeld l (el ∷ els)
      → IsHeld (list_remove el l) els
  IsHeld-removed n el els l h d held i p =
      let (e, q) = held i (ground arith) in (e, ground (arith, element-list_remove dec n el i l))

  sift-nil : (now : ℕ) (o : Option (ℕ × Entry K V)) → o ≡ sift now [] o
  sift-nil now none = refl
  sift-nil now (some x) = refl

  -- The loop removes the expired elements among those that it visits, and no other.
  expired_loop :
      (now : ℕ) (els : List ℕ) (c : Cache K V)
      → Inv dec c
      → IsHeld c.list els
      → IsDistinct els
      → (c' : Cache K V) × (delete_expired_from dec now els c ≡ some c')
        × Inv dec c'
        × ((k : K) → locate dec k c'.list ≡ sift now els (locate dec k c.list))
  unfolding delete_expired_from
  expired_loop now [] c h held d = (c, refl, h, λ k. sift-nil now (locate dec k c.list))
  expired_loop now (el ∷ els) c h held d =
      let (e, p) = held el (ground arith) in
      elim (Bool-cases (is_expired now e)) [
        | inl x ↦
            let (c', ran, inv, left) =
              expired_loop now els (without dec el e c) (removed-Inv dec el e c h p)
                (IsHeld-removed c.fresh el els c.list h.proper d.0 held) d.1 in
            (
              c',
              ground arith,
              inv,
              λ k. left k ∙ sift-removed now c.fresh el els e c.list k h.proper p x d.0,
            )
        | inr x ↦
            let (c', ran, inv, left) =
              expired_loop now els c h (λ i q. held i (ground arith)) d.1 in
            (
              c',
              ground arith,
              inv,
              λ k. left k ∙ sift-kept now c.fresh el els e c.list k h.proper p x,
            )
      ]

  -- The unexpired part of a lookup.
  abbrev pub unexpired : ℕ → Option (ℕ × Entry K V) → Option (ℕ × Entry K V)
  unexpired now none = none
  unexpired now (some x) = if is_expired now x.1 then none else some x

  -- `deleteExpired` never reads through a stale pointer and keeps the invariant. Without a time to
  -- live it changes nothing; with one, exactly the keys whose entry is expired are gone.
  delete_expired_lem :
      (now : ℕ) (c : Cache K V)
      → Inv dec c
      → (c' : Cache K V) × (delete_expired dec now c ≡ some c')
        × Inv dec c'
        × ((k : K)
            → locate dec k c'.list
              ≡ (if c.ttl == 0 then locate dec k c.list else unexpired now (locate dec k c.list)))
  unfolding delete_expired
  delete_expired_lem now c h = elim (Bool-cases (c.ttl == 0)) [
    | inl off ↦ rw off (c, refl, h, λ k. refl)
    | inr on ↦
        let (c', ran, inv, left) =
          expired_loop now (from_back c.list) c h all_held
            (from_back-IsDistinct dec c.fresh c.list h.proper) in
        rw on (c', ran, inv, λ k. left k ∙ all_sifted k)
  ]
    where
      all_held : IsHeld c.list (from_back c.list)
      all_held i p = element_of (element i c.list) refl
        where
          element_of :
              (o : Option (Entry K V))
              → element i c.list ≡ o
              → (e : Entry K V) × (element i c.list ≡ some e)
          element_of none q = absurd (ground (arith, elem-from_back dec i c.list))
          element_of (some e) q = (e, q)

      all_sifted :
          (k : K)
          → sift now (from_back c.list) (locate dec k c.list) ≡ unexpired now (locate dec k c.list)
      all_sifted k = elim (Option-cases (locate dec k c.list)) [
        | inl p ↦ rw p
        | inr (x, p) ↦ ground (
          arith,
          element-locate dec k c.fresh x.0 x.1 c.list h.proper p,
          elem-from_back dec x.0 c.list,
        )
      ]

  step-Inv :
      (op : Op K V) (c : Cache K V)
      → Inv dec c
      → (c' : Cache K V) × (step dec op c ≡ some c') × Inv dec c'
  unfolding step
  step-Inv (op_get now k) c h = let (c', o, p, inv) = get-Inv dec now k c h in (c', rw p, inv)
  step-Inv (op_set now k v) c h = set-Inv dec now k v c h
  step-Inv (op_delete k) c h = delete-Inv dec k c h
  step-Inv op_clear c h = (clear c, refl, cleared-Inv dec c h)
  step-Inv (op_delete_expired now) c h =
      let (c', p, inv, _) = delete_expired_lem now c h in (c', p, inv)

  run-Inv :
      (ops : List (Op K V)) (c : Cache K V)
      → Inv dec c
      → (c' : Cache K V) × (run dec ops c ≡ some c') × Inv dec c'
  unfolding run
  run-Inv [] c h = (c, refl, h)
  run-Inv (op ∷ ops) c h =
      let (c', p, inv) = step-Inv op c h in
      let (c'', q, inv') = run-Inv ops c' inv in (c'', rw p q, inv')

  -- A new cache with a capacity of at least 1 runs any sequence of calls, ticks of the janitor among
  -- them, without reading through a stale pointer, and ends with a map and a list that agree, no
  -- key twice, and no more elements than the capacity.
  pub cache-Inv :
      (capacity ttl : ℕ) (ops : List (Op K V))
      → 0 < capacity
      → (c : Cache K V) × (c' : Cache K V) × (new capacity ttl ≡ some c)
        × (run dec ops c ≡ some c')
        × Inv dec c'
  cache-Inv capacity ttl ops h =
      let (c, p, inv) = new-Inv dec capacity ttl h in
      let (c', q, inv') = run-Inv ops c inv in (c, c', p, q, inv')

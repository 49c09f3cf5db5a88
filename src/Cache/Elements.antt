-- ===== src/Cache/Elements.antt =====
-- What pkg/cache/cache.go uses of `container/list`: a list of pointers with what they point to.
use gkit_go.Prelude.{
  ℕ, ◌+◌, ◌≡◌, refl, Bool, false, ◌||◌, ◌++◌, is_some, Option, none, some, List, [], ◌∷◌, ite, ◌<◌,
  arith, length, ◌==◌, if◌then◌else◌, Bool-cases, inl, inr,
}

pub record Entry (K V : Type 0) : Type 0 where
  pub key : K
  pub value : V
  pub expires_at : Option ℕ  -- `none` is the zero time

abbrev pub Elements : Type 0 → Type 0 → Type 0
Elements K V = List (ℕ × Entry K V)

module _ {K V : Type 0} where
  -- `el.Value`
  unfoldable pub element : ℕ → Elements K V → Option (Entry K V)
  element el [] = none
  element el ((i, e) ∷ l) = if i == el then some e else element el l

  -- `l.Remove(el)`
  unfoldable pub list_remove : ℕ → Elements K V → Elements K V
  list_remove el [] = []
  list_remove el ((i, e) ∷ l) = if i == el then l else (i, e) ∷ list_remove el l

  -- `l.Back()`
  unfoldable pub list_back : Elements K V → Option ℕ
  list_back [] = none
  list_back ((i, e) ∷ []) = some i
  list_back (x ∷ y ∷ l) = list_back (y ∷ l)

  -- A write to the fields of what `el` points to.
  unfoldable pub store_at : ℕ → (Entry K V → Entry K V) → Elements K V → Elements K V
  store_at el f [] = []
  store_at el f ((i, e) ∷ l) = if i == el then (i, f e) ∷ l else (i, e) ∷ store_at el f l

  -- `l.MoveToFront(el)`
  unfoldable pub move_to_front : ℕ → Elements K V → Elements K V
  unfolding element list_remove
  move_to_front el l = elim (element el l) [ none ↦ l | some e ↦ (el, e) ∷ list_remove el l ]

  -- The pointers that `for el := l.Back(); el != nil; el = el.Prev()` visits, in its order.
  unfoldable pub from_back : Elements K V → List ℕ
  from_back [] = []
  from_back ((i, e) ∷ l) = from_back l ++ i ∷ []

abbrev pub elem : ℕ → List ℕ → Bool
elem i [] = false
elem i (j ∷ js) = j == i || elem i js

abbrev pub IsDistinct : List ℕ → Type 0
IsDistinct [] = Unit
IsDistinct (j ∷ js) = (elem j js ≡ false) × IsDistinct js

elem-append : (i j : ℕ) (js : List ℕ) → elem i (js ++ j ∷ []) ≡ (elem i js || j == i)
elem-append i j [] = ground arith
elem-append i j (m ∷ js) = ground (arith, elem-append i j js)

IsDistinct-append :
    (j : ℕ) (js : List ℕ) → IsDistinct js → elem j js ≡ false → IsDistinct (js ++ j ∷ [])
IsDistinct-append j [] h p = (refl, tt)
IsDistinct-append j (m ∷ js) h p =
    (ground (arith, elem-append m j js), IsDistinct-append j js h.1 (ground arith))

module _ {K V : Type 0} (dec : Discrete K) where
  -- The first element with a key, by a search of the list.
  unfoldable pub locate : K → Elements K V → Option (ℕ × Entry K V)
  locate k [] = none
  locate k ((i, e) ∷ l) = ite (dec e.key k) (some (i, e)) (locate k l)

  -- No key and no pointer stands twice, and the pointers are below a bound.
  abbrev pub IsProper : ℕ → Elements K V → Type 0
  IsProper n [] = Unit
  IsProper n ((i, e) ∷ l) = (i < n) × (locate e.key l ≡ none) × (element i l ≡ none) × IsProper n l

  pub locate-key :
      (k : K) (i : ℕ) (e : Entry K V) (l : Elements K V) → locate k l ≡ some (i, e) → e.key ≡ k
  unfolding locate
  locate-key k i e [] p = cc
  locate-key k i e ((j, d) ∷ l) p = ground (arith, locate-key k i e l)

  pub element-locate :
      (k : K) (n i : ℕ) (e : Entry K V) (l : Elements K V)
      → IsProper n l
      → locate k l ≡ some (i, e)
      → element i l ≡ some e
  unfolding element locate
  element-locate k n i e [] h p = cc
  element-locate k n i e ((j, d) ∷ l) h p = ground (arith, element-locate k n i e l)

  -- The converse: a pointer in the list is the one that its key leads to.
  pub locate-element :
      (n i : ℕ) (e : Entry K V) (l : Elements K V)
      → IsProper n l
      → element i l ≡ some e
      → locate e.key l ≡ some (i, e)
  unfolding element locate
  locate-element n i e [] h p = cc
  locate-element n i e ((j, d) ∷ l) h p =
      ground (arith, locate-element n i e l, locate-key e.key i e l)

  -- Removal of a pointer hides its key and nothing else.
  pub locate-list_remove :
      (k : K) (n i : ℕ) (e : Entry K V) (l : Elements K V)
      → IsProper n l
      → element i l ≡ some e
      → locate k (list_remove i l) ≡ ite (dec e.key k) none (locate k l)
  unfolding element locate list_remove
  locate-list_remove k n i e [] h p = cc
  locate-list_remove k n i e ((j, d) ∷ l) h p =
      ground (arith, locate-list_remove k n i e l, locate-element n i e l)

  pub element-list_remove :
      (n i j : ℕ) (l : Elements K V)
      → IsProper n l
      → element j (list_remove i l) ≡ (if i == j then none else element j l)
  unfolding element list_remove
  element-list_remove n i j [] h = ground arith
  element-list_remove n i j ((m, d) ∷ l) h = ground (arith, element-list_remove n i j l)

  pub list_remove-IsProper :
      (n i : ℕ) (e : Entry K V) (l : Elements K V)
      → IsProper n l
      → element i l ≡ some e
      → IsProper n (list_remove i l)
  unfolding element list_remove
  list_remove-IsProper n i e [] h p = tt
  list_remove-IsProper n i e ((j, d) ∷ l) h p = elim (Bool-cases (j == i)) [
    | inl here ↦ rw here h.3
    | inr there ↦ rw there (
      h.0,
      ground (arith, locate-list_remove d.key n i e l),
      ground (arith, element-list_remove n i j l),
      list_remove-IsProper n i e l h.3 (ground arith),
    )
  ]

  pub length-list_remove :
      (i : ℕ) (e : Entry K V) (l : Elements K V)
      → element i l ≡ some e
      → length (list_remove i l) + 1 ≡ length l
  unfolding element list_remove
  length-list_remove i e [] p = cc
  length-list_remove i e ((j, d) ∷ l) p = ground (arith, length-list_remove i e l)

  pub element-list_back :
      (n i : ℕ) (l : Elements K V)
      → IsProper n l
      → list_back l ≡ some i
      → (e : Entry K V) × (element i l ≡ some e)
  unfolding element list_back
  element-list_back n i [] h p = cc
  element-list_back n i ((j, d) ∷ []) h p = (d, ground arith)
  element-list_back n i ((j, d) ∷ x ∷ l) h p =
      let (e, q) = element-list_back n i (x ∷ l) h.3 p in (e, ground arith)

  pub IsProper-suc : (n : ℕ) (l : Elements K V) → IsProper n l → IsProper (n + 1) l
  IsProper-suc n [] h = tt
  IsProper-suc n ((j, d) ∷ l) h = (omega arith, h.1, h.2, IsProper-suc n l h.3)

  pub element_fresh : (n : ℕ) (l : Elements K V) → IsProper n l → element n l ≡ none
  unfolding element
  element_fresh n [] h = refl
  element_fresh n ((j, d) ∷ l) h = ground (arith, element_fresh n l)

  pub element-lt :
      (n i : ℕ) (e : Entry K V) (l : Elements K V) → IsProper n l → element i l ≡ some e → i < n
  unfolding element
  element-lt n i e [] h p = cc
  element-lt n i e ((j, d) ∷ l) h p = ground (arith, element-lt n i e l)

  pub list_back-ne-none :
      (x : ℕ × Entry K V) (l : Elements K V) → (i : ℕ) × (list_back (x ∷ l) ≡ some i)
  unfolding list_back
  list_back-ne-none x [] = (x.0, refl)
  list_back-ne-none x (y ∷ l) = list_back-ne-none y l

  pub elem-from_back : (i : ℕ) (l : Elements K V) → elem i (from_back l) ≡ is_some (element i l)
  unfolding element from_back
  elem-from_back i [] = refl
  elem-from_back i ((j, d) ∷ l) = ground (arith, elem-append i j (from_back l), elem-from_back i l)

  pub from_back-IsDistinct : (n : ℕ) (l : Elements K V) → IsProper n l → IsDistinct (from_back l)
  unfolding from_back
  from_back-IsDistinct n [] h = tt
  from_back-IsDistinct n ((j, d) ∷ l) h =
      IsDistinct-append j (from_back l) (from_back-IsDistinct n l h.3)
        (rw (elem-from_back j l, h.2))

-- ===== src/EventStore/Loading.antt =====
-- That a load returns the versions in order (pkg/eventstore/eventstore.go).
use gkit_go.Prelude.{
  ℕ, zero, suc, ◌+◌, ◌-◌, ◌≤◌, ◌<◌, ◌≡◌, refl, ap, subst, sym, ◌∙◌, true, false, List, [], ◌∷◌,
  ◌++◌, map, inl, inr, arith, Bool-cases, leb, ◌==◌, All,
}
use gkit_go.EventStore.{
  Event, Result, ok, failed, stream_not_found, next_version, place, select, load,
}
use gkit_go.EventStore.Appending.{IsLog, next_version-inserted, next_version-others}

-- The `n` numbers from `a` on.
abbrev pub range : ℕ → ℕ → List ℕ
range a zero = []
range a (suc n) = a ∷ range (suc a) n

range-suc : (a n : ℕ) → range a (suc n) ≡ range a n ++ (a + n) ∷ []
range-suc a zero = ground arith
range-suc a (suc n) =
    ap (◌∷◌ a) (range-suc (suc a) n ∙ ap (λ m. range (suc a) n ++ m ∷ []) (omega arith))

range_nil : (a n : ℕ) → [] ≡ range a n → n ≡ 0
range_nil a zero p = refl
range_nil a (suc n) p = cc

module _ {K J : Type 0} where
  abbrev versions : List (Event K J) → List ℕ
  versions = map (λ (e : Event K J). e.version)

  -- The place of an event above the others is at the end.
  place-last :
      (e : Event K J) (es : List (Event K J))
      → All (λ (x : Event K J). x.version < e.version) es
      → versions (place e es) ≡ versions es ++ e.version ∷ []
  unfolding place
  place-last e [] h = refl
  place-last e (x ∷ es) h = ground (arith, place-last e es h.1)

  All-place :
      (e : Event K J) (es : List (Event K J)) (n : ℕ)
      → e.version < n
      → All (λ (x : Event K J). x.version < n) es
      → All (λ (x : Event K J). x.version < n) (place e es)
  unfolding place
  All-place e [] n p h = (p, tt)
  All-place e (x ∷ es) n p h = ground (arith, All-place e es n p h.1)

  All-later :
      (es : List (Event K J)) (m n : ℕ)
      → m ≤ n
      → All (λ (x : Event K J). x.version < m) es
      → All (λ (x : Event K J). x.version < n) es
  All-later [] m n p h = tt
  All-later (x ∷ es) m n p h = (omega (arith, h.0), All-later es m n p h.1)

module _ {K J : Type 0} (dec : Discrete K) where
  select-other :
      (e : Event K J) (rows : List (Event K J)) (k : K) (from : ℕ)
      → (e.stream ≡ k → ⊥)
      → select dec (e ∷ rows) k from ≡ select dec rows k from
  unfolding select
  select-other e rows k from p = ground arith

  select-later :
      (e : Event K J) (rows : List (Event K J)) (k : K) (from : ℕ)
      → e.stream ≡ k
      → leb from e.version ≡ true
      → select dec (e ∷ rows) k from ≡ place e (select dec rows k from)
  unfolding select
  select-later e rows k from p q = ground arith

  select-earlier :
      (e : Event K J) (rows : List (Event K J)) (k : K) (from : ℕ)
      → e.stream ≡ k
      → leb from e.version ≡ false
      → select dec (e ∷ rows) k from ≡ select dec rows k from
  unfolding select
  select-earlier e rows k from p q = ground arith

  -- The next event of a stream has the next version.
  next_version-same :
      (e : Event K J) (rows : List (Event K J)) (k : K)
      → IsLog dec (e ∷ rows)
      → e.stream ≡ k
      → (e.version ≡ next_version dec rows k)
        × (next_version dec (e ∷ rows) k ≡ next_version dec rows k + 1)
  next_version-same e rows k h p =
      subst
        (λ (j : K).
          (e.version ≡ next_version dec rows j)
          × (next_version dec (e ∷ rows) j ≡ next_version dec rows j + 1))
        p (h.0, next_version-inserted dec e rows h.0)

  select-All :
      (rows : List (Event K J)) (k : K) (from : ℕ)
      → IsLog dec rows
      → All (λ (x : Event K J). x.version < next_version dec rows k) (select dec rows k from)
  unfolding select
  select-All [] k from h = tt
  select-All (e ∷ rows) k from h = elim (dec e.stream k) [
    | no p ↦
        rw (select-other e rows k from p, next_version-others dec e rows k p)
          (select-All rows k from h.1)
    | yes p ↦
        let same = next_version-same e rows k h p in
        let n = next_version dec rows k in
        let later =
          All-later (select dec rows k from) n (n + 1) (omega arith) (select-All rows k from h.1) in
        elim (Bool-cases (leb from e.version)) [
          | inl q ↦
              rw (select-later e rows k from p q, same.1)
                (All-place e (select dec rows k from) (n + 1) (omega (arith, same.0)) later)
          | inr q ↦ rw (select-earlier e rows k from p q, same.1) later
        ]
  ]

  select-versions :
      (rows : List (Event K J)) (k : K) (from : ℕ)
      → IsLog dec rows
      → versions (select dec rows k from) ≡ range from (next_version dec rows k - from)
  unfolding select next_version
  select-versions [] k from h = ground arith
  select-versions (e ∷ rows) k from h = elim (dec e.stream k) [
    | no p ↦
        rw (select-other e rows k from p, next_version-others dec e rows k p)
          (select-versions rows k from h.1)
    | yes p ↦
        let same = next_version-same e rows k h p in
        let n = next_version dec rows k in
        let es = select dec rows k from in
        elim (Bool-cases (leb from e.version)) [
          | inl q ↦
              rw (select-later e rows k from p q, same.1)
                (place-last e es (rw (same.0) (select-All rows k from h.1))
                  ∙ ap (λ (vs : List ℕ). vs ++ e.version ∷ []) (select-versions rows k from h.1)
                  ∙ ap (λ v. range from (n - from) ++ v ∷ []) (ground (arith, q, same.0))
                  ∙ sym (range-suc from (n - from))
                  ∙ ap (range from) {x = suc (n - from)} (ground (arith, q, same.0)))
          | inr q ↦
              rw (select-earlier e rows k from p q, same.1)
                (select-versions rows k from h.1 ∙ ap (range from) (ground (arith, q, same.0)))
        ]
  ]

  -- What a load returns: the versions from the given one to the stream's last, in order, or, of a
  -- stream without events loaded as a whole, `ErrStreamNotFound`.
  abbrev pub IsLoaded : List (Event K J) → K → ℕ → Result (List (Event K J)) → Type 0
  IsLoaded rows k from (ok es) = versions es ≡ range from (next_version dec rows k - from)
  IsLoaded rows k from (failed e) =
      (e ≡ stream_not_found) × ((from ≡ 0) × (next_version dec rows k ≡ 0))

  load_from :
      (rows : List (Event K J)) (k : K) (from : ℕ) (es : List (Event K J))
      → select dec rows k from ≡ es
      → versions es ≡ range from (next_version dec rows k - from)
      → IsLoaded rows k from (load dec rows k from)
  unfolding load
  load_from rows k from (e ∷ es) p q = rw (p, load) q
  load_from rows k from [] p q = elim (Bool-cases (from == 0)) [
    | inl r ↦
        let nothing = range_nil from (next_version dec rows k - from) q in
        rw (p, r, load) (refl, (ground arith, ground (arith, nothing)))
    | inr r ↦ rw (p, r, load) q
  ]

  -- Of a table whose versions have no gap, a load returns the events with the versions from the
  -- given one to the stream's last, in order; it fails with `ErrStreamNotFound` only when the whole
  -- of a stream without events is asked for.
  load-IsLoaded :
      (rows : List (Event K J)) (k : K) (from : ℕ)
      → IsLog dec rows
      → IsLoaded rows k from (load dec rows k from)
  load-IsLoaded rows k from h =
      load_from rows k from (select dec rows k from) refl (select-versions rows k from h)

-- ===== src/Stream/Batches.antt =====
-- That batches lose nothing and stay within their size (pkg/async/stream.go).
use gkit_go.Prelude.{
  ℕ, ◌≤◌, ◌<◌, ◌≡◌, refl, ap, sym, subst, Option, List, [], ◌∷◌, ◌++◌, append-nil, append_assoc,
  inl, inr, arith, Bool-cases, leb, length, length-append, All, max,
}
use gkit_go.Stream.{Signal, item, timeout, flush, batches, batch}

module _ {A : Type 0} where
  abbrev pub concat : List (List A) → List A
  concat [] = []
  concat (xs ∷ xss) = xs ++ concat xss

  -- The items that the signals bring.
  abbrev pub brought : List (Signal A) → List A
  brought [] = []
  brought (item v ∷ signals) = v ∷ brought signals
  brought (timeout ∷ signals) = brought signals

  -- A batch is not empty and within the size.
  abbrev pub IsSized : ℕ → List A → Type 0
  IsSized size xs = (0 < length xs) × (length xs ≤ max 1 size)

  -- What the loop owes: the items of the buffer and of the signals, in batches of the size.
  abbrev IsSplit : ℕ → List A → List (List A) → Type 0
  IsSplit size vs xss = (concat xss ≡ vs) × All (IsSized size) xss

  flush-IsSplit :
      (size : ℕ) (buf rest : List A) (xss : List (List A))
      → length buf ≤ max 1 size
      → IsSplit size rest xss
      → IsSplit size (buf ++ rest) (flush buf ++ xss)
  unfolding flush
  flush-IsSplit size [] rest xss h p = p
  flush-IsSplit size (v ∷ buf) rest xss h p = (ap (◌++◌ (v ∷ buf)) p.0, ((omega arith, h), p.1))

  flush-end : (size : ℕ) (buf : List A) → length buf ≤ max 1 size → IsSplit size buf (flush buf)
  unfolding flush
  flush-end size [] h = (refl, tt)
  flush-end size (v ∷ buf) h = (append-nil (v ∷ buf), ((omega arith, h), tt))

  batches-IsSplit :
      (size : ℕ) (buf : List A) (signals : List (Signal A))
      → length buf < max 1 size
      → IsSplit size (buf ++ brought signals) (batches size buf signals)
  unfolding batches
  batches-IsSplit size buf [] h =
      subst (λ (vs : List A). IsSplit size vs (flush buf)) (sym (append-nil buf))
        (flush-end size buf (omega arith))
  batches-IsSplit size buf (timeout ∷ signals) h =
      flush-IsSplit size buf (brought signals) (batches size [] signals) (omega arith)
        (batches-IsSplit size [] signals (omega arith))
  batches-IsSplit size buf (item v ∷ signals) h =
      let longer = length-append buf (v ∷ []) in
      subst (λ (vs : List A). IsSplit size vs (batches size buf (item v ∷ signals)))
        (append_assoc buf (v ∷ []) (brought signals))
        (elim (Bool-cases (leb size (length (buf ++ v ∷ [])))) [
          | inl p ↦
              rw (p, batches)
                (flush-IsSplit size (buf ++ v ∷ []) (brought signals) (batches size [] signals)
                  (omega (arith, longer)) (batches-IsSplit size [] signals (omega arith)))
          | inr p ↦
              rw (p, batches)
                (batches-IsSplit size (buf ++ v ∷ []) signals (ground (arith, p, longer)))
        ])

  -- Batch brings every item, in order and once, in batches that are not empty and hold at most as
  -- many items as the size (at least 1), wherever its timeouts fall.
  batch-IsSplit :
      {E : Type 0} (size : ℕ) (signals : List (Signal A)) (err : Option E)
      → (concat (batch size signals err).items ≡ brought signals)
        × All (IsSized size) (batch size signals err).items
  unfolding batch
  batch-IsSplit size signals err = batches-IsSplit size [] signals (omega arith)

-- ===== src/Pubsub/Handles.antt =====
-- Lists of handles, and the places of a list that they name (pkg/pubsub/bus.go).
use gkit_go.Prelude.{
  true, ℕ, zero, suc, ◌≡◌, refl, Bool, false, not, ◌&&◌, ◌||◌, Option, none, some, List, [], ◌∷◌,
  ◌++◌, arith, length, ◌==◌, map, get_elem?, if◌then◌else◌,
}
use gkit_go.Pubsub.Subscriber.{Subscriber, publish_to}
use gkit_go.Pubsub.Registry.{modify, remove_first, panics_at, publish_all}

-- A function on what may be there.
abbrev pub lift : {A : Type 0} → (A → A) → Option A → Option A
lift f none = none
lift f (some x) = some (f x)

-- Whether a handle is among those of a list.
abbrev pub is_listed : List ℕ → ℕ → Bool
is_listed [] j = false
is_listed (h ∷ handles) j = h == j || is_listed handles j

-- No handle stands twice.
abbrev pub Distinct : List ℕ → Type 0
Distinct [] = Unit
Distinct (h ∷ handles) = (is_listed handles h ≡ false) × Distinct handles

pub get-modify :
    {A : Type 0} (i : ℕ) (f : A → A) (xs : List A) (j : ℕ)
    → get_elem? (modify i f xs) j ≡ (if i == j then lift f (get_elem? xs j) else get_elem? xs j)
unfolding modify
get-modify i f [] j = ground arith
get-modify zero f (x ∷ xs) zero = ground arith
get-modify zero f (x ∷ xs) (suc j) = ground arith
get-modify (suc i) f (x ∷ xs) zero = ground arith
get-modify (suc i) f (x ∷ xs) (suc j) = ground (arith, get-modify i f xs j)

pub get-map :
    {A : Type 0} (f : A → A) (xs : List A) (j : ℕ)
    → get_elem? (map f xs) j ≡ lift f (get_elem? xs j)
get-map f [] j = refl
get-map f (x ∷ xs) zero = refl
get-map f (x ∷ xs) (suc j) = get-map f xs j

pub get-append :
    {A : Type 0} (xs : List A) (x : A) (j : ℕ)
    → get_elem? (xs ++ x ∷ []) j ≡ (if length xs == j then some x else get_elem? xs j)
get-append [] x zero = ground arith
get-append [] x (suc j) = ground arith
get-append (y ∷ xs) x zero = ground arith
get-append (y ∷ xs) x (suc j) = ground (arith, get-append xs x j)

pub is_listed-append :
    (hs : List ℕ) (h j : ℕ) → is_listed (hs ++ h ∷ []) j ≡ (is_listed hs j || h == j)
is_listed-append [] h j = ground arith
is_listed-append (i ∷ hs) h j = ground (arith, is_listed-append hs h j)

pub append-Distinct :
    (hs : List ℕ) (h : ℕ) → Distinct hs → is_listed hs h ≡ false → Distinct (hs ++ h ∷ [])
append-Distinct [] h d e = (refl, tt)
append-Distinct (i ∷ hs) h d e =
    (ground (arith, d.0, e, is_listed-append hs h i), append-Distinct hs h d.1 (ground (arith, e)))

pub is_listed-remove_first :
    (h : ℕ) (hs : List ℕ) (j : ℕ)
    → Distinct hs
    → is_listed (remove_first h hs) j ≡ (is_listed hs j && not (h == j))
unfolding remove_first
is_listed-remove_first h [] j d = refl
is_listed-remove_first h (i ∷ hs) j d = ground (arith, d.0, is_listed-remove_first h hs j d.1)

pub remove_first-Distinct : (h : ℕ) (hs : List ℕ) → Distinct hs → Distinct (remove_first h hs)
unfolding remove_first
remove_first-Distinct h [] d = tt
remove_first-Distinct h (i ∷ hs) d =
    ground (arith, d, remove_first-Distinct h hs d.1, is_listed-remove_first h hs i d.1)

-- Where no handle of the list panics, all are offered the event.
pub get-publish_all :
    {K P : Type 0} (x : P) (hs : List ℕ) (store : List (Subscriber K P))
    → Distinct hs
    → ((j : ℕ) → is_listed hs j ≡ true → panics_at x (get_elem? store j) ≡ false)
    → ((publish_all x hs store).0 ≡ false)
      × ((j : ℕ)
          → get_elem? (publish_all x hs store).1 j ≡ (
              if is_listed hs j
              then lift (publish_to x) (get_elem? store j)
              else get_elem? store j))
unfolding publish_all
get-publish_all x [] store d quiet = (refl, λ j. refl)
get-publish_all x (h ∷ hs) store d quiet =
    let here : panics_at x (get_elem? store h) ≡ false = quiet h (ground arith) in
    let (calm, at) =
      get-publish_all x hs (modify h (publish_to x) store) d.1
        (λ j l. ground (arith, l, d.0, quiet j, get-modify h (publish_to x) store j)) in
    (
      ground (arith, here, calm),
      λ j. ground (arith, here, d.0, at j, get-modify h (publish_to x) store j),
    )

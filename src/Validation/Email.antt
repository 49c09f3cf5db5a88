-- ===== src/Validation/Email.antt =====
-- What an email is (pkg/validation/validation.go).
use gkit_go.Prelude.{
  ℕ, ◌+◌, ◌≤◌, ◌≡◌, ◌≢◌, ◌⊎◌, ◌↔◌, refl, ap, ◌∙◌, sym, true, false, none, some, List, [], ◌∷◌, ◌++◌,
  inl, inr, arith, Option-cases, Bool-cases, length, length-append, ltb, leb, ◌==◌, ◌||◌,
  if◌then◌else◌, Any, All,
}
use gkit_go.Bytes.{contains, last_index, drop}
use gkit_go.Bytes.Splitting.{Lacks}
use gkit_go.Validation.Rules.{is_email}

last_index-none : (b : ℕ) (s : List ℕ) → Lacks b s → last_index b s ≡ none
unfolding last_index
last_index-none b [] h = refl
last_index-none b (c ∷ s) h = ground (arith, last_index-none b s h.1)

none-Lacks : (b : ℕ) (s : List ℕ) → last_index b s ≡ none → Lacks b s
unfolding last_index
none-Lacks b [] h = tt
none-Lacks b (c ∷ s) h = elim (Option-cases (last_index b s)) [
  | inl p ↦ (ground (arith, p, h), none-Lacks b s p)
  | inr (i, p) ↦ absurd (ground (arith, p, h))
]

last_index-append : (b : ℕ) (s t : List ℕ) → Lacks b t → last_index b (s ++ b ∷ t) ≡ some (length s)
unfolding last_index
last_index-append b [] t h = ground (arith, last_index-none b t h)
last_index-append b (c ∷ s) t h = ground (arith, last_index-append b s t h)

-- A text is split at the last place of a byte.
splits :
    (b : ℕ) (s : List ℕ) (i : ℕ)
    → last_index b s ≡ some i
    → (l : List ℕ) × ((t : List ℕ) × ((s ≡ l ++ b ∷ t) × ((length l ≡ i) × Lacks b t)))
unfolding last_index
splits b [] i h = absurd (ground (arith, h))
splits b (c ∷ s) i h = elim (Option-cases (last_index b s)) [
  | inr (j, p) ↦
      let (l, rest) = splits b s j p in
      (c ∷ l, (rest.0, (ap (◌∷◌ c) rest.1.0, (ground (arith, h, p, rest.1.1.0), rest.1.1.1))))
  | inl p ↦ ([], (s, (ground (arith, h, p), (ground (arith, h, p), none-Lacks b s p))))
]

drop-append : (l : List ℕ) (c : ℕ) (t : List ℕ) → drop (length l + 1) (l ++ c ∷ t) ≡ t
unfolding drop
drop-append [] c t = ground arith
drop-append (d ∷ l) c t = ground (arith, drop-append l c t)

contains-Any : (b : ℕ) (s : List ℕ) → contains b s ≡ true → Any (λ c. c ≡ b) s
unfolding contains
contains-Any b [] h = cc
contains-Any b (c ∷ s) h = elim (Bool-cases (c == b)) [
  | inl p ↦ inl (ground (arith, p))
  | inr p ↦ inr (contains-Any b s (ground (arith, p, h)))
]

Any-contains : (b : ℕ) (s : List ℕ) → Any (λ c. c ≡ b) s → contains b s ≡ true
unfolding contains
Any-contains b [] h = elim h [ ]
Any-contains b (c ∷ s) (inl p) = ground arith
Any-contains b (c ∷ s) (inr h) = ground (arith, Any-contains b s h)

-- A name, an at sign and a domain: the name is not empty, the domain has at least three bytes, a dot
-- among them, and no at sign.
pub record IsAddress (s : List ℕ) : Type 0 where
  pub name : List ℕ
  pub domain : List ℕ
  pub parts : s ≡ name ++ b'@' ∷ domain
  pub named : 1 ≤ length name
  pub long : 3 ≤ length domain
  pub dotted : Any (λ c. c ≡ b'.') domain
  pub single : All (λ c. c ≢ b'@') domain

is_email-append :
    (name domain : List ℕ)
    → Lacks b'@' domain
    → is_email (name ++ b'@' ∷ domain) ≡ (
        if ltb (length name) 1 || leb (length (name ++ b'@' ∷ domain)) (length name + 3)
        then false
        else contains b'.' domain)
unfolding is_email
is_email-append name domain h =
    ground (arith, last_index-append b'@' name domain h, drop-append name b'@' domain)

no_at : (s : List ℕ) → last_index b'@' s ≡ none → is_email s ≢ true
unfolding is_email
no_at s p h = ground (arith, p, h)

append-IsAddress :
    (name domain : List ℕ)
    → Lacks b'@' domain
    → (s : List ℕ) → s ≡ name ++ b'@' ∷ domain
    → is_email s ≡ true
    → IsAddress s
append-IsAddress name domain h s e q =
    let both : is_email (name ++ b'@' ∷ domain) ≡ true = rw (sym e) q in
    let size = length-append name (b'@' ∷ domain) in
    let value = sym (is_email-append name domain h) ∙ both in
    record {
      name = name;
      domain = domain;
      parts = e;
      named = ground (arith, value, size);
      long = ground (arith, value, size);
      dotted = contains-Any b'.' domain (ground (arith, value));
      single = h;
    }

-- The email check finds no fault exactly in the texts that are a name, an at sign and a domain, the
-- name not empty, the domain of at least three bytes with a dot among them and no at sign.
is_email_iff : (s : List ℕ) → (is_email s ≡ true) ↔ IsAddress s
is_email_iff s = (λ h. there h (Option-cases (last_index b'@' s)), back)
  where
    there :
        is_email s ≡ true
        → (last_index b'@' s ≡ none) ⊎ ((i : ℕ) × (last_index b'@' s ≡ some i))
        → IsAddress s
    there h (inl p) = absurd (no_at s p h)
    there h (inr (i, p)) =
        let (l, rest) = splits b'@' s i p in
        let (t, parts) = rest in let (e, more) = parts in append-IsAddress l t more.1 s e h

    back : IsAddress s → is_email s ≡ true
    back a =
        rw (a.parts, is_email-append a.name a.domain a.single)
          (ground (
            arith,
            a.named,
            a.long,
            Any-contains b'.' a.domain a.dotted,
            length-append a.name (b'@' ∷ a.domain),
          ))

-- ===== src/Auth/Access.antt =====
-- Who gets through to a handler (pkg/auth/auth.go).
use gkit_go.Prelude.{
  ◌≡◌, ◌⊎◌, ◌↔◌, refl, ap, subst, ◌∙◌, true, Option, some, List, [], ◌∷◌, inl, inr, arith, Any,
  Option-cases, Bool-cases,
}
use gkit_go.Auth.{
  Claims, Response, served, Parsed, parsed, expired, invalid, Strings, has_role, has_any_role,
  bearer_token, require, jwt,
}

module _ {S : Type 0} (t : Strings S) where
  -- A role that the claims and the list both have.
  abbrev pub HasShared : Claims S → List S → Type 0
  HasShared c roles = Any (λ (role : S). Any (λ (r : S). r ≡ role) c.roles) roles

  has_role-Any : (rs : List S) (role : S) → has_role t rs role ≡ true → Any (λ (r : S). r ≡ role) rs
  unfolding has_role
  has_role-Any [] role h = cc
  has_role-Any (r ∷ rs) role h = elim (t.same r role) [
    | yes p ↦ inl p
    | no p ↦ inr (has_role-Any rs role (ground (arith, h)))
  ]

  Any-has_role : (rs : List S) (role : S) → Any (λ (r : S). r ≡ role) rs → has_role t rs role ≡ true
  unfolding has_role
  Any-has_role [] role h = elim h [ ]
  Any-has_role (r ∷ rs) role (inl p) = ground arith
  Any-has_role (r ∷ rs) role (inr h) = ground (arith, Any-has_role rs role h)

  shared : (c : Claims S) (roles : List S) → has_any_role t c roles ≡ true → HasShared c roles
  unfolding has_any_role
  shared c [] h = cc
  shared c (role ∷ roles) h = elim (Bool-cases (has_role t c.roles role)) [
    | inl p ↦ inl (has_role-Any c.roles role p)
    | inr p ↦ inr (shared c roles (ground (arith, p, h)))
  ]

  has_shared : (c : Claims S) (roles : List S) → HasShared c roles → has_any_role t c roles ≡ true
  unfolding has_any_role
  has_shared c [] h = elim h [ ]
  has_shared c (role ∷ roles) (inl p) = ground (arith, Any-has_role c.roles role p)
  has_shared c (role ∷ roles) (inr h) = ground (arith, has_shared c roles h)

  -- What lets a request through: a token that parses to claims, with one of the roles if any is
  -- asked for.
  abbrev pub IsGranted : (S → Parsed S) → List S → S → Option S → Claims S → Type 0
  IsGranted parse roles hdr cookie c =
      (raw : S) × ((bearer_token t hdr cookie ≡ some raw)
        × ((parse raw ≡ parsed c) × ((roles ≡ []) ⊎ HasShared c roles)))

  -- The handler behind both middlewares, which answers with the claims.
  abbrev pub guarded : (S → Parsed S) → List S → S → Option S → Response (Option (Claims S))
  guarded parse roles hdr cookie = jwt t parse (require t roles served) hdr cookie

  required :
      (roles : List S) (c d : Claims S)
      → require t roles served (some c) ≡ served (some d)
      → (c ≡ d) × ((roles ≡ []) ⊎ HasShared c roles)
  unfolding require
  required [] c d h = (ground (arith, h), inl refl)
  required (role ∷ roles) c d h = elim (Bool-cases (has_any_role t c (role ∷ roles))) [
    | inl p ↦ (ground (arith, h, p), inr (shared c (role ∷ roles) p))
    | inr p ↦ absurd (ground (arith, h, p))
  ]

  let_through :
      (roles : List S) (c : Claims S)
      → ((roles ≡ []) ⊎ HasShared c roles)
      → require t roles served (some c) ≡ served (some c)
  unfolding require
  let_through roles c (inl p) = rw (p) refl
  let_through roles c (inr h) = ground (arith, has_shared c roles h)

  -- A request passes both middlewares with given claims exactly when its header or its cookie has a
  -- token that parses to them and the claims have one of the roles that are asked for, if any are.
  pub jwt-IsGranted :
      (parse : S → Parsed S) (roles : List S) (hdr : S) (cookie : Option S) (c : Claims S)
      → (guarded parse roles hdr cookie ≡ served (some c)) ↔ IsGranted parse roles hdr cookie c
  unfolding jwt
  jwt-IsGranted parse roles hdr cookie c = (there, back)
    where
      parses :
          (raw : S) (p : Parsed S)
          → bearer_token t hdr cookie ≡ some raw
          → parse raw ≡ p
          → guarded parse roles hdr cookie ≡ served (some c)
          → IsGranted parse roles hdr cookie c
      parses raw expired q r h = absurd (ground (arith, q, r, h))
      parses raw invalid q r h = absurd (ground (arith, q, r, h))
      parses raw (parsed d) q r h =
          let s = required roles d c (ground (arith, q, r, h)) in
          (
            raw,
            (
              q,
              (
                r ∙ ap parsed s.0,
                subst (λ (x : Claims S). (roles ≡ []) ⊎ HasShared x roles) s.0 s.1,
              ),
            ),
          )

      there : guarded parse roles hdr cookie ≡ served (some c) → IsGranted parse roles hdr cookie c
      there h = elim (Option-cases (bearer_token t hdr cookie)) [
        | inl p ↦ absurd (ground (arith, p, h))
        | inr (raw, p) ↦ parses raw (parse raw) p refl h
      ]

      back : IsGranted parse roles hdr cookie c → guarded parse roles hdr cookie ≡ served (some c)
      back (raw, (p, (q, h))) = rw (p, q, jwt) (let_through roles c h)

-- ===== src/Auth/Tests.antt =====
-- Requests and the theorems at concrete inputs (pkg/auth/auth.go).
use gkit_go.Prelude.{ℕ, ◌-◌, ◌≡◌, ◌↔◌, refl, none, some, [], ◌∷◌, ℕ_discrete, leb, if◌then◌else◌}
use gkit_go.Auth.{
  Claims, unauthorized, forbidden, served, Parsed, parsed, expired, invalid, Strings, jwt, require,
  bearer_token, has_any_role, has_role,
}
use gkit_go.Auth.Access.{IsGranted, guarded, jwt-IsGranted}

-- Texts by numbers: 0 is empty, and a header is the prefix, 1000, plus its token.
abbrev numbered : Strings ℕ
numbered = record {
  same = ℕ_discrete;
  empty = 0;
  bearer = 1000;
  has_prefix = λ s p. leb p s;
  trim_prefix = λ s p. s - p;
  trim_space = λ s. s;
}

abbrev alice : Claims ℕ
alice = record { user_id = 1; roles = 7 ∷ 8 ∷ [] }

abbrev tokens : ℕ → Parsed ℕ
tokens n = if leb n 5 then parsed alice else (if leb n 9 then expired else invalid)

admits : guarded numbered tokens (8 ∷ []) 1005 none ≡ served (some alice)
unfolding jwt require bearer_token has_any_role has_role ℕ_discrete
admits = refl

admits_cookie : guarded numbered tokens [] 0 (some 3) ≡ served (some alice)
unfolding jwt require bearer_token has_any_role has_role ℕ_discrete
admits_cookie = refl

refuses_role : guarded numbered tokens (9 ∷ []) 1005 none ≡ forbidden
unfolding jwt require bearer_token has_any_role has_role ℕ_discrete
refuses_role = refl

refuses_empty : guarded numbered tokens [] 1000 none ≡ unauthorized
unfolding jwt require bearer_token has_any_role has_role ℕ_discrete
refuses_empty = refl

jwt-IsGranted_example :
    (guarded numbered tokens (8 ∷ []) 1005 none ≡ served (some alice))
    ↔ IsGranted numbered tokens (8 ∷ []) 1005 none alice
jwt-IsGranted_example = jwt-IsGranted numbered tokens (8 ∷ []) 1005 none alice

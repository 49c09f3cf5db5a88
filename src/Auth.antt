-- ===== src/Auth.antt =====
-- The access checks, pkg/auth/auth.go. Texts are of a type `S` with decidable equality and the
-- operations that the code uses of package strings; the JWT library is the parameter `parse`.
pub mod Access
mod Tests
use gkit_go.Prelude.{
  ℕ, Bool, true, false, not, Option, none, some, List, [], ◌∷◌, ltb, ◌&&◌, if◌then◌else◌, length,
  ite,
}

-- `Claims`
pub record Claims (S : Type 0) : Type 0 where
  pub user_id : S
  pub roles : List S

-- The answers of the middlewares: 401, 403, or what the next handler does with the claims.
pub data Response (A : Type 0) : Type 0 where
  unauthorized : Response A
  forbidden : Response A
  served : A → Response A

-- What the JWT library makes of a token, with a secret and the required expiration.
pub data Parsed (S : Type 0) : Type 0 where
  parsed : Claims S → Parsed S
  expired : Parsed S
  invalid : Parsed S

-- The strings of a program: the empty one, and `HasPrefix`, `TrimPrefix` and `TrimSpace`.
pub record Strings (S : Type 0) : Type 0 where
  pub same : Discrete S
  pub empty : S
  pub bearer : S  -- "Bearer "
  pub has_prefix : S → S → Bool
  pub trim_prefix : S → S → S
  pub trim_space : S → S

module _ {S : Type 0} (t : Strings S) where
  -- `HasRole`
  unfoldable pub has_role : List S → S → Bool
  has_role [] role = false
  has_role (r ∷ rs) role = let rest = has_role rs role in ite (t.same r role) true rest

  -- `HasAnyRole`
  unfoldable pub has_any_role : Claims S → List S → Bool
  has_any_role c [] = false
  has_any_role c (role ∷ roles) =
      let rest = has_any_role c roles in if has_role c.roles role then true else rest

  -- `bearerToken`, of the header and the cookie; `none` is an error.
  unfoldable pub bearer_token : S → Option S → Option S
  bearer_token hdr cookie =
      let tok = t.trim_space (t.trim_prefix hdr t.bearer) in
      ite (t.same hdr t.empty) cookie
        (if not (t.has_prefix hdr t.bearer) then none else ite (t.same tok t.empty) none (some tok))

  module _ {A : Type 0} where
    -- `Require`; the claims are those that the context holds.
    unfoldable pub require :
        List S → (Option (Claims S) → Response A) → Option (Claims S) → Response A
    require roles next none = forbidden
    require roles next (some c) =
        if ltb 0 (length roles) && not (has_any_role c roles) then forbidden else next (some c)

    -- `JWT`
    unfoldable pub jwt :
        (S → Parsed S) → (Option (Claims S) → Response A) → S → Option S → Response A
    jwt parse next hdr cookie = elim (bearer_token hdr cookie) [
      | none ↦ unauthorized
      | some raw ↦ elim (parse raw) [
        | expired ↦ forbidden
        | invalid ↦ unauthorized
        | parsed c ↦ next (some c)
      ]
    ]

-- ===== src/Config/Loading.antt =====
-- When a configuration is loaded (pkg/config/config.go).
use gkit_go.Prelude.{
  ◌≡◌, ◌≢◌, ◌↔◌, refl, ap, ◌⊎◌, inl, inr, Bool, true, false, Option, none, some, List, [], ◌∷◌,
  ◌++◌, arith, All, All-append, Option-cases, is_some,
}
use gkit_go.Bytes.{Text}
use gkit_go.Config.{
  Env, lookup_env, Library, Kind, pointer, duration, url, ip, strings, string, bool, int, uint,
  float, unsupported, Value, Fields, no_fields, field, nested, Fault, raw_text, set_field,
  parse_field, parse_struct, scanned, load_lines, load_env_file, loaded, load,
}

-- The tags and the type of a field.
pub record Entry : Type 0 where
  pub tag : Text
  pub default : Text
  pub required : Bool
  pub kind : Kind

-- The fields, those of nested structs in their place.
abbrev pub entries : Fields → List Entry
entries no_fields = []
entries (field tag def required kind fs) =
    record { tag = tag; default = def; required = required; kind = kind } ∷ entries fs
entries (nested inner fs) = entries inner ++ entries fs

All-split : (P : Entry → Type 0) (xs ys : List Entry) → All P (xs ++ ys) → All P xs × All P ys
All-split P [] ys h = (tt, h)
All-split P (x ∷ xs) ys h = let (first, second) = All-split P xs ys h.1 in ((h.0, first), second)

append_empty : {A : Type 0} (xs ys : List A) → xs ++ ys ≡ [] → (xs ≡ []) × (ys ≡ [])
append_empty [] ys h = (refl, h)
append_empty (x ∷ xs) ys h = cc

-- The text that a field finds: its variable where that is set and not empty, or else its default.
abbrev pub Finds : Env → Entry → Text → Type 0
Finds env e raw =
    ((lookup_env env e.tag ≡ some raw) × (raw ≢ []))
    ⊎ (((lookup_env env e.tag ≡ none) ⊎ (lookup_env env e.tag ≡ some [])) × (raw ≡ e.default))

found : (env : Env) (e : Entry) → Finds env e (raw_text env e.tag e.default)
unfolding raw_text
found env e = elim (Option-cases (lookup_env env e.tag)) [
  | inl p ↦ inr (inl p, ground (arith, p))
  | inr ([], p) ↦ inr (inr p, ground (arith, p))
  | inr (c ∷ raw, p) ↦ inl (ground (arith, p), λ q. ground (arith, p, q))
]

Finds-raw_text :
    (env : Env) (e : Entry) (raw : Text) → Finds env e raw → raw_text env e.tag e.default ≡ raw
unfolding raw_text
Finds-raw_text env e [] (inl (p, n)) = absurd (n refl)
Finds-raw_text env e (c ∷ raw) (inl (p, n)) = ground (arith, p)
Finds-raw_text env e raw (inr (inl p, q)) = ground (arith, p, q)
Finds-raw_text env e raw (inr (inr p, q)) = ground (arith, p, q)

module _ {V : Type 0} (lib : Library V) where
  -- The texts that a type takes: a pointer those of the type it points to, a text or a list any, an
  -- unsupported type none, and the others those of their parser.
  abbrev pub Takes : Kind → Text → Type 0
  Takes (pointer kind) raw = Takes kind raw
  Takes duration raw = is_some (lib.parse_duration raw) ≡ true
  Takes url raw = is_some (lib.parse_url raw) ≡ true
  Takes ip raw = is_some (lib.parse_ip raw) ≡ true
  Takes strings raw = Unit {0}
  Takes string raw = Unit {0}
  Takes bool raw = is_some (lib.parse_bool raw) ≡ true
  Takes (int bits) raw = is_some (lib.parse_int bits raw) ≡ true
  Takes (uint bits) raw = is_some (lib.parse_uint bits raw) ≡ true
  Takes (float bits) raw = is_some (lib.parse_float bits raw) ≡ true
  Takes unsupported raw = ⊥

  set_field-Takes :
      (kind : Kind) (raw : Text) (v : Value V) → set_field lib kind raw ≡ some v → Takes kind raw
  unfolding set_field
  set_field-Takes (pointer kind) raw v e = elim (Option-cases (set_field lib kind raw)) [
    | inl p ↦ absurd (ground (arith, p, e))
    | inr (u, p) ↦ set_field-Takes kind raw u p
  ]
  set_field-Takes duration raw v e = ground (arith, e)
  set_field-Takes url raw v e = ground (arith, e)
  set_field-Takes ip raw v e = ground (arith, e)
  set_field-Takes strings raw v e = tt
  set_field-Takes string raw v e = tt
  set_field-Takes bool raw v e = ground (arith, e)
  set_field-Takes (int bits) raw v e = ground (arith, e)
  set_field-Takes (uint bits) raw v e = ground (arith, e)
  set_field-Takes (float bits) raw v e = ground (arith, e)
  set_field-Takes unsupported raw v e = absurd (ground (arith, e))

  Takes-set_field : (kind : Kind) (raw : Text) → Takes kind raw → set_field lib kind raw ≡ none → ⊥
  unfolding set_field
  Takes-set_field (pointer kind) raw t e = elim (Option-cases (set_field lib kind raw)) [
    | inl p ↦ Takes-set_field kind raw t p
    | inr (u, p) ↦ absurd (ground (arith, p, e))
  ]
  Takes-set_field duration raw t e = absurd (ground (arith, t, e))
  Takes-set_field url raw t e = absurd (ground (arith, t, e))
  Takes-set_field ip raw t e = absurd (ground (arith, t, e))
  Takes-set_field strings raw t e = absurd (ground (arith, e))
  Takes-set_field string raw t e = absurd (ground (arith, e))
  Takes-set_field bool raw t e = absurd (ground (arith, t, e))
  Takes-set_field (int bits) raw t e = absurd (ground (arith, t, e))
  Takes-set_field (uint bits) raw t e = absurd (ground (arith, t, e))
  Takes-set_field (float bits) raw t e = absurd (ground (arith, t, e))
  Takes-set_field unsupported raw t e = t

  -- The text for the field is empty and not required, or its type takes it.
  abbrev pub Settles : Env → Entry → Type 0
  Settles env e =
      (raw : Text) × Finds env e raw
      × (((raw ≡ []) × (e.required ≡ false)) ⊎ ((raw ≢ []) × Takes e.kind raw))

  field-Settles :
      (env : Env) (tag def : Text) (required : Bool) (kind : Kind)
      → (parse_field lib env tag def required kind).0 ≡ []
      → Settles env (record { tag = tag; default = def; required = required; kind = kind })
  unfolding parse_field
  field-Settles env tag def required kind h =
      (raw_text env tag def, found env entry, go (raw_text env tag def) refl)
    where
      entry : Entry
      entry = record { tag = tag; default = def; required = required; kind = kind }

      go :
          (raw : Text)
          → raw_text env tag def ≡ raw
          → ((raw_text env tag def ≡ []) × (required ≡ false))
            ⊎ ((raw_text env tag def ≢ []) × Takes kind (raw_text env tag def))
      go [] p = inl (p, ground (arith, p, h))
      go (c ∷ raw) p = elim (Option-cases (set_field lib kind (c ∷ raw))) [
        | inl q ↦ absurd (ground (arith, p, q, h))
        | inr (v, q) ↦ inr (λ e. ground (arith, p, e), rw p (set_field-Takes kind (c ∷ raw) v q))
      ]

  Settles-field :
      (env : Env) (tag def : Text) (required : Bool) (kind : Kind)
      → Settles env (record { tag = tag; default = def; required = required; kind = kind })
      → (parse_field lib env tag def required kind).0 ≡ []
  unfolding parse_field
  Settles-field env tag def required kind (raw, f, h) =
      go raw
        (Finds-raw_text env (record { tag = tag; default = def; required = required; kind = kind })
          raw f)
        h
    where
      go :
          (raw : Text)
          → raw_text env tag def ≡ raw
          → ((raw ≡ []) × (required ≡ false)) ⊎ ((raw ≢ []) × Takes kind raw)
          → (parse_field lib env tag def required kind).0 ≡ []
      go raw p (inl (z, q)) = ground (arith, p, z, q)
      go [] p (inr (n, t)) = absurd (n refl)
      go (c ∷ raw) p (inr (n, t)) = elim (Option-cases (set_field lib kind (c ∷ raw))) [
        | inl r ↦ absurd (Takes-set_field kind (c ∷ raw) t r)
        | inr (v, r) ↦ ground (arith, p, r)
      ]

  struct-Settles :
      (env : Env) (fs : Fields) → (parse_struct lib env fs).0 ≡ [] → All (Settles env) (entries fs)
  unfolding parse_struct
  struct-Settles env no_fields h = tt
  struct-Settles env (field tag def required kind fs) h =
      let (first, second) =
        append_empty (parse_field lib env tag def required kind).0 (parse_struct lib env fs).0 h in
      (field-Settles env tag def required kind first, struct-Settles env fs second)
  struct-Settles env (nested inner fs) h =
      let (first, second) =
        append_empty (parse_struct lib env inner).0 (parse_struct lib env fs).0 h in
      All-append (Settles env) (entries inner) (entries fs) (struct-Settles env inner first)
        (struct-Settles env fs second)

  Settles-struct :
      (env : Env) (fs : Fields) → All (Settles env) (entries fs) → (parse_struct lib env fs).0 ≡ []
  unfolding parse_struct
  Settles-struct env no_fields h = refl
  Settles-struct env (field tag def required kind fs) h =
      rw (Settles-field env tag def required kind h.0) (Settles-struct env fs h.1)
  Settles-struct env (nested inner fs) h =
      let (first, second) = All-split (Settles env) (entries inner) (entries fs) h in
      rw (Settles-struct env inner first) (Settles-struct env fs second)

module _ {V E : Type 0} (lib : Library V) where
  -- With an environment file that is read to its end, `Load` reports no error exactly when every
  -- field, those of nested structs too, finds a text that its type takes, or an empty one and is not
  -- required; it finds that of its variable, in the environment with the file's additions, where
  -- that is set and not empty, and its default where the variable is unset or empty.
  pub load_iff :
      (lines : List Text) (env : Env) (fs : Fields)
      → ((vs : List (Option (Value V))) × (load {E = E} lib (scanned lines none) env fs
            ≡ loaded vs))
        ↔ All (Settles lib (load_lines lines env)) (entries fs)
  unfolding load load_env_file
  load_iff lines env fs = go (parse_struct lib (load_lines lines env) fs) refl
    where
      go :
          (r : List Fault × List (Option (Value V)))
          → parse_struct lib (load_lines lines env) fs ≡ r
          → ((vs : List (Option (Value V))) × (load {E = E} lib (scanned lines none) env fs
                ≡ loaded vs))
            ↔ All (Settles lib (load_lines lines env)) (entries fs)
      go ([], vs) p = (
        λ h. struct-Settles lib (load_lines lines env) fs (ap (λ r. r.0) p),
        λ h. (vs, ground (arith, p)),
      )
      go (err ∷ errs, vs) p = (
        λ h. absurd (ground (arith, p, h.1)),
        λ h. absurd (ground (arith, p, Settles-struct lib (load_lines lines env) fs h)),
      )

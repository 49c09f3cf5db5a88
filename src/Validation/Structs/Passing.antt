-- ===== src/Validation/Structs/Passing.antt =====
-- When a struct is valid (pkg/validation/validation.go).
use gkit_go.Prelude.{
  ◌≡◌, ◌≢◌, ◌↔◌, refl, ◌++◌, ◌∷◌, List, [], none, Bool, map_put, arith, All, inl, inr, Option-cases,
}
use gkit_go.Bytes.{Text, text_discrete, same, split, trim_space}
use gkit_go.Validation.Rules.{Library, Value, struct, Fields, no_fields, field, Message, apply_rule}
use gkit_go.Validation.Structs.{
  Faults, valid, add, add_nested, shown_name, apply_rules, validate_fields, validate_field,
  validate,
}

module _ {F : Type 0} (lib : Library F) where
  -- No rule of the list has a message for the value.
  abbrev pub RulesPass : List Text → Value F → Type 0
  RulesPass rules v = All (λ rule. apply_rule lib (trim_space rule) v ≡ none) rules

  -- The rules of every tag pass, and where a struct has no tag, those of its fields.
  unfoldable mutual
    pub FieldsPass : Fields F → Type 0
    FieldsPass no_fields = Unit
    FieldsPass (field name json tag v fs) = FieldPasses tag v × FieldsPass fs

    pub FieldPasses : Text → Value F → Type 0
    FieldPasses [] (struct z inner) = FieldsPass inner
    FieldPasses [] v = Unit
    FieldPasses (c ∷ tag) v = RulesPass (split b',' (c ∷ tag)) v

  add-full : (name : Text) (m : Message F) (ve : Faults F) → add name m ve ≢ []
  unfolding add map_put
  add-full name m ve h = cc

  rules-RulesPass :
      (rules : List Text) (name : Text) (v : Value F) (ve : Faults F)
      → apply_rules lib rules name v ve ≡ []
      → (ve ≡ []) × RulesPass rules v
  unfolding apply_rules
  rules-RulesPass [] name v ve h = (h, tt)
  rules-RulesPass (rule ∷ rules) name v ve h =
      elim (Option-cases (apply_rule lib (trim_space rule) v)) [
        | inl p ↦
            let (e, rest) = rules-RulesPass rules name v ve (ground (arith, h, p)) in (e, (p, rest))
        | inr (m, p) ↦ absurd (
            add-full name m ve
              ((rules-RulesPass rules name v (add name m ve) (ground (arith, h, p))).0))
      ]

  RulesPass-rules :
      (rules : List Text) (name : Text) (v : Value F)
      → RulesPass rules v
      → apply_rules lib rules name v [] ≡ []
  unfolding apply_rules
  RulesPass-rules [] name v h = refl
  RulesPass-rules (rule ∷ rules) name v h = ground (arith, RulesPass-rules rules name v h.1)

  put-nested-full : (name : Text) (nested ve : Faults F) → add_nested name nested ve ≡ [] → ve ≡ []
  unfolding add_nested map_put
  put-nested-full name [] ve h = h
  put-nested-full name ((k, messages) ∷ nested) ve h = absurd (
      let e =
        put-nested-full name nested (map_put text_discrete ve (name ++ b'.' ∷ k) messages) h in
      ground (arith, e))

  nested-empty : (name : Text) (nested ve : Faults F) → add_nested name nested ve ≡ [] → nested ≡ []
  unfolding add_nested map_put
  nested-empty name [] ve h = refl
  nested-empty name ((k, messages) ∷ nested) ve h = absurd (
      let e =
        put-nested-full name nested (map_put text_discrete ve (name ++ b'.' ∷ k) messages) h in
      ground (arith, e))

  mutual
    unfolding validate_fields FieldsPass same

    fields-FieldsPass :
        (fs : Fields F) (ve : Faults F) → validate_fields lib fs ve ≡ [] → (ve ≡ []) × FieldsPass fs
    fields-FieldsPass no_fields ve h = (h, tt)
    fields-FieldsPass (field name json tag v fs) ve h =
        let (e, rest) = fields-FieldsPass fs (validate_field lib name json tag v ve) h in
        let (e', first) = field-FieldPasses name json tag v ve e in (e', (first, rest))

    field-FieldPasses :
        (name json tag : Text) (v : Value F) (ve : Faults F)
        → validate_field lib name json tag v ve ≡ []
        → (ve ≡ []) × FieldPasses tag v
    field-FieldPasses name json [] (struct z inner) ve h = (
      put-nested-full name (validate_fields lib inner []) ve h,
      (fields-FieldsPass inner [] (nested-empty name (validate_fields lib inner []) ve h)).1,
    )
    field-FieldPasses name json (c ∷ tag) (struct z inner) ve h =
        rules-RulesPass (split b',' (c ∷ tag)) (shown_name name json) (struct z inner) ve h
    field-FieldPasses name json [] v ve h = (ground (arith, h), ground arith)
    field-FieldPasses name json (c ∷ tag) v ve h =
        rules-RulesPass (split b',' (c ∷ tag)) (shown_name name json) v ve (ground (arith, h))

  mutual
    unfolding validate_fields FieldsPass same add_nested

    FieldsPass-fields : (fs : Fields F) → FieldsPass fs → validate_fields lib fs [] ≡ []
    FieldsPass-fields no_fields h = refl
    FieldsPass-fields (field name json tag v fs) h =
        rw (FieldPasses-field name json tag v h.0) (FieldsPass-fields fs h.1)

    FieldPasses-field :
        (name json tag : Text) (v : Value F)
        → FieldPasses tag v
        → validate_field lib name json tag v [] ≡ []
    FieldPasses-field name json [] (struct z inner) h = rw (FieldsPass-fields inner h) refl
    FieldPasses-field name json (c ∷ tag) (struct z inner) h =
        RulesPass-rules (split b',' (c ∷ tag)) (shown_name name json) (struct z inner) h
    FieldPasses-field name json [] v h = ground arith
    FieldPasses-field name json (c ∷ tag) v h =
        ground (
          arith,
          RulesPass-rules (split b',' (c ∷ tag)) (shown_name name json) v (ground (arith, h)),
        )

  -- `Validate` returns nil for a struct exactly when every rule of every tag passes, in the structs
  -- nested without a tag too.
  pub validate_iff :
      (z : Bool) (fs : Fields F) → (validate lib (struct z fs) ≡ valid) ↔ FieldsPass fs
  unfolding validate
  validate_iff z fs = (
    λ h. (fields-FieldsPass fs [] (none_left (validate_fields lib fs []) refl h)).1,
    λ h. ground (arith, FieldsPass-fields fs h),
  )
    where
      none_left :
          (r : Faults F)
          → validate_fields lib fs [] ≡ r
          → validate lib (struct z fs) ≡ valid
          → validate_fields lib fs [] ≡ []
      none_left [] p h = p
      none_left (fault ∷ faults) p h = absurd (ground (arith, p, h))

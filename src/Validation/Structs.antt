-- ===== src/Validation/Structs.antt =====
-- The walk over the fields of a struct, `Validate` (pkg/validation/validation.go). The messages of
-- `Error` stand in an association list.
pub mod Passing
use gkit_go.Prelude.{
  ◌++◌, ◌∷◌, List, [], Option, none, some, Bool, true, false, Assoc, map_get, map_put, ◌&&◌,
  if◌then◌else◌,
}
use gkit_go.Bytes.{Text, text_discrete, codes, same, split, trim_space}
use gkit_go.Validation.Rules.{
  Library, Value, text, items, pointer, int, uint, float, struct, other, Fields, no_fields, field,
  Message, apply_rule,
}

-- The fields of `Error`.
abbrev pub Faults : Type 0 → Type 0
Faults F = Assoc Text (List (Message F))

abbrev pub is_struct : {F : Type 0} → Value F → Bool
is_struct (text s) = false
is_struct (items n) = false
is_struct (pointer nil) = false
is_struct (int i) = false
is_struct (uint n) = false
is_struct (float x) = false
is_struct (struct z fs) = true
is_struct (other z) = false

-- What `Validate` returns.
pub data Outcome (F : Type 0) : Type 0 where
  valid : Outcome F
  faulty : Faults F → Outcome F
  not_a_struct : Outcome F

-- What a read of the map gives.
abbrev pub or_empty {ℓ} : {A : Type ℓ} → Option (List A) → List A
or_empty none = []
or_empty (some xs) = xs

-- `strings.Split(j, ",")[0]`
abbrev first_part : List Text → Text
first_part [] = []
first_part (part ∷ parts) = part

-- The name under which the messages of a field stand.
unfoldable pub shown_name : Text → Text → Text
unfolding same split
shown_name name json = if same json [] then name else first_part (split b',' json)

module _ {F : Type 0} where
  -- `Error.add`
  unfoldable pub add : Text → Message F → Faults F → Faults F
  unfolding map_get map_put
  add name message ve =
      map_put text_discrete ve name (or_empty (map_get text_discrete ve name) ++ message ∷ [])

  -- The loop that takes over the faults of a nested struct.
  unfoldable pub add_nested : Text → Faults F → Faults F → Faults F
  unfolding map_put
  add_nested name [] ve = ve
  add_nested name ((k, messages) ∷ nested) ve =
      add_nested name nested (map_put text_discrete ve (name ++ b'.' ∷ k) messages)

  module _ (lib : Library F) where
    -- The loop over the rules of a tag.
    unfoldable pub apply_rules : List Text → Text → Value F → Faults F → Faults F
    unfolding trim_space apply_rule add
    apply_rules [] name v ve = ve
    apply_rules (rule ∷ rules) name v ve =
        apply_rules rules name v (elim (apply_rule lib (trim_space rule) v) [
          | none ↦ ve
          | some message ↦ add name message ve
        ])

    unfoldable mutual
      unfolding same apply_rules shown_name split add_nested

      -- The loop of `validateStruct` over the fields.
      pub validate_fields : Fields F → Faults F → Faults F
      validate_fields no_fields ve = ve
      validate_fields (field name json tag v fs) ve =
          validate_fields fs (validate_field name json tag v ve)

      -- One field.
      pub validate_field : Text → Text → Text → Value F → Faults F → Faults F
      validate_field name json tag (struct z inner) ve =
          let nested = add_nested name (validate_fields inner []) ve in
          if same tag []
          then nested
          else apply_rules (split b',' tag) (shown_name name json) (struct z inner) ve
      validate_field name json tag v ve =
          if same tag [] then ve else apply_rules (split b',' tag) (shown_name name json) v ve

    -- `Validate`
    unfoldable pub validate : Value F → Outcome F
    unfolding validate_fields
    validate (struct z fields) = elim (validate_fields fields []) [
      | [] ↦ valid
      | fault ∷ faults ↦ faulty (fault ∷ faults)
    ]
    validate v = not_a_struct

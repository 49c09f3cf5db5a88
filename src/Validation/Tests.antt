-- ===== src/Validation/Tests.antt =====
-- Validation and the theorems at concrete inputs (pkg/validation/validation.go).
use gkit_go.Prelude.{
  ℕ, ℕ_discrete, ◌+◌, ◌*◌, ◌-◌, ◌≡◌, ◌↔◌, refl, true, false, Option, none, some, [], ◌∷◌, length,
  ltb, leb, ◌==◌, ◌&&◌, if◌then◌else◌, map_get, map_put, map_delete,
}
use gkit_go.Bytes.{
  Text, text_discrete, codes, same, split, contains, last_index, drop, after_prefix, trim_space,
  trim, trim_left, is_space,
}
use gkit_go.Validation.Rules.{
  Library, ℤ, pos, negsuc, text, int, struct, Fields, no_fields, field, at_least, bad_email,
  bad_pattern, is_email, check_email, check_required, check_min, check_regex, on_text, to_string,
  with_argument, apply_rule,
}
use gkit_go.Validation.Structs.{
  valid, faulty, validate, validate_fields, apply_rules, add, add_nested, shown_name,
}
use gkit_go.Validation.Structs.Passing.{FieldsPass, validate_iff}

abbrev digits : ℕ → Text → Option ℕ
digits n [] = some n
digits n (c ∷ s) =
    let rest = digits (n * 10 + (c - b'0')) s in if leb b'0' c && leb c b'9' then rest else none

abbrev natural : ℤ → ℕ
natural (pos n) = n
natural (negsuc n) = 0

-- Numbers without a sign, one byte to a rune, and patterns that are the only text they match.
abbrev plain : Library ℕ
plain = record {
  parse_float = digits 0;
  from_int = natural;
  less = ltb;
  is_zero = λ x. x == 0;
  rune_count = length;
  parse_url = λ s. none;
  compile = λ p. if contains b'{' p then none else some (λ s. same s p);
}

address : is_email (codes "a@b.c") ≡ true
unfolding is_email contains last_index drop
address = refl

too_short : is_email (codes "a@.c") ≡ false
unfolding is_email contains last_index drop
too_short = refl

abbrev order : ℕ → Text → Fields ℕ
order n email =
    field (codes "Quantity") (codes "quantity,omitempty") (codes "required, min=2") (int (pos n)) (
      field (codes "Buyer") [] []
        (struct false (field (codes "Email") [] (codes "email") (text email) no_fields)) no_fields)

accepted : validate plain (struct false (order 2 (codes "a@b.c"))) ≡ valid
unfolding validate validate_fields apply_rules add_nested shown_name apply_rule with_argument
    check_required check_min check_email is_email on_text to_string same split after_prefix
    trim_space trim trim_left is_space contains last_index drop
accepted = refl

refused :
    validate plain (struct false (order 1 (codes "a.b.c")))
    ≡ faulty ((codes "Buyer.Email", bad_email ∷ []) ∷ (codes "quantity", at_least 2 ∷ []) ∷ [])
unfolding validate validate_fields apply_rules add add_nested shown_name apply_rule with_argument
    check_required check_min check_email is_email on_text to_string same split after_prefix
    trim_space trim trim_left is_space contains last_index drop map_get map_put map_delete
    text_discrete ℕ_discrete
refused = refl

-- A comma in a pattern ends the rule, and what follows it is no rule.
comma_in_pattern :
    validate plain (
      struct false (field (codes "Code") [] (codes "regex=^a{1,3}$") (text (codes "aa")) no_fields))
    ≡ faulty ((codes "Code", bad_pattern (codes "^a{1") ∷ []) ∷ [])
unfolding validate validate_fields apply_rules add shown_name apply_rule with_argument check_regex
    on_text to_string same split after_prefix trim_space trim trim_left is_space contains map_get
    map_put map_delete
comma_in_pattern = refl

-- A `json` tag without a name leaves the field without one.
nameless : shown_name (codes "Code") (codes ",omitempty") ≡ []
unfolding shown_name same split
nameless = refl

validate_iff_example :
    (validate plain (struct false (order 2 (codes "a@b.c"))) ≡ valid)
    ↔ FieldsPass plain (order 2 (codes "a@b.c"))
validate_iff_example = validate_iff plain false (order 2 (codes "a@b.c"))

-- ===== src/Validation/Rules.antt =====
-- The rules of a field's tag (pkg/validation/validation.go).
use gkit_go.Prelude.{
  ℕ, ◌+◌, Bool, true, false, Option, none, some, List, [], ◌∷◌, length, ltb, leb, ◌==◌, ◌||◌,
  if◌then◌else◌,
}
use gkit_go.Bytes.{Text, codes, same, contains, last_index, drop, after_prefix, split}

pub data ℤ : Type 0 where
  pos : ℕ → ℤ
  negsuc : ℕ → ℤ  -- -1 - n

-- What the rules call of other packages: `strconv`, `unicode/utf8`, `net/url`, `regexp` and the
-- operations of float64, a value of `F`.
pub record Library (F : Type 0) : Type 0 where
  pub parse_float : Text → Option F
  pub from_int : ℤ → F
  pub less : F → F → Bool
  pub is_zero : F → Bool
  pub rune_count : Text → ℕ
  pub parse_url : Text → Option (Text × Text)  -- the scheme and the host
  pub compile : Text → Option (Text → Bool)  -- a regular expression, by what it matches

mutual
  -- The value of a field, by its kind.
  pub data Value (F : Type 0) : Type 0 where
    text : Text → Value F
    items : ℕ → Value F  -- a slice, an array or a map, by its length
    pointer : Bool → Value F  -- a pointer or an interface, true where it is nil
    int : ℤ → Value F
    uint : ℕ → Value F
    float : F → Value F
    struct : Bool → Fields F → Value F  -- true where `IsZero` holds
    other : Bool → Value F  -- the same of any other kind

  -- The fields of a struct: the name, the tags `json` and `validate`, the value, and the rest.
  pub data Fields (F : Type 0) : Type 0 where
    no_fields : Fields F
    field : Text → Text → Text → Value F → Fields F → Fields F

-- The messages; "" is `none`.
pub data Message (F : Type 0) : Type 0 where
  is_required : Message F
  at_least_chars : F → Message F
  at_least_items : F → Message F
  at_least : F → Message F
  at_most_chars : F → Message F
  at_most_items : F → Message F
  at_most : F → Message F
  bad_email : Message F
  bad_url : Message F
  not_one_of : List Text → Message F
  bad_pattern : Text → Message F
  no_match : Text → Message F

-- Whether `checkEmail` finds no fault. `at >= len(s) - 3` is written as a sum.
unfoldable pub is_email : Text → Bool
unfolding contains last_index drop
is_email s = elim (last_index b'@' s) [
  | none ↦ false
  | some at ↦ if ltb at 1 || leb (length s) (at + 3) then false else contains b'.' (drop (at + 1) s)
]

-- The loop of `checkOneOf`.
unfoldable pub is_one_of : Text → List Text → Bool
unfolding same
is_one_of s [] = false
is_one_of s (o ∷ options) = let rest = is_one_of s options in if same s o then true else rest

module _ {F : Type 0} where
  -- The message, if the test fails.
  abbrev unless : Bool → Message F → Option (Message F)
  unless ok m = if ok then none else some m

  -- `toString`
  unfoldable pub to_string : Value F → Option Text
  to_string (text s) = some s
  to_string (items n) = none
  to_string (pointer nil) = none
  to_string (int n) = none
  to_string (uint n) = none
  to_string (float x) = none
  to_string (struct z fs) = none
  to_string (other z) = none

  -- The guard `!ok || s == ""` of the rules on texts.
  unfoldable pub on_text : (Text → Option (Message F)) → Value F → Option (Message F)
  unfolding to_string same
  on_text check v = elim (to_string v) [
    | none ↦ none
    | some s ↦ if same s [] then none else check s
  ]

  -- `checkEmail`
  unfoldable pub check_email : Text → Option (Message F)
  unfolding is_email
  check_email s = unless (is_email s) bad_email

  -- `checkOneOf`
  unfoldable pub check_one_of : Text → List Text → Option (Message F)
  unfolding is_one_of
  check_one_of s options = unless (is_one_of s options) (not_one_of options)

  module _ (lib : Library F) where
    -- `checkRequired`
    unfoldable pub check_required : Value F → Option (Message F)
    unfolding same
    check_required (text s) = if same s [] then some is_required else none
    check_required (items n) = if n == 0 then some is_required else none
    check_required (pointer nil) = if nil then some is_required else none
    check_required (int (pos n)) = if n == 0 then some is_required else none
    check_required (int (negsuc n)) = none
    check_required (uint n) = if n == 0 then some is_required else none
    check_required (float x) = if lib.is_zero x then some is_required else none
    check_required (struct z fs) = if z then some is_required else none
    check_required (other z) = if z then some is_required else none

    -- `checkMin`
    unfoldable pub check_min : Value F → F → Option (Message F)
    check_min (text s) n =
        if lib.less (lib.from_int (pos (lib.rune_count s))) n then some (at_least_chars n) else none
    check_min (items k) n =
        if lib.less (lib.from_int (pos k)) n then some (at_least_items n) else none
    check_min (int i) n = if lib.less (lib.from_int i) n then some (at_least n) else none
    check_min (uint k) n = if lib.less (lib.from_int (pos k)) n then some (at_least n) else none
    check_min (float x) n = if lib.less x n then some (at_least n) else none
    check_min (pointer nil) n = none
    check_min (struct z fs) n = none
    check_min (other z) n = none

    -- `checkMax`
    unfoldable pub check_max : Value F → F → Option (Message F)
    check_max (text s) n =
        if lib.less n (lib.from_int (pos (lib.rune_count s))) then some (at_most_chars n) else none
    check_max (items k) n =
        if lib.less n (lib.from_int (pos k)) then some (at_most_items n) else none
    check_max (int i) n = if lib.less n (lib.from_int i) then some (at_most n) else none
    check_max (uint k) n = if lib.less n (lib.from_int (pos k)) then some (at_most n) else none
    check_max (float x) n = if lib.less n x then some (at_most n) else none
    check_max (pointer nil) n = none
    check_max (struct z fs) n = none
    check_max (other z) n = none

    -- `checkURL`
    unfoldable pub check_url : Text → Option (Message F)
    unfolding same
    check_url s = elim (lib.parse_url s) [
      | none ↦ some bad_url
      | some (scheme, host) ↦ if same scheme [] || same host [] then some bad_url else none
    ]

    -- `checkRegex`
    unfoldable pub check_regex : Text → Text → Option (Message F)
    check_regex s pattern = elim (lib.compile pattern) [
      | none ↦ some (bad_pattern pattern)
      | some re ↦ unless (re s) (no_match pattern)
    ]

    -- A rule with an argument, by what stands before it.
    unfoldable pub with_argument : Text → Value F → Option (Message F)
    unfolding after_prefix check_min check_max on_text check_one_of split check_regex
    with_argument rule v = elim (after_prefix (codes "min=") rule) [
      | some a ↦ elim (lib.parse_float a) [ none ↦ none | some n ↦ check_min v n ]
      | none ↦ elim (after_prefix (codes "max=") rule) [
        | some a ↦ elim (lib.parse_float a) [ none ↦ none | some n ↦ check_max v n ]
        | none ↦ elim (after_prefix (codes "oneof=") rule) [
          | some a ↦ on_text (λ s. check_one_of s (split b'|' a)) v
          | none ↦ elim (after_prefix (codes "regex=") rule) [
            | some a ↦ on_text (λ s. check_regex s a) v
            | none ↦ none
          ]
        ]
      ]
    ]

    -- `applyRule`
    unfoldable pub apply_rule : Text → Value F → Option (Message F)
    unfolding same check_required on_text check_email check_url with_argument
    apply_rule rule v =
        if same rule (codes "required")
        then check_required v
        else (if same rule (codes "email")
            then on_text check_email v
            else (if same rule (codes "url") then on_text check_url v else with_argument rule v))

-- ===== src/Config.antt =====
-- Configuration from the environment, pkg/config/config.go. The environment is an association list; a
-- struct is what reflection shows of it, and the parsers of values are the parameter `Library`.
pub mod EnvFile
pub mod Loading
pub mod Printing
mod Tests
use gkit_go.Prelude.{
  ◌≡◌, ℕ, Bool, true, false, Option, none, some, List, [], ◌∷◌, ◌++◌, ◌==◌, ◌||◌, if◌then◌else◌,
  Assoc, map_get, map_put, inl, inr,
}
use gkit_go.Bytes.{
  Text, text_discrete, same, contains, cut, split, trim, trim_left, trim_space, is_space,
}

abbrev pub Env : Type 0
Env = Assoc Text Text

-- `os.LookupEnv`
unfoldable pub lookup_env : Env → Text → Option Text
unfolding map_get
lookup_env env key = map_get text_discrete env key

-- `os.Setenv`, which refuses an empty key, and a zero byte; a key from a cut at `=` has none.
unfoldable pub set_env : Text → Text → Env → Env
unfolding map_put same contains
set_env key val env =
    if same key [] || contains 0 key || contains 0 val
    then env
    else map_put text_discrete env key val

-- The bytes that `strings.Trim` takes off a value.
unfoldable pub is_quote : ℕ → Bool
is_quote c = c == b'"' || c == 39

-- The key and the value of a line without white space around it, if it is an assignment.
unfoldable pub assignment : Text → Option (Text × Text)
unfolding trim_space trim cut is_quote
assignment [] = none
assignment (c ∷ line) = if c == b'#' then none else (elim (cut b'=' (c ∷ line)) [
  | none ↦ none
  | some (key, val) ↦ some (trim_space key, trim is_quote (trim_space val))
])

-- The body of the loop of `loadEnvFile`, as far as the cut.
unfoldable pub parse_line : Text → Option (Text × Text)
unfolding trim_space assignment
parse_line text = assignment (trim_space text)

-- An assignment, where the variable is not there already.
unfoldable pub apply_line : Option (Text × Text) → Env → Env
unfolding lookup_env set_env
apply_line none env = env
apply_line (some (key, val)) env = elim (lookup_env env key) [
  | none ↦ set_env key val env
  | some v ↦ env
]

-- The loop of `loadEnvFile`.
unfoldable pub load_lines : List Text → Env → Env
unfolding parse_line apply_line
load_lines [] env = env
load_lines (text ∷ lines) env = load_lines lines (apply_line (parse_line text) env)

-- A file as `os.Open` and the scanner show it.
pub data File (E : Type 0) : Type 0 where
  not_found : File E
  not_opened : E → File E
  scanned : List Text → Option E → File E

-- `loadEnvFile`, as `Load` calls it: a missing file is no error.
unfoldable pub load_env_file : {E : Type 0} → File E → Env → Option E × Env
unfolding load_lines
load_env_file not_found env = (none, env)
load_env_file (not_opened e) env = (some e, env)
load_env_file (scanned lines err) env = (err, load_lines lines env)

unfoldable pub trimmed_parts : List Text → List Text
unfolding trim_space
trimmed_parts [] = []
trimmed_parts (part ∷ parts) =
    let rest = trimmed_parts parts in elim (trim_space part) [ [] ↦ rest | c ∷ p ↦ (c ∷ p) ∷ rest ]

-- `splitTrimmed`
unfoldable pub split_trimmed : Text → ℕ → List Text
unfolding split trimmed_parts
split_trimmed s sep = trimmed_parts (split sep s)

-- The types of fields.
pub data Kind : Type 0 where
  pointer : Kind → Kind
  duration : Kind
  url : Kind
  ip : Kind
  strings : Kind
  string : Kind
  bool : Kind
  int : ℕ → Kind  -- the bits
  uint : ℕ → Kind
  float : ℕ → Kind
  unsupported : Kind

-- The parsers of other packages.
pub record Library (V : Type 0) : Type 0 where
  pub parse_duration : Text → Option V
  pub parse_url : Text → Option V
  pub parse_ip : Text → Option V
  pub parse_bool : Text → Option V
  pub parse_int : ℕ → Text → Option V
  pub parse_uint : ℕ → Text → Option V
  pub parse_float : ℕ → Text → Option V

-- What a field is set to.
pub data Value (V : Type 0) : Type 0 where
  pointing : Value V → Value V
  parsed : V → Value V
  text : Text → Value V
  texts : List Text → Value V

-- The fields of a struct: the tags `env`, `default` and `required`, the type and the rest; a struct
-- without the tag `env`, and the rest. Other fields without it are not read and have no entry.
pub data Fields : Type 0 where
  no_fields : Fields
  field : Text → Text → Bool → Kind → Fields → Fields
  nested : Fields → Fields → Fields

pub data Fault : Type 0 where
  missing : Text → Fault
  invalid : Text → Text → Fault

-- The text for a field: the variable, the default where it is unset or empty; [] is none.
unfoldable pub raw_text : Env → Text → Text → Text
unfolding lookup_env
raw_text env tag def = elim (lookup_env env tag) [
  | none ↦ def
  | some [] ↦ def
  | some (c ∷ raw) ↦ c ∷ raw
]

module _ {V : Type 0} where
  abbrev value : Option V → Option (Value V)
  value none = none
  value (some v) = some (parsed v)

  abbrev allocated : Option (Value V) → Option (Value V)
  allocated none = none
  allocated (some v) = some (pointing v)

  module _ (lib : Library V) where
    -- `setField`; `none` is an error.
    unfoldable pub set_field : Kind → Text → Option (Value V)
    unfolding split_trimmed
    set_field (pointer kind) raw = allocated (set_field kind raw)
    set_field duration raw = value (lib.parse_duration raw)
    set_field url raw = value (lib.parse_url raw)
    set_field ip raw = value (lib.parse_ip raw)
    set_field strings raw = some (texts (split_trimmed raw b','))
    set_field string raw = some (text raw)
    set_field bool raw = value (lib.parse_bool raw)
    set_field (int bits) raw = value (lib.parse_int bits raw)
    set_field (uint bits) raw = value (lib.parse_uint bits raw)
    set_field (float bits) raw = value (lib.parse_float bits raw)
    set_field unsupported raw = none

    -- One field with a tag: the errors, and what it is set to, if it is set.
    unfoldable pub parse_field : Env → Text → Text → Bool → Kind → List Fault × Option (Value V)
    unfolding raw_text set_field
    parse_field env tag def required kind = elim (raw_text env tag def) [
      | [] ↦ (if required then missing tag ∷ [] else [], none)
      | c ∷ raw ↦ elim (set_field kind (c ∷ raw)) [
        | none ↦ (invalid tag (c ∷ raw) ∷ [], none)
        | some v ↦ ([], some v)
      ]
    ]

    -- `parseStruct`; the errors of a nested struct are joined as those around them.
    unfoldable pub parse_struct : Env → Fields → List Fault × List (Option (Value V))
    unfolding parse_field
    parse_struct env no_fields = ([], [])
    parse_struct env (field tag def required kind fs) =
        let (errs, v) = parse_field env tag def required kind in
        let (rest, vs) = parse_struct env fs in (errs ++ rest, v ∷ vs)
    parse_struct env (nested inner fs) =
        let (errs, v) = parse_struct env inner in
        let (rest, vs) = parse_struct env fs in (errs ++ rest, v ++ vs)

-- What `Load` returns for a pointer to a struct, with the values that it has set.
pub data Loaded (V E : Type 0) : Type 0 where
  file_failed : E → Loaded V E
  faulty : Fault → List Fault → Loaded V E
  loaded : List (Option (Value V)) → Loaded V E

module _ {V E : Type 0} (lib : Library V) where
  abbrev checked : List Fault × List (Option (Value V)) → Loaded V E
  checked ([], vs) = loaded vs
  checked (err ∷ errs, vs) = faulty err errs

  -- `Load`, with the file of `WithEnvFile`; a file that is not there changes nothing.
  unfoldable pub load : File E → Env → Fields → Loaded V E
  unfolding load_env_file parse_struct
  load file env fs =
      let (err, env') = load_env_file file env in
      elim err [ some e ↦ file_failed e | none ↦ checked (parse_struct lib env' fs) ]

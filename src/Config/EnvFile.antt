-- ===== src/Config/EnvFile.antt =====
-- What an environment file changes (pkg/config/config.go).
use gkit_go.Prelude.{
  ◌≡◌, refl, ◌∙◌, inl, inr, Option, none, some, List, [], ◌∷◌, ◌||◌, if◌then◌else◌, get-put, arith,
  ite, Option-cases,
}
use gkit_go.Bytes.{Text, text_discrete, same, contains}
use gkit_go.Config.{Env, lookup_env, set_env, parse_line, load_lines, apply_line}

-- The value of a line for the key, if the system accepts it, or else the later value.
unfoldable pub first : Option (Text × Text) → Text → Option Text → Option Text
unfolding same contains
first none k later = later
first (some (key, val)) k later =
    if same key [] || contains 0 key || contains 0 val
    then later
    else ite (text_discrete key k) (some val) later

-- The value of the first line that assigns to the key and that the system accepts.
unfoldable pub assigned : Text → List Text → Option Text
unfolding parse_line first
assigned k [] = none
assigned k (line ∷ lines) = first (parse_line line) k (assigned k lines)

-- The value that was there, or else the new one.
abbrev pub or_else : Option Text → Option Text → Option Text
or_else none new = new
or_else (some old) new = some old

lookup_env-set_env :
    (key val : Text) (env : Env) (k : Text)
    → lookup_env (set_env key val env) k ≡ (
        if same key [] || contains 0 key || contains 0 val
        then lookup_env env k
        else ite (text_discrete key k) (some val) (lookup_env env k))
unfolding lookup_env set_env
lookup_env-set_env key val env k = ground (arith, get-put text_discrete env key val k)

apply_line-lookup_env :
    (line : Option (Text × Text)) (env : Env) (k : Text) (later : Option Text)
    → or_else (lookup_env (apply_line line env) k) later
      ≡ or_else (lookup_env env k) (first line k later)
unfolding apply_line first
apply_line-lookup_env none env k later = refl
apply_line-lookup_env (some (key, val)) env k later = elim (Option-cases (lookup_env env key)) [
  | inl p ↦ ground (arith, p, lookup_env-set_env key val env k)
  | inr (v, p) ↦ ground (arith, p)
]

-- An environment file changes no variable of the process, and gives every other one the value of
-- the first line that assigns to it, lines that the system refuses left aside.
pub load_lines-lookup_env :
    (lines : List Text) (env : Env) (k : Text)
    → lookup_env (load_lines lines env) k ≡ or_else (lookup_env env k) (assigned k lines)
unfolding load_lines assigned
load_lines-lookup_env [] env k = elim (Option-cases (lookup_env env k)) [
  | inl p ↦ ground (arith, p)
  | inr (v, p) ↦ ground (arith, p)
]
load_lines-lookup_env (line ∷ lines) env k =
    load_lines-lookup_env lines (apply_line (parse_line line) env) k
    ∙ apply_line-lookup_env (parse_line line) env k (assigned k lines)

-- ===== src/Config/Printing.antt =====
-- Environment files written and read, and lists (pkg/config/config.go).
use gkit_go.Prelude.{
  ◌≡◌, ◌≢◌, refl, ap, ◌∙◌, ℕ, Bool, true, false, Option, some, List, [], ◌∷◌, ◌++◌, ◌==◌, map_get,
  arith, ite, All, All-append, none, length, length-append, ◌+◌, ◌<◌, reverse, reverse-append,
  reverse-reverse, map, append_assoc,
}
use gkit_go.Bytes.{
  Text, text_discrete, same, contains, cut, split, join, trim, trim_left, trim_space, is_space,
}
use gkit_go.Bytes.Splitting.{Lacks, split-join, StartsBare, trim-bare, trim_left-bare}
use gkit_go.Config.{
  Env, is_quote, lookup_env, assignment, parse_line, load_lines, load_env_file, scanned,
  trimmed_parts, split_trimmed,
}
use gkit_go.Config.EnvFile.{first, assigned, load_lines-lookup_env}

abbrev quoted : Text → Text
quoted val = b'"' ∷ val ++ b'"' ∷ []

-- `KEY="value"`
abbrev pub print_line : Text × Text → Text
print_line (key, val) = key ++ b'=' ∷ quoted val

abbrev is_comment : ℕ → Bool
is_comment c = c == b'#'

-- A key without white space around it, an equals sign in it or the sign of a comment before it; a
-- value without quotes around it; and no zero byte and no end of a line in either. The scanner takes
-- lines of less than 65536 bytes.
pub record IsPlain (key val : Text) : Type 0 where
  pub named : key ≢ []
  pub no_comment : StartsBare is_comment key
  pub starts_bare : StartsBare is_space key
  pub ends_bare : StartsBare is_space (reverse key)
  pub no_equals : Lacks b'=' key
  pub no_zero : contains 0 key ≡ false
  pub value_zero : contains 0 val ≡ false
  pub value_starts : StartsBare is_quote val
  pub value_ends : StartsBare is_quote (reverse val)
  pub key_line : Lacks 10 key
  pub value_line : Lacks 10 val
  pub short : length key + length val + 3 < 65536

cut-append : (sep : ℕ) (s t : Text) → Lacks sep s → cut sep (s ++ sep ∷ t) ≡ some (s, t)
unfolding cut
cut-append sep [] t h = ground arith
cut-append sep (c ∷ s) t h = ground (arith, cut-append sep s t h.1)

trim_left-append :
    (cutset : ℕ → Bool) (s : Text) (c : ℕ)
    → cutset c ≡ true
    → StartsBare cutset s
    → trim_left cutset (c ∷ s) ≡ s
unfolding trim_left
trim_left-append cutset s c h g = rw h (trim_left-bare cutset s g)

-- The quotes are taken off again.
trim-quoted :
    (val : Text)
    → StartsBare is_quote val
    → StartsBare is_quote (reverse val)
    → trim is_quote (quoted val) ≡ val
unfolding trim trim_left is_quote
trim-quoted [] h g = refl
trim-quoted (c ∷ s) h g =
    rw
      (
        trim_left-append is_quote (c ∷ s ++ b'"' ∷ []) b'"' refl h,
        reverse-append (c ∷ s) (b'"' ∷ []),
        trim_left-append is_quote (reverse (c ∷ s)) b'"' refl g,
      )
      (reverse-reverse (c ∷ s))

trim_space-quoted : (val : Text) → trim_space (quoted val) ≡ quoted val
unfolding trim_space is_space
trim_space-quoted val =
    trim-bare is_space (quoted val) refl (rw (reverse-append (b'"' ∷ val) (b'"' ∷ [])) refl)

StartsBare-append :
    (cutset : ℕ → Bool) (c : ℕ) (s t : Text)
    → StartsBare cutset (c ∷ s)
    → StartsBare cutset ((c ∷ s) ++ t)
StartsBare-append cutset c s t h = h

trim_space-print_line :
    (c : ℕ) (key val : Text)
    → StartsBare is_space (c ∷ key)
    → trim_space (print_line (c ∷ key, val)) ≡ print_line (c ∷ key, val)
unfolding trim_space is_space
trim_space-print_line c key val h = trim-bare is_space (print_line (c ∷ key, val)) h (
    rw
      (
        ← append_assoc (c ∷ key) (b'=' ∷ b'"' ∷ val) (b'"' ∷ []),
        reverse-append ((c ∷ key) ++ b'=' ∷ b'"' ∷ val) (b'"' ∷ []),
      )
      refl)

assignment-print_line :
    (c : ℕ) (key val : Text)
    → IsPlain (c ∷ key) val
    → assignment (print_line (c ∷ key, val)) ≡ some (c ∷ key, val)
unfolding assignment trim_space
assignment-print_line c key val h = ground (
  arith,
  h.no_comment,
  cut-append b'=' (c ∷ key) (quoted val) h.no_equals,
  trim-bare is_space (c ∷ key) h.starts_bare h.ends_bare,
  trim_space-quoted val,
  trim-quoted val h.value_starts h.value_ends,
)

parse_line-print_line :
    (key val : Text) → IsPlain key val → parse_line (print_line (key, val)) ≡ some (key, val)
unfolding parse_line
parse_line-print_line [] val h = absurd (h.named refl)
parse_line-print_line (c ∷ key) val h =
    ap assignment (trim_space-print_line c key val h.starts_bare)
    ∙ assignment-print_line c key val h

first-IsPlain :
    (key val k : Text) (later : Option Text)
    → IsPlain key val
    → first (some (key, val)) k later ≡ ite (text_discrete key k) (some val) later
unfolding first same
first-IsPlain [] val k later h = absurd (h.named refl)
first-IsPlain (c ∷ key) val k later h = ground (arith, h.no_zero, h.value_zero)

-- Every variable is plain.
abbrev pub IsPrintable : Env → Type 0
IsPrintable env = All (λ entry. IsPlain entry.0 entry.1) env

assigned-print_line :
    (env : Env) (k : Text) → IsPrintable env → assigned k (map print_line env) ≡ lookup_env env k
unfolding assigned first lookup_env map_get same
assigned-print_line [] k h = refl
assigned-print_line ((key, val) ∷ env) k h = rw (parse_line-print_line key val h.0) (
    first-IsPlain key val k (assigned k (map print_line env)) h.0
    ∙ ap (ite (text_discrete key k) (some val)) (assigned-print_line env k h.1))

load_lines-print_line :
    (env : Env) (k : Text)
    → IsPrintable env
    → lookup_env (load_lines (map print_line env) []) k ≡ lookup_env env k
unfolding lookup_env map_get
load_lines-print_line env k h =
    load_lines-lookup_env (map print_line env) [] k ∙ assigned-print_line env k h

-- Lines as a file has them, a newline after each.
unfoldable pub unlines : List Text → Text
unlines [] = []
unlines (line ∷ lines) = line ++ 10 ∷ unlines lines

-- A line that the scanner keeps as it is: it splits at newlines, takes a carriage return off the end
-- of a line, and gives up at a line that its buffer cannot hold.
pub record IsLine (line : Text) : Type 0 where
  pub no_newline : Lacks 10 line
  pub no_return : StartsBare (λ c. c == 13) (reverse line)
  pub fits : length line < 65536

-- What `bufio.Scanner` promises of the lines that it yields, with its error.
abbrev pub IsScanner : {E : Type 0} → (Text → List Text × Option E) → Type 0
IsScanner scan = (lines : List Text) → All IsLine lines → scan (unlines lines) ≡ (lines, none)

Lacks-append : (b : ℕ) (s t : Text) → Lacks b s → Lacks b t → Lacks b (s ++ t)
Lacks-append b s t = All-append (λ c. c ≢ b) s t

print_line-IsLine : (key val : Text) → IsPlain key val → IsLine (print_line (key, val))
print_line-IsLine key val h = record {
  no_newline = Lacks-append 10 key (b'=' ∷ quoted val) h.key_line (
    (λ e. absurd (omega (arith, e))),
    (
      (λ e. absurd (omega (arith, e))),
      Lacks-append 10 val (b'"' ∷ []) h.value_line ((λ e. absurd (omega (arith, e))), tt),
    ),
  );
  no_return =
      rw
        (
          ← append_assoc key (b'=' ∷ b'"' ∷ val) (b'"' ∷ []),
          reverse-append (key ++ b'=' ∷ b'"' ∷ val) (b'"' ∷ []),
        )
        refl;
  fits =
      omega (arith, length-append key (b'=' ∷ quoted val), length-append val (b'"' ∷ []), h.short);
}

lines-IsLine : (env : Env) → IsPrintable env → All IsLine (map print_line env)
lines-IsLine [] h = tt
lines-IsLine ((key, val) ∷ env) h = (print_line-IsLine key val h.0, lines-IsLine env h.1)

module _ {E : Type 0} (scan : Text → List Text × Option E) where
  -- An environment of plain variables, written to a file line by line with quotes around the values,
  -- and read from it by a scanner into an empty one: no error, and every variable is got back.
  pub load_env_file-print_line :
      (env : Env) (k : Text)
      → IsScanner scan
      → IsPrintable env
      → let (lines, err) = scan (unlines (map print_line env)) in
        let (failed, got) = load_env_file (scanned lines err) [] in
        (failed ≡ none) × (lookup_env got k ≡ lookup_env env k)
  unfolding load_env_file
  load_env_file-print_line env k scanner h =
      rw (scanner (map print_line env) (lines-IsLine env h)) (refl, load_lines-print_line env k h)

-- A part of a list: not empty, no separator in it, no white space around it.
pub record IsPart (sep : ℕ) (part : Text) : Type 0 where
  pub filled : part ≢ []
  pub no_separator : Lacks sep part
  pub starts_bare : StartsBare is_space part
  pub ends_bare : StartsBare is_space (reverse part)

parts-Lacks : (sep : ℕ) (parts : List Text) → All (IsPart sep) parts → All (Lacks sep) parts
parts-Lacks sep [] h = tt
parts-Lacks sep (part ∷ parts) h = (h.0.no_separator, parts-Lacks sep parts h.1)

trimmed_parts-IsPart :
    (sep : ℕ) (parts : List Text) → All (IsPart sep) parts → trimmed_parts parts ≡ parts
unfolding trimmed_parts trim_space
trimmed_parts-IsPart sep [] h = refl
trimmed_parts-IsPart sep ([] ∷ parts) h = absurd (h.0.filled refl)
trimmed_parts-IsPart sep ((c ∷ part) ∷ parts) h = ground (
  arith,
  trim-bare is_space (c ∷ part) h.0.starts_bare h.0.ends_bare,
  trimmed_parts-IsPart sep parts h.1,
)

-- A list of texts that are not empty, have no separator in them and no white space around them is
-- got back from their join, the empty list too.
split_trimmed-join :
    (sep : ℕ) (parts : List Text)
    → All (IsPart sep) parts
    → split_trimmed (join sep parts) sep ≡ parts
unfolding split_trimmed join split trimmed_parts
split_trimmed-join sep [] h = refl
split_trimmed-join sep (part ∷ parts) h =
    ap trimmed_parts (split-join sep part parts (parts-Lacks sep (part ∷ parts) h))
    ∙ trimmed_parts-IsPart sep (part ∷ parts) h

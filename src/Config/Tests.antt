-- ===== src/Config/Tests.antt =====
-- Configuration and the theorems at concrete inputs (pkg/config/config.go).
use gkit_go.Prelude.{
  ◌≡◌, ◌↔◌, refl, ℕ, true, false, Option, none, some, List, [], ◌∷◌, arith, map, All, map_get,
  map_put, map_delete, ap, ◌∙◌, ◌++◌, ℕ_discrete, length,
}
use gkit_go.Bytes.{
  Text, text_discrete, codes, same, contains, cut, split, trim, trim_left, trim_space, is_space,
}
use gkit_go.Config.{
  Env, Library, strings, int, string, pointer, Value, parsed, text, texts, pointing, Fields,
  no_fields, field, nested, missing, loaded, faulty, scanned, not_found, lookup_env, set_env,
  is_quote, assignment, parse_line, apply_line, load_lines, load_env_file, split_trimmed,
  trimmed_parts, raw_text, set_field, parse_field, parse_struct, load,
}
use gkit_go.Bytes.Splitting.{split-append}
use gkit_go.Config.Printing.{
  IsPlain, IsPart, IsLine, IsScanner, unlines, print_line, load_env_file-print_line,
}
use gkit_go.Config.Loading.{entries, Settles, load_iff}

abbrev file_lines : List Text
file_lines =
    codes "# settings"
    ∷ []
    ∷ codes " PORT = \"80\""
    ∷ codes "PORT=81"
    ∷ codes "HOSTS=a, b"
    ∷ codes "=x"
    ∷ codes "PATH=/tmp"
    ∷ []

abbrev process : Env
process = (codes "PATH", codes "/bin") ∷ []

-- Only lengths are numbers here.
abbrev lengths : Library ℕ
lengths = record {
  parse_duration = λ s. none;
  parse_url = λ s. none;
  parse_ip = λ s. none;
  parse_bool = λ s. none;
  parse_int = λ bits s. some (length s);
  parse_uint = λ bits s. none;
  parse_float = λ bits s. none;
}

abbrev settings : Fields
settings = field (codes "PATH") [] true string (
    nested (field (codes "PORT") [] true (pointer (int 64)) no_fields) (
      field (codes "HOSTS") [] false strings
        (field (codes "NAME") (codes "app") true string no_fields)))

loads :
    load {E = ℕ} lengths (scanned file_lines none) process settings
    ≡ loaded (
        some (text (codes "/bin"))
        ∷ some (pointing (parsed 2))
        ∷ some (texts (codes "a" ∷ codes "b" ∷ []))
        ∷ some (text (codes "app"))
        ∷ [])
unfolding load load_env_file load_lines parse_line assignment apply_line set_env lookup_env
    parse_struct parse_field raw_text set_field split_trimmed trimmed_parts split trim_space trim
    trim_left is_space is_quote cut same contains map_get map_put map_delete text_discrete
    ℕ_discrete
loads = refl

misses : load {E = ℕ} lengths not_found process settings ≡ faulty (missing (codes "PORT")) []
unfolding load load_env_file lookup_env parse_struct parse_field raw_text set_field split_trimmed
    trimmed_parts split map_get text_discrete ℕ_discrete
misses = refl

load_iff_example :
    ((vs : List (Option (Value ℕ))) × (load {E = ℕ} lengths
          (scanned file_lines none)
          process
          settings
        ≡ loaded vs))
    ↔ All (Settles lengths (load_lines file_lines process)) (entries settings)
load_iff_example = load_iff lengths file_lines process settings

abbrev written : Env
written = (codes "A", codes " x=1 ") ∷ (codes "B", []) ∷ []

IsPlain-a : IsPlain (codes "A") (codes " x=1 ")
unfolding contains is_space is_quote
IsPlain-a = record {
  named = λ e. cc;
  no_comment = refl;
  starts_bare = refl;
  ends_bare = refl;
  no_equals = ground arith;
  no_zero = refl;
  value_zero = refl;
  value_starts = refl;
  value_ends = refl;
  key_line = ground arith;
  value_line = ground arith;
  short = omega arith;
}

IsPlain-b : IsPlain (codes "B") []
unfolding contains is_space is_quote
IsPlain-b = record {
  named = λ e. cc;
  no_comment = refl;
  starts_bare = refl;
  ends_bare = refl;
  no_equals = ground arith;
  no_zero = refl;
  value_zero = refl;
  value_starts = tt;
  value_ends = tt;
  key_line = ground arith;
  value_line = tt;
  short = omega arith;
}

-- A scanner of short lines, which leaves out what comes after the last newline if that is empty.
abbrev without_end : List Text → List Text
without_end [] = []
without_end ([] ∷ []) = []
without_end (line ∷ lines) = line ∷ without_end lines

abbrev split_scan : Text → List Text × Option ℕ
split_scan s = (without_end (split 10 s), none)

split-unlines : (lines : List Text) → All IsLine lines → split 10 (unlines lines) ≡ lines ++ [] ∷ []
unfolding unlines split
split-unlines [] h = refl
split-unlines (line ∷ lines) h =
    split-append 10 line (unlines lines) h.0.no_newline
    ∙ ap (λ l. line ∷ l) (split-unlines lines h.1)

without_end-append : (lines : List Text) → without_end (lines ++ [] ∷ []) ≡ lines
without_end-append [] = refl
without_end-append ([] ∷ []) = refl
without_end-append ([] ∷ line ∷ lines) = ap (λ l. [] ∷ l) (without_end-append (line ∷ lines))
without_end-append ((c ∷ s) ∷ lines) = ap (λ l. (c ∷ s) ∷ l) (without_end-append lines)

split_scan-IsScanner : IsScanner split_scan
split_scan-IsScanner lines h =
    ap (λ l. (without_end l, none)) (split-unlines lines h)
    ∙ ap (λ l. (l, none)) (without_end-append lines)

load_env_file-print_line_example :
    let (lines, err) = split_scan (unlines (map print_line written)) in
    let (failed, got) = load_env_file (scanned lines err) [] in
    (failed ≡ none) × (lookup_env got (codes "A") ≡ lookup_env written (codes "A"))
load_env_file-print_line_example =
    load_env_file-print_line split_scan written (codes "A") split_scan-IsScanner
      (IsPlain-a, (IsPlain-b, tt))

IsPart-ab : IsPart b',' (codes "a b")
unfolding is_space
IsPart-ab = record {
  filled = λ e. cc;
  no_separator = ground arith;
  starts_bare = refl;
  ends_bare = refl;
}

IsPart-c : IsPart b',' (codes "c")
unfolding is_space
IsPart-c = record {
  filled = λ e. cc;
  no_separator = ground arith;
  starts_bare = refl;
  ends_bare = refl;
}

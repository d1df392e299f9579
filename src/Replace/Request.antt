-- ===== src/Replace/Request.antt =====
-- `readRequest` of studio-plugin/src/modules/ScriptReplace.ts and the class filter of
-- studio-plugin/src/modules/ScriptClasses.ts.
use robloxstudio_mcp.Bytes.{Bytes, same}
use robloxstudio_mcp.Shared.{
  ℕ, Bool, true, false, Option, none, some, List, [], ◌∷◌, ◌&&◌, not, ◌==◌, any, if◌then◌else◌,
  Result, ok, err, ◌>>=◌, ◌>>◌, throw_if,
}
use robloxstudio_mcp.Replace.{ReplaceRequest}

-- A Luau value within a table, and a field of the request. `other` is every value that is none of
-- these, numbers that are negative or no whole number among them.
pub data Leaf : Type 0 where
  nil other : Leaf
  string : Bytes → Leaf
  boolean : Bool → Leaf
  whole : ℕ → Leaf

pub data Field : Type 0 where
  leaf : Leaf → Field
  table : List (Leaf × Leaf) → Field

pub record RequestData : Type 0 where
  pub pattern : Field
  pub replacement : Field
  pub case_sensitive : Field
  pub use_pattern : Field
  pub dry_run : Field
  pub path : Field
  pub class_filter : Field
  pub max_replacements : Field
  pub expected_revisions : Field

pub data RequestError : Type 0 where
  pattern_required replacement_required not_boolean pattern_case path_text class_unknown :
      RequestError
  not_positive bad_revisions : RequestError

abbrev pub script : Bytes
script = 83 ∷ 99 ∷ 114 ∷ 105 ∷ 112 ∷ 116 ∷ []

abbrev pub local_script : Bytes
local_script = 76 ∷ 111 ∷ 99 ∷ 97 ∷ 108 ∷ script

abbrev pub module_script : Bytes
module_script = 77 ∷ 111 ∷ 100 ∷ 117 ∷ 108 ∷ 101 ∷ script

abbrev pub script_class_filters : List Bytes
script_class_filters = script ∷ local_script ∷ module_script ∷ []

unfoldable pub is_script_class_filter : Bytes → Bool
is_script_class_filter value = any (same value) script_class_filters

unfoldable pub matches_class_filter : Bytes → Option Bytes → Bool
matches_class_filter class_name none = true
matches_class_filter class_name (some filter) = same class_name filter

unfoldable pub read_text : RequestError → Field → Result RequestError Bytes
read_text e (leaf (string s)) = ok s
read_text e _ = err e

unfoldable pub read_flag : Field → Result RequestError Bool
read_flag (leaf nil) = ok false
read_flag (leaf (boolean b)) = ok b
read_flag _ = err not_boolean

-- `data.path ?? ""`.
unfoldable pub read_path : Field → Result RequestError Bytes
read_path (leaf nil) = ok []
read_path (leaf (string s)) = ok s
read_path _ = err path_text

unfoldable pub read_class_filter : Field → Result RequestError (Option Bytes)
read_class_filter (leaf nil) = ok none
read_class_filter (leaf (string s)) =
    if is_script_class_filter s then ok (some s) else err class_unknown
read_class_filter _ = err class_unknown

-- `data.maxReplacements ?? DEFAULT_MAX_REPLACEMENTS`.
unfoldable pub read_max : Field → Result RequestError ℕ
read_max (leaf nil) = ok 1000
read_max (leaf (whole n)) = if n == 0 then err not_positive else ok n
read_max _ = err not_positive

unfoldable pub read_revision : Leaf × Leaf → Result RequestError (Bytes × Bytes)
read_revision (string path, string revision) =
    if same revision [] then err bad_revisions else ok (path, revision)
read_revision _ = err bad_revisions

-- The loop over the entries of the table, whose keys are distinct.
unfoldable pub read_entries : List (Leaf × Leaf) → Result RequestError (List (Bytes × Bytes))
read_entries [] = ok []
read_entries (e ∷ es) = do entry ← read_revision e; rest ← read_entries es; ok (entry ∷ rest)

unfoldable pub read_revisions : Field → Result RequestError (Option (List (Bytes × Bytes)))
read_revisions (leaf nil) = ok none
read_revisions (table es) = do entries ← read_entries es; ok (some entries)
read_revisions _ = err bad_revisions

unfoldable pub read_request : RequestData → Result RequestError ReplaceRequest
read_request d = do
  pattern ← read_text pattern_required d.pattern
  throw_if (same pattern []) pattern_required
  replacement ← read_text replacement_required d.replacement
  case_sensitive ← read_flag d.case_sensitive
  use_pattern ← read_flag d.use_pattern
  dry_run ← read_flag d.dry_run
  throw_if (not case_sensitive && use_pattern) pattern_case
  path ← read_path d.path
  class_filter ← read_class_filter d.class_filter
  max_replacements ← read_max d.max_replacements
  expected_revisions ← read_revisions d.expected_revisions
  ok (record {
    pattern = pattern;
    replacement = replacement;
    case_sensitive = case_sensitive;
    use_pattern = use_pattern;
    path = path;
    class_filter = class_filter;
    dry_run = dry_run;
    max_replacements = max_replacements;
    expected_revisions = expected_revisions;
  })

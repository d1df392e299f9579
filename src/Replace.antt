-- ===== src/Replace.antt =====
-- Find and replace across scripts: the types of
-- studio-plugin/src/modules/ScriptReplace.ts and its literal replacement. What the module calls of
-- Studio (its `ReplaceCorpus`) and Luau's `string.gsub` are parameters.
pub mod Reviewed
pub mod Request
pub mod Planning
pub mod Apply
pub mod Restoring
pub mod Outcome
pub mod Snapshots
pub mod Guards
pub mod Literal
pub mod Order
pub mod AllOrNothing
use robloxstudio_mcp.Bytes.{Bytes, same}
use robloxstudio_mcp.Shared.{
  ℕ, zero, suc, ◌+◌, ◌-◌, Bool, true, false, Option, none, some, List, [], ◌∷◌, ◌++◌, map, ◌&&◌,
  ◌==◌, length, leb, if◌then◌else◌, Result,
}
use robloxstudio_mcp.Luau.{sub, find_plain}

pub record ScriptSnapshot : Type 0 where
  pub instance_path : Bytes
  pub name : Bytes
  pub class_name : Bytes
  pub source : Bytes

-- A `WriteResult`, or an error that `writeScript` throws: written, or refused with the error that
-- there may be.
pub data WriteResult : Type 0 where
  written : WriteResult
  unwritten : Option Bytes → WriteResult

-- Instances in order, each with its descendants.
pub data Forest (Node : Type 0) : Type 0 where
  none_left : Forest Node
  tree : Node → Forest Node → Forest Node → Forest Node

-- `ReplaceCorpus`, on the state `W` of Studio's DataModel. `descendants` is what `getChildren`
-- gives from a node on; reading may throw.
pub record ReplaceCorpus (Node W : Type 0) : Type 0 where
  pub resolve_path : W → Bytes → Option Node
  pub descendants : W → Node → Forest Node
  pub read_script : W → Node → Option Bytes → Result Bytes (Option ScriptSnapshot)
  pub is_ambiguous : W → Node → Bool
  pub write_script : W → Node → Bytes → Bytes → W × WriteResult
  pub begin_recording : W → W × Option Bytes
  pub finish_recording : W → Option Bytes → Bool → W

pub record ReplaceRequest : Type 0 where
  pub pattern : Bytes
  pub replacement : Bytes
  pub case_sensitive : Bool
  pub use_pattern : Bool
  pub path : Bytes
  pub class_filter : Option Bytes
  pub dry_run : Bool
  pub max_replacements : ℕ
  pub expected_revisions : Option (List (Bytes × Bytes))

pub record PlannedScript (Node : Type 0) : Type 0 where
  pub node : Node
  pub snapshot : ScriptSnapshot
  pub new_source : Bytes
  pub replacements : ℕ
  pub revision : Bytes
  pub result_revision : Bytes
  pub ambiguous : Bool

-- `string.lower` of one byte and of a string.
unfoldable pub lower_byte : ℕ → ℕ
lower_byte b = if leb 65 b && leb b 90 then b + 32 else b

abbrev pub lower : Bytes → Bytes
lower = map lower_byte

-- The loop of `replaceLiteral`, on fuel, from `cursor` on: what it appends to `parts`, the last
-- part included, and how often it has replaced.
unfoldable pub replace_loop : ℕ → Bytes → Bytes → Bytes → Bytes → ℕ → Bytes × ℕ
replace_loop zero source haystack needle replacement cursor = (sub source cursor (length source), 0)
replace_loop (suc fuel) source haystack needle replacement cursor =
    elim (find_plain haystack needle cursor) [
      | none ↦ (sub source cursor (length source), 0)
      | some found ↦
          let (rest, count) =
            replace_loop fuel source haystack needle replacement (found + length needle) in
          (sub source cursor (found - 1) ++ (replacement ++ rest), count + 1)
    ]

unfoldable pub replace_literal : Bytes → Bytes → Bytes → Bool → Bytes × ℕ
replace_literal source search replacement case_sensitive =
    let haystack = if case_sensitive then source else lower source in
    let needle = if case_sensitive then search else lower search in
    let (result, count) = replace_loop (length source + 1) source haystack needle replacement 1 in
    if count == 0 then (source, 0) else (result, count)

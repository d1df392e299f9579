-- ===== src/Edits.antt =====
-- The planning of script edits: studio-plugin/src/modules/ScriptEdits.ts, without its diffs.
-- `EditError` holds which message is returned and the numbers in it.
pub mod Positions
pub mod Lines
pub mod Revisions
pub mod Splices
use robloxstudio_mcp.Bytes.{Bytes, same}
use robloxstudio_mcp.Shared.{
  ℕ, zero, suc, ◌+◌, ◌-◌, Bool, true, false, Option, none, some, List, [], ◌∷◌, ◌++◌, ◌&&◌, ◌||◌,
  ◌==◌, length, ltb, leb, if◌then◌else◌, not, map,
}
use Prim.Native.Nat.{◌/◌, min, max}
use robloxstudio_mcp.Luau.{sub, find_plain}

-- The line is a whole number, as Luau numbers of line ranges are in practice.
pub record ScriptEditRequest : Type 0 where
  pub old_string : Bytes
  pub new_string : Bytes
  pub start_line : Option ℕ

pub record ResolvedEdit : Type 0 where
  pub index : ℕ
  pub start : ℕ
  pub finish : ℕ
  pub new_string : Bytes

pub data EditError : Type 0 where
  no_edits : EditError
  line_not_positive past_the_end not_at_line : ℕ → EditError
  empty_search not_found : EditError
  many_on_line : ℕ → EditError
  many_locations : ℕ → ℕ → EditError
  overlap : ℕ → ℕ → ℕ → EditError

-- The numbers of a message; `label` names the edit where there are several.
pub record Refusal : Type 0 where
  pub label : Option ℕ
  pub error : EditError

-- The loop of `lineStarts`, on fuel.
unfoldable pub starts_loop : ℕ → Bytes → ℕ → List ℕ
starts_loop zero source search_from = []
starts_loop (suc fuel) source search_from = elim (find_plain source (10 ∷ []) search_from) [
  | none ↦ []
  | some newline ↦ (newline + 1) ∷ starts_loop fuel source (newline + 1)
]

unfoldable pub line_starts : Bytes → List ℕ
line_starts source = 1 ∷ starts_loop (length source) source 1

-- `starts[i]` of an array that has the index.
unfoldable pub nth : List ℕ → ℕ → ℕ
nth [] i = 0
nth (s ∷ starts) i = if i == 0 then s else nth starts (i - 1)

-- The binary search of `lineAt`, on fuel.
unfoldable pub line_search : ℕ → List ℕ → ℕ → ℕ → ℕ → ℕ
line_search zero starts offset low high = low
line_search (suc fuel) starts offset low high =
    let middle = (low + high + 1) / 2 in
    elim (ltb low high) [
      | false ↦ low
      | true ↦ elim (leb (nth starts middle) offset) [
        | true ↦ line_search fuel starts offset middle high
        | false ↦ line_search fuel starts offset low (middle - 1)
      ]
    ]

unfoldable pub line_at : List ℕ → ℕ → ℕ
line_at starts offset = line_search (length starts) starts offset 0 (length starts - 1) + 1

pub data Located : Type 0 where
  located : ℕ → Located
  misplaced : EditError → Located

-- `locateEdit` with a line: the text must stand at the start of the line.
unfoldable pub locate_at_line : Bytes → List ℕ → Bytes → ℕ → Located
locate_at_line source starts old line =
    let start = nth starts (line - 1) in
    if ltb line 1
    then misplaced (line_not_positive line)
    else if ltb (length starts) line
    then misplaced (past_the_end line)
    else if same (sub source start (start + length old - 1)) old
    then located start
    else misplaced (not_at_line line)

abbrev pub ambiguous : ℕ → ℕ → EditError
ambiguous first_line second_line =
    if first_line == second_line
    then many_on_line first_line
    else many_locations first_line second_line

-- `locateEdit` without a line: the text must occur once.
unfoldable pub locate_once : Bytes → List ℕ → Bytes → Located
locate_once source starts old =
    if length old == 0 then misplaced empty_search else elim (find_plain source old 1) [
      | none ↦ misplaced not_found
      | some first ↦ elim (find_plain source old (first + 1)) [
        | none ↦ located first
        | some second ↦ misplaced (ambiguous (line_at starts first) (line_at starts second))
      ]
    ]

unfoldable pub locate_edit : Bytes → List ℕ → ScriptEditRequest → Located
locate_edit source starts edit = elim edit.start_line [
  | some line ↦ locate_at_line source starts edit.old_string line
  | none ↦ locate_once source starts edit.old_string
]

-- `applyWithin` from a cursor to the end of a region.
unfoldable pub apply_within : Bytes → List ResolvedEdit → ℕ → ℕ → Bytes
apply_within source [] cursor region_end = sub source cursor (region_end - 1)
apply_within source (edit ∷ edits) cursor region_end =
    sub source cursor (edit.start - 1)
    ++ edit.new_string
    ++ apply_within source edits edit.finish region_end

-- The insertion sort of `planScriptEdits`, on the resolved edits from the last to the first.
unfoldable pub insert_edit : ResolvedEdit → List ResolvedEdit → List ResolvedEdit
insert_edit e [] = e ∷ []
insert_edit e (previous ∷ before) =
    let moved = insert_edit e before in
    if ltb e.start previous.start then previous ∷ moved else e ∷ previous ∷ before

unfoldable pub reverse_onto : List ResolvedEdit → List ResolvedEdit → List ResolvedEdit
reverse_onto [] out = out
reverse_onto (e ∷ es) out = reverse_onto es (e ∷ out)

pub data Resolved : Type 0 where
  resolved : List ResolvedEdit → Resolved
  unresolved : Refusal → Resolved

abbrev pub label_of : Bool → ℕ → Option ℕ
label_of several index = if several then some index else none

abbrev pub resolved_edit : ℕ → ScriptEditRequest → ℕ → ResolvedEdit
resolved_edit index edit start = record {
  index = index;
  start = start;
  finish = start + length edit.old_string;
  new_string = edit.new_string;
}

-- The first loop of `planScriptEdits`.
unfoldable pub resolve_edits :
    Bytes → List ℕ → Bool → ℕ → List ScriptEditRequest → List ResolvedEdit → Resolved
resolve_edits source starts several index [] done = resolved (reverse_onto done [])
resolve_edits source starts several index (edit ∷ edits) done =
    elim (locate_edit source starts edit) [
      | misplaced error ↦ unresolved (record { label = label_of several index; error = error })
      | located start ↦
          resolve_edits source starts several (index + 1) edits
            (insert_edit (resolved_edit index edit start) done)
    ]

-- The second loop of `planScriptEdits`.
unfoldable pub first_overlap : List ℕ → List ResolvedEdit → Option EditError
first_overlap starts [] = none
first_overlap starts (previous ∷ []) = none
first_overlap starts (previous ∷ current ∷ rest) =
    let later = first_overlap starts (current ∷ rest) in
    if ltb current.start previous.finish || (current.start == previous.start)
    then some (
        overlap (min previous.index current.index) (max previous.index current.index)
          (line_at starts current.start))
    else later

pub data ScriptEditPlan : Type 0 where
  planned : Bytes → ScriptEditPlan
  refused : Refusal → ScriptEditPlan

unfoldable pub finish_plan : Bytes → List ℕ → Resolved → ScriptEditPlan
finish_plan source starts (unresolved refusal) = refused refusal
finish_plan source starts (resolved edits) = elim (first_overlap starts edits) [
  | some error ↦ refused (record { label = none; error = error })
  | none ↦ planned (apply_within source edits 1 (length source + 1))
]

-- `planScriptEdits` with `includeDiff` false.
unfoldable pub plan_script_edits : Bytes → List ScriptEditRequest → ScriptEditPlan
plan_script_edits source [] = refused (record { label = none; error = no_edits })
plan_script_edits source (edit ∷ edits) =
    finish_plan source (line_starts source) (
      resolve_edits source (line_starts source) (ltb 1 (length (edit ∷ edits))) 0 (edit ∷ edits) [])

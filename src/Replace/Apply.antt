-- ===== src/Replace/Apply.antt =====
-- `run` of studio-plugin/src/modules/ScriptReplace.ts: the guards, the writes and the restoring.
-- A reply keeps the fields that depend on what was done; those that copy the request and the
-- preview's diffs are left out.
use robloxstudio_mcp.Bytes.{Bytes, same}
use robloxstudio_mcp.Shared.{
  ℕ, ◌+◌, ◌-◌, Bool, true, false, Option, none, some, List, [], ◌∷◌, map, ◌||◌, leb, ltb, length,
  if◌then◌else◌, Result, ok, err,
}
use robloxstudio_mcp.Replace.{
  ScriptSnapshot, written, unwritten, ReplaceCorpus, ReplaceRequest, PlannedScript,
}
use robloxstudio_mcp.Replace.Request.{RequestData, RequestError, read_request}
use robloxstudio_mcp.Replace.Planning.{Gsub, plan_scripts, RevisionMismatch, check_revisions}

pub data ScriptStatus : Type 0 where
  applied failed not_attempted restored restore_failed : ScriptStatus

-- A change of a failed run: `original` is `originalSource`, absent where it is omitted.
pub record Change (Node : Type 0) : Type 0 where
  pub script : PlannedScript Node
  pub status : ScriptStatus
  pub restore_error : Option (Option Bytes)
  pub original : Option Bytes

abbrev pub change : {Node : Type 0} → ScriptStatus → PlannedScript Node → Change Node
change status e = record { script = e; status = status; restore_error = none; original = none }

pub data Reply (Node : Type 0) : Type 0 where
  invalid : RequestError → Reply Node
  path_not_found : Reply Node
  traversal_failed : Bytes → Reply Node
  crashed : Bytes → Reply Node
  revision_mismatch : List RevisionMismatch → Reply Node
  max_replacements_exceeded : ℕ → Reply Node
  preview : List (PlannedScript Node) → Reply Node
  nothing_matched : Reply Node
  all_applied : List (PlannedScript Node) → Reply Node
  apply_failed : Option Bytes → List (Change Node) → Reply Node

-- Where the loop of writes stops: the scripts that were written, the last one first, and the one
-- whose write failed with those after it.
pub data Written (Node : Type 0) : Type 0 where
  wrote_all : Written Node
  stopped :
      List (PlannedScript Node)
      → PlannedScript Node
      → Option Bytes
      → List (PlannedScript Node)
      → Written Node

unfoldable pub write_loop :
    {Node W : Type 0}
    → ReplaceCorpus Node W
    → W
    → List (PlannedScript Node)
    → List (PlannedScript Node)
    → W × Written Node
write_loop c w before [] = (w, wrote_all)
write_loop c w before (e ∷ es) =
    let (v, result) = c.write_script w e.node e.new_source e.snapshot.source in
    let rest = write_loop c v (e ∷ before) es in
    elim result [ written ↦ rest | unwritten error ↦ (v, stopped before e error es) ]

abbrev pub holds_source : Result Bytes (Option ScriptSnapshot) → Bytes → Bool
holds_source (ok (some current)) source = same current.source source
holds_source (ok none) source = false
holds_source (err e) source = false

-- `holds`: the script can be read and its source is the given one.
unfoldable pub holds : {Node W : Type 0} → ReplaceCorpus Node W → W → Node → Bytes → Bool
holds c w node source = holds_source (c.read_script w node none) source

-- The original source is returned where it fits into what is left of `retainedBudget`.
abbrev pub spend : {Node : Type 0} → ℕ → PlannedScript Node → ℕ
spend budget e =
    let size = length e.snapshot.source in if leb size budget then budget - size else budget

abbrev pub unrestored : {Node : Type 0} → ℕ → PlannedScript Node → Option Bytes → Change Node
unrestored budget e error = record {
  script = e;
  status = restore_failed;
  restore_error = some error;
  original = if leb (length e.snapshot.source) budget then some e.snapshot.source else none;
}

-- The loop that restores, from the script written last to the first, with `retainedBudget`; the
-- changes come in the order of the scripts.
unfoldable pub restore_loop :
    {Node W : Type 0}
    → ReplaceCorpus Node W
    → W
    → ℕ
    → List (PlannedScript Node)
    → List (Change Node)
    → W × List (Change Node)
restore_loop c w budget [] after = (w, after)
restore_loop c w budget (e ∷ es) after =
    let (v, result) = c.write_script w e.node e.snapshot.source e.new_source in
    let done = restore_loop c v budget es (change restored e ∷ after) in
    elim result [
      | written ↦ done
      | unwritten error ↦ elim (holds c v e.node e.snapshot.source) [
        | true ↦ done
        | false ↦ restore_loop c v (spend budget e) es (unrestored budget e error ∷ after)
      ]
    ]

abbrev pub is_restore_failed : {Node : Type 0} → Change Node → Bool
is_restore_failed x = elim x.status [ restore_failed ↦ true | _ ↦ false ]

unfoldable pub some_restore_failed : {Node : Type 0} → List (Change Node) → Bool
some_restore_failed [] = false
some_restore_failed (x ∷ xs) = is_restore_failed x || some_restore_failed xs

-- A failed write can have landed; the script is then restored like those before it.
unfoldable pub restore_all :
    {Node W : Type 0}
    → ReplaceCorpus Node W
    → W
    → List (PlannedScript Node)
    → PlannedScript Node
    → List (PlannedScript Node)
    → W × List (Change Node)
restore_all c w before e after =
    let rest = map (change not_attempted) after in
    if holds c w e.node e.new_source
    then restore_loop c w 200000 (e ∷ before) rest
    else restore_loop c w 200000 before (change failed e ∷ rest)

unfoldable pub finish_writes :
    {Node W : Type 0}
    → ReplaceCorpus Node W
    → Option Bytes
    → List (PlannedScript Node)
    → W × Written Node
    → W × Reply Node
finish_writes c recording scripts (w, wrote_all) =
    (c.finish_recording w recording true, all_applied scripts)
finish_writes c recording scripts (w, stopped before e error after) =
    let (v, changes) = restore_all c w before e after in
    (c.finish_recording v recording (some_restore_failed changes), apply_failed error changes)

unfoldable pub apply_plan :
    {Node W : Type 0} → ReplaceCorpus Node W → W → List (PlannedScript Node) → W × Reply Node
apply_plan c w scripts =
    let (v, recording) = c.begin_recording w in
    finish_writes c recording scripts (write_loop c v [] scripts)

unfoldable pub total_replacements : {Node : Type 0} → List (PlannedScript Node) → ℕ
total_replacements [] = 0
total_replacements (e ∷ es) = e.replacements + total_replacements es

-- The mismatches with the revisions that are expected, if any are.
unfoldable pub mismatches :
    {Node W : Type 0}
    → ReplaceCorpus Node W
    → W
    → ReplaceRequest
    → List (PlannedScript Node)
    → Result Bytes (List RevisionMismatch)
mismatches c w request scripts = elim request.expected_revisions [
  | none ↦ ok []
  | some expected ↦ check_revisions c w scripts expected
]

-- `run` from the cap on replacements on.
unfoldable pub run_checked :
    {Node W : Type 0}
    → ReplaceCorpus Node W
    → W
    → ReplaceRequest
    → List (PlannedScript Node)
    → W × Reply Node
run_checked c w request [] =
    if ltb request.max_replacements 0
    then (w, max_replacements_exceeded 0)
    else if request.dry_run
    then (w, preview [])
    else (w, nothing_matched)
run_checked c w request (e ∷ es) =
    if ltb request.max_replacements (total_replacements (e ∷ es))
    then (w, max_replacements_exceeded (total_replacements (e ∷ es)))
    else if request.dry_run
    then (w, preview (e ∷ es))
    else apply_plan c w (e ∷ es)

unfoldable pub run_planned :
    {Node W : Type 0}
    → ReplaceCorpus Node W
    → W
    → ReplaceRequest
    → List (PlannedScript Node)
    → W × Reply Node
run_planned c w request scripts = elim (mismatches c w request scripts) [
  | err e ↦ (w, crashed e)
  | ok [] ↦ run_checked c w request scripts
  | ok (m ∷ ms) ↦ (w, revision_mismatch (m ∷ ms))
]

unfoldable pub run_request :
    {Node W : Type 0} → ReplaceCorpus Node W → Gsub → W → ReplaceRequest → W × Reply Node
run_request c gsub w request = elim (c.resolve_path w request.path) [
  | none ↦ (w, path_not_found)
  | some root ↦ elim (plan_scripts c gsub w request root) [
    | err e ↦ (w, traversal_failed e)
    | ok plan ↦ run_planned c w request plan.planned
  ]
]

unfoldable pub run :
    {Node W : Type 0} → ReplaceCorpus Node W → Gsub → W → RequestData → W × Reply Node
run c gsub w d = elim (read_request d) [
  | err e ↦ (w, invalid e)
  | ok request ↦ run_request c gsub w request
]

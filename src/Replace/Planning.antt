-- ===== src/Replace/Planning.antt =====
-- `planScripts` and `checkRevisions` of studio-plugin/src/modules/ScriptReplace.ts.
use robloxstudio_mcp.Bytes.{Bytes, same}
use robloxstudio_mcp.Shared.{
  ℕ, zero, suc, ◌+◌, Bool, true, false, Option, none, some, List, [], ◌∷◌, ◌++◌, map, filter, any,
  not, ◌==◌, ltb, if◌then◌else◌, Result, ok, ◌>>=◌,
}
use robloxstudio_mcp.Replace.{
  ScriptSnapshot, Forest, none_left, tree, ReplaceCorpus, ReplaceRequest, PlannedScript,
  replace_literal,
}
use robloxstudio_mcp.Replace.Request.{matches_class_filter}
use robloxstudio_mcp.Edits.Revisions.{source_revision}

-- Luau's `string.gsub`: the result and the count, or the error of a malformed pattern.
abbrev pub Gsub : Type 0
Gsub = Bytes → Bytes → Bytes → Result Bytes (Bytes × ℕ)

unfoldable pub replace_in : Gsub → ReplaceRequest → Bytes → Result Bytes (Bytes × ℕ)
replace_in gsub request source =
    if request.use_pattern
    then gsub source request.pattern request.replacement
    else ok (replace_literal source request.pattern request.replacement request.case_sensitive)

pub record Plan (Node : Type 0) : Type 0 where
  pub planned : List (PlannedScript Node)
  pub searched : ℕ

-- A snapshot that passes the filter is searched, and planned where something is replaced.
unfoldable pub plan_script :
    {Node W : Type 0}
    → ReplaceCorpus Node W
    → Gsub
    → W
    → ReplaceRequest
    → Node
    → ScriptSnapshot
    → Plan Node
    → Result Bytes (Plan Node)
plan_script c gsub w request node snapshot plan = do
  (new_source, replacements) ← replace_in gsub request snapshot.source
  ok (record {
    planned =
        if replacements == 0
        then plan.planned
        else plan.planned
          ++ record {
            node = node;
            snapshot = snapshot;
            new_source = new_source;
            replacements = replacements;
            revision = source_revision snapshot.source;
            result_revision = source_revision new_source;
            ambiguous = c.is_ambiguous w node;
          }
            ∷ [];
    searched = plan.searched + 1;
  })

unfoldable pub visit :
    {Node W : Type 0}
    → ReplaceCorpus Node W
    → Gsub
    → W
    → ReplaceRequest
    → Node
    → Plan Node
    → Result Bytes (Plan Node)
visit c gsub w request node plan = do
  found ← c.read_script w node request.class_filter
  elim found [
    | none ↦ ok plan
    | some snapshot ↦
        if matches_class_filter snapshot.class_name request.class_filter
        then plan_script c gsub w request node snapshot plan
        else ok plan
  ]

-- The nodes of `above`, first to last, on top of the stack.
unfoldable pub push : {Node : Type 0} → Forest Node → Forest Node → Forest Node
push none_left stack = stack
push (tree n below after) stack = tree n below (push after stack)

-- The loop of `planScripts` over its stack, on fuel; the top of the stack is its first tree.
unfoldable pub plan_loop :
    {Node W : Type 0}
    → ℕ
    → ReplaceCorpus Node W
    → Gsub
    → W
    → ReplaceRequest
    → Forest Node
    → Plan Node
    → Result Bytes (Plan Node)
plan_loop zero c gsub w request stack plan = ok plan
plan_loop (suc fuel) c gsub w request none_left plan = ok plan
plan_loop (suc fuel) c gsub w request (tree n below stack) plan = do
  next ← visit c gsub w request n plan
  plan_loop fuel c gsub w request (push below stack) next

unfoldable pub size : {Node : Type 0} → Forest Node → ℕ
size none_left = 0
size (tree n below after) = size below + size after + 1

unfoldable pub path_count : {Node : Type 0} → Bytes → List (PlannedScript Node) → ℕ
path_count path [] = 0
path_count path (e ∷ es) =
    (if same e.snapshot.instance_path path then 1 else 0) + path_count path es

-- A path that two planned scripts share is ambiguous.
abbrev pub mark_shared :
    {Node : Type 0} → List (PlannedScript Node) → PlannedScript Node → PlannedScript Node
mark_shared all e =
    if ltb 1 (path_count e.snapshot.instance_path all) then record e { ambiguous = true } else e

unfoldable pub plan_scripts :
    {Node W : Type 0}
    → ReplaceCorpus Node W
    → Gsub
    → W
    → ReplaceRequest
    → Node
    → Result Bytes (Plan Node)
plan_scripts c gsub w request root =
    let whole = tree root (c.descendants w root) none_left in
    plan_loop (size whole) c gsub w request whole (record { planned = []; searched = 0 })
    >>= λ plan. ok (record plan { planned = map (mark_shared plan.planned) plan.planned })

pub data MismatchReason : Type 0 where
  changed not_reviewed no_longer_matches missing ambiguous_path : MismatchReason

pub record RevisionMismatch : Type 0 where
  pub instance_path : Bytes
  pub reason : MismatchReason
  pub expected_revision : Option Bytes
  pub revision : Option Bytes

unfoldable pub lookup : Bytes → List (Bytes × Bytes) → Option Bytes
lookup path [] = none
lookup path ((key, value) ∷ rest) = if same path key then some value else lookup path rest

abbrev pub mismatch :
    {Node : Type 0} → PlannedScript Node → MismatchReason → Option Bytes → RevisionMismatch
mismatch e reason expected = record {
  instance_path = e.snapshot.instance_path;
  reason = reason;
  expected_revision = expected;
  revision = some e.revision;
}

unfoldable pub check_planned :
    {Node : Type 0} → List (Bytes × Bytes) → List (PlannedScript Node) → List RevisionMismatch
check_planned expected [] = []
check_planned expected (e ∷ es) =
    let rest = check_planned expected es in
    let reviewed = lookup e.snapshot.instance_path expected in
    if e.ambiguous then mismatch e ambiguous_path reviewed ∷ rest else elim reviewed [
      | none ↦ mismatch e not_reviewed none ∷ rest
      | some revision ↦
          if same revision e.revision then rest else mismatch e changed (some revision) ∷ rest
    ]

-- Luau's order of strings, byte by byte.
unfoldable pub precedes : Bytes → Bytes → Bool
precedes [] [] = false
precedes [] (b ∷ t) = true
precedes (a ∷ s) [] = false
precedes (a ∷ s) (b ∷ t) =
    let later = precedes s t in if ltb a b then true else if a == b then later else false

unfoldable pub insert_sorted : Bytes × Bytes → List (Bytes × Bytes) → List (Bytes × Bytes)
insert_sorted e [] = e ∷ []
insert_sorted e (f ∷ fs) =
    let rest = insert_sorted e fs in if precedes f.0 e.0 then f ∷ rest else e ∷ (f ∷ fs)

-- `sort` of the paths, each with its expected revision.
unfoldable pub sort : List (Bytes × Bytes) → List (Bytes × Bytes)
sort [] = []
sort (e ∷ es) = insert_sorted e (sort es)

abbrev pub is_planned : {Node : Type 0} → Bytes → List (PlannedScript Node) → Bool
is_planned path planned = any (λ e. same e.snapshot.instance_path path) planned

-- A script that was reviewed and is not planned now.
unfoldable pub check_reviewed :
    {Node W : Type 0} → ReplaceCorpus Node W → W → Bytes × Bytes → Result Bytes RevisionMismatch
check_reviewed c w (path, expected) = do
  found ← elim (c.resolve_path w path) [ none ↦ ok none | some n ↦ c.read_script w n none ]
  elim found [
    | none ↦ ok (record {
      instance_path = path;
      reason = missing;
      expected_revision = some expected;
      revision = none;
    })
    | some snapshot ↦
        let revision = source_revision snapshot.source in
        ok (record {
          instance_path = path;
          reason = if same revision expected then no_longer_matches else changed;
          expected_revision = some expected;
          revision = some revision;
        })
  ]

unfoldable pub check_all_reviewed :
    {Node W : Type 0}
    → ReplaceCorpus Node W
    → W
    → List (Bytes × Bytes)
    → Result Bytes (List RevisionMismatch)
check_all_reviewed c w [] = ok []
check_all_reviewed c w (e ∷ es) = do
  m ← check_reviewed c w e
  rest ← check_all_reviewed c w es
  ok (m ∷ rest)

unfoldable pub check_revisions :
    {Node W : Type 0}
    → ReplaceCorpus Node W
    → W
    → List (PlannedScript Node)
    → List (Bytes × Bytes)
    → Result Bytes (List RevisionMismatch)
check_revisions c w planned expected = do
  rest ← check_all_reviewed c w (sort (filter (λ e. not (is_planned e.0 planned)) expected))
  ok (check_planned expected planned ++ rest)

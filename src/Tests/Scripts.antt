-- ===== src/Tests/Scripts.antt =====
-- Examples: revisions of scripts and replacements across them.
use std.Logic.{Discrete}
use robloxstudio_mcp.Bytes.{Bytes, take, drop, same, bit_xor}
use robloxstudio_mcp.Shared.{
  ◌≡◌, ◌≢◌, refl, Bool, true, false, Option, none, some, [], ◌∷◌, ◌++◌, ◌⊎◌, inl, inr, arith,
  Bool-cases, if◌then◌else◌, Result, ok, err, ok_inj, or_else, ap,
}
use robloxstudio_mcp.Edits.Revisions.{
  source_revision, decimal, fnv1a, fnv_step, fnv_bytes, fnv_chunks, source_revision-fnv1a,
}
use robloxstudio_mcp.Luau.{find_plain, find_from, starts_with}
use robloxstudio_mcp.Replace.{
  ScriptSnapshot, WriteResult, written, unwritten, Forest, none_left, tree, ReplaceCorpus,
  ReplaceRequest, PlannedScript, lower_byte, replace_loop, replace_literal,
}
use robloxstudio_mcp.Replace.Request.{
  RequestData, leaf, nil, string, boolean, whole, read_request, read_text, read_flag, read_path,
  read_class_filter, read_max, read_revisions, matches_class_filter,
}
use robloxstudio_mcp.Replace.Planning.{
  Gsub, Plan, visit, size, plan_loop, plan_scripts, plan_script, push, path_count, replace_in,
  check_revisions, check_planned, check_all_reviewed, lookup, sort,
}
use robloxstudio_mcp.Replace.Apply.{
  run, run_planned, all_applied, run_request, run_checked, mismatches, apply_plan, finish_writes,
  write_loop, restore_all, restore_loop, holds, some_restore_failed, total_replacements,
}
use robloxstudio_mcp.Replace.Literal.{Replaced, view_of, replace_literal-Replaced}
use robloxstudio_mcp.Replace.Order.{visit_each, plan_loop-preorder}
use robloxstudio_mcp.Replace.Restoring.{IsCompareAndSet}
use robloxstudio_mcp.Replace.Guards.{ApprovedIfWritten, run_planned-Approved}
use robloxstudio_mcp.Replace.AllOrNothing.{ReplyTells, run_all_or_nothing}

source_revision-fnv1a_example :
    source_revision (97 ∷ 98 ∷ []) ≡ decimal 2 ++ (58 ∷ decimal (fnv1a 2166136261 (97 ∷ 98 ∷ [])))
source_revision-fnv1a_example = source_revision-fnv1a (97 ∷ 98 ∷ [])

-- The published FNV-1a hash of "a".
fnv_of_a : fnv_chunks 1 2166136261 (97 ∷ []) ≡ 3826002220
unfolding fnv_chunks fnv_bytes fnv_step bit_xor take drop
fnv_of_a = refl

replace_literal-Replaced_example :
    Replaced
      (view_of false)
      (view_of false (65 ∷ []))
      (120 ∷ [])
      (97 ∷ 98 ∷ 97 ∷ [])
      (replace_literal (97 ∷ 98 ∷ 97 ∷ []) (65 ∷ []) (120 ∷ []) false).0
      (replace_literal (97 ∷ 98 ∷ 97 ∷ []) (65 ∷ []) (120 ∷ []) false).1
replace_literal-Replaced_example =
    replace_literal-Replaced (97 ∷ 98 ∷ 97 ∷ []) (65 ∷ []) (120 ∷ []) false (omega arith)

-- Two scripts, of which the second is the first one's child and refuses every write.
abbrev Scripts : Type 0
Scripts = Bytes × Bytes

abbrev source_of : Scripts → Bool → Option Bytes
source_of w true = some w.0
source_of w false = some w.1

abbrev snapshot : Bytes → ScriptSnapshot
snapshot text = record {
  instance_path = 47 ∷ [];
  name = 65 ∷ [];
  class_name = 83 ∷ [];
  source = text;
}

abbrev read : Scripts → Bool → Option Bytes → Result Bytes (Option ScriptSnapshot)
read w true f = ok (some (snapshot w.0))
read w false f = ok (some (snapshot w.1))

abbrev write : Scripts → Bool → Bytes → Bytes → Scripts × WriteResult
write w true new old = if same w.0 old then ((new, w.1), written) else (w, unwritten none)
write w false new old = (w, unwritten none)

abbrev two_scripts : ReplaceCorpus Bool Scripts
two_scripts = record {
  resolve_path = λ w path. some true;
  descendants = λ w node. tree false none_left none_left;
  read_script = read;
  is_ambiguous = λ w node. false;
  write_script = write;
  begin_recording = λ w. (w, none);
  finish_recording = λ w r commit. w;
}

accepted :
    (w : Scripts) (n : Bool) (new old : Bytes)
    → (write w n new old).1 ≡ written
    → source_of (write w n new old).0 n ≡ some new
accepted w true new old h = elim (Bool-cases (same w.0 old)) [
  | inl current ↦ rw (current) refl
  | inr stale ↦ let k = rw (stale) at h in cc
]
accepted w false new old h = cc

refused_or_landed :
    (w : Scripts) (n : Bool) (new old : Bytes) (e : Option Bytes)
    → (write w n new old).1 ≡ unwritten e
    → (source_of (write w n new old).0 n ≡ source_of w n)
      ⊎ (source_of (write w n new old).0 n ≡ some new)
refused_or_landed w true new old e h = elim (Bool-cases (same w.0 old)) [
  | inl current ↦ rw (current) (inr refl)
  | inr stale ↦ rw (stale) (inl refl)
]
refused_or_landed w false new old e h = inl refl

kept :
    (w : Scripts) (n m : Bool) (new old : Bytes)
    → m ≢ n
    → source_of (write w n new old).0 m ≡ source_of w m
kept w true true new old d = absurd (d refl)
kept w true false new old d = elim (Bool-cases (same w.0 old)) [
  | inl current ↦ rw (current) refl
  | inr stale ↦ rw (stale) refl
]
kept w false m new old d = refl

abbrev text_of : Option ScriptSnapshot → Option Bytes
text_of none = none
text_of (some s) = some s.source

read_current :
    (w : Scripts) (n : Bool) (f : Option Bytes) (s : ScriptSnapshot)
    → read w n f ≡ ok (some s)
    → source_of w n ≡ some s.source
read_current w true f s h = ap text_of (ok_inj h)
read_current w false f s h = ap text_of (ok_inj h)

read_any :
    (w : Scripts) (n : Bool) (text : Bytes)
    → source_of w n ≡ some text
    → (s : ScriptSnapshot) × (read w n none ≡ ok (some s)) × (s.source ≡ text)
read_any w true text h = (snapshot w.0, refl, ap (λ o. or_else o []) h)
read_any w false text h = (snapshot w.1, refl, ap (λ o. or_else o []) h)

two_scripts_lem : IsCompareAndSet two_scripts source_of
two_scripts_lem = record {
  accepts = accepted;
  refuses = refused_or_landed;
  keeps = kept;
  reads = read_current;
  readable = read_any;
  begins = λ w m. refl;
  finishes = λ w r commit m. refl;
}

two_nodes : Discrete Bool
two_nodes true true = yes refl
two_nodes true false = no (λ e. cc)
two_nodes false true = no (λ e. cc)
two_nodes false false = yes refl

abbrev no_patterns : Gsub
no_patterns source pattern replacement = err []

abbrev data_a : RequestData
data_a = record {
  pattern = leaf (string (97 ∷ []));
  replacement = leaf (string (98 ∷ []));
  case_sensitive = leaf (boolean true);
  use_pattern = leaf nil;
  dry_run = leaf nil;
  path = leaf nil;
  class_filter = leaf nil;
  max_replacements = leaf (whole 5);
  expected_revisions = leaf nil;
}

abbrev sources : Scripts
sources = (97 ∷ [], 99 ∷ 97 ∷ [])

run_all_or_nothing_example :
    ReplyTells source_of sources (run two_scripts no_patterns sources data_a)
run_all_or_nothing_example =
    run_all_or_nothing two_scripts source_of two_scripts_lem two_nodes no_patterns sources data_a

-- The second write fails, and the first script gets its source back.
first_restored : (run two_scripts no_patterns sources data_a).0 ≡ sources
unfolding run run_request run_planned run_checked mismatches apply_plan finish_writes write_loop
    restore_all restore_loop holds some_restore_failed total_replacements plan_scripts plan_loop
    plan_script visit push size path_count replace_in replace_literal replace_loop
    matches_class_filter read_request read_text read_flag read_path read_class_filter read_max
    read_revisions lower_byte find_plain find_from starts_with take drop same
first_restored = refl

abbrev request_a : ReplaceRequest
request_a = record {
  pattern = 97 ∷ [];
  replacement = 98 ∷ [];
  case_sensitive = true;
  use_pattern = false;
  path = [];
  class_filter = none;
  dry_run = false;
  max_replacements = 5;
  expected_revisions = none;
}

abbrev both : Forest Bool
both = tree true (tree false none_left none_left) none_left

abbrev no_plan : Plan Bool
no_plan = record { planned = []; searched = 0 }

plan_loop-preorder_example :
    plan_loop 2 two_scripts no_patterns sources request_a both no_plan
    ≡ visit_each two_scripts no_patterns sources request_a (true ∷ false ∷ []) no_plan
unfolding size
plan_loop-preorder_example =
    plan_loop-preorder 2 two_scripts no_patterns sources request_a both no_plan (omega arith)

abbrev planned_a : PlannedScript Bool
planned_a = record {
  node = true;
  snapshot = snapshot (97 ∷ []);
  new_source = 98 ∷ [];
  replacements = 1;
  revision = [];
  result_revision = [];
  ambiguous = false;
}

-- The revision of the planned script is expected.
abbrev reviewed_a : ReplaceRequest
reviewed_a = record request_a {
  expected_revisions = some ((planned_a.snapshot.instance_path, []) ∷ []);
}

reviewed_planned :
    (run_planned two_scripts sources reviewed_a (planned_a ∷ [])).1 ≡ all_applied (planned_a ∷ [])
unfolding run_planned run_checked mismatches apply_plan finish_writes write_loop total_replacements
    check_revisions check_planned check_all_reviewed lookup sort same
reviewed_planned = refl

run_planned-Approved_example :
    ApprovedIfWritten two_scripts sources reviewed_a
      (planned_a ∷ [])
      (run_planned two_scripts sources reviewed_a (planned_a ∷ [])).1
run_planned-Approved_example = run_planned-Approved two_scripts sources reviewed_a (planned_a ∷ [])

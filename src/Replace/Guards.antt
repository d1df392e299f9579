-- ===== src/Replace/Guards.antt =====
-- The checks of `run` in studio-plugin/src/modules/ScriptReplace.ts before it writes.
use robloxstudio_mcp.Shared.{
  ◌≡◌, ◌≤◌, false, ◌∙◌, List, [], ◌∷◌, arith, Bool-cases, Option-cases, inl, inr, sym, subst, ok,
  Result-cases, ltb,
}
use robloxstudio_mcp.Replace.Reviewed.{IsReviewedIfAny, check_revisions-IsReviewed}
use robloxstudio_mcp.Replace.{ReplaceCorpus, ReplaceRequest, PlannedScript}
use robloxstudio_mcp.Replace.Apply.{
  Reply, invalid, path_not_found, traversal_failed, crashed, revision_mismatch,
  max_replacements_exceeded, preview, nothing_matched, all_applied, apply_failed, apply_plan,
  mismatches, run_checked, run_planned, total_replacements,
}

module _ {Node W : Type 0} (c : ReplaceCorpus Node W) (w : W) (request : ReplaceRequest) where
  -- The request is no dry run, the plan is what was reviewed, if revisions are expected, and the
  -- replacements are within the cap.
  abbrev pub Approved : List (PlannedScript Node) → Type 0
  Approved scripts =
      (request.dry_run ≡ false)
      × IsReviewedIfAny request.expected_revisions scripts
      × (total_replacements scripts ≤ request.max_replacements)

  -- A reply of a run that writes comes with approval.
  abbrev pub ApprovedIfWritten : List (PlannedScript Node) → Reply Node → Type 0
  ApprovedIfWritten scripts (all_applied es) = Approved scripts
  ApprovedIfWritten scripts (apply_failed error changes) = Approved scripts
  ApprovedIfWritten scripts _ = Unit

  any_reply :
      (scripts : List (PlannedScript Node)) (r : Reply Node)
      → Approved scripts
      → ApprovedIfWritten scripts r
  any_reply scripts (all_applied es) a = a
  any_reply scripts (apply_failed error changes) a = a
  any_reply scripts (invalid e) a = tt
  any_reply scripts path_not_found a = tt
  any_reply scripts (traversal_failed e) a = tt
  any_reply scripts (crashed e) a = tt
  any_reply scripts (revision_mismatch ms) a = tt
  any_reply scripts (max_replacements_exceeded n) a = tt
  any_reply scripts (preview es) a = tt
  any_reply scripts nothing_matched a = tt

  shown :
      (scripts : List (PlannedScript Node)) (r t : W × Reply Node)
      → r ≡ t
      → ApprovedIfWritten scripts t.1
      → ApprovedIfWritten scripts r.1
  shown scripts r t e p = subst (λ k. ApprovedIfWritten scripts k.1) (sym e) p

  mismatches-Reviewed :
      (scripts : List (PlannedScript Node))
      → mismatches c w request scripts ≡ ok []
      → IsReviewedIfAny request.expected_revisions scripts
  unfolding mismatches
  mismatches-Reviewed scripts m = elim (Option-cases request.expected_revisions) [
    | inl e ↦ rw (e) tt
    | inr (expected, e) ↦
        rw (e) (check_revisions-IsReviewed c w scripts expected (sym (rw (e, mismatches)) ∙ m))
  ]

  run_checked-Approved :
      (scripts : List (PlannedScript Node))
      → mismatches c w request scripts ≡ ok []
      → ApprovedIfWritten scripts (run_checked c w request scripts).1
  unfolding run_checked
  run_checked-Approved [] m = elim (Bool-cases (ltb request.max_replacements 0)) [
    | inl over ↦ rw (over) tt
    | inr within ↦ elim (Bool-cases request.dry_run) [
      | inl dry ↦ rw (within, dry) tt
      | inr wet ↦ rw (within, wet) tt
    ]
  ]
  run_checked-Approved (e ∷ es) m =
      elim (Bool-cases (ltb request.max_replacements (total_replacements (e ∷ es)))) [
        | inl over ↦ rw (over) tt
        | inr within ↦ elim (Bool-cases request.dry_run) [
          | inl dry ↦ rw (within, dry) tt
          | inr wet ↦
              shown (e ∷ es) (run_checked c w request (e ∷ es)) (apply_plan c w (e ∷ es))
                (rw (within, wet, run_checked))
                (any_reply (e ∷ es) (apply_plan c w (e ∷ es)).1
                  (wet, mismatches-Reviewed (e ∷ es) m, ground (arith, within)))
        ]
      ]

  -- A reply of planned scripts that tells of writes, applied or failed, comes only of a request
  -- that is no dry run and whose replacements are within its cap; and where the request expects
  -- revisions, no planned script's path is ambiguous, each planned script has the revision that is
  -- expected for its path, and each path that is expected is planned.
  pub run_planned-Approved :
      (scripts : List (PlannedScript Node))
      → ApprovedIfWritten scripts (run_planned c w request scripts).1
  unfolding run_planned
  run_planned-Approved scripts = elim (Result-cases (mismatches c w request scripts)) [
    | inr (e, h) ↦
        shown scripts (run_planned c w request scripts) (w, crashed e) (rw (h, run_planned)) tt
    | inl ([], h) ↦
        shown scripts (run_planned c w request scripts) (run_checked c w request scripts)
          (rw (h, run_planned)) (run_checked-Approved scripts h)
    | inl (m ∷ ms, h) ↦
        shown scripts (run_planned c w request scripts) (w, revision_mismatch (m ∷ ms))
          (rw (h, run_planned)) tt
  ]

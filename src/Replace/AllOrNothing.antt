-- ===== src/Replace/AllOrNothing.antt =====
-- `run` of studio-plugin/src/modules/ScriptReplace.ts: its replies and the sources of the scripts.
use robloxstudio_mcp.Bytes.{Bytes}
use robloxstudio_mcp.Shared.{
  ◌≡◌, refl, Option, List, [], ◌∷◌, inl, inr, sym, subst, true, ◌∙◌, Bool-cases, Option-cases, All,
  Result-cases, ltb,
}
use std.Logic.{Discrete}
use robloxstudio_mcp.Replace.{ReplaceCorpus, ReplaceRequest, PlannedScript}
use robloxstudio_mcp.Replace.Request.{RequestData, read_request}
use robloxstudio_mcp.Replace.Planning.{Gsub, plan_scripts}
use robloxstudio_mcp.Replace.Apply.{
  Reply, invalid, path_not_found, traversal_failed, crashed, revision_mismatch,
  max_replacements_exceeded, preview, nothing_matched, all_applied, apply_failed, Written,
  wrote_all, stopped, write_loop, restore_all, some_restore_failed, finish_writes, apply_plan,
  mismatches, run_checked, run_planned, run_request, run, total_replacements,
}
use robloxstudio_mcp.Replace.Restoring.{IsCompareAndSet, Holds}
use robloxstudio_mcp.Replace.Outcome.{
  Rewritten, AllRewritten, RestoredOrReported, IfWritten, IfStopped, write_loop-IfWritten,
  write_loop-IfStopped, restore_all-Restored,
}
use robloxstudio_mcp.Replace.Snapshots.{plan_scripts-AllHold}

-- What a reply says of the sources: before it they were those of `w`.
abbrev pub ReplyTells : {Node W : Type 0} → (W → Node → Option Bytes) → W → W × Reply Node → Type 0
ReplyTells source w (v, all_applied scripts) = AllRewritten source w v scripts
ReplyTells source w (v, apply_failed error changes) = RestoredOrReported source (source w) v changes
ReplyTells source w (v, invalid e) = v ≡ w
ReplyTells source w (v, path_not_found) = v ≡ w
ReplyTells source w (v, traversal_failed e) = v ≡ w
ReplyTells source w (v, crashed e) = v ≡ w
ReplyTells source w (v, revision_mismatch ms) = v ≡ w
ReplyTells source w (v, max_replacements_exceeded n) = v ≡ w
ReplyTells source w (v, preview scripts) = v ≡ w
ReplyTells source w (v, nothing_matched) = v ≡ w

module _ {Node W : Type 0} (c : ReplaceCorpus Node W) (source : W → Node → Option Bytes)
    (cas : IsCompareAndSet c source) (identity : Discrete Node) where
  still_written :
      (v u : W) (m : Node) (es : List (PlannedScript Node))
      → source u m ≡ source v m
      → Rewritten source v m es
      → Rewritten source u m es
  still_written v u m [] e r = r
  still_written v u m (f ∷ es) e (inl (p, q)) = inl (p, e ∙ q)
  still_written v u m (f ∷ es) e (inr r) = inr (still_written v u m es e r)

  finish_writes-tells :
      (w u : W) (recording : Option Bytes) (scripts : List (PlannedScript Node))
      (r : W × Written Node)
      → ((m : Node) → source u m ≡ source w m)
      → IfWritten c source cas identity (source w) u scripts r
      → IfStopped c source cas identity (source w) r
      → ReplyTells source w (finish_writes c recording scripts r)
  unfolding finish_writes
  finish_writes-tells w u recording scripts (v, wrote_all) same_start all _ = λ m. elim (all m) [
    | inl (not_among, same_m) ↦
        inl (not_among, cas.finishes v recording true m ∙ (same_m ∙ same_start m))
    | inr rewritten ↦ inr (still_written v _ m scripts (cas.finishes v recording true m) rewritten)
  ]
  finish_writes-tells w u recording scripts (v, stopped before e error after) same_start _ k = λ m.
      let done = restore_all c v before e after in
      elim (restore_all-Restored c source cas identity (source w) v before e error after k m) [
        | inl same_m ↦ inl (cas.finishes done.0 recording (some_restore_failed done.1) m ∙ same_m)
        | inr reported ↦ inr reported
      ]

  apply_plan-tells :
      (w : W) (scripts : List (PlannedScript Node))
      → All (Holds (source w)) scripts
      → ReplyTells source w (apply_plan c w scripts)
  unfolding apply_plan
  apply_plan-tells w scripts g =
      let u : W = (c.begin_recording w).0 in
      finish_writes-tells w u (c.begin_recording w).1 scripts (write_loop c u [] scripts)
        (cas.begins w) (write_loop-IfWritten c source cas identity (source w) u [] scripts)
        (write_loop-IfStopped c source cas identity (source w) u [] scripts tt g
          (λ m. inl (cas.begins w m)))

  run_checked-tells :
      (w : W) (request : ReplaceRequest) (scripts : List (PlannedScript Node))
      → All (Holds (source w)) scripts
      → ReplyTells source w (run_checked c w request scripts)
  unfolding run_checked
  run_checked-tells w request [] g = elim (Bool-cases (ltb request.max_replacements 0)) [
    | inl over ↦ rw (over) refl
    | inr within ↦ elim (Bool-cases request.dry_run) [
      | inl dry ↦ rw (within, dry) refl
      | inr wet ↦ rw (within, wet) refl
    ]
  ]
  run_checked-tells w request (e ∷ es) g =
      elim (Bool-cases (ltb request.max_replacements (total_replacements (e ∷ es)))) [
        | inl over ↦ rw (over) refl
        | inr within ↦ elim (Bool-cases request.dry_run) [
          | inl dry ↦ rw (within, dry) refl
          | inr wet ↦ rw (within, wet) (apply_plan-tells w (e ∷ es) g)
        ]
      ]

  tells : (w : W) (r t : W × Reply Node) → r ≡ t → ReplyTells source w t → ReplyTells source w r
  tells w r t e p = subst (ReplyTells source w) (sym e) p

  run_planned-tells :
      (w : W) (request : ReplaceRequest) (scripts : List (PlannedScript Node))
      → All (Holds (source w)) scripts
      → ReplyTells source w (run_planned c w request scripts)
  unfolding run_planned
  run_planned-tells w request scripts g = elim (Result-cases (mismatches c w request scripts)) [
    | inr (e, h) ↦
        tells w (run_planned c w request scripts) ((w, crashed e)) (rw (h, run_planned)) (refl)
    | inl ([], h) ↦
        tells w (run_planned c w request scripts) (run_checked c w request scripts)
          (rw (h, run_planned)) (run_checked-tells w request scripts g)
    | inl (m ∷ ms, h) ↦
        tells w (run_planned c w request scripts) ((w, revision_mismatch (m ∷ ms)))
          (rw (h, run_planned)) (refl)
  ]

  run_request-tells :
      (gsub : Gsub) (w : W) (request : ReplaceRequest)
      → ReplyTells source w (run_request c gsub w request)
  unfolding run_request
  run_request-tells gsub w request = elim (Option-cases (c.resolve_path w request.path)) [
    | inl absent ↦
        tells w (run_request c gsub w request) ((w, path_not_found)) (rw (absent, run_request))
          (refl)
    | inr (root, there) ↦ elim (Result-cases (plan_scripts c gsub w request root)) [
      | inr (e, h) ↦
          tells w (run_request c gsub w request) ((w, traversal_failed e))
            (rw (there, h, run_request)) (refl)
      | inl (plan, h) ↦
          tells w (run_request c gsub w request) (run_planned c w request plan.planned)
            (rw (there, h, run_request))
            (run_planned-tells w request plan.planned
              (plan_scripts-AllHold c source cas gsub w request root plan h))
    ]
  ]

  -- With compare-and-set writes (an accepted one puts its text, a refused one puts it or changes
  -- nothing, no other script is touched, and scripts that hold a source can be read) and instances
  -- of decidable identity, a replacement that replies with success after writing has left every
  -- planned script with its new source and every other one untouched; one that failed has left
  -- every script as it was, unless it is reported as restore_failed; and every other reply leaves
  -- the state as it was.
  pub run_all_or_nothing :
      (gsub : Gsub) (w : W) (d : RequestData) → ReplyTells source w (run c gsub w d)
  unfolding run
  run_all_or_nothing gsub w d = elim (Result-cases (read_request d)) [
    | inr (e, h) ↦ tells w (run c gsub w d) ((w, invalid e)) (rw (h, run)) (refl)
    | inl (request, h) ↦
        tells w (run c gsub w d) (run_request c gsub w request) (rw (h, run))
          (run_request-tells gsub w request)
  ]

-- ===== src/Tests/Plugin.antt =====
-- Examples of the plugin's log buffer and script edits.
use Prim.Native.Nat.{◌*◌}
use mathlib.Core.List.{Perm}
use robloxstudio_mcp.Bytes.{Bytes, drop, take}
use robloxstudio_mcp.Shared.{
  ℕ, ◌+◌, ◌≡◌, ◌≤◌, refl, ap, true, none, List, [], ◌∷◌, arith, max, map, size, total,
}
use robloxstudio_mcp.Luau.{starts_with, find_plain, find_from}
use robloxstudio_mcp.Logs.{LogBuffer, message_warning, message_output, max_bytes, push_safe}
use robloxstudio_mcp.Logs.Escape.{Utf8, valid, invalid, escape_loop, escape_loop-fuel}
use robloxstudio_mcp.Logs.Order.{LogInv, push_safe-LogInv}
use robloxstudio_mcp.Logs.History.{install, install-LogInv, Output}
use robloxstudio_mcp.Captures.{
  no_transfers, text, returned, malformed, max_transfers, max_transfer_bytes,
}
use robloxstudio_mcp.Captures.Slots.{kept_bytes}
use robloxstudio_mcp.Captures.Histories.{TransferEvent, begins, finishes, run, run_bounded}
use robloxstudio_mcp.Edits.{
  ScriptEditRequest, plan_script_edits, planned, locate_once, located, locate_edit, resolve_edits,
  finish_plan, first_overlap, apply_within, insert_edit, reverse_onto,
}
use robloxstudio_mcp.Edits.Positions.{locate_once_unique}
use robloxstudio_mcp.Edits.Splices.{Splice, request_change, plan_script_edits-Splice}

-- A message of invalid bytes alone.
abbrev all_invalid : Bytes → ℕ → Utf8
all_invalid s i = invalid i

abbrev position_or : ℕ → Utf8 → ℕ
position_or i (invalid p) = p
position_or i _ = i

all_invalid_forward : (s : Bytes) (i p : ℕ) → all_invalid s i ≡ invalid p → i ≤ p
all_invalid_forward s i p e = omega (arith, ap (position_or i) e)

escape_loop-fuel_example :
    escape_loop all_invalid 9 (200 ∷ 201 ∷ []) 1 ≡ escape_loop all_invalid 2 (200 ∷ 201 ∷ []) 1
escape_loop-fuel_example =
    escape_loop-fuel all_invalid (200 ∷ 201 ∷ []) 2 9 1 all_invalid_forward (ground arith)
      (ground arith)

abbrev two_outputs : List Output
two_outputs =
    record { message = 104 ∷ []; message_type = message_output; ts = 1; context = none }
    ∷ record { message = 105 ∷ []; message_type = message_warning; ts = 2; context = none }
    ∷ []

abbrev two_logs : LogBuffer
two_logs = install (λ s i. valid) true 0 0 [] two_outputs

abbrev two_logs-LogInv : LogInv two_logs
two_logs-LogInv = install-LogInv (λ s i. valid) true 0 0 [] two_outputs

install-LogInv_example : LogInv (install (λ s i. valid) true 0 0 [] two_outputs)
install-LogInv_example = install-LogInv (λ s i. valid) true 0 0 [] two_outputs

push_safe-LogInv_example :
    LogInv (push_safe (106 ∷ []) message_output 3 none two_logs)
    × ((push_safe (106 ∷ []) message_output 3 none two_logs).total_bytes ≤ max max_bytes 1)
push_safe-LogInv_example =
    push_safe-LogInv (106 ∷ []) message_output 3 none two_logs two_logs-LogInv

-- From `hi` to `hey`.
abbrev edits : List ScriptEditRequest
edits = record { old_string = 105 ∷ []; new_string = 101 ∷ 121 ∷ []; start_line = none } ∷ []

hey_is_planned : plan_script_edits (104 ∷ 105 ∷ []) edits ≡ planned (104 ∷ 101 ∷ 121 ∷ [])
unfolding plan_script_edits locate_once locate_edit resolve_edits finish_plan first_overlap
    apply_within insert_edit reverse_onto find_plain find_from drop take starts_with
hey_is_planned = refl

plan_script_edits-Splice_example :
    (changes : List (Bytes × Bytes)) × Splice (104 ∷ 105 ∷ []) (104 ∷ 101 ∷ 121 ∷ []) changes
    × Perm changes (map request_change edits)
plan_script_edits-Splice_example =
    plan_script_edits-Splice (104 ∷ 105 ∷ []) (104 ∷ 101 ∷ 121 ∷ []) edits hey_is_planned

found_at_two : locate_once (104 ∷ 105 ∷ []) (1 ∷ []) (105 ∷ []) ≡ located 2
unfolding locate_once find_plain find_from drop starts_with
found_at_two = refl

starts_at_two : starts_with (105 ∷ []) (drop 1 (104 ∷ 105 ∷ [])) ≡ true
unfolding starts_with drop
starts_at_two = refl

locate_once_unique_example : 1 + 1 ≡ 2
locate_once_unique_example =
    locate_once_unique (104 ∷ 105 ∷ []) (1 ∷ []) (105 ∷ []) 2 1 found_at_two (ground arith)
      starts_at_two

abbrev two_captures : List (ℕ × TransferEvent)
two_captures =
    (0, begins (text "a" 1) 60)
    ∷ (1, begins (text "b" 1) 60)
    ∷ (2, begins (text "c" 1) 60)
    ∷ (3, finishes "a" 0 (returned malformed))
    ∷ []

run_bounded_example :
    (size (run two_captures no_transfers).held ≤ max_transfers)
    × (total kept_bytes (run two_captures no_transfers).held ≤ max_transfers * max_transfer_bytes)
run_bounded_example = run_bounded two_captures

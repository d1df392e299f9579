-- ===== src/Logs/History.antt =====
-- The buffer after the plugin has started and any messages have come in:
-- studio-plugin/src/modules/RuntimeLogBuffer.ts, `install`.
use robloxstudio_mcp.Bytes.{Bytes}
use robloxstudio_mcp.Shared.{
  ℕ, Bool, Option, none, List, [], ◌∷◌, Option-cases, Bool-cases, inl, inr, refl, arith,
}
use robloxstudio_mcp.Json.{Value}
use robloxstudio_mcp.Logs.{LogBuffer, MessageType, no_logs}
use robloxstudio_mcp.Logs.Escape.{
  Utf8, HistoryEntry, push_entry, seed_entry, seed_runtime_history, is_foreign, escape_invalid_utf8,
}
use robloxstudio_mcp.Logs.Order.{LogInv, sizes, push_safe-LogInv}

-- One call of the `MessageOut` listener.
pub record Output : Type 0 where
  pub message : Bytes
  pub message_type : MessageType
  pub ts : ℕ
  pub context : Option Value

unfoldable pub capture : (Bytes → ℕ → Utf8) → List Output → LogBuffer → LogBuffer
capture utf8_len [] b = b
capture utf8_len (o ∷ os) b =
    capture utf8_len os (push_entry utf8_len o.message o.message_type o.ts o.context b)

-- `install` in Studio: the history, then every message.
unfoldable pub install :
    (Bytes → ℕ → Utf8) → Bool → ℕ → ℕ → List HistoryEntry → List Output → LogBuffer
install utf8_len is_edit started now history outputs =
    capture utf8_len outputs (seed_runtime_history utf8_len is_edit started now history no_logs)

module _ (utf8_len : Bytes → ℕ → Utf8) where
  push_entry-LogInv :
      (msg : Bytes) (t : MessageType) (ts : ℕ) (context : Option Value) (b : LogBuffer)
      → LogInv b
      → LogInv (push_entry utf8_len msg t ts context b)
  unfolding push_entry
  push_entry-LogInv msg t ts context b v =
      (push_safe-LogInv (escape_invalid_utf8 utf8_len msg) t ts context b v).0

  seed_entry-LogInv :
      (is_edit : Bool) (started now : ℕ) (e : HistoryEntry) (b : LogBuffer)
      → LogInv b
      → LogInv (seed_entry utf8_len is_edit started now e b)
  unfolding seed_entry
  seed_entry-LogInv is_edit started now e b v = elim (Option-cases e.message) [
    | inl f ↦ rw (f, seed_entry) v
    | inr (msg, f) ↦ elim (Bool-cases (is_foreign is_edit started e.timestamp)) [
      | inl g ↦ rw (f, seed_entry, g) v
      | inr g ↦ rw (f, seed_entry, g) (push_entry-LogInv msg _ _ none b v)
    ]
  ]

  seed-LogInv :
      (is_edit : Bool) (started now : ℕ) (es : List HistoryEntry) (b : LogBuffer)
      → LogInv b
      → LogInv (seed_runtime_history utf8_len is_edit started now es b)
  unfolding seed_runtime_history
  seed-LogInv is_edit started now [] b v = v
  seed-LogInv is_edit started now (e ∷ es) b v =
      seed-LogInv is_edit started now es _ (seed_entry-LogInv is_edit started now e b v)

  capture-LogInv : (os : List Output) (b : LogBuffer) → LogInv b → LogInv (capture utf8_len os b)
  unfolding capture
  capture-LogInv [] b v = v
  capture-LogInv (o ∷ os) b v = capture-LogInv os _ (push_entry-LogInv _ _ _ _ b v)

-- Whatever history a Studio process has and whatever messages follow, the log buffer numbers its
-- entries without a gap from the count of those dropped, counts their bytes exactly and holds at
-- most 50,000 of them.
pub install-LogInv :
    (utf8_len : Bytes → ℕ → Utf8) (is_edit : Bool) (started now : ℕ) (history : List HistoryEntry)
    (outputs : List Output)
    → LogInv (install utf8_len is_edit started now history outputs)
unfolding install sizes
install-LogInv utf8_len is_edit started now history outputs = capture-LogInv utf8_len outputs _ (
    seed-LogInv utf8_len is_edit started now history no_logs
      (record { numbered = refl; counted = refl; capped = ground arith }))

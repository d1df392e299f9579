-- ===== src/Logs/Order.antt =====
-- What the log buffer holds after any messages, and what a poll reads.
use robloxstudio_mcp.Bytes.{Bytes}
use robloxstudio_mcp.Shared.{
  ℕ, ◌+◌, ◌≤◌, ◌<◌, ◌≡◌, refl, Option, List, [], ◌∷◌, ◌++◌, length, arith, Bool-cases, inl, inr,
  max, ap, sym, ◌∙◌, length-append,
}
use robloxstudio_mcp.Json.{Value}
use robloxstudio_mcp.Logs.{
  LogEntry, LogBuffer, MessageType, max_bytes, hard_entry_cap, drop_oldest, without_oldest, is_full,
  push_safe,
}

unfoldable pub sizes : List LogEntry → ℕ
sizes [] = 0
sizes (e ∷ es) = length e.message + sizes es

-- Each entry has the sequence number after the one before; `to` is the one after the last.
abbrev pub Numbered : ℕ → List LogEntry → ℕ → Type 0
Numbered from [] to = from ≡ to
Numbered from (e ∷ es) to = (e.seq ≡ from) × Numbered (from + 1) es to

-- Every message ever pushed is in the buffer or counted as dropped, in order, and the bytes are
-- counted exactly.
pub record LogInv (b : LogBuffer) : Type 0 where
  pub numbered : Numbered (b.total_dropped + 1) b.entries b.next_seq
  pub counted : b.total_bytes ≡ sizes b.entries
  pub capped : length b.entries ≤ hard_entry_cap

-- What is left when there is room for a message.
pub record Fits (incoming next : ℕ) (b : LogBuffer) : Type 0 where
  pub same_next : b.next_seq ≡ next
  pub numbered : Numbered (b.total_dropped + 1) b.entries b.next_seq
  pub counted : b.total_bytes ≡ sizes b.entries
  pub room : b.total_bytes + incoming ≤ max max_bytes incoming
  pub below : length b.entries < hard_entry_cap

drop_oldest-Fits :
    (incoming : ℕ) (es : List LogEntry) (b : LogBuffer)
    → Numbered (b.total_dropped + 1) es b.next_seq
    → b.total_bytes ≡ sizes es
    → Fits incoming b.next_seq (drop_oldest incoming es b)
unfolding drop_oldest sizes
drop_oldest-Fits incoming [] b n c = record {
  same_next = refl;
  numbered = n;
  counted = c;
  room = ground arith;
  below = ground arith;
}
drop_oldest-Fits incoming (e ∷ es) b n c =
    elim (Bool-cases (is_full incoming b.total_bytes (length (e ∷ es)))) [
      | inl full ↦
          rw (full, drop_oldest)
            (drop_oldest-Fits incoming es (without_oldest e b) n.1 (omega arith))
      | inr room ↦
          rw (room, drop_oldest)
            (record {
              same_next = refl;
              numbered = n;
              counted = c;
              room = ground arith;
              below = ground arith;
            })
    ]

Numbered-append :
    (from to : ℕ) (es : List LogEntry) (e : LogEntry)
    → Numbered from es to
    → e.seq ≡ to
    → Numbered from (es ++ e ∷ []) (to + 1)
Numbered-append from to [] e n s = (s ∙ sym n, ap (λ k. k + 1) n)
Numbered-append from to (x ∷ es) e n s = (n.0, Numbered-append (from + 1) to es e n.1 s)

sizes-append :
    (es : List LogEntry) (e : LogEntry) → sizes (es ++ e ∷ []) ≡ sizes es + length e.message
unfolding sizes
sizes-append [] e = ground arith
sizes-append (x ∷ es) e = ground (arith, sizes-append es e)

-- A push keeps a buffer numbered without a gap from the count of those dropped, its bytes counted
-- exactly and its entries at most 50,000, and leaves its bytes within 64 KiB, or within the
-- message alone where that is larger.
pub push_safe-LogInv :
    (msg : Bytes) (t : MessageType) (ts : ℕ) (context : Option Value) (b : LogBuffer)
    → LogInv b
    → LogInv (push_safe msg t ts context b)
      × ((push_safe msg t ts context b).total_bytes ≤ max max_bytes (length msg))
unfolding push_safe
push_safe-LogInv msg t ts context b v =
    let f = drop_oldest-Fits (length msg) b.entries b v.numbered v.counted in
    (
      record {
        numbered = Numbered-append _ _ _ _ f.numbered refl;
        counted = grind (arith, sizes-append, f.counted);
        capped = grind (arith, length-append, f.below);
      },
      f.room,
    )

Numbered-≤ : (from to : ℕ) (es : List LogEntry) → Numbered from es to → from ≤ to
Numbered-≤ from to [] h = omega arith
Numbered-≤ from to (e ∷ es) h = omega (arith, Numbered-≤ (from + 1) to es h.1)

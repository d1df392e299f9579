-- ===== src/Logs.antt =====
-- The log buffer of a Peer: studio-plugin/src/modules/RuntimeLogBuffer.ts.
pub mod Escape
pub mod History
pub mod Order
use robloxstudio_mcp.Bytes.{Bytes}
use robloxstudio_mcp.Shared.{
  ℕ, ◌+◌, ◌-◌, Bool, true, false, Option, none, some, List, [], ◌∷◌, ◌++◌, ◌&&◌, ◌||◌, filter,
  length, ltb, leb, if◌then◌else◌, or_else, is_some, not,
}
use robloxstudio_mcp.Json.{Value}
use robloxstudio_mcp.Luau.{find_plain}

pub data LogLevel : Type 0 where
  out warn err info : LogLevel

-- `Enum.MessageType`.
pub data MessageType : Type 0 where
  message_output message_info message_warning message_error : MessageType

unfoldable pub level_tag : MessageType → LogLevel
level_tag message_output = out
level_tag message_info = info
level_tag message_warning = warn
level_tag message_error = err

-- `RuntimeLogEntry`.
pub record LogEntry : Type 0 where
  pub seq : ℕ
  pub ts : ℕ
  pub level : LogLevel
  pub message : Bytes
  pub context : Option Value

pub record LogBuffer : Type 0 where
  pub entries : List LogEntry
  pub total_bytes : ℕ
  pub total_dropped : ℕ
  pub next_seq : ℕ

abbrev pub max_bytes : ℕ
max_bytes = 65536

abbrev pub hard_entry_cap : ℕ
hard_entry_cap = 50000

abbrev pub no_logs : LogBuffer
no_logs = record { entries = []; total_bytes = 0; total_dropped = 0; next_seq = 1 }

abbrev pub without_oldest : LogEntry → LogBuffer → LogBuffer
without_oldest e b = record b {
  total_bytes = b.total_bytes - length e.message;
  total_dropped = b.total_dropped + 1;
}

abbrev pub is_full : ℕ → ℕ → ℕ → Bool
is_full incoming bytes count = ltb max_bytes (bytes + incoming) || leb hard_entry_cap count

-- The loop of `dropOldestUntilFits` on the entries.
unfoldable pub drop_oldest : ℕ → List LogEntry → LogBuffer → LogBuffer
drop_oldest incoming [] b = record b { entries = [] }
drop_oldest incoming (e ∷ es) b =
    let rest = drop_oldest incoming es (without_oldest e b) in
    if is_full incoming b.total_bytes (length (e ∷ es)) then rest else record b { entries = e ∷ es }

abbrev pub drop_oldest_until_fits : ℕ → LogBuffer → LogBuffer
drop_oldest_until_fits incoming b = drop_oldest incoming b.entries b

-- `pushEntry` of a message that is already safe.
unfoldable pub push_safe : Bytes → MessageType → ℕ → Option Value → LogBuffer → LogBuffer
push_safe safe_message t ts context b =
    let c = drop_oldest_until_fits (length safe_message) b in
    record c {
      entries =
          c.entries
          ++ record {
            seq = c.next_seq;
            ts = ts;
            level = level_tag t;
            message = safe_message;
            context = context;
          }
            ∷ [];
      next_seq = c.next_seq + 1;
      total_bytes = c.total_bytes + length safe_message;
    }

pub record QueryOptions : Type 0 where
  pub since : Option ℕ
  pub tail : Option ℕ
  pub needle : Option Bytes

pub record QueryResult : Type 0 where
  pub entries : List LogEntry
  pub total_dropped : ℕ
  pub next_since : ℕ

abbrev pub after : Option ℕ → List LogEntry → List LogEntry
after none es = es
after (some n) es = filter (λ e. ltb n e.seq) es

abbrev pub matching : Option Bytes → List LogEntry → List LogEntry
matching none es = es
matching (some text) es = filter (λ e. is_some (find_plain e.message text 1)) es

unfoldable pub skip : ℕ → List LogEntry → List LogEntry
skip n [] = []
skip n (e ∷ es) = if leb n 0 then e ∷ es else skip (n - 1) es

abbrev pub last_entries : Option ℕ → List LogEntry → List LogEntry
last_entries none es = es
last_entries (some n) es = if ltb n (length es) then skip (length es - n) es else es

unfoldable pub last_seq : ℕ → List LogEntry → ℕ
last_seq n [] = n
last_seq n (e ∷ es) = last_seq e.seq es

unfoldable pub query : QueryOptions → LogBuffer → QueryResult
query opts b = record {
  entries = last_entries opts.tail (matching opts.needle (after opts.since b.entries));
  total_dropped = b.total_dropped;
  next_since = last_seq (or_else opts.since 0) b.entries;
}

-- ===== src/Tickets.antt =====
-- Playtest tickets in the plugin settings that all Studio windows share:
-- studio-plugin/src/modules/PlaytestTickets.ts. The settings, the clock and Roblox's JSON are
-- parameters; a setting that cannot be read or written is left as it is.
pub mod Boards
use robloxstudio_mcp.Shared.{
  ℕ, ◌+◌, ◌-◌, String, Bool, true, false, Option, none, some, List, [], ◌∷◌, ◌++◌, ◌&&◌, ◌||◌, not,
  leb, filter, if◌then◌else◌, is_some, str_eq, concat,
}

-- A Luau value: absent, a string, a number (times and places are whole), or any other.
pub data Value : Type 0 where
  nil other : Value
  text : String → Value
  number : ℕ → Value

pub record PlaytestTicket : Type 0 where
  pub id : String
  pub instance_id : Option String
  pub group_id : Option String
  pub place_id : ℕ
  pub place_key : String
  pub data_model_name : String
  pub server_url : Option String
  pub posted_at : ℕ
  pub heartbeat_at : ℕ

-- A table with the fields of a ticket, as it is decoded.
pub record TicketTable : Type 0 where
  pub id : Value
  pub instance_id : Value
  pub group_id : Value
  pub place_id : Value
  pub place_key : Value
  pub data_model_name : Value
  pub server_url : Value
  pub posted_at : Value
  pub heartbeat_at : Value

-- `JSONDecode` of a text: an exception, no table, or a table of entries, of which some may be
-- tables.
pub data Decoded : Type 0 where
  threw no_table : Decoded
  entries : List (Option TicketTable) → Decoded

-- `getSetting` throws or gives a value; `setSetting` under a `pcall` changes the settings or not.
pub record Settings (W : Type 0) : Type 0 where
  pub get_setting : W → String → Option Value
  pub set_setting : W → String → Value → W
  pub json_decode : String → Decoded
  pub json_encode : List PlaytestTicket → Option String

abbrev pub board_key : String
board_key = "MCP_PLAYTEST_TICKETS_V1"

abbrev pub claim_key : String → String
claim_key ticket_id = concat ("MCP_PLAYTEST_CLAIM_V1_" ∷ ticket_id ∷ [])

abbrev pub stale_after_ms : ℕ
stale_after_ms = 5000

unfoldable pub optional_string : Value → Option String
optional_string (text s) = if str_eq s "" then none else some s
optional_string _ = none

abbrev pub string_of : Value → Option String
string_of (text s) = some s
string_of _ = none

abbrev pub number_of : Value → Option ℕ
number_of (number n) = some n
number_of _ = none

infixl 5 ◌>>=◌
abbrev pub ◌>>=◌ : {A B : Type 0} → Option A → (A → Option B) → Option B
none >>= f = none
some a >>= f = f a

unfoldable pub decode_ticket : TicketTable → Option PlaytestTicket
decode_ticket d = do
  id ← optional_string d.id
  place_id ← number_of d.place_id
  place_key ← string_of d.place_key
  data_model_name ← string_of d.data_model_name
  posted_at ← number_of d.posted_at
  heartbeat_at ← number_of d.heartbeat_at
  if is_some (optional_string d.instance_id) || is_some (optional_string d.group_id)
      then some (record {
        id = id;
        instance_id = optional_string d.instance_id;
        group_id = optional_string d.group_id;
        place_id = place_id;
        place_key = place_key;
        data_model_name = data_model_name;
        server_url = optional_string d.server_url;
        posted_at = posted_at;
        heartbeat_at = heartbeat_at;
      })
      else none

-- `math.abs(now - heartbeatAt) <= STALE_AFTER_MS`.
unfoldable pub is_fresh : ℕ → PlaytestTicket → Bool
is_fresh now t = leb ((now - t.heartbeat_at) + (t.heartbeat_at - now)) stale_after_ms

-- The loop of `readBoard` over the entries.
unfoldable pub valid_tickets : List (Option TicketTable) → List PlaytestTicket
valid_tickets [] = []
valid_tickets (none ∷ es) = valid_tickets es
valid_tickets (some d ∷ es) =
    let rest = valid_tickets es in elim (decode_ticket d) [ none ↦ rest | some t ↦ t ∷ rest ]

unfoldable pub decoded_board : Decoded → List PlaytestTicket
decoded_board threw = []
decoded_board no_table = []
decoded_board (entries es) = valid_tickets es

unfoldable pub board_of : {W : Type 0} → Settings W → Option Value → List PlaytestTicket
board_of s (some (text raw)) = decoded_board (s.json_decode raw)
board_of s _ = []

unfoldable pub read_board : {W : Type 0} → Settings W → W → List PlaytestTicket
read_board s w = board_of s (s.get_setting w board_key)

unfoldable pub write_board : {W : Type 0} → Settings W → W → List PlaytestTicket → W
write_board s w [] = s.set_setting w board_key nil
write_board s w (t ∷ ts) = elim (s.json_encode (t ∷ ts)) [
  | none ↦ w
  | some encoded ↦ s.set_setting w board_key (text encoded)
]

abbrev pub others : ℕ → String → PlaytestTicket → Bool
others now id t = not (str_eq t.id id) && is_fresh now t

unfoldable pub publish : {W : Type 0} → Settings W → ℕ → W → PlaytestTicket → W
publish s now w ticket =
    write_board s w
      (filter (others now ticket.id) (read_board s w) ++ record ticket { heartbeat_at = now } ∷ [])

-- A ticket leaves the board where it is withdrawn or stale.
unfoldable pub leaves : ℕ → String → List PlaytestTicket → Bool
leaves now id [] = false
leaves now id (t ∷ ts) = str_eq t.id id || not (is_fresh now t) || leaves now id ts

unfoldable pub withdraw : {W : Type 0} → Settings W → ℕ → W → String → W
withdraw s now w id =
    if leaves now id (read_board s w)
    then write_board s w (filter (others now id) (read_board s w))
    else w

unfoldable pub live_tickets : {W : Type 0} → Settings W → ℕ → W → List PlaytestTicket
live_tickets s now w = filter (is_fresh now) (read_board s w)

unfoldable pub read_claim : {W : Type 0} → Settings W → W → String → Option String
read_claim s w ticket_id = elim (s.get_setting w (claim_key ticket_id)) [
  | none ↦ none
  | some v ↦ optional_string v
]

unfoldable pub write_claim : {W : Type 0} → Settings W → W → String → String → W
write_claim s w ticket_id claimant = s.set_setting w (claim_key ticket_id) (text claimant)

unfoldable pub clear_claim : {W : Type 0} → Settings W → W → String → W
clear_claim s w ticket_id = s.set_setting w (claim_key ticket_id) nil

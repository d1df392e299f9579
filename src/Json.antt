-- ===== src/Json.antt =====
-- JavaScript values as JSON sees them, and the JSON and hash functions of the platform.
use robloxstudio_mcp.Shared.{ℕ, String, Bool, Option, none, some, str_eq, if◌then◌else◌}

-- Numbers are natural: the timestamps, sizes and counts that the code reads.
mutual
  pub data Value : Type 0 where
    undefined null : Value
    boolean : Bool → Value
    number : ℕ → Value
    string : String → Value
    array : Items → Value
    object : Fields → Value

  pub data Items : Type 0 where
    nil : Items
    cons : Value → Items → Items

  pub data Fields : Type 0 where
    end : Fields
    field : String → Value → Fields → Fields

-- `key in value`, with the value that stands there.
unfoldable pub property : String → Fields → Option Value
property k end = none
property k (field j v fs) = if str_eq j k then some v else property k fs

-- The property of a value that may be no object.
abbrev pub member : String → Value → Option Value
member k (object fs) = property k fs
member k _ = none

-- What the bridge takes from Node: `JSON.stringify` (`none` where it throws), `JSON.parse`,
-- `Buffer.byteLength` and a SHA-256 digest.
pub record Platform : Type 0 where
  pub stringify : Value → Option String
  pub parse : String → Value
  pub byte_length : String → ℕ
  pub sha256 : String → String

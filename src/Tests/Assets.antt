-- ===== src/Tests/Assets.antt =====
-- Examples: loaded assets, topology identifiers and lines.
use robloxstudio_mcp.Bytes.{Bytes, take, drop}
use robloxstudio_mcp.Shared.{
  ℕ, ◌%◌, ◌-◌, ◌≡◌, refl, true, some, List, [], ◌∷◌, ◌==◌, filter, not, arith,
}
use robloxstudio_mcp.Sanitizer.{
  Studio, scan, destroy_all, verify, remove_found, sanitize_unparented, sanitize_loaded_asset,
}
use robloxstudio_mcp.Sanitizer.Safety.{Safe, sanitize_loaded_asset-Safe}
use robloxstudio_mcp.Topology.{
  base36_digit, token_loop, token_from_number, token_value, token_value-token_from_number,
}
use robloxstudio_mcp.Edits.{line_at, line_starts}
use robloxstudio_mcp.Edits.Lines.{Contains, line_at_lem}

-- Instances below a root 0; the instance 1 is a script, the instance 2 a package link.
abbrev model : Studio ℕ (List ℕ)
model = record {
  is_script = λ x. x == 1;
  is_package_link = λ x. x == 2;
  descendants = λ w x. w;
  force_unparent = λ w x. (w, true);
  destroy = λ w x. (filter (λ y. not (y == x)) w, true);
}

sanitize_loaded_asset-Safe_example : Safe model 0 (sanitize_loaded_asset model (3 ∷ 1 ∷ 2 ∷ []) 0)
sanitize_loaded_asset-Safe_example = sanitize_loaded_asset-Safe model 0 (3 ∷ 1 ∷ 2 ∷ [])

only_the_part_left : (sanitize_loaded_asset model (3 ∷ 1 ∷ 2 ∷ []) 0).0 ≡ 3 ∷ []
unfolding sanitize_loaded_asset sanitize_unparented remove_found verify destroy_all scan
only_the_part_left = refl

token_value-token_from_number_example :
    token_value (token_from_number 2176782400) ≡ some (2176782400 % 2176782336)
token_value-token_from_number_example = token_value-token_from_number 2176782400

token_of_37 : token_from_number 37 ≡ 48 ∷ 48 ∷ 48 ∷ 45 ∷ 48 ∷ 49 ∷ 49 ∷ []
unfolding token_from_number token_loop base36_digit take drop
token_of_37 = refl

abbrev two_lines : Bytes
two_lines = 97 ∷ 10 ∷ 98 ∷ []

line_at_lem_example : Contains (line_starts two_lines) 3 (line_at (line_starts two_lines) 3 - 1)
line_at_lem_example = line_at_lem two_lines 3 (omega arith)

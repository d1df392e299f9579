-- ===== src/Sanitizer.antt =====
-- The removal of scripts and package links from a loaded asset:
-- studio-plugin/src/modules/AssetSanitizationPolicy.ts. Studio's instances and its operations on
-- them are parameters, on the state `W` of the DataModel.
pub mod Safety
use robloxstudio_mcp.Shared.{
  ℕ, ◌+◌, Bool, true, false, Option, none, some, List, [], ◌∷◌, ◌||◌, length, filter, ltb,
  if◌then◌else◌,
}

-- `IsA` of the two forbidden classes and `GetDescendants`, with `AssetSanitizationOperations`.
pub record Studio (Instance W : Type 0) : Type 0 where
  pub is_script : Instance → Bool
  pub is_package_link : Instance → Bool
  pub descendants : W → Instance → List Instance
  pub force_unparent : W → Instance → W × Bool
  pub destroy : W → Instance → W × Bool

pub record ForbiddenImportScan (Instance : Type 0) : Type 0 where
  pub scripts : List Instance
  pub package_links : List Instance

pub data SanitizationError : Type 0 where
  still_parented forbidden_root verification_failed : SanitizationError

pub record SanitizationResult : Type 0 where
  pub removed_scripts : ℕ
  pub removed_package_links : ℕ
  pub remaining_scripts : ℕ
  pub remaining_package_links : ℕ
  pub error : Option SanitizationError

-- The root is inspected first.
unfoldable pub scan :
    {Instance W : Type 0} → Studio Instance W → W → Instance → ForbiddenImportScan Instance
scan s w root = record {
  scripts = filter s.is_script (root ∷ s.descendants w root);
  package_links = filter s.is_package_link (root ∷ s.descendants w root);
}

-- The loop that destroys what a scan has found, and how many calls succeed.
unfoldable pub destroy_all :
    {Instance W : Type 0} → Studio Instance W → W → List Instance → ℕ → W × ℕ
destroy_all s w [] removed = (w, removed)
destroy_all s w (x ∷ xs) removed =
    let (v, done) = s.destroy w x in destroy_all s v xs (if done then removed + 1 else removed)

-- From the second scan on.
unfoldable pub verify :
    {Instance W : Type 0} → Studio Instance W → W → Instance → ℕ → ℕ → W × SanitizationResult
verify s w root removed_scripts removed_package_links =
    let found = scan s w root in
    let remaining_scripts = length found.scripts in
    let remaining_package_links = length found.package_links in
    if ltb 0 remaining_scripts || ltb 0 remaining_package_links
    then (
      (s.destroy w root).0,
      record {
        removed_scripts = removed_scripts;
        removed_package_links = removed_package_links;
        remaining_scripts = remaining_scripts;
        remaining_package_links = remaining_package_links;
        error = some verification_failed;
      },
    )
    else (
      w,
      record {
        removed_scripts = removed_scripts;
        removed_package_links = removed_package_links;
        remaining_scripts = 0;
        remaining_package_links = 0;
        error = none;
      },
    )

unfoldable pub remove_found :
    {Instance W : Type 0}
    → Studio Instance W
    → W
    → Instance
    → ForbiddenImportScan Instance
    → W × SanitizationResult
remove_found s w root found =
    let (v, scripts) = destroy_all s w found.scripts 0 in
    let (u, links) = destroy_all s v found.package_links 0 in verify s u root scripts links

unfoldable pub sanitize_unparented :
    {Instance W : Type 0} → Studio Instance W → W → Instance → W × SanitizationResult
sanitize_unparented s w root =
    let found = scan s w root in
    if s.is_script root || s.is_package_link root
    then (
      (s.destroy w root).0,
      record {
        removed_scripts = length found.scripts;
        removed_package_links = length found.package_links;
        remaining_scripts = if s.is_script root then 1 else 0;
        remaining_package_links = if s.is_package_link root then 1 else 0;
        error = some forbidden_root;
      },
    )
    else remove_found s w root found

unfoldable pub sanitize_loaded_asset :
    {Instance W : Type 0} → Studio Instance W → W → Instance → W × SanitizationResult
sanitize_loaded_asset s w root =
    let (v, unparented) = s.force_unparent w root in
    if unparented then sanitize_unparented s v root else (
      (s.destroy v root).0,
      record {
        removed_scripts = 0;
        removed_package_links = 0;
        remaining_scripts = 0;
        remaining_package_links = 0;
        error = some still_parented;
      },
    )

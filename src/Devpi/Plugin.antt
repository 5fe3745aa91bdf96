-- ===== src/Devpi/Plugin.antt =====
-- devpi/artea_devpi_policy/src/artea_devpi_policy/main.py, the plugin that enforces the policy.
pub mod Duration
pub mod Constraints
pub mod Compiled
pub mod OsvCache
pub mod Query
pub mod Metadata
pub mod Stage
pub mod Views
use artea.Base.{ℕ, Bool, Option, Text}

-- What the plugin takes from `packaging`, `devpi_common` and `datetime`. A version is its text.
pub record Packaging : Type 1 where
  pub Specifier : Type 0
  -- `parse_requirement`: the project and its specifier
  pub parse_requirement : Text → Option (Text × Specifier)
  -- `not len(specifier)`
  pub is_unrestricted : Specifier → Bool
  -- Whether `parse_version` gives a `LegacyVersion`
  pub is_legacy : Text → Bool
  -- `parse_version(version) in specifier`
  pub admits : Specifier → Text → Bool
  pub normalize_name : Text → Text
  -- `splitext_archive(name)[0]`
  pub stem : Text → Text
  -- `urllib.parse.unquote`
  pub unquote : Text → Text
  -- `iso_to_epoch`, in whole seconds
  pub iso_to_epoch : Text → Option ℕ

-- The exceptions of the plugin
pub data PluginError : Type 0 where
  duration_type duration_syntax unparsable attribute_error key_error : PluginError
  already_exists : Text → PluginError
  bad_pypi_json_url bad_osv_url invalid_index_config : PluginError

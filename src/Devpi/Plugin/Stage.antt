-- ===== src/Devpi/Plugin/Stage.antt =====
-- `ConstrainedStage` of devpi/artea_devpi_policy/src/artea_devpi_policy/main.py: the filters of the
-- index. A filter that yields nothing expresses no opinion.
pub mod Filter
pub mod Verdicts
pub mod Listing
pub mod Download
pub mod Agree
use mathlib.Core.Option.{get_or}
use artea.Base.{
  ℕ, ◌+◌, Bool, true, false, not, ◌&&◌, ◌||◌, Option, none, some, List, [], ◌∷◌, ◌++◌, map, Text,
  codes, eq_text, ◌==◌, if◌then◌else◌, is_some, contains, Result, ok, err, ◌>>=◌, nat_eq,
}
use artea.Base.Dict.{Dict, get, items_at}
use artea.Base.Lists.{any}
use artea.Base.Strip.{split, join}
use artea.Devpi.Plugin.{Packaging, PluginError}
use artea.Devpi.Plugin.Duration.{Seconds, is_positive, is_old, parse_iso_duration_seconds}
use artea.Devpi.Plugin.Constraints.{ConstraintsDict, rstrip_slash, parse_constraints_of}
use artea.Osv.Json.{Json, string, Members, find}
use artea.Devpi.Plugin.OsvCache.{OsvCache}
use artea.Devpi.Plugin.Query.{World, query_osv_blocked_versions, is_blank}
use artea.Devpi.Plugin.Metadata.{ProjectMetadata, MetadataCache, project_metadata}

-- A link of a simple page: a tuple of a key and an href, if it has one, or a link entry of devpi with
-- its `project` or `name`, its version and its basename
pub data LinkInfo : Type 0 where
  tuple : Text → Option Text → LinkInfo
  entry : Option Text → Option Text → Text → Text → LinkInfo

-- `getattr(link, "project", None) or getattr(link, "name", None)`
unfoldable pub project_or_name : Option Text → Option Text → Option Text
project_or_name none name = name
project_or_name (some []) name = name
project_or_name (some (c ∷ project)) name = some (c ∷ project)

-- `rsplit("/", 1)[-1]` and `split("#", 1)[0]`
unfoldable pub last_of : List Text → Text
last_of [] = []
last_of (w ∷ []) = w
last_of (w ∷ v ∷ ws) = last_of (v ∷ ws)

unfoldable pub first_of : List Text → Text
first_of [] = []
first_of (w ∷ ws) = w

-- What the caches of the plugin hold
pub record Caches : Type 0 where
  pub metadata : MetadataCache
  pub osv : OsvCache

-- The index property of a stage, as the cached properties read them
pub record Stage (pkg : Packaging) : Type 0 where
  pub constraints : ConstraintsDict pkg
  pub min_upstream_age : Seconds
  pub pypi_json_url : Text
  pub osv_url : Text

-- What `_constraint_decision` returns, if it has an opinion
pub record Opinion (pkg : Packaging) : Type 0 where
  pub version_filter : Option pkg.Specifier
  pub include_legacy : Bool
  pub needs_age : Bool
  pub needs_osv : Bool

module _ (pkg : Packaging) where
  -- `filename_from_path`
  unfoldable pub filename_from_path : Text → Text
  unfolding last_of first_of split
  filename_from_path path =
      pkg.unquote (first_of (split b'#' (last_of (split b'/' (rstrip_slash path)))))

  -- `filename_from_link`
  unfoldable pub filename_from_link : LinkInfo → Text
  unfolding filename_from_path
  filename_from_link (tuple key none) = filename_from_path key
  filename_from_link (tuple key (some href)) = filename_from_path href
  filename_from_link (entry project name version basename) = basename

  -- The loop of `_link_version`: the parts before a dash, and those after it
  unfoldable pub version_after : Text → List Text → List Text → Option Text
  unfolding join
  version_after project before [] = none
  version_after project before (p ∷ after) =
      let rest = version_after project (before ++ p ∷ []) after in
      if pkg.normalize_name (join (codes "-") before) == project
      then some (join (codes "-") (p ∷ after))
      else rest

  unfoldable pub version_of_parts : Text → List Text → Option Text
  unfolding version_after
  version_of_parts project [] = none
  version_of_parts project (p ∷ parts) = version_after project (p ∷ []) parts

  -- `_link_version`
  unfoldable pub link_version : Text → LinkInfo → Option Text
  unfolding version_of_parts split project_or_name
  link_version project (tuple key href) = version_of_parts project (split b'-' (pkg.stem key))
  link_version project (entry link_project name version basename) =
      elim (project_or_name link_project name) [
        | none ↦ none
        | some found ↦ if pkg.normalize_name found == project then some version else none
      ]

  -- `_version_matches_filter`
  unfoldable pub version_matches_filter : Text → Option pkg.Specifier → Bool → Bool → Bool
  version_matches_filter version none constrain_all include_legacy = not constrain_all
  version_matches_filter version (some specifier) constrain_all include_legacy =
      if pkg.is_legacy version then include_legacy else pkg.admits specifier version

  -- `_version_old_enough` and `_file_old_enough`
  unfoldable pub version_old_enough : Stage pkg → ℕ → ProjectMetadata → Text → Bool
  unfolding get any is_old
  version_old_enough stage now metadata version =
      any (is_old stage.min_upstream_age now) (items_at version metadata.versions)

  unfoldable pub uploaded_old_enough : Stage pkg → ℕ → Option ℕ → Bool
  unfolding is_old
  uploaded_old_enough stage now none = false
  uploaded_old_enough stage now (some uploaded) = is_old stage.min_upstream_age now uploaded

  unfoldable pub file_old_enough : Stage pkg → ℕ → ProjectMetadata → Text → Bool
  unfolding get uploaded_old_enough
  file_old_enough stage now metadata filename =
      uploaded_old_enough stage now (get filename metadata.files)

  -- `has_file_policy`
  unfoldable pub has_file_policy : Stage pkg → Bool
  unfolding is_positive is_blank
  has_file_policy stage = is_positive stage.min_upstream_age || not (is_blank stage.osv_url)

  unfoldable pub includes_legacy : Option pkg.Specifier → Bool
  includes_legacy none = true
  includes_legacy (some specifier) = pkg.is_unrestricted specifier

  abbrev pub opinion_of : Stage pkg → Option pkg.Specifier → Opinion pkg
  opinion_of stage version_filter = record {
    version_filter = version_filter;
    include_legacy = includes_legacy version_filter;
    needs_age = is_positive stage.min_upstream_age;
    needs_osv = not (is_blank stage.osv_url);
  }

  -- `_constraint_decision`
  unfoldable pub constraint_decision : Stage pkg → Text → Option (Opinion pkg)
  unfolding get includes_legacy is_positive is_blank has_file_policy
  constraint_decision stage project =
      let version_filter = get project stage.constraints.entries in
      if not (is_some version_filter)
        && (not stage.constraints.constrain_all && not (has_file_policy stage))
      then none
      else some (opinion_of stage version_filter)

  -- `get_projects_filter_iter`
  unfoldable pub get_projects_filter_iter : Stage pkg → List Text → List Bool
  unfolding get
  get_projects_filter_iter stage projects =
      if not stage.constraints.constrain_all
      then []
      else map (λ project. is_some (get project stage.constraints.entries)) projects

  -- A text property, if it is there and not empty
  unfoldable pub text_or : Text → Option Json → Text
  text_or default (some (string (c ∷ s))) = c ∷ s
  text_or default j = default

  -- The properties of an index config, with the URL that the environment gives for OSV
  unfoldable pub stage_of : Text → Members → Result PluginError (Stage pkg)
  unfolding text_or rstrip_slash parse_constraints_of parse_iso_duration_seconds find
  stage_of default_osv_url config = do
    constraints ←
        parse_constraints_of pkg (some (get_or (find (codes "constraints") config) (string [])))
    min_upstream_age ←
        parse_iso_duration_seconds
          (get_or (find (codes "min_upstream_age") config) (string (codes "P0D")))
    ok (record {
      constraints = constraints;
      min_upstream_age = min_upstream_age;
      pypi_json_url = text_or (codes "https://pypi.org/pypi") (find (codes "pypi_json_url") config);
      osv_url = rstrip_slash (text_or default_osv_url (find (codes "osv_url") config));
    })

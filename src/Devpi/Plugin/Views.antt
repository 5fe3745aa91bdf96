-- ===== src/Devpi/Plugin/Views.antt =====
-- The requests that devpi/artea_devpi_policy/src/artea_devpi_policy/main.py answers: the tween in front
-- of the mirror's files, and the two views. The stage and the mirror's links are parameters.
pub mod Agree
use artea.Base.{
  Bool, true, false, not, ◌&&◌, ◌||◌, Option, none, some, List, [], ◌∷◌, Text, codes, eq_text,
  nat_eq, if◌then◌else◌, Result, ok, err, ◌+◌, ◌-◌,
}
use artea.Base.Dict.{Dict}
use artea.Base.Lists.{length, take, any}
use artea.Base.Strip.{strip_left, strip_right, starts_with}
use mathlib.Core.List.{reverse}
use mathlib.Core.Option.{get_or}
use artea.Devpi.Plugin.{Packaging, PluginError}
use artea.Devpi.Plugin.Query.{World, is_blank}
use artea.Devpi.Plugin.Metadata.{FileMeta, ProjectMetadata, MetadataCache, project_metadata}
use artea.Devpi.Plugin.Stage.{
  LinkInfo, entry, tuple, project_or_name, Caches, Stage, has_file_policy,
}
use artea.Devpi.Plugin.Stage.Filter.{link_allowed}

-- What a request gets: the page of the next handler, 204, 400, 403, or a document
pub data Response : Type 0 where
  handled no_content bad_request forbidden : Response
  document : Dict Text FileMeta → Bool → Response
  failed : PluginError → Response

-- `PYPI_FILE_PREFIXES`
abbrev pub pypi_file_prefixes : List Text
pypi_file_prefixes = codes "root/pypi/+f/" ∷ codes "root/pypi/+e/" ∷ []

unfoldable pub ends_with : Text → Text → Bool
unfolding starts_with
ends_with s suffix = starts_with (reverse s) (reverse suffix)

-- `link_entrypath`
unfoldable pub link_entrypath : Text → Text
unfolding ends_with
link_entrypath path =
    if ends_with path (codes ".metadata")
    then take (length path - length (codes ".metadata")) path
    else path

unfoldable pub is_mirror_file : Text → Bool
unfolding any starts_with
is_mirror_file path = any (starts_with path) pypi_file_prefixes

-- `getattr(link, "project", None)` for the tween, the empty text for a project that is missing
unfoldable pub link_project : LinkInfo → Text
link_project (tuple key href) = []
link_project (entry none name version basename) = []
link_project (entry (some project) name version basename) = project

-- `getattr(link, "project", "") or getattr(link, "name", "")` for the view
unfoldable pub project_or_link_name : LinkInfo → Text
unfolding project_or_name
project_or_link_name (tuple key href) = []
project_or_link_name (entry project name version basename) =
    get_or (project_or_name project name) []

module _ (pkg : Packaging) where
  -- The mirror's links by their entry paths, if devpi has the mirror
  abbrev pub Mirror : Type 0
  Mirror = Option (Text → Option LinkInfo)

  unfoldable pub get_link_from_entrypath : Mirror → Text → Option LinkInfo
  get_link_from_entrypath none path = none
  get_link_from_entrypath (some links) path = links path

  unfoldable pub respond : Response → Caches × Result PluginError Bool → Caches × Response
  respond allowed (caches, ok true) = (caches, allowed)
  respond allowed (caches, ok false) = (caches, forbidden)
  respond allowed (caches, err e) = (caches, failed e)

  unfoldable pub check_link :
      Response → World → Stage pkg → Caches → Text → LinkInfo → Caches × Response
  unfolding is_blank respond
  check_link allowed w stage caches project link =
      if is_blank project
      then (caches, forbidden)
      else respond allowed (link_allowed pkg stage project w caches link)

  unfoldable pub tween_link : World → Stage pkg → Caches → Option LinkInfo → Caches × Response
  unfolding check_link link_project
  tween_link w stage caches none = (caches, forbidden)
  tween_link w stage caches (some link) = check_link handled w stage caches (link_project link) link

  unfoldable pub tween_stage :
      World → Option (Stage pkg) → Mirror → Caches → Text → Caches × Response
  unfolding tween_link link_entrypath has_file_policy get_link_from_entrypath
  tween_stage w none mirror caches path = (caches, handled)
  tween_stage w (some stage) mirror caches path =
      if not (has_file_policy pkg stage)
      then (caches, handled)
      else tween_link w stage caches (get_link_from_entrypath mirror (link_entrypath path))

  unfoldable pub tween_path :
      World → Option (Stage pkg) → Mirror → Caches → Text → Caches × Response
  unfolding tween_stage is_mirror_file
  tween_path w stage mirror caches path =
      if not (is_mirror_file path)
      then (caches, handled)
      else tween_stage w stage mirror caches path

  -- The tween of `file_age_tween_factory`
  unfoldable pub tween : World → Option (Stage pkg) → Mirror → Caches → Text → Caches × Response
  unfolding tween_path strip_left
  tween w stage mirror caches path_info =
      tween_path w stage mirror caches (strip_left (nat_eq b'/') path_info)

  unfoldable pub view_link :
      World → Option (Stage pkg) → Caches → Option LinkInfo → Caches × Response
  unfolding check_link project_or_link_name
  view_link w (some stage) caches (some link) =
      check_link no_content w stage caches (pkg.normalize_name (project_or_link_name link)) link
  view_link w none caches link = (caches, forbidden)
  view_link w (some stage) caches none = (caches, forbidden)

  unfoldable pub view_path : World → Option (Stage pkg) → Mirror → Caches → Text → Caches × Response
  unfolding view_link is_mirror_file link_entrypath get_link_from_entrypath
  view_path w stage mirror caches path =
      if not (is_mirror_file path)
      then (caches, bad_request)
      else view_link w stage caches (get_link_from_entrypath mirror (link_entrypath path))

  -- `pypi_file_allowed_view`
  unfoldable pub pypi_file_allowed_view :
      World → Option (Stage pkg) → Mirror → Caches → Text → Caches × Response
  unfolding view_path strip_left
  pypi_file_allowed_view w stage mirror caches raw_path =
      view_path w stage mirror caches (strip_left (nat_eq b'/') raw_path)

  unfoldable pub meta_of : Caches → MetadataCache × ProjectMetadata → Caches × Response
  meta_of caches (cache, metadata) =
      (record caches { metadata = cache }, document metadata.file_meta metadata.metadata_available)

  -- `project_meta_view`, of the normalized name
  unfoldable pub meta_view : World → Option (Stage pkg) → Caches → Text → Caches × Response
  unfolding meta_of
  meta_view w stage caches [] = (caches, bad_request)
  meta_view w none caches (c ∷ name) = (caches, forbidden)
  meta_view w (some stage) caches (c ∷ name) =
      meta_of caches (project_metadata pkg w caches.metadata (c ∷ name) stage.pypi_json_url)

  unfoldable pub project_meta_view : World → Option (Stage pkg) → Caches → Text → Caches × Response
  unfolding meta_view
  project_meta_view w stage caches raw_name = meta_view w stage caches (pkg.normalize_name raw_name)

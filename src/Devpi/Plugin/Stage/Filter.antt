-- ===== src/Devpi/Plugin/Stage/Filter.antt =====
-- The filters of `ConstrainedStage` in devpi/artea_devpi_policy/src/artea_devpi_policy/main.py, and
-- its decision on one link.
use artea.Base.{
  Bool, true, false, not, ◌&&◌, Option, none, some, List, [], ◌∷◌, map, Text, eq_text,
  if◌then◌else◌, is_some, contains, Result, ok, err,
}
use artea.Devpi.Plugin.{Packaging, PluginError}
use artea.Devpi.Plugin.OsvCache.{OsvCache}
use artea.Devpi.Plugin.Query.{World, query_osv_blocked_versions}
use artea.Devpi.Plugin.Metadata.{ProjectMetadata, MetadataCache, project_metadata}
use artea.Devpi.Plugin.Stage.{
  LinkInfo, Caches, Stage, Opinion, version_matches_filter, constraint_decision, version_old_enough,
  file_old_enough, filename_from_link, link_version,
}

module _ (pkg : Packaging) where
  -- An item with its version, and whether it passes but for OSV
  abbrev pub Pending : Type 0
  Pending = Option Text × Bool

  -- The versions that OSV is asked about
  unfoldable pub asked : List Pending → List Text
  asked [] = []
  asked ((some version, true) ∷ rest) = version ∷ asked rest
  asked ((some version, false) ∷ rest) = asked rest
  asked ((none, allowed) ∷ rest) = asked rest

  unfoldable pub outcome : List Text → Pending → Bool
  unfolding contains
  outcome blocked (none, allowed) = allowed
  outcome blocked (some version, allowed) = allowed && not (contains version blocked)

  unfoldable pub with_blocked :
      Caches
      → List Pending
      → OsvCache × Result PluginError (List Text)
      → Caches × Result PluginError (List Bool)
  unfolding outcome
  with_blocked caches pending (osv, ok blocked) =
      (record caches { osv = osv }, ok (map (outcome blocked) pending))
  with_blocked caches pending (osv, err e) = (record caches { osv = osv }, err e)

  module _ {Item : Type 0} (stage : Stage pkg) (project : Text) (version_of : Item → Option Text)
      (age_ok_of : ProjectMetadata → Item → Bool) where
    -- The body of the loop of `_filter_iter`; there is no metadata if no age is required.
    unfoldable pub pend : Opinion pkg → Option ProjectMetadata → Item → Pending
    unfolding version_matches_filter
    pend opinion metadata item = elim (version_of item) [
      | none ↦ (none, false)
      | some version ↦ (
        some version,
        version_matches_filter pkg version opinion.version_filter stage.constraints.constrain_all
              opinion.include_legacy
            && elim metadata [ none ↦ true | some m ↦ age_ok_of m item ],
      )
    ]

    unfoldable pub ask_osv :
        World → Opinion pkg → Caches → List Pending → Caches × Result PluginError (List Bool)
    unfolding asked outcome with_blocked
    ask_osv w opinion caches pending =
        if opinion.needs_osv
        then with_blocked caches pending
            (query_osv_blocked_versions w caches.osv stage.osv_url project (asked pending))
        else (caches, ok (map (outcome []) pending))

    unfoldable pub filter_aged :
        World
        → Opinion pkg
        → Caches
        → List Item
        → MetadataCache × ProjectMetadata
        → Caches × Result PluginError (List Bool)
    unfolding pend ask_osv
    filter_aged w opinion caches list (cache, metadata) =
        ask_osv w opinion (record caches { metadata = cache })
          (map (pend opinion (some metadata)) list)

    unfoldable pub filter_with :
        World → Opinion pkg → Caches → List Item → Caches × Result PluginError (List Bool)
    unfolding pend ask_osv filter_aged
    filter_with w opinion caches list =
        if not (is_some opinion.version_filter) && stage.constraints.constrain_all
        then (caches, ok (map (λ item. false) list))
        else if opinion.needs_age
        then filter_aged w opinion caches list
            (project_metadata pkg w caches.metadata project stage.pypi_json_url)
        else ask_osv w opinion caches (map (pend opinion none) list)

    -- `_filter_iter`
    unfoldable pub filter_iter :
        World → Caches → List Item → Caches × Result PluginError (List Bool)
    unfolding constraint_decision filter_with
    filter_iter w caches list = elim (constraint_decision pkg stage project) [
      | none ↦ (caches, ok [])
      | some opinion ↦ filter_with w opinion caches list
    ]

  -- `get_versions_filter_iter`
  unfoldable pub get_versions_filter_iter :
      Stage pkg → Text → World → Caches → List Text → Caches × Result PluginError (List Bool)
  unfolding filter_iter version_old_enough
  get_versions_filter_iter stage project w caches versions =
      filter_iter stage project (λ version. some version)
        (λ metadata version. version_old_enough pkg stage w.now metadata version) w caches versions

  -- `get_simple_links_filter_iter`
  unfoldable pub get_simple_links_filter_iter :
      Stage pkg → Text → World → Caches → List LinkInfo → Caches × Result PluginError (List Bool)
  unfolding filter_iter link_version file_old_enough filename_from_link
  get_simple_links_filter_iter stage project w caches links =
      filter_iter stage project (link_version pkg project)
        (λ metadata link. file_old_enough pkg stage w.now metadata (filename_from_link pkg link)) w
        caches links

  unfoldable pub unless_blocked :
      Caches → Text → OsvCache × Result PluginError (List Text) → Caches × Result PluginError Bool
  unfolding contains
  unless_blocked caches version (osv, ok blocked) =
      (record caches { osv = osv }, ok (not (contains version blocked)))
  unless_blocked caches version (osv, err e) = (record caches { osv = osv }, err e)

  -- The end of `link_allowed`
  unfoldable pub not_malicious :
      Stage pkg → Text → World → Opinion pkg → Caches → Text → Caches × Result PluginError Bool
  unfolding unless_blocked
  not_malicious stage project w opinion caches version =
      if opinion.needs_osv
      then unless_blocked caches version
          (query_osv_blocked_versions w caches.osv stage.osv_url project (version ∷ []))
      else (caches, ok true)

  unfoldable pub aged_allowed :
      Stage pkg
      → Text
      → World
      → Opinion pkg
      → Caches
      → LinkInfo
      → Text
      → MetadataCache × ProjectMetadata
      → Caches × Result PluginError Bool
  unfolding not_malicious file_old_enough filename_from_link
  aged_allowed stage project w opinion caches link version (cache, metadata) =
      if file_old_enough pkg stage w.now metadata (filename_from_link pkg link)
      then not_malicious stage project w opinion (record caches { metadata = cache }) version
      else (record caches { metadata = cache }, ok false)

  unfoldable pub version_allowed :
      Stage pkg
      → Text
      → World
      → Opinion pkg
      → Caches
      → LinkInfo
      → Option Text
      → Caches × Result PluginError Bool
  unfolding version_matches_filter aged_allowed not_malicious
  version_allowed stage project w opinion caches link none = (caches, ok false)
  version_allowed stage project w opinion caches link (some version) =
      if not (
        version_matches_filter pkg version opinion.version_filter stage.constraints.constrain_all
          opinion.include_legacy)
      then (caches, ok false)
      else if opinion.needs_age
      then aged_allowed stage project w opinion caches link version
          (project_metadata pkg w caches.metadata project stage.pypi_json_url)
      else not_malicious stage project w opinion caches version

  -- `link_allowed`
  unfoldable pub link_allowed :
      Stage pkg → Text → World → Caches → LinkInfo → Caches × Result PluginError Bool
  unfolding constraint_decision version_allowed link_version
  link_allowed stage project w caches link = elim (constraint_decision pkg stage project) [
    | none ↦ (caches, ok true)
    | some opinion ↦
        version_allowed stage project w opinion caches link (link_version pkg project link)
  ]

-- ===== src/Devpi/Plugin/Metadata.antt =====
-- `fetch_project_metadata` of devpi/artea_devpi_policy/src/artea_devpi_policy/main.py
use artea.Base.{
  ℕ, ◌+◌, Bool, true, false, Option, none, some, List, [], ◌∷◌, Text, codes, eq_text, eq_pair, ltb,
  if◌then◌else◌,
}
use artea.Base.Dict.{Dict, get, put, push}
use artea.Osv.Json.{Json, number, string, array, object, Members, at, items, members, truthy}
use mathlib.Core.Option.{get_or}
use artea.Devpi.Plugin.{Packaging}
use artea.Devpi.Plugin.Query.{World, Answer, unavailable, answered}

-- `file_meta[filename]`
pub record FileMeta : Type 0 where
  pub upload_time : Text
  pub version : Text
  pub size : Option ℕ
  -- `True` is the empty reason.
  pub yanked : Option Text

-- `ProjectMetadata`
pub record ProjectMetadata : Type 0 where
  pub fetched_at : ℕ
  pub files : Dict Text ℕ
  pub versions : Dict Text (List ℕ)
  pub file_meta : Dict Text FileMeta
  pub metadata_available : Bool

abbrev pub MetadataCache : Type 0
MetadataCache = Dict (Text × Text) ProjectMetadata

-- `DEFAULT_METADATA_CACHE_SECONDS`
abbrev pub default_metadata_cache_seconds : ℕ
default_metadata_cache_seconds = 300

-- The first of two values that counts as true, or else the second
unfoldable pub or_else : Json → Json → Json
unfolding truthy
or_else a b = if truthy a then a else b

unfoldable pub text_of : Json → Option Text
text_of (string s) = some s
text_of j = none

-- A size that is a number; a Boolean is none.
unfoldable pub size_of : Json → Option ℕ
size_of (number n) = some n
size_of j = none

unfoldable pub yanked_of : Json → Option Text
unfolding truthy
yanked_of (string []) = none
yanked_of (string (c ∷ s)) = some (c ∷ s)
yanked_of j = if truthy j then some [] else none

module _ (pkg : Packaging) where
  -- A file with its name, its time of upload as a text and in seconds, and its metadata
  unfoldable pub add_file :
      Text → Members → Text → Text → Option ℕ → ProjectMetadata → ProjectMetadata
  unfolding put push size_of yanked_of at
  add_file version item filename uploaded_raw none metadata = metadata
  add_file version item filename uploaded_raw (some uploaded) metadata = record metadata {
    files = put filename uploaded metadata.files;
    versions = push version uploaded metadata.versions;
    file_meta =
        put filename
          (record {
            upload_time = uploaded_raw;
            version = version;
            size = size_of (at (codes "size") item);
            yanked = yanked_of (at (codes "yanked") item);
          })
          metadata.file_meta;
  }

  unfoldable pub add_named :
      Text → Members → Option Text → Option Text → ProjectMetadata → ProjectMetadata
  unfolding add_file
  add_named version item (some filename) (some uploaded_raw) metadata =
      add_file version item filename uploaded_raw (pkg.iso_to_epoch uploaded_raw) metadata
  add_named version item none uploaded_raw metadata = metadata
  add_named version item (some filename) none metadata = metadata

  unfoldable pub add_item : Text → Json → ProjectMetadata → ProjectMetadata
  unfolding add_named text_of or_else at
  add_item version (object item) metadata =
      add_named version item (text_of (at (codes "filename") item))
        (text_of (or_else (at (codes "upload_time_iso_8601") item) (at (codes "upload_time") item)))
        metadata
  add_item version j metadata = metadata

  unfoldable pub add_items : Text → List Json → ProjectMetadata → ProjectMetadata
  unfolding add_item
  add_items version [] metadata = metadata
  add_items version (j ∷ js) metadata = add_items version js (add_item version j metadata)

  unfoldable pub add_release : Text → Json → ProjectMetadata → ProjectMetadata
  unfolding add_items items
  add_release version (array release_files) metadata =
      add_items version (items release_files) metadata
  add_release version j metadata = metadata

  unfoldable pub add_releases : List (Text × Json) → ProjectMetadata → ProjectMetadata
  unfolding add_release
  add_releases [] metadata = metadata
  add_releases ((version, files) ∷ rest) metadata =
      add_releases rest (add_release version files metadata)

  abbrev pub no_files : ℕ → Bool → ProjectMetadata
  no_files now available = record {
    fetched_at = now;
    files = [];
    versions = [];
    file_meta = [];
    metadata_available = available;
  }

  unfoldable pub read_releases : ℕ → Json → Option ProjectMetadata
  unfolding add_releases members
  read_releases now (object releases) = some (add_releases (members releases) (no_files now true))
  read_releases now j = none

  -- The metadata, or none for `MetadataUnavailable`
  unfoldable pub read_project : ℕ → Answer → Option ProjectMetadata
  unfolding read_releases at
  read_project now unavailable = none
  read_project now (answered (object project)) = read_releases now (at (codes "releases") project)
  read_project now (answered j) = none

  unfoldable pub fetch_uncached :
      World → MetadataCache → Text → Text → MetadataCache × Option ProjectMetadata
  unfolding read_project put
  fetch_uncached w cache project pypi_json_url =
      elim (read_project w.now (w.pypi pypi_json_url project)) [
        | none ↦ (cache, none)
        | some metadata ↦ (put (pypi_json_url, project) metadata cache, some metadata)
      ]

  -- `fetch_project_metadata`
  unfoldable pub fetch_project_metadata :
      World → MetadataCache → Text → Text → MetadataCache × Option ProjectMetadata
  unfolding fetch_uncached get
  fetch_project_metadata w cache project pypi_json_url = elim (get (pypi_json_url, project) cache) [
    | none ↦ fetch_uncached w cache project pypi_json_url
    | some cached ↦
        if ltb w.now (cached.fetched_at + default_metadata_cache_seconds)
        then (cache, some cached)
        else fetch_uncached w cache project pypi_json_url
  ]

  -- `ConstrainedStage._project_metadata`
  unfoldable pub project_metadata :
      World → MetadataCache → Text → Text → MetadataCache × ProjectMetadata
  unfolding fetch_project_metadata
  project_metadata w cache project pypi_json_url =
      let r = fetch_project_metadata w cache project pypi_json_url in
      (r.0, get_or r.1 (no_files w.now false))

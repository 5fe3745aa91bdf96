-- ===== src/Devpi/Bootstrap.antt =====
-- devpi/ensure_index.py, which makes the indexes of a devpi that starts. devpi is a state that three
-- requests act on.
pub mod FailClosed
use artea.Base.{
  ℕ, Bool, true, false, not, ◌&&◌, ◌||◌, Option, none, some, List, [], ◌∷◌, Text, codes, eq_text,
  nat_eq, ◌==◌, if◌then◌else◌, contains,
}
use mathlib.Core.Option.{get_or}
use artea.Base.Strip.{strip, lower}
use artea.Osv.Json.{
  Json, null, boolean, number, string, array, object, Members, member, end, Jsons, nil, cons, at,
  find,
}
use artea.Devpi.Client.{is_text, has_expected_base}

-- What a request gives: the JSON value of the body, an HTTP error, another error of the connection, or
-- a body that is no JSON
pub data Reply : Type 0 where
  body : Json → Reply
  http_error : ℕ → Reply
  unreachable malformed : Reply

-- The exit codes 0 and 1, and an exception that nothing catches
pub data Exit : Type 0 where
  success failure crash : Exit

pub record Server (D : Type 0) : Type 0 where
  pub get_constrained : D → Reply
  pub put_constrained : D → Members → D × Reply
  pub get_mirror : D → Reply
  -- The patch that enables the core metadata
  pub patch_mirror : D → D × Reply

-- `KVDICT`
abbrev pub kvdict : Members
kvdict = member (codes "type") (string (codes "constrained")) (
    member (codes "bases") (string (codes "root/pypi")) (
      member (codes "constraints") (array (cons (string (codes "*")) nil))
        (member (codes "min_upstream_age") (string (codes "P0D")) end)))

-- `truthy`
unfoldable pub truthy : Json → Bool
unfolding strip lower contains
truthy (boolean b) = b
truthy (string s) =
    contains (lower (strip s)) (codes "true" ∷ codes "1" ∷ codes "yes" ∷ codes "on" ∷ [])
truthy j = false

-- `.get("result", {})`
unfoldable pub result_of : Json → Option Members
unfolding find
result_of (object answer) = elim (get_or (find (codes "result") answer) (object end)) [
  | object config ↦ some config
  | _ ↦ none
]
result_of j = none

-- The checks of an index that exists
unfoldable pub check_index : Option Members → Exit
unfolding is_text has_expected_base at
check_index none = crash
check_index (some config) =
    if not (is_text (codes "constrained") (at (codes "type") config))
    then failure
    else if not (has_expected_base (at (codes "bases") config))
    then failure
    else success

unfoldable pub created : {D : Type 0} → D × Reply → D × Exit
created (d, body j) = (d, success)
created (d, http_error code) = (d, failure)
created (d, unreachable) = (d, crash)
created (d, malformed) = (d, success)

module _ {D : Type 0} (server : Server D) where
  unfoldable pub ensure_from : D → Reply → D × Exit
  unfolding check_index result_of created
  ensure_from d (body j) = (d, check_index (result_of j))
  ensure_from d (http_error code) =
      if nat_eq code 404 then created (server.put_constrained d kvdict) else (d, failure)
  ensure_from d unreachable = (d, crash)
  ensure_from d malformed = (d, crash)

  -- `ensure_constrained_index`
  unfoldable pub ensure_constrained_index : D → D × Exit
  unfolding ensure_from
  ensure_constrained_index d = ensure_from d (server.get_constrained d)

  -- A patch that fails is a warning.
  unfoldable pub enable_from : D → Option Members → D × Exit
  unfolding truthy at
  enable_from d none = (d, crash)
  enable_from d (some config) =
      if truthy (at (codes "mirror_provides_core_metadata") config)
      then (d, success)
      else ((server.patch_mirror d).0, success)

  unfoldable pub core_metadata_from : D → Reply → D × Exit
  unfolding enable_from result_of
  core_metadata_from d (body j) = enable_from d (result_of j)
  core_metadata_from d (http_error code) = (d, success)
  core_metadata_from d unreachable = (d, success)
  core_metadata_from d malformed = (d, success)

  -- `ensure_root_pypi_core_metadata`
  unfoldable pub ensure_root_pypi_core_metadata : D → D × Exit
  unfolding core_metadata_from
  ensure_root_pypi_core_metadata d = core_metadata_from d (server.get_mirror d)

  unfoldable pub then_metadata : D × Exit → D × Exit
  unfolding ensure_root_pypi_core_metadata
  then_metadata (d, success) = ensure_root_pypi_core_metadata d
  then_metadata (d, failure) = (d, failure)
  then_metadata (d, crash) = (d, crash)

  -- `main`
  unfoldable pub main : D → D × Exit
  unfolding ensure_constrained_index then_metadata
  main d = then_metadata (ensure_constrained_index d)

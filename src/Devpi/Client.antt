-- ===== src/Devpi/Client.antt =====
-- policy-sync/policy_sync/devpi.py, which puts the constraints into the index `root/constrained`. What
-- devpi does with a request is a parameter.
pub mod Idempotent
use artea.Base.{
  Bool, true, false, not, ◌&&◌, ◌||◌, Option, none, some, List, [], ◌∷◌, map, Text, codes, eq_text,
  list_eq, ◌==◌, if◌then◌else◌, Result, ok, err, ◌>>=◌, ◌>>◌, raise_if, eq_nat,
}
use mathlib.Core.Option.{get_or}
use artea.Osv.Json.{
  Json, null, boolean, number, string, array, object, Members, Jsons, nil, cons, items, at, find,
  set_member,
}
use artea.Devpi.Lines.{splitlines, effective}

-- What a request gives: a failure, or the JSON value of the body
pub data Reply : Type 0 where
  failed : Reply
  body : Json → Reply

-- `DevpiError`, with a constructor for each message; a body that is no object has no `get`.
pub data DevpiError : Type 0 where
  request_failed no_index_config wrong_type wrong_bases attribute_error : DevpiError

-- `_request`
unfoldable pub request : Reply → Result DevpiError Json
request failed = err request_failed
request (body j) = ok j

-- `isinstance(value, str) and value == text`
unfoldable pub is_text : Text → Json → Bool
is_text t (string s) = s == t
is_text t j = false

-- `_has_expected_base`
unfoldable pub has_expected_base : Json → Bool
unfolding is_text
has_expected_base (string s) = s == codes "root/pypi"
has_expected_base (array (cons j nil)) = is_text (codes "root/pypi") j
has_expected_base j = false

-- `.get("result")`
unfoldable pub result_of : Json → Result DevpiError Json
unfolding at
result_of (object answer) = ok (at (codes "result") answer)
result_of j = err attribute_error

unfoldable pub config_of : Json → Result DevpiError Members
config_of (object config) = ok config
config_of j = err no_index_config

-- The checks of an index config
unfoldable pub check_config : Members → Result DevpiError Members
unfolding is_text has_expected_base at
check_config config =
    if not (is_text (codes "constrained") (at (codes "type") config))
    then err wrong_type
    else if not (has_expected_base (at (codes "bases") config))
    then err wrong_bases
    else ok config

unfoldable pub read_config : Reply → Result DevpiError Members
unfolding request result_of config_of check_config
read_config reply = do
  answer ← request reply
  result ← result_of answer
  config ← config_of result
  check_config config

-- devpi as a state with the two requests; the config of a patch is its body.
pub record Devpi (D : Type 0) : Type 0 where
  pub get_index : D → Reply
  pub patch_index : D → Members → D × Reply
  -- `str(v)` of a value that is no string
  pub str_of : Json → Text

unfoldable pub same_lines : Option (List Text) → Option (List Text) → Bool
same_lines none none = true
same_lines none (some ys) = false
same_lines (some xs) none = false
same_lines (some xs) (some ys) = list_eq xs ys

unfoldable pub updated : Members → Text → Text → Members
unfolding set_member
updated config constraints_text min_upstream_age =
    set_member (codes "min_upstream_age") (string min_upstream_age)
      (set_member (codes "constraints") (string constraints_text) config)

unfoldable pub patched : {D : Type 0} → D × Reply → D × Result DevpiError Bool
unfolding request
patched (d, failed) = (d, err request_failed)
patched (d, body j) = (d, ok true)

module _ {D : Type 0} (devpi : Devpi D) where
  unfoldable pub text_of : Json → Text
  text_of (string s) = s
  text_of j = devpi.str_of j

  -- `_effective_lines`
  unfoldable pub effective_lines : Json → Option (List Text)
  unfolding effective splitlines text_of items
  effective_lines (string s) = some (effective (splitlines s))
  effective_lines (array js) = some (effective (map text_of (items js)))
  effective_lines j = none

  -- Whether the index holds the constraints and the age already
  unfoldable pub is_current : Members → Text → Text → Bool
  unfolding same_lines effective_lines is_text find at
  is_current config constraints_text min_upstream_age =
      same_lines (effective_lines (at (codes "constraints") config))
        (effective_lines (string constraints_text))
      && is_text min_upstream_age
          (get_or (find (codes "min_upstream_age") config) (string (codes "P0D")))

  unfoldable pub apply_config :
      D → Text → Text → Result DevpiError Members → D × Result DevpiError Bool
  unfolding is_current updated patched
  apply_config d constraints_text min_upstream_age (err e) = (d, err e)
  apply_config d constraints_text min_upstream_age (ok config) =
      if is_current config constraints_text min_upstream_age
      then (d, ok false)
      else patched (devpi.patch_index d (updated config constraints_text min_upstream_age))

  -- `apply_constraints`
  unfoldable pub apply_constraints : D → Text → Text → D × Result DevpiError Bool
  unfolding apply_config read_config
  apply_constraints d constraints_text min_upstream_age =
      apply_config d constraints_text min_upstream_age (read_config (devpi.get_index d))

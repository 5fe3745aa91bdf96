-- ===== src/Devpi/Bootstrap/FailClosed.antt =====
-- A devpi that starts afresh lists nothing and allows no link (devpi/ensure_index.py, with the filters
-- and the view of devpi/artea_devpi_policy/src/artea_devpi_policy/main.py).
use artea.Base.{
  ◌≡◌, refl, ◌∙◌, ap, Bool, true, false, Option, none, some, List, [], map, Text, codes, text_eq,
  eq_text, nat_eq, if◌then◌else◌, ok, ok-injective, sym, Bool-cases, inl, inr,
}
use artea.Base.Dict.{get}
use artea.Osv.Json.{find}
use artea.Devpi.Plugin.{Packaging}
use artea.Devpi.Plugin.Constraints.{
  parse_constraints_of, parse_constraints, add_constraints, add_constraint,
}
use artea.Devpi.Plugin.Query.{World}
use artea.Devpi.Plugin.Stage.{
  LinkInfo, Caches, Stage, Opinion, opinion_of, version_matches_filter, constraint_decision,
  link_version,
}
use artea.Devpi.Plugin.Stage.Filter.{
  filter_with, filter_iter, get_versions_filter_iter, get_simple_links_filter_iter, version_allowed,
  link_allowed,
}
use artea.Base.Strip.{strip_left}
use artea.Devpi.Plugin.Query.{is_blank}
use artea.Devpi.Plugin.Views.{
  Response, forbidden, bad_request, Mirror, is_mirror_file, link_entrypath, get_link_from_entrypath,
  project_or_link_name, check_link, respond, view_link, view_path, pypi_file_allowed_view,
}
use artea.Devpi.Bootstrap.{
  Reply, body, http_error, unreachable, malformed, Server, kvdict, created, ensure_from,
  ensure_constrained_index,
}

module _ (pkg : Packaging) (stage : Stage pkg) (project : Text) (w : World) (caches : Caches)
    (all : stage.constraints.constrain_all ≡ true)
    (absent : get project stage.constraints.entries ≡ none) where
  listing_denied :
      (links : List LinkInfo)
      → get_simple_links_filter_iter pkg stage project w caches links
        ≡ (caches, ok (map (λ link. false) links))
  unfolding get_simple_links_filter_iter filter_iter filter_with constraint_decision
  listing_denied links = rw (filter_iter, constraint_decision, filter_with, all, absent, all) refl

  versions_denied :
      (versions : List Text)
      → get_versions_filter_iter pkg stage project w caches versions
        ≡ (caches, ok (map (λ version. false) versions))
  unfolding get_versions_filter_iter filter_iter filter_with constraint_decision
  versions_denied versions =
      rw (filter_iter, constraint_decision, filter_with, all, absent, all) refl

  version_denied :
      (opinion : Opinion pkg) (link : LinkInfo) (version : Option Text)
      → opinion.version_filter ≡ none
      → version_allowed pkg stage project w opinion caches link version ≡ (caches, ok false)
  unfolding version_allowed version_matches_filter
  version_denied opinion link none e = refl
  version_denied opinion link (some v) e = rw (version_allowed, e, version_matches_filter, all) refl

  download_denied :
      (link : LinkInfo) → link_allowed pkg stage project w caches link ≡ (caches, ok false)
  unfolding link_allowed constraint_decision
  download_denied link =
      rw (link_allowed, constraint_decision, all, absent)
        (version_denied (opinion_of pkg stage none) link (link_version pkg project link) refl)

-- The view answers that no file may be served.
abbrev pub refusal : Text → Response
refusal path = if is_mirror_file (strip_left (nat_eq b'/') path) then forbidden else bad_request

module _ (pkg : Packaging) (stage : Stage pkg) (w : World) (caches : Caches)
    (all : stage.constraints.constrain_all ≡ true)
    (absent : (project : Text) → get project stage.constraints.entries ≡ none) where
  link_refused :
      (found : Option LinkInfo) → view_link pkg w (some stage) caches found ≡ (caches, forbidden)
  unfolding view_link check_link respond
  link_refused none = refl
  link_refused (some link) =
      let project = pkg.normalize_name (project_or_link_name link) in
      elim (Bool-cases (is_blank project)) [
        | inl e ↦ rw (view_link, check_link, e) refl
        | inr e ↦
            rw
              (
                view_link,
                check_link,
                e,
                download_denied pkg stage project w caches all (absent project) link,
              )
              refl
      ]

  file_refused :
      (mirror : Mirror pkg) (path : Text)
      → pypi_file_allowed_view pkg w (some stage) mirror caches path ≡ (caches, refusal path)
  unfolding pypi_file_allowed_view view_path
  file_refused mirror path = elim (Bool-cases (is_mirror_file (strip_left (nat_eq b'/') path))) [
    | inl e ↦
        rw (pypi_file_allowed_view, view_path, e)
          (link_refused
            (get_link_from_entrypath pkg mirror (link_entrypath (strip_left (nat_eq b'/') path))))
    | inr e ↦ rw (pypi_file_allowed_view, view_path, e) refl
  ]

-- The constraints of a new index
pub seed :
    (pkg : Packaging)
    → parse_constraints_of pkg (find (codes "constraints") kvdict)
      ≡ ok (record { constrain_all = true; entries = [] })
unfolding parse_constraints_of parse_constraints add_constraints add_constraint text_eq find
seed pkg = refl

created-put : {D : Type 0} (r : D × Reply) → (created r).0 ≡ r.0
unfolding created
created-put (d, body j) = refl
created-put (d, http_error code) = refl
created-put (d, unreachable) = refl
created-put (d, malformed) = refl

-- devpi answers that there is no such index.
abbrev pub is_missing : Reply → Bool
is_missing (body j) = false
is_missing (http_error code) = nat_eq code 404
is_missing unreachable = false
is_missing malformed = false

made :
    {D : Type 0} (server : Server D) (d : D) (reply : Reply)
    → (ensure_from server d reply).0
      ≡ (if is_missing reply then (server.put_constrained d kvdict).0 else d)
unfolding ensure_from
made server d (body j) = refl
made server d (http_error code) = elim (Bool-cases (nat_eq code 404)) [
  | inl e ↦ rw (ensure_from, e) (created-put (server.put_constrained d kvdict))
  | inr e ↦ rw (ensure_from, e) refl
]
made server d unreachable = refl
made server d malformed = refl

-- `ensure_constrained_index` sends nothing but a request to create the index, and that only if devpi has
-- none. The constraints it sends are taken by the plugin, and where they are in force no version and no
-- link of any project is listed, the check of a link refuses it, and the view that the gateway asks
-- allows no file; the caches stay as they are. The tween in front of the mirror's files, which checks
-- none unless an upstream age or OSV is set, is not part of this.
pub ensure_constrained_index-fail_closed :
    {D : Type 0} (server : Server D) (d : D) (pkg : Packaging) (stage : Stage pkg) (project : Text)
    (w : World) (caches : Caches) (versions : List Text) (links : List LinkInfo) (link : LinkInfo)
    (mirror : Mirror pkg) (path : Text)
    → parse_constraints_of pkg (find (codes "constraints") kvdict) ≡ ok stage.constraints
    → ((ensure_constrained_index server d).0 ≡ (
        if is_missing (server.get_constrained d) then (server.put_constrained d kvdict).0 else d))
      × (get_versions_filter_iter pkg stage project w caches versions
          ≡ (caches, ok (map (λ version. false) versions)))
      × (get_simple_links_filter_iter pkg stage project w caches links
          ≡ (caches, ok (map (λ link. false) links)))
      × (link_allowed pkg stage project w caches link ≡ (caches, ok false))
      × (pypi_file_allowed_view pkg w (some stage) mirror caches path ≡ (caches, refusal path))
unfolding ensure_constrained_index
ensure_constrained_index-fail_closed server d pkg stage project w caches versions links link mirror
      path h =
    let e : stage.constraints ≡ record { constrain_all = true; entries = [] } =
      sym (ok-injective (sym (seed pkg) ∙ h)) in
    let all : stage.constraints.constrain_all ≡ true = ap (λ c. c.constrain_all) e in
    let absent : (n : Text) → get n stage.constraints.entries ≡ none =
      λ n. ap (λ c. get n c.entries) e ∙ unfold get in refl in
    (
      made server d (server.get_constrained d),
      versions_denied pkg stage project w caches all (absent project) versions,
      listing_denied pkg stage project w caches all (absent project) links,
      download_denied pkg stage project w caches all (absent project) link,
      file_refused pkg stage w caches all absent mirror path,
    )

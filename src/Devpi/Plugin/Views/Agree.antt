-- ===== src/Devpi/Plugin/Views/Agree.antt =====
-- The gateway's question and devpi's own check on a file agree (`pypi_file_allowed_view` and the tween of
-- devpi/artea_devpi_policy/src/artea_devpi_policy/main.py).
use artea.Base.{
  ◌≡◌, refl, Bool, true, false, Option, none, some, Text, nat_eq, Result, ok, err, Bool-cases, inl,
  inr,
}
use artea.Base.Strip.{strip_left}
use artea.Devpi.Plugin.{Packaging, PluginError}
use artea.Devpi.Plugin.Query.{World, is_blank}
use artea.Devpi.Plugin.Stage.{LinkInfo, Caches, Stage, has_file_policy}
use artea.Devpi.Plugin.Stage.Filter.{link_allowed}
use artea.Devpi.Plugin.Views.{
  Response, handled, no_content, link_entrypath, is_mirror_file, link_project, project_or_link_name,
  Mirror, get_link_from_entrypath, respond, check_link, tween_link, tween_stage, tween_path, tween,
  view_link, view_path, pypi_file_allowed_view,
}

-- The file is served where the view says that it may be; any other response is the same.
unfoldable pub as_served : Response → Response
as_served no_content = handled
as_served r = r

module _ (pkg : Packaging) (w : World) (stage : Stage pkg) where
  abbrev served : Caches × Response → Caches × Response
  served r = (r.0, as_served r.1)

  respond-served :
      (r : Caches × Result PluginError Bool)
      → respond pkg handled r ≡ served (respond pkg no_content r)
  unfolding respond as_served
  respond-served (caches, ok true) = refl
  respond-served (caches, ok false) = refl
  respond-served (caches, err e) = refl

  check_link-served :
      (caches : Caches) (project : Text) (link : LinkInfo)
      → check_link pkg handled w stage caches project link
        ≡ served (check_link pkg no_content w stage caches project link)
  unfolding check_link as_served
  check_link-served caches project link = elim (Bool-cases (is_blank project)) [
    | inl e ↦ rw (check_link, e) refl
    | inr e ↦ rw (check_link, e) (respond-served (link_allowed pkg stage project w caches link))
  ]

  link-served :
      (caches : Caches) (found : Option LinkInfo)
      → ((link : LinkInfo)
          → found ≡ some link
          → pkg.normalize_name (project_or_link_name link) ≡ link_project link)
      → tween_link pkg w stage caches found ≡ served (view_link pkg w (some stage) caches found)
  unfolding tween_link view_link as_served
  link-served caches none normal = refl
  link-served caches (some link) normal =
      rw (normal link refl) (check_link-served caches (link_project link) link)

  -- If the stage checks files, for upstream age or by OSV, and for the path of a mirror file whose link,
  -- if there is one, has as its project the normalized form of its project, or of its name where it has
  -- no project, devpi serves the file exactly where the view allows it, and refuses it as the view does,
  -- with the same effect on the caches.
  pub tween-pypi_file_allowed_view :
      (mirror : Mirror pkg) (caches : Caches) (path : Text)
      → has_file_policy pkg stage ≡ true
      → is_mirror_file (strip_left (nat_eq b'/') path) ≡ true
      → ((link : LinkInfo)
          → get_link_from_entrypath pkg mirror (link_entrypath (strip_left (nat_eq b'/') path))
            ≡ some link
          → pkg.normalize_name (project_or_link_name link) ≡ link_project link)
      → tween pkg w (some stage) mirror caches path ≡ (
        (pypi_file_allowed_view pkg w (some stage) mirror caches path).0,
        as_served (pypi_file_allowed_view pkg w (some stage) mirror caches path).1,
      )
  unfolding tween tween_path tween_stage pypi_file_allowed_view view_path
  tween-pypi_file_allowed_view mirror caches path policy file normal =
      rw (tween, tween_path, tween_stage, pypi_file_allowed_view, view_path, file, policy)
        (link-served caches
          (get_link_from_entrypath pkg mirror (link_entrypath (strip_left (nat_eq b'/') path)))
          normal)

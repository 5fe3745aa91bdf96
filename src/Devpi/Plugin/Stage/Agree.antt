-- ===== src/Devpi/Plugin/Stage/Agree.antt =====
-- The listing of a project and the download of a file agree: `get_simple_links_filter_iter` and
-- `link_allowed` of devpi/artea_devpi_policy/src/artea_devpi_policy/main.py.
use artea.Base.{
  ◌≡◌, refl, ◌∙◌, Bool, not, ◌||◌, List, [], map, Text, eq_text, if◌then◌else◌, ok, Bool-cases, inl,
  inr,
}
use artea.Devpi.Plugin.{Packaging}
use artea.Devpi.Plugin.Query.{World}
use artea.Devpi.Plugin.Query.Honest.{IsHonest, IsCoherent}
use artea.Devpi.Plugin.Stage.{LinkInfo, Caches, Stage}
use artea.Devpi.Plugin.Stage.Filter.{filter_iter, get_simple_links_filter_iter, link_allowed}
use artea.Devpi.Plugin.Stage.Verdicts.{
  is_ruled, is_served, decision-is_ruled, if-true, if-false, result, seen,
}
use artea.Devpi.Plugin.Stage.Listing.{filter_with-is_served}
use artea.Devpi.Plugin.Stage.Download.{version_allowed-is_served}

module _ (pkg : Packaging) (stage : Stage pkg) (project : Text) (bad : Text → Bool) (w : World)
    (honest : IsHonest bad w stage.osv_url project) where
  -- Where the OSV endpoint names exactly the malicious ones of the versions that it is asked about, and
  -- so do the cached answers, the listing of a project shows exactly the links that can be downloaded,
  -- if the policy rules the project: those whose version is within the constraints, old enough and
  -- not malicious. If it does not, the listing is left alone and every link can be downloaded.
  pub get_simple_links_filter_iter-link_allowed :
      (caches : Caches) (links : List LinkInfo) (link : LinkInfo)
      → IsCoherent bad caches.osv stage.osv_url project
      → (result (get_simple_links_filter_iter pkg stage project w caches links)
          ≡ ok (
              if is_ruled pkg stage project bad
              then map
                  (is_served pkg stage project bad w.now
                    (seen pkg stage project bad w honest caches))
                  links
              else []))
        × (result (link_allowed pkg stage project w caches link)
            ≡ ok (
                not (is_ruled pkg stage project bad)
                || is_served pkg stage project bad w.now
                    (seen pkg stage project bad w honest caches)
                    link))
  unfolding get_simple_links_filter_iter filter_iter link_allowed
  get_simple_links_filter_iter-link_allowed caches links link coherent =
      let d = decision-is_ruled pkg stage project bad in
      elim (Bool-cases (is_ruled pkg stage project bad)) [
        | inl e ↦
            let o = d ∙ if-true _ _ e in
            (
              rw (e, filter_iter, o)
                  (filter_with-is_served pkg stage project bad w honest caches links coherent),
              rw (e, link_allowed, o)
                  (version_allowed-is_served pkg stage project bad w honest caches link coherent),
            )
        | inr e ↦
            let o = d ∙ if-false _ _ e in
            (rw (e, filter_iter, o) refl, rw (e, link_allowed, o) refl)
      ]

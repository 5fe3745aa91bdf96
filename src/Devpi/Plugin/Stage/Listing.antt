-- ===== src/Devpi/Plugin/Stage/Listing.antt =====
-- The listing of a project: `_filter_iter` of
-- devpi/artea_devpi_policy/src/artea_devpi_policy/main.py at the links of a simple page.
use artea.Base.{
  ◌≡◌, refl, ◌∙◌, ap, Bool, true, false, not, ◌&&◌, Option, none, some, List, [], ◌∷◌, map, Text,
  eq_text, is_some, ok, arith, Bool-cases, Option-cases, inl, inr,
}
use artea.Base.Dict.{get}
use artea.Devpi.Plugin.{Packaging}
use artea.Devpi.Plugin.Duration.{is_positive}
use artea.Devpi.Plugin.Query.{World}
use artea.Devpi.Plugin.Query.Honest.{IsHonest, IsCoherent}
use artea.Devpi.Plugin.Metadata.{ProjectMetadata}
use artea.Devpi.Plugin.Stage.{LinkInfo, Caches, Stage, link_version}
use artea.Devpi.Plugin.Stage.Filter.{pend, filter_aged, filter_with}
use artea.Devpi.Plugin.Stage.Verdicts.{
  is_within, is_served, filter_of, matches-is_within, final, link_age, link_pend, ask_osv-final,
  if-true, if-false, result, returned, seen, with_metadata,
}

module _ (pkg : Packaging) (stage : Stage pkg) (project : Text) (bad : Text → Bool) (w : World)
    (honest : IsHonest bad w stage.osv_url project) where
  pend-aged :
      (metadata : ProjectMetadata) (link : LinkInfo)
      → is_positive stage.min_upstream_age ≡ true
      → final pkg stage project bad (link_pend pkg stage project bad w honest (some metadata) link)
        ≡ is_served pkg stage project bad w.now metadata link
  unfolding pend is_served
  pend-aged metadata link age = elim (Option-cases (link_version pkg project link)) [
    | inl e ↦ rw (pend, is_served, e) refl
    | inr (v, e) ↦ rw (pend, is_served, e, age, matches-is_within pkg stage project bad v) refl
  ]

  pend-ageless :
      (metadata : ProjectMetadata) (link : LinkInfo)
      → is_positive stage.min_upstream_age ≡ false
      → final pkg stage project bad (link_pend pkg stage project bad w honest none link)
        ≡ is_served pkg stage project bad w.now metadata link
  unfolding pend is_served
  pend-ageless metadata link age = elim (Option-cases (link_version pkg project link)) [
    | inl e ↦ rw (pend, is_served, e) refl
    | inr (v, e) ↦ rw (pend, is_served, e, age, matches-is_within pkg stage project bad v) refl
  ]

  map-final :
      (m : Option ProjectMetadata) (metadata : ProjectMetadata) (links : List LinkInfo)
      → ((link : LinkInfo)
          → final pkg stage project bad (link_pend pkg stage project bad w honest m link)
            ≡ is_served pkg stage project bad w.now metadata link)
      → map (final pkg stage project bad) (map (link_pend pkg stage project bad w honest m) links)
        ≡ map (is_served pkg stage project bad w.now metadata) links
  map-final m metadata [] h = refl
  map-final m metadata (link ∷ links) h = cc (h link, map-final m metadata links h)

  unlisted :
      (v : Text)
      → is_some (get project stage.constraints.entries) ≡ false
      → stage.constraints.constrain_all ≡ true
      → is_within pkg stage project bad v ≡ false
  unfolding is_within
  unlisted v h a = elim (Option-cases (get project stage.constraints.entries)) [
    | inl e ↦ rw (e, is_within, a) refl
    | inr (s, e) ↦ absurd (cc (rw e at h))
  ]

  map-unserved :
      (metadata : ProjectMetadata) (links : List LinkInfo)
      → is_some (get project stage.constraints.entries) ≡ false
      → stage.constraints.constrain_all ≡ true
      → map (λ link. false) links ≡ map (is_served pkg stage project bad w.now metadata) links
  unfolding is_served is_within
  map-unserved metadata [] h a = refl
  map-unserved metadata (link ∷ links) h a = elim (Option-cases (link_version pkg project link)) [
    | inl e ↦ rw (e, is_served) (ap (λ bs. false ∷ bs) (map-unserved metadata links h a))
    | inr (v, e) ↦
        rw (e, is_served, unlisted v h a) (ap (λ bs. false ∷ bs) (map-unserved metadata links h a))
  ]

  pub filter_with-is_served :
      (caches : Caches) (links : List LinkInfo)
      → IsCoherent bad caches.osv stage.osv_url project
      → (filter_with pkg stage project
          (link_version pkg project)
          (link_age pkg stage project bad w honest)
          w
          (filter_of pkg stage project bad)
          caches
          links).1
        ≡ ok (
            map
              (is_served pkg stage project bad w.now (seen pkg stage project bad w honest caches))
              links)
  unfolding filter_with filter_aged
  filter_with-is_served caches links coherent =
      elim (Bool-cases (
        not (is_some (get project stage.constraints.entries)) && stage.constraints.constrain_all)) [
          | inl e ↦
              ap result (if-true _ _ e)
              ∙ ap returned (
                  map-unserved (seen pkg stage project bad w honest caches) links
                    (ground (arith, e)) (ground (arith, e)))
          | inr e ↦ elim (Bool-cases (is_positive stage.min_upstream_age)) [
            | inl age ↦
                ap result (if-false _ _ e ∙ if-true _ _ age)
                ∙ ask_osv-final pkg stage project bad w honest
                    (with_metadata pkg stage project bad w honest caches) _ coherent
                ∙ ap returned (
                    map-final (some (seen pkg stage project bad w honest caches))
                      (seen pkg stage project bad w honest caches) links
                      (λ link. pend-aged (seen pkg stage project bad w honest caches) link age))
            | inr age ↦
                ap result (if-false _ _ e ∙ if-false _ _ age)
                ∙ ask_osv-final pkg stage project bad w honest caches _ coherent
                ∙ ap returned (
                    map-final none (seen pkg stage project bad w honest caches) links
                      (λ link. pend-ageless (seen pkg stage project bad w honest caches) link age))
          ]
        ]

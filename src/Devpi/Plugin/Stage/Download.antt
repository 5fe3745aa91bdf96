-- ===== src/Devpi/Plugin/Stage/Download.antt =====
-- The download of a file: `link_allowed` of
-- devpi/artea_devpi_policy/src/artea_devpi_policy/main.py.
use artea.Base.{
  ◌≡◌, refl, ◌∙◌, ap, Bool, not, ◌&&◌, ◌||◌, Option, some, List, [], ◌∷◌, Text, eq_text, contains,
  Result, ok, err, ok-injective, arith, Bool-cases, Option-cases, inl, inr,
}
use artea.Devpi.Plugin.{Packaging, PluginError}
use artea.Devpi.Plugin.Duration.{is_positive}
use artea.Devpi.Plugin.OsvCache.{OsvCache}
use artea.Devpi.Plugin.Query.{World, is_blank, query_osv_blocked_versions}
use artea.Devpi.Plugin.Query.Honest.{IsHonest, IsCoherent, query_osv_blocked_versions-exact}
use artea.Devpi.Plugin.Metadata.{project_metadata}
use artea.Devpi.Plugin.Stage.{
  LinkInfo, Caches, Stage, file_old_enough, filename_from_link, link_version,
}
use artea.Devpi.Plugin.Stage.Filter.{unless_blocked, not_malicious, aged_allowed, version_allowed}
use artea.Devpi.Plugin.Stage.Verdicts.{
  is_within, is_served, filter_of, matches-is_within, if-true, if-false, result, returned, seen,
  with_metadata,
}

module _ (pkg : Packaging) (stage : Stage pkg) (project : Text) (bad : Text → Bool) (w : World)
    (honest : IsHonest bad w stage.osv_url project) where
  unless_blocked-told :
      (caches : Caches) (v : Text) (r : OsvCache × Result PluginError (List Text))
      {blocked : List Text}
      → r.1 ≡ ok blocked
      → (unless_blocked pkg caches v r).1 ≡ ok (not (contains v blocked))
  unfolding unless_blocked
  unless_blocked-told caches v (osv, ok b) h =
      ap (λ bs. returned (not (contains v bs))) (ok-injective h)
  unless_blocked-told caches v (osv, err e) h = absurd (cc h)

  not_malicious-told :
      (caches : Caches) (v : Text)
      → IsCoherent bad caches.osv stage.osv_url project
      → (not_malicious pkg stage project w (filter_of pkg stage project bad) caches v).1
        ≡ ok (is_blank stage.osv_url || is_blank v || not (bad v))
  unfolding not_malicious
  not_malicious-told caches v coherent = elim (Bool-cases (is_blank stage.osv_url)) [
    | inl url ↦ rw (not_malicious, url) refl
    | inr url ↦
        let (blocked, answer, tells) =
          query_osv_blocked_versions-exact bad w caches.osv stage.osv_url project (v ∷ []) url
            honest coherent in
        rw (not_malicious, url)
          (unless_blocked-told caches v
              (query_osv_blocked_versions w caches.osv stage.osv_url project (v ∷ [])) answer
            ∙ ap returned (unfold contains in ground (arith, tells v, eq_text.beq_iff v v)))
  ]

  abbrev pub reaches : Caches → LinkInfo → Option Text → Caches × Result PluginError Bool
  reaches = version_allowed pkg stage project w (filter_of pkg stage project bad)

  abbrev old : Caches → LinkInfo → Bool
  old caches link =
      file_old_enough pkg stage w.now (seen pkg stage project bad w honest caches)
        (filename_from_link pkg link)

  aged-told :
      (caches : Caches) (link : LinkInfo) (v : Text)
      → IsCoherent bad caches.osv stage.osv_url project
      → (aged_allowed pkg stage project w
          (filter_of pkg stage project bad)
          caches
          link
          v
          (project_metadata pkg w caches.metadata project stage.pypi_json_url)).1
        ≡ ok (old caches link && (is_blank stage.osv_url || is_blank v || not (bad v)))
  unfolding aged_allowed
  aged-told caches link v coherent = elim (Bool-cases (old caches link)) [
    | inl e ↦
        ap result (if-true _ _ e)
        ∙ not_malicious-told (with_metadata pkg stage project bad w honest caches) v coherent
        ∙ rw e refl
    | inr e ↦ ap result (if-false _ _ e) ∙ rw e refl
  ]

  reaches-told :
      (caches : Caches) (link : LinkInfo) (v : Text)
      → IsCoherent bad caches.osv stage.osv_url project
      → (reaches caches link (some v)).1
        ≡ ok (
            is_within pkg stage project bad v
            && (not (is_positive stage.min_upstream_age) || old caches link)
            && (is_blank stage.osv_url || is_blank v || not (bad v)))
  unfolding version_allowed
  reaches-told caches link v coherent =
      let m = matches-is_within pkg stage project bad v in
      elim (Bool-cases (is_within pkg stage project bad v)) [
        | inr e ↦ ap result (if-true _ _ (ap not (m ∙ e))) ∙ rw e refl
        | inl e ↦ elim (Bool-cases (is_positive stage.min_upstream_age)) [
          | inl age ↦
              ap result (if-false _ _ (ap not (m ∙ e)) ∙ if-true _ _ age)
              ∙ aged-told caches link v coherent
              ∙ rw (e, age) refl
          | inr age ↦
              ap result (if-false _ _ (ap not (m ∙ e)) ∙ if-false _ _ age)
              ∙ not_malicious-told caches v coherent
              ∙ rw (e, age) refl
        ]
      ]

  pub version_allowed-is_served :
      (caches : Caches) (link : LinkInfo)
      → IsCoherent bad caches.osv stage.osv_url project
      → (reaches caches link (link_version pkg project link)).1
        ≡ ok (
            is_served pkg stage project bad w.now (seen pkg stage project bad w honest caches) link)
  unfolding is_served
  version_allowed-is_served caches link coherent =
      elim (Option-cases (link_version pkg project link)) [
        | inl e ↦ rw (e, is_served) (unfold version_allowed in refl)
        | inr (v, e) ↦ rw (e, is_served) (reaches-told caches link v coherent)
      ]

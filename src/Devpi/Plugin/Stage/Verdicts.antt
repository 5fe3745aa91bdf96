-- ===== src/Devpi/Plugin/Stage/Verdicts.antt =====
-- What the filters of `ConstrainedStage` in devpi/artea_devpi_policy/src/artea_devpi_policy/main.py
-- decide: the listing of a project and the download of a file agree.
use artea.Base.{
  ℕ, ◌≡◌, refl, ◌∙◌, ap, Bool, true, false, not, ◌&&◌, ◌||◌, Option, none, some, List, [], ◌∷◌, map,
  Text, eq_text, if◌then◌else◌, is_some, contains, Result, ok, err, ok-injective, arith, Bool-cases,
  Option-cases, inl, inr,
}
use artea.Base.Dict.{get}
use artea.Devpi.Plugin.{Packaging, PluginError}
use artea.Devpi.Plugin.Duration.{is_positive}
use artea.Devpi.Plugin.OsvCache.{OsvCache}
use artea.Devpi.Plugin.Query.{World, is_blank, query_osv_blocked_versions}
use artea.Devpi.Plugin.Query.Honest.{IsHonest, IsCoherent, query_osv_blocked_versions-exact}
use artea.Devpi.Plugin.Metadata.{ProjectMetadata, project_metadata}
use artea.Devpi.Plugin.Stage.{
  LinkInfo, Caches, Stage, Opinion, opinion_of, includes_legacy, version_matches_filter,
  constraint_decision, has_file_policy, file_old_enough, filename_from_link, link_version,
}
use artea.Devpi.Plugin.Stage.Filter.{Pending, asked, outcome, pend, with_blocked, ask_osv}

pub if-true {ℓ} : {A : Type ℓ} {b : Bool} (x y : A) → b ≡ true → (if b then x else y) ≡ x
if-true x y e = rw e refl

pub if-false {ℓ} : {A : Type ℓ} {b : Bool} (x y : A) → b ≡ false → (if b then x else y) ≡ y
if-false x y e = rw e refl

abbrev pub result {ℓ} : {A : Type ℓ} → Caches × Result PluginError A → Result PluginError A
result r = r.1

abbrev pub returned {ℓ} : {A : Type ℓ} → A → Result PluginError A
returned a = ok a

module _ (pkg : Packaging) (stage : Stage pkg) (project : Text) (bad : Text → Bool) where
  -- Whether the policy has something to say on a project: it is listed, or everything is constrained,
  -- or files are checked.
  unfoldable pub is_ruled : Bool
  unfolding get
  is_ruled =
      is_some (get project stage.constraints.entries)
      || stage.constraints.constrain_all
      || is_positive stage.min_upstream_age
      || not (is_blank stage.osv_url)

  -- The specifier of the project lets the version through; without one everything does, or nothing.
  unfoldable pub is_within : Text → Bool
  unfolding get
  is_within version = elim (get project stage.constraints.entries) [
    | none ↦ not stage.constraints.constrain_all
    | some specifier ↦
        if pkg.is_legacy version
        then pkg.is_unrestricted specifier
        else pkg.admits specifier version
  ]

  -- A link that is served has a version within the constraints, is old enough, and is not malicious,
  -- as far as the stage asks for age and for OSV.
  unfoldable pub is_served : ℕ → ProjectMetadata → LinkInfo → Bool
  unfolding link_version is_within
  is_served now metadata link = elim (link_version pkg project link) [
    | none ↦ false
    | some version ↦
        is_within version
        && (not (is_positive stage.min_upstream_age)
            || file_old_enough pkg stage now metadata (filename_from_link pkg link))
        && (is_blank stage.osv_url || is_blank version || not (bad version))
  ]

  abbrev pub filter_of : Opinion pkg
  filter_of = opinion_of pkg stage (get project stage.constraints.entries)

  pub decision-is_ruled :
      constraint_decision pkg stage project ≡ (if is_ruled then some filter_of else none)
  unfolding constraint_decision is_ruled has_file_policy
  decision-is_ruled = ground arith

  pub matches-is_within :
      (version : Text)
      → version_matches_filter pkg version filter_of.version_filter stage.constraints.constrain_all
          filter_of.include_legacy
        ≡ is_within version
  unfolding version_matches_filter is_within includes_legacy
  matches-is_within version = elim (Option-cases (get project stage.constraints.entries)) [
    | inl e ↦ rw (e, version_matches_filter, is_within) refl
    | inr (s, e) ↦ rw (e, version_matches_filter, is_within) refl
  ]

  -- An item that passes, and is not malicious
  abbrev pub final : Pending pkg → Bool
  final (none, allowed) = allowed
  final (some version, allowed) =
      allowed && (is_blank stage.osv_url || is_blank version || not (bad version))

  -- The blocked versions are the malicious ones of those that were asked for.
  abbrev Tells : List Text → List (Pending pkg) → Type 0
  Tells blocked pending =
      (v : Text)
      → contains v (asked pkg pending) ≡ true
      → contains v blocked ≡ (not (is_blank v) && bad v)

  outcome-final :
      (blocked : List Text) (pending : List (Pending pkg))
      → is_blank stage.osv_url ≡ false
      → Tells blocked pending
      → map (outcome pkg blocked) pending ≡ map final pending
  unfolding asked outcome contains
  outcome-final blocked [] url tells = refl
  outcome-final blocked ((none, allowed) ∷ rest) url tells =
      cc (outcome-final blocked rest url tells)
  outcome-final blocked ((some v, false) ∷ rest) url tells =
      cc (outcome-final blocked rest url tells)
  outcome-final blocked ((some v, true) ∷ rest) url tells =
      let here : contains v blocked ≡ (not (is_blank v) && bad v) =
        tells v (ground (arith, eq_text.beq_iff v v)) in
      let same : not (contains v blocked) ≡ (is_blank v || not (bad v)) = ground (arith, here) in
      let later = outcome-final blocked rest url (λ w m. tells w (ground (arith, m))) in
      rw (url, same, later) refl

  unasked-final :
      (pending : List (Pending pkg))
      → is_blank stage.osv_url ≡ true
      → map (outcome pkg []) pending ≡ map final pending
  unfolding outcome contains
  unasked-final [] url = refl
  unasked-final ((none, allowed) ∷ rest) url = cc (unasked-final rest url)
  unasked-final ((some v, allowed) ∷ rest) url = rw (url, unasked-final rest url) refl

  module _ (w : World) (honest : IsHonest bad w stage.osv_url project) where
    abbrev pub with_metadata : Caches → Caches
    with_metadata caches = record caches {
      metadata = (project_metadata pkg w caches.metadata project stage.pypi_json_url).0;
    }

    -- The metadata that both see
    abbrev pub seen : Caches → ProjectMetadata
    seen caches = (project_metadata pkg w caches.metadata project stage.pypi_json_url).1

    abbrev pub link_age : ProjectMetadata → LinkInfo → Bool
    link_age metadata link = file_old_enough pkg stage w.now metadata (filename_from_link pkg link)

    abbrev pub link_pend : Option ProjectMetadata → LinkInfo → Pending pkg
    link_pend = pend pkg stage project (link_version pkg project) link_age filter_of

    pub ask_osv-final :
        (caches : Caches) (pending : List (Pending pkg))
        → IsCoherent bad caches.osv stage.osv_url project
        → (ask_osv pkg stage project
            (link_version pkg project)
            link_age
            w
            filter_of
            caches
            pending).1
          ≡ ok (map final pending)
    unfolding ask_osv with_blocked
    ask_osv-final caches pending coherent = elim (Bool-cases (is_blank stage.osv_url)) [
      | inl url ↦ rw (ask_osv, url, unasked-final pending url) refl
      | inr url ↦
          let (blocked, answer, tells) =
            query_osv_blocked_versions-exact bad w caches.osv stage.osv_url project
              (asked pkg pending) url honest coherent in
          rw (ask_osv, url)
            (told caches pending
                (query_osv_blocked_versions w caches.osv stage.osv_url project (asked pkg pending))
                answer
              ∙ ap ok_of (outcome-final blocked pending url (λ v m. rw m at (tells v))))
    ]
      where
        ok_of : List Bool → Result PluginError (List Bool)
        ok_of bs = ok bs

        told :
            (caches : Caches) (pending : List (Pending pkg))
            (r : OsvCache × Result PluginError (List Text)) {blocked : List Text}
            → r.1 ≡ ok blocked
            → (with_blocked pkg caches pending r).1 ≡ ok (map (outcome pkg blocked) pending)
        told caches pending (osv, ok b) h =
            ap (λ bs. ok_of (map (outcome pkg bs) pending)) (ok-injective h)
        told caches pending (osv, err e) h = absurd (cc h)

-- ===== src/Devpi/Plugin/Duration/Accepts.antt =====
-- The durations that policy-sync/policy_sync/policy_model.py accepts, as the devpi plugin reads them.
use artea.Base.{
  ◌≡◌, refl, ◌∙◌, sym, ap, Option, none, some, List, [], ◌∷◌, Text, ok, arith, Option-cases, inl,
  inr,
}
use artea.Base.Dict.{values}
use artea.Base.Strip.{strip}
use artea.Pattern.{Groups, match}
use artea.Value.{str}
use artea.Policy.MinAge.{validate_min_age, check_groups, matched_groups, iso_duration_re}
use artea.Osv.Json.{string}
use artea.Devpi.Lines.Strip.{strip_idem}
use artea.Devpi.Plugin.Duration.{Seconds, no_seconds, parse_iso_duration_seconds, seconds_of}

checked :
    (v : Text) (o : Option (List Text)) {value : Text}
    → check_groups v o ≡ ok value
    → (v ≡ value) × (g : Text) × (gs : List Text) × (o ≡ some (g ∷ gs))
unfolding check_groups
checked v none h = absurd (cc h)
checked v (some []) h = absurd (cc h)
checked v (some (g ∷ gs)) h = (ground (arith, h), g, gs, refl)

matched :
    (v : Text) {g : Text} {gs : List Text}
    → matched_groups v ≡ some (g ∷ gs)
    → (groups : Groups) × (match iso_duration_re v ≡ some groups) × (values groups ≡ g ∷ gs)
unfolding matched_groups
matched v h = elim (Option-cases (match iso_duration_re v)) [
  | inl e ↦ absurd (cc (rw (matched_groups, e) at h))
  | inr (groups, e) ↦ (groups, e, ground (arith, h, e))
]

any_groups :
    (groups : Groups) {g : Text} {gs : List Text}
    → values groups ≡ g ∷ gs
    → (seconds : Seconds) × (seconds_of (some groups) ≡ ok seconds)
unfolding seconds_of
any_groups [] h = absurd (cc h)
any_groups (g ∷ groups) h = (_, refl)

reads :
    (v : Text) {seconds : Seconds}
    → strip v ≡ v
    → seconds_of (match iso_duration_re v) ≡ ok seconds
    → (seconds : Seconds) × (parse_iso_duration_seconds (string v) ≡ ok seconds)
unfolding parse_iso_duration_seconds
reads [] e h = (no_seconds, refl)
reads (c ∷ v) {seconds} e h = (seconds, rw e h)

-- What `_validate_min_age` returns for a text is a duration for the plugin as well.
pub parse_iso_duration_seconds-validate_min_age :
    (raw value : Text)
    → validate_min_age (str raw) ≡ ok value
    → (seconds : Seconds) × (parse_iso_duration_seconds (string value) ≡ ok seconds)
unfolding validate_min_age
parse_iso_duration_seconds-validate_min_age raw value h =
    let (same, g, gs, o) = checked (strip raw) (matched_groups (strip raw)) h in
    let (groups, m, some_of) = matched (strip raw) o in
    let (seconds, e) = any_groups groups some_of in
    let stripped : strip value ≡ value = rw (← same) (strip_idem raw) in
    reads value stripped
      (ap (λ v. seconds_of (match iso_duration_re v)) (sym same) ∙ ap seconds_of m ∙ e)

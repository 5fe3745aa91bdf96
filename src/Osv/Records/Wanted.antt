-- ===== src/Osv/Records/Wanted.antt =====
-- Which versions the records of policy-sync/policy_sync/osv.py may block.
use artea.Base.{
  false, List, [], ◌∷◌, ◌≡◌, refl, ◌∙◌, Text, codes, eq_text, ◌==◌, contains, Bool-cases,
  Option-cases, inl, inr, arith,
}
use artea.Base.Dict.{get, get-put}
use artea.Base.Lists.{keep, contains-keep}
use artea.Osv.Json.{Json, object, array, string, null, number, boolean, at}
use artea.Osv.Records.{mal_id, locally_affected_versions}
use artea.Osv.Records.Verdicts.{IdsByVersion, add_id, apply_vuln, apply_package_vulns}

add_id-other :
    (i v : Text) (vs : List Text) (ids : IdsByVersion)
    → contains v vs ≡ false
    → get v (add_id i vs ids) ≡ get v ids
unfolding add_id contains
add_id-other i v [] ids out = refl
add_id-other i v (w ∷ vs) ids out =
    let differs : (w == v) ≡ false = ground (arith, eq_text.beq_iff w v, eq_text.beq_iff v w) in
    add_id-other i v vs _ (ground arith) ∙ get-put w v _ ids ∙ rw differs refl

apply_vuln-other :
    (eco name v : Text) (wanted : List Text) (j : Json) (ids : IdsByVersion)
    → contains v wanted ≡ false
    → get v (apply_vuln eco name wanted j ids).1 ≡ get v ids
unfolding apply_vuln
apply_vuln-other eco name v wanted (object vuln) ids out =
    elim (Option-cases (mal_id (at (codes "id") vuln))) [
      | inl e ↦ rw (apply_vuln, e) refl
      | inr (i, e) ↦ elim (Option-cases (locally_affected_versions eco name vuln wanted)) [
        | inl f ↦ rw (apply_vuln, e, f) refl
        | inr (vs, f) ↦
            rw (apply_vuln, e, f)
              (add_id-other i v (keep (λ w. contains w vs) wanted) ids
                (ground (arith, contains-keep (λ w. contains w vs) v wanted, out)))
      ]
    ]
apply_vuln-other eco name v wanted (array b) ids out = refl
apply_vuln-other eco name v wanted (string b) ids out = refl
apply_vuln-other eco name v wanted (number b) ids out = refl
apply_vuln-other eco name v wanted (boolean b) ids out = refl
apply_vuln-other eco name v wanted null ids out = refl

-- The records of a package change the ids of no version but the wanted ones, whether or not every
-- record is decided.
pub apply_package_vulns-other :
    (eco name v : Text) (wanted : List Text) (js : List Json) (ids : IdsByVersion)
    → contains v wanted ≡ false
    → get v (apply_package_vulns eco name wanted js ids).1 ≡ get v ids
unfolding apply_package_vulns
apply_package_vulns-other eco name v wanted [] ids out = refl
apply_package_vulns-other eco name v wanted (j ∷ js) ids out =
    elim (Bool-cases (apply_vuln eco name wanted j ids).0) [
      | inl e ↦
          rw (apply_package_vulns, e)
            (apply_package_vulns-other eco name v wanted js (apply_vuln eco name wanted j ids).1 out
              ∙ apply_vuln-other eco name v wanted j ids out)
      | inr e ↦ rw (apply_package_vulns, e) (apply_vuln-other eco name v wanted j ids out)
    ]

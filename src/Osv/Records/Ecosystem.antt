-- ===== src/Osv/Records/Ecosystem.antt =====
-- Of which ecosystems policy-sync/policy_sync/osv.py decides a record locally.
use artea.Base.{
  true, false, Option, none, some, arith, List, [], ◌∷◌, ◌≡◌, ◌⊎◌, Text, eq_text, Bool-cases,
  Option-cases, inl, inr, codes,
}
use artea.Policy.{npm}
use artea.Osv.Json.{Json, at, Members, string, array, object, null, boolean, number}
use artea.Osv.Records.{
  Found, scan, scan_affected, affected_matches_package, exact_entry, exact_versions, local_entry,
  add_versions, add_ranges_of, exact_affected_versions, locally_affected_versions, list_of,
}

-- Nothing is decided but for npm.
abbrev NpmOnly : Text → Found → Type 0
NpmOnly osv_ecosystem found = found.0 ≡ true → osv_ecosystem ≡ npm

abbrev KeepsNpm : Text → (Json → Found → Option Found) → Type 0
KeepsNpm osv_ecosystem entry =
    (j : Json) (found more : Found)
    → NpmOnly osv_ecosystem found
    → entry j found ≡ some more
    → NpmOnly osv_ecosystem more

add_versions-NpmOnly : (eco : Text) → KeepsNpm eco (add_versions eco)
unfolding add_versions
add_versions-NpmOnly eco (array vs) found more n h d = ground (arith, eq_text.beq_iff eco npm)
add_versions-NpmOnly eco null found more n h d = ground (arith, eq_text.beq_iff eco npm)
add_versions-NpmOnly eco (boolean b) found more n h d = ground (arith, eq_text.beq_iff eco npm)
add_versions-NpmOnly eco (number b) found more n h d = ground (arith, eq_text.beq_iff eco npm)
add_versions-NpmOnly eco (string b) found more n h d = ground (arith, eq_text.beq_iff eco npm)
add_versions-NpmOnly eco (object b) found more n h d = ground (arith, eq_text.beq_iff eco npm)

add_ranges_of-NpmOnly :
    (eco : Text) (wanted : List Text) (ranges : Json)
    → KeepsNpm eco (λ j found. add_ranges_of eco ranges wanted found)
unfolding add_ranges_of
add_ranges_of-NpmOnly eco wanted ranges j found more n h d = ground (arith, eq_text.beq_iff eco npm)

local_entry-NpmOnly :
    (eco name : Text) (wanted : List Text) → KeepsNpm eco (local_entry eco name wanted)
unfolding local_entry
local_entry-NpmOnly eco name wanted (object item) found more n h d =
    let versions = at (codes "versions") item in
    let ranges = at (codes "ranges") item in
    elim (Bool-cases (affected_matches_package item eco name)) [
      | inl e ↦ elim (Option-cases (add_versions eco versions found)) [
        | inl v ↦ ground (arith, e, v)
        | inr (some_more, v) ↦
            add_ranges_of-NpmOnly eco wanted ranges ranges some_more more
              (add_versions-NpmOnly eco versions found some_more n v) (rw (e, v) at h) d
      ]
      | inr e ↦ n (ground (arith, e))
    ]
local_entry-NpmOnly eco name wanted (array vs) found more n h d = ground arith
local_entry-NpmOnly eco name wanted null found more n h d = ground arith
local_entry-NpmOnly eco name wanted (boolean b) found more n h d = ground arith
local_entry-NpmOnly eco name wanted (number b) found more n h d = ground arith
local_entry-NpmOnly eco name wanted (string b) found more n h d = ground arith

exact_versions-NpmOnly :
    (eco : Text) (ranges : Json) → KeepsNpm eco (λ j found. exact_versions eco j ranges found)
unfolding exact_versions
exact_versions-NpmOnly eco ranges (array vs) found more n h d =
    add_versions-NpmOnly eco (array vs) found more n h d
exact_versions-NpmOnly eco ranges null found more n h d = ground arith
exact_versions-NpmOnly eco ranges (object b) found more n h d = ground arith
exact_versions-NpmOnly eco ranges (boolean b) found more n h d = ground arith
exact_versions-NpmOnly eco ranges (number b) found more n h d = ground arith
exact_versions-NpmOnly eco ranges (string b) found more n h d = ground arith

scan-NpmOnly :
    (eco : Text) (entry : Json → Found → Option Found)
    → KeepsNpm eco entry
    → (js : List Json) (found : Found) (vs : List Text) → NpmOnly eco found
    → scan entry js found ≡ some vs
    → eco ≡ npm
unfolding scan
scan-NpmOnly eco entry keeps [] found vs n h = n (ground arith)
scan-NpmOnly eco entry keeps (j ∷ js) found vs n h = elim (Option-cases (entry j found)) [
  | inl e ↦ ground (arith, e)
  | inr (more, e) ↦
      scan-NpmOnly eco entry keeps js more vs (keeps j found more n e) (rw (scan, e) at h)
]

exact_entry-NpmOnly : (eco name : Text) → KeepsNpm eco (exact_entry eco name)
unfolding exact_entry
exact_entry-NpmOnly eco name (object item) found more n h d =
    elim (Bool-cases (affected_matches_package item eco name)) [
      | inl e ↦
          exact_versions-NpmOnly eco (at (codes "ranges") item) (at (codes "versions") item) found
            more n (rw e at h) d
      | inr e ↦ n (ground (arith, e))
    ]
exact_entry-NpmOnly eco name (array vs) found more n h d = ground arith
exact_entry-NpmOnly eco name null found more n h d = ground arith
exact_entry-NpmOnly eco name (boolean b) found more n h d = ground arith
exact_entry-NpmOnly eco name (number b) found more n h d = ground arith
exact_entry-NpmOnly eco name (string b) found more n h d = ground arith

start-NpmOnly : (eco : Text) → NpmOnly eco (false, [])
start-NpmOnly eco d = ground arith

scan_affected-npm :
    (eco : Text) (entry : Json → Found → Option Found)
    → KeepsNpm eco entry
    → (vuln : Members) (vs : List Text) → scan_affected entry vuln ≡ some vs
    → eco ≡ npm
unfolding scan_affected
scan_affected-npm eco entry keeps vuln vs h =
    elim (Option-cases (list_of (at (codes "affected") vuln))) [
      | inl e ↦ ground (arith, e)
      | inr (js, e) ↦
          scan-NpmOnly eco entry keeps js (false, []) vs (start-NpmOnly eco)
            (rw (scan_affected, e) at h)
    ]

-- Either the ecosystem is npm, or `_locally_affected_versions` and `_exact_affected_versions` decide
-- no record: the query by version decides instead.
pub locally_affected_versions-npm :
    (eco name : Text) (vuln : Members) (wanted : List Text)
    → (eco ≡ npm)
      ⊎ ((locally_affected_versions eco name vuln wanted ≡ none)
          × (exact_affected_versions eco name vuln ≡ none))
unfolding locally_affected_versions exact_affected_versions
locally_affected_versions-npm eco name vuln wanted =
    elim (Option-cases (locally_affected_versions eco name vuln wanted)) [
      | inr (vs, e) ↦ inl (scan_affected-npm eco _ (local_entry-NpmOnly eco name wanted) vuln vs e)
      | inl undecided ↦ elim (Option-cases (exact_affected_versions eco name vuln)) [
        | inr (vs, e) ↦ inl (scan_affected-npm eco _ (exact_entry-NpmOnly eco name) vuln vs e)
        | inl unknown ↦ inr (undecided, unknown)
      ]
    ]

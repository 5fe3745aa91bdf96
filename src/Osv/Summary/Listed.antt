-- ===== src/Osv/Summary/Listed.antt =====
-- The entries that the loops of `summarize_package` in policy-sync/policy_sync/osv.py collect.
use mathlib.Core.Option.{get_or}
use artea.Base.{
  ℕ, zero, suc, ◌≡◌, refl, ap, true, false, Option, none, some, List, [], ◌∷◌, Text, codes, eq_text,
  Result, ok, err, contains, arith, inl, inr, ok-injective, Bool-cases, Result-cases, >>=-eq-ok,
  Option-cases,
}
use artea.Base.Dict.{get, add}
use artea.Base.Entries.{get-All, put-All, add-All}
use artea.Base.Lists.{All}
use artea.Base.Strip.{starts_with}
use artea.Policy.{Rule}
use artea.Adapters.{Adapter}
use artea.Osv.{OsvError}
use artea.Osv.Json.{Json, null, boolean, number, array, string, object, Members, at}
use artea.Osv.Records.{mal_id, exact_affected_versions}
use artea.Osv.Records.Verdicts.{IdsByVersion, is_blocked}
use artea.Osv.Records.Pages.{page_vulns}
use artea.Osv.Decide.{override_applies}
use artea.Osv.Summary.{
  Failure, refused, unanswered, raises, add_to, add_exact, add_versions_of, add_record, add_records,
  get_page, summary_page, summary_pages,
}

abbrev pub IsMal : Text → Type 0
IsMal id = starts_with id (codes "MAL-") ≡ true

mal_id-IsMal : (j : Json) (id : Text) → mal_id j ≡ some id → IsMal id
unfolding mal_id
mal_id-IsMal null id h = cc
mal_id-IsMal (boolean b) id h = cc
mal_id-IsMal (number n) id h = cc
mal_id-IsMal (array js) id h = cc
mal_id-IsMal (object ms) id h = cc
mal_id-IsMal (string s) id h = elim (Bool-cases (starts_with s (codes "MAL-"))) [
  | inl t ↦ ground (arith, t, h)
  | inr t ↦ ground (arith, t, h)
]

add-is_blocked : (x : Text) (s : List Text) → is_blocked (add x s) ≡ true
unfolding add contains is_blocked
add-is_blocked x [] = refl
add-is_blocked x (y ∷ s) = ground arith

pub raises-eq-ok :
    {E A : Type 0} (failure : E → Failure) (r : Result E A) {a : A}
    → raises failure r ≡ ok a
    → r ≡ ok a
unfolding raises
raises-eq-ok failure (ok b) h = ground (arith, h)
raises-eq-ok failure (err e) h = cc

module _ (adapter : Adapter) (name : Text) (rules : List Rule) where
  -- An entry of a version that no allow covers, with ids of malicious packages
  abbrev pub IsListed : Text × List Text → Type 0
  IsListed (version, ids) =
      (override_applies adapter name version adapter.ecosystem rules ≡ ok false)
      × (is_blocked ids ≡ true)
      × All IsMal ids

  add_to-IsListed :
      (id version : Text) (ids : IdsByVersion)
      → IsMal id
      → override_applies adapter name version adapter.ecosystem rules ≡ ok false
      → All IsListed ids
      → All IsListed (add_to id version ids)
  unfolding add_to
  add_to-IsListed id version ids mal free a =
      put-All IsListed version _ ids
        (
          free,
          add-is_blocked id (get_or (get version ids) []),
          add-All IsMal id (get_or (get version ids) []) mal
              (elim (Option-cases (get version ids)) [
                | inl n ↦ rw n tt
                | inr (old, n) ↦ rw n (get-All IsListed version old ids n a).2
              ]),
        )
        a

  add_exact-IsListed :
      (id : Text) (versions : List Text) (ids : IdsByVersion) {out : IdsByVersion}
      → IsMal id
      → add_exact adapter name rules id versions ids ≡ ok out
      → All IsListed ids
      → All IsListed out
  unfolding add_exact
  add_exact-IsListed id [] ids mal returned a = rw (← ok-injective returned) a
  add_exact-IsListed id (version ∷ versions) ids mal returned a =
      let (overridden, asked, rest) =
        >>=-eq-ok (override_applies adapter name version adapter.ecosystem rules) _ returned in
      elim (Bool-cases overridden) [
        | inl t ↦ add_exact-IsListed id versions ids mal (rw t at rest) a
        | inr t ↦
            add_exact-IsListed id versions (add_to id version ids) mal (rw t at rest)
              (add_to-IsListed id version ids mal (rw t at asked) a)
      ]

  abbrev pub AllListed : Option IdsByVersion → Type 0
  AllListed none = Unit
  AllListed (some ids) = All IsListed ids

  add_versions_of-AllListed :
      (id : Text) (versions : Option (List Text)) (ids : IdsByVersion) {out : Option IdsByVersion}
      → IsMal id
      → add_versions_of adapter name rules id versions ids ≡ ok out
      → All IsListed ids
      → AllListed out
  unfolding add_versions_of
  add_versions_of-AllListed id none ids mal returned a = rw (← ok-injective returned) tt
  add_versions_of-AllListed id (some versions) ids mal returned a =
      let (more, added, rest) =
        >>=-eq-ok (add_exact adapter name rules id versions ids) _ returned in
      rw (← ok-injective rest) (add_exact-IsListed id versions ids mal added a)

  add_record-AllListed :
      (j : Json) (ids : IdsByVersion) {out : Option IdsByVersion}
      → add_record adapter name rules j ids ≡ ok out
      → All IsListed ids
      → AllListed out
  unfolding add_record add_versions_of
  add_record-AllListed (object vuln) ids returned a =
      elim (Option-cases (mal_id (at (codes "id") vuln))) [
        | inl n ↦ rw (← ok-injective (rw (add_record, n) at returned)) a
        | inr (id, n) ↦
            add_versions_of-AllListed id (exact_affected_versions adapter.osv_ecosystem name vuln)
              ids (mal_id-IsMal (at (codes "id") vuln) id n) (rw (add_record, n) at returned) a
      ]
  add_record-AllListed j ids returned a = rw (← ok-injective returned) a

  add_records-AllListed :
      (js : List Json) (ids : IdsByVersion) {out : Option IdsByVersion}
      → add_records adapter name rules js ids ≡ ok out
      → All IsListed ids
      → AllListed out
  unfolding add_records
  add_records-AllListed [] ids returned a = rw (← ok-injective returned) a
  add_records-AllListed (j ∷ js) ids returned a =
      elim (Result-cases (add_record adapter name rules j ids)) [
        | inl (none, r) ↦ rw (← ok-injective (rw (add_records, r) at returned)) tt
        | inl (some more, r) ↦
            add_records-AllListed js more (rw (add_records, r) at returned)
              (add_record-AllListed j ids r a)
        | inr (e, r) ↦ ground (arith, r, returned)
      ]

  module _ (first : Result OsvError Members) (post : ℕ → Members → Result OsvError Members) where
    summary_page-AllListed :
        (left : ℕ) (token : Text) (ids : IdsByVersion) {next : Text} {out : Option IdsByVersion}
        → summary_page adapter name rules first post left token ids ≡ ok (next, out)
        → All IsListed ids
        → AllListed out
    unfolding summary_page
    summary_page-AllListed left token ids returned a =
        let (page, got, then_vulns) =
          >>=-eq-ok (raises unanswered (get_page adapter name rules first post left token)) _
            returned in
        let (vulns, listed, then_more) =
          >>=-eq-ok (raises unanswered (page_vulns page)) _ then_vulns in
        let (more, added, rest) =
          >>=-eq-ok (raises refused (add_records adapter name rules vulns ids)) _ then_more in
        let same : more ≡ _ = ap (λ r. r.1) (ok-injective rest) in
        rw (← same) (add_records-AllListed vulns ids (raises-eq-ok refused _ added) a)

    pub summary_pages-AllListed :
        (left : ℕ) (token : Text) (ids : IdsByVersion) {out : Option IdsByVersion}
        → summary_pages adapter name rules first post left token ids ≡ ok out
        → All IsListed ids
        → AllListed out
    unfolding summary_pages
    summary_pages-AllListed zero token ids returned a = cc
    summary_pages-AllListed (suc left) token ids returned a =
        elim (Result-cases (summary_page adapter name rules first post left token ids)) [
          | inl ((next, none), r) ↦ rw (← ok-injective (rw (summary_pages, r) at returned)) tt
          | inl (([], some more), r) ↦
              rw (← ok-injective (rw (summary_pages, r) at returned))
                (summary_page-AllListed left token ids r a)
          | inl ((c ∷ next, some more), r) ↦
              summary_pages-AllListed left (c ∷ next) more (rw (summary_pages, r) at returned)
                (summary_page-AllListed left token ids r a)
          | inr (e, r) ↦ ground (arith, r, returned)
        ]

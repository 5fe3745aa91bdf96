-- ===== src/Tests/Verdicts.antt =====
-- The theorems on OSV: the cache, the decisions and the versions.
use artea.Base.{
  ℕ, ◌≡◌, ◌≢◌, ◌≤◌, ◌↔◌, refl, true, false, none, some, ◌⊎◌, List, [], ◌∷◌, map, Text, codes,
  eq_text, eq_pair, text_eq, ◌==◌, ok, err, if◌then◌else◌, contains, arith,
}
use artea.Base.Dict.{IsDict, get, put, remove}
use artea.Base.Lists.{length, keep, any}
use artea.Base.Sort.{sort_by, insert}
use artea.Base.Strip
use artea.Base.Int
use artea.Value.{int}
use artea.Policy.{Policy, allow, npm}
use artea.Adapters.{Adapter}
use artea.Adapters.Npm
use artea.Osv.{Verdict, vulns_shape, degraded, failed}
use artea.Osv.Json.{Json, string, object, member, end, array, cons, nil, Members}
use artea.Osv.Cache.{
  VerdictCache, Key, set, stored, sweep, trim, evict, evict_leb, remove_all, is_expired, lookup,
  unless_expired,
}
use artea.Osv.Cache.Bounds.{set-bounded, set-keeps_malicious}
use artea.Osv.Cache.Lookup.{lookup-set, lookup-set_self}
use artea.Osv.Cache.Persist.{persist, load}
use artea.Osv.Cache.Persist.Load.{IsKeyed}
use artea.Osv.Cache.Persist.Roundtrip.{lookup-load-persist}
use artea.Osv.Decide.{
  Fetched, Outcome, decide, decide_parsed, decide_with, adapter_for, unique_versions, unique_from,
  read_version, allowed_versions, override_applies, override_rule, override_named, covers,
  cached_of, misses_of, fetch, store_fetched, status_of, reason_of, fetched_of, verdict_for, clean,
}
use artea.Osv.Decide.Unique.{first_occurrences}
use artea.Osv.Decide.Verdicts.{expected, answer_of, decide-expected}
use artea.Osv.Decide.Invariant.{IsBounded, decide-IsBounded}
use artea.Osv.Records.{locally_affected_versions, exact_affected_versions}
use artea.Osv.Records.Verdicts.{IdsByVersion, apply_package_vulns}
use artea.Osv.Records.Wanted.{apply_package_vulns-other}
use artea.Osv.Records.Ecosystem.{locally_affected_versions-npm}
use artea.Osv.Semver.{
  Semver, less, equal, compare_semver, read_event, event_of, kind_of, parse_semver, semver_of,
  with_prerelease, affected_from,
}
use artea.Osv.Semver.Order.{flipped, compare_semver-total, compare_semver_trans}
use artea.Osv.Semver.Ranges.{events_of, within, affected_from-within}

abbrev key : Text → Key
key version = (npm, (codes "left-pad", version))

abbrev bad : Verdict
bad = record { version = codes "1.0.0"; blocked = true; ids = codes "MAL-1" ∷ [] }

abbrev good : Verdict
good = record { version = codes "2.0.0"; blocked = false; ids = [] }

-- A cache with room for two verdicts, one malicious and one clean.
abbrev cache : VerdictCache
cache = record {
  positive_ttl = 3600;
  negative_ttl = 900;
  max_entries = 2;
  cache_file_path = codes "/cache.json";
  persist_min_interval = 30;
  last_persist = 0;
  entries =
      (key (codes "1.0.0"), record { stored_at = 100; verdict = bad })
      ∷ (key (codes "2.0.0"), record { stored_at = 110; verdict = good })
      ∷ [];
}

cache-IsDict : IsDict cache.entries
unfolding contains text_eq
cache-IsDict = (refl, (refl, tt))

abbrev newer : Verdict
newer = record { version = codes "3.0.0"; blocked = true; ids = codes "MAL-2" ∷ [] }

set-bounded_example :
    (length (set cache 120 (key (codes "3.0.0")) newer).entries ≤ 2)
    × IsDict (set cache 120 (key (codes "3.0.0")) newer).entries
set-bounded_example = set-bounded cache 120 (key (codes "3.0.0")) newer cache-IsDict

-- A cache with room for one verdict only drops the older malicious one.
abbrev small : VerdictCache
small = record cache { max_entries = 1 }

set-keeps_malicious_example : newer.blocked ≡ true
set-keeps_malicious_example =
    set-keeps_malicious small 120 (key (codes "3.0.0")) newer (key (codes "1.0.0"))
      {entry = record { stored_at = 100; verdict = bad }} cache-IsDict (unfold get text_eq in refl)
      refl (omega arith)
      (unfold set stored trim sweep evict evict_leb sort_by insert put get remove_all remove keep
          is_expired text_eq in
        refl)
      (key (codes "3.0.0")) {kept = record { stored_at = 120; verdict = newer }}
      (unfold set stored trim sweep evict evict_leb sort_by insert put get remove_all remove keep
          is_expired text_eq in
        refl)

abbrev roomy : VerdictCache
roomy = record cache { max_entries = 3 }

lookup-set_example :
    (if key (codes "3.0.0") == key (codes "1.0.0")
      then some newer
      else lookup roomy 130 (key (codes "1.0.0")))
    ≡ some bad
lookup-set_example =
    lookup-set roomy 120 130 (key (codes "3.0.0")) (key (codes "1.0.0")) newer cache-IsDict
      (unfold lookup unless_expired set stored trim put get is_expired text_eq in refl)

lookup-set_self_example :
    lookup (set roomy 120 (key (codes "3.0.0")) newer) 3000 (key (codes "3.0.0")) ≡ some newer
lookup-set_self_example =
    lookup-set_self roomy 120 3000 (key (codes "3.0.0")) newer (omega arith) (omega arith)

nonempty : (c : ℕ) (s : Text) → (c ∷ s) ≢ []
nonempty c s e = cc e

cache-IsKeyed :
    (IsKeyed (key (codes "1.0.0"), record { stored_at = 100; verdict = bad }))
    × ((IsKeyed (key (codes "2.0.0"), record { stored_at = 110; verdict = good })) × Unit {0})
cache-IsKeyed = (
  (nonempty _ _, (nonempty _ _, (nonempty _ _, refl))),
  ((nonempty _ _, (nonempty _ _, (nonempty _ _, refl))), tt),
)

lookup-load-persist_example :
    (file : Json) × ((persist cache 200).1 ≡ some file)
    × (lookup (load (record cache { entries = [] }) 300 file) 300 (key (codes "1.0.0"))
        ≡ lookup cache 300 (key (codes "1.0.0")))
lookup-load-persist_example =
    lookup-load-persist cache 200 300 (key (codes "1.0.0")) cache-IsDict cache-IsKeyed (omega arith)
      (unfold text_eq in refl) (omega arith) (omega arith)

-- A policy with the check enabled that allows one version.
abbrev pub policy : Policy
policy = record {
  schema = int (Int.pos 1);
  defaults = record { action = allow; ecosystems = [] };
  rules =
      record {
        ecosystem = npm;
        name = some (codes "left-pad");
        namespace = none;
        versions = some (codes "3.0.0");
        action = allow;
        reason = none;
        source = codes "manual";
        expires = none;
      }
      ∷ [];
  min_age = codes "P3D";
  osv_malicious_packages = true;
}

-- An OSV that does not answer.
unfoldable down : Unit {0} → Text → Text → List Text → Fetched (Unit {0})
down s ecosystem name versions = (s, err vulns_shape)

abbrev request : List Json
request =
    string (codes "3.0.0")
    ∷ string (codes "1.0.0")
    ∷ string (codes "3.0.0")
    ∷ string (codes "4.0.0")
    ∷ []

abbrev outcome : Outcome (Unit {0})
outcome = record {
  cache = cache;
  source = tt;
  written = none;
  decision = record {
    status = degraded;
    verdicts =
        record { version = codes "3.0.0"; blocked = false; ids = [] }
        ∷ bad
        ∷ record { version = codes "4.0.0"; blocked = false; ids = [] }
        ∷ [];
    reason = some (failed vulns_shape);
  };
}

decides : decide down cache tt 200 200 (some policy) npm (codes "Left-Pad") request ≡ ok outcome
unfolding decide decide_parsed decide_with adapter_for unique_versions unique_from read_version
    allowed_versions override_applies override_rule override_named covers cached_of misses_of fetch
    store_fetched status_of reason_of fetched_of verdict_for clean down lookup unless_expired
    is_expired get keep contains text_eq Npm.normalize_name Npm.is_exact Npm.exact_value
    Npm.exact_allows Strip.is_space
decides = refl

decide-expected_example :
    (adapter : Adapter) × ((n : Text) × ((versions : List Text) × ((allowed : List Text)
          × ((adapter_for npm ≡ ok adapter)
              × ((adapter.normalize_name (codes "Left-Pad") ≡ ok n)
                  × (((texts : List Text) × (request ≡ map string texts)
                        × (versions ≡ first_occurrences texts))
                      × ((allowed_versions adapter n policy.rules versions ≡ ok allowed)
                          × (outcome.decision.verdicts
                              ≡ map
                                  (expected cache 200 adapter n policy.rules
                                    (answer_of down cache tt 200 adapter n versions allowed).1)
                                  versions))))))))
decide-expected_example =
    decide-expected down cache tt 200 200 policy npm (codes "Left-Pad") request decides refl

decide-IsBounded_example : IsBounded outcome.cache
decide-IsBounded_example =
    decide-IsBounded down cache tt 200 200 (some policy) npm (codes "Left-Pad") request decides
      (cache-IsDict, omega arith)

abbrev release : ℕ → Semver
release n = record { major = n; minor = 0; patch = 0; prerelease = none }

compare_semver-total_example :
    (compare_semver (release 2) (release 1) ≡ flipped (compare_semver (release 1) (release 2)))
    × ((compare_semver (release 1) (release 2) ≡ equal) ↔ (release 1 ≡ release 2))
compare_semver-total_example = compare_semver-total (release 1) (release 2)

compare_semver_trans_example : compare_semver (release 1) (release 3) ≡ less
compare_semver_trans_example =
    compare_semver_trans (release 1) (release 2) (release 3) (unfold compare_semver in refl)
      (unfold compare_semver in refl)

abbrev range_events : List Json
range_events =
    object (member (codes "introduced") (string (codes "1.0.0")) end)
    ∷ object (member (codes "fixed") (string (codes "2.0.0")) end)
    ∷ []

affected_from-within_example :
    affected_from (release 1) range_events false
    ≡ some (any (within (release 1)) ((release 1, release 2) ∷ []))
affected_from-within_example =
    affected_from-within (release 1) range_events ((release 1, release 2) ∷ [])
      (unfold read_event event_of kind_of parse_semver semver_of with_prerelease events_of get
          text_eq in
        refl)
      (unfold compare_semver in refl)

-- A record of a malicious release of a package of pypi
abbrev pypi_record : Members
pypi_record =
    member (codes "affected")
      (array (
        cons
          (object (
            member (codes "package")
              (object (
                member (codes "ecosystem") (string (codes "PyPI"))
                  (member (codes "name") (string (codes "Left_Pad")) end)))
              (member (codes "versions") (array (cons (string (codes "1.0")) nil)) end)))
          nil))
      end

locally_affected_versions-npm_example :
    (codes "PyPI" ≡ npm)
    ⊎ ((locally_affected_versions (codes "PyPI") (codes "left-pad") pypi_record (codes "1.0.0" ∷ [])
          ≡ none)
        × (exact_affected_versions (codes "PyPI") (codes "left-pad") pypi_record ≡ none))
locally_affected_versions-npm_example =
    locally_affected_versions-npm (codes "PyPI") (codes "left-pad") pypi_record (codes "1.0.0" ∷ [])

-- The release that is wanted is malicious, and another one has an id already.
abbrev mal_record : Json
mal_record = object (
    member (codes "id") (string (codes "MAL-2")) (
      member (codes "affected")
        (array (
          cons
            (object (
              member (codes "package")
                (object (
                  member (codes "ecosystem") (string (codes "npm"))
                    (member (codes "name") (string (codes "left-pad")) end)))
                (member (codes "versions") (array (cons (string (codes "1.3.0")) nil)) end)))
            nil))
        end))

abbrev ids_by_version : IdsByVersion
ids_by_version = (codes "2.0.0", codes "MAL-1" ∷ []) ∷ (codes "1.3.0", []) ∷ []

apply_package_vulns-other_example :
    get
      (codes "2.0.0")
      (apply_package_vulns npm
        (codes "left-pad")
        (codes "1.3.0" ∷ [])
        (mal_record ∷ [])
        ids_by_version).1
    ≡ get (codes "2.0.0") ids_by_version
apply_package_vulns-other_example =
    apply_package_vulns-other npm (codes "left-pad") (codes "2.0.0") (codes "1.3.0" ∷ [])
      (mal_record ∷ []) ids_by_version (unfold contains text_eq in refl)

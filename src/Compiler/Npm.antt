-- ===== src/Compiler/Npm.antt =====
-- The npm emission of policy-sync/policy_sync/compiler.py
pub mod Allows
pub mod Decides
pub mod Scope
use mathlib.Core.Option.{get_or}
use artea.Base.{
  ℕ, suc, Bool, true, false, not, ◌&&◌, ◌||◌, Option, none, some, List, [], ◌∷◌, ◌++◌, map, Text,
  codes, eq_text, ◌==◌, text_leb, contains, Result, ok, err, ◌>>=◌, ◌>>◌, raise_if, is_some, nat_eq,
  eq_nat, if◌then◌else◌,
}
use artea.Base.Dict.{Dict, get, put, push, remove, keys, items_at}
use artea.Base.Lists.{keep}
use artea.Base.Sort.{sorted, sort_by}
use artea.Base.Strip.{starts_with, join}
use artea.Policy.{
  PolicyError, Action, deny, allow, allow_in_scope, npm_default_deny, no_carve_out, npm,
}
use artea.Adapters.{Adapter}
use artea.Compiler.{
  Ranges, EcosystemRules, Denies, copy_deny_buckets, reject_range_carving, drop_denies,
}
use artea.Compiler.Quote.{npm_quote}

-- `name[: name.index("/")]`, for a name that has a slash
unfoldable pub before_slash : Text → Text
before_slash [] = []
before_slash (c ∷ s) = if nat_eq c b'/' then [] else c ∷ before_slash s

-- `_covered_by_scope`
unfoldable pub covered_by_scope : Text → List Text → Bool
unfolding starts_with contains before_slash
covered_by_scope name scopes =
    if not (starts_with name (codes "@")) || not (contains b'/' name)
    then false
    else contains (before_slash name) scopes

-- `set(eco.namespace_denies) - eco.namespace_allows`
unfoldable pub scopes_of : EcosystemRules → List Text
unfolding keep contains
scopes_of eco = keep (λ s. not (contains s eco.namespace_allows)) eco.namespace_denies

-- One whole-package allow.
unfoldable pub allow_whole : List Text → Text → Denies → Result PolicyError Denies
allow_whole scopes name d =
    let had_pkg_deny = is_some (get name d.whole) || is_some (get name d.ranges) in
    do
      raise_if (not had_pkg_deny && covered_by_scope name scopes) allow_in_scope
      ok (drop_denies name d)

unfoldable pub allow_wholes : List Text → List Text → Denies → Result PolicyError Denies
allow_wholes scopes [] d = ok d
allow_wholes scopes (name ∷ names) d = do
  d' ← allow_whole scopes name d
  allow_wholes scopes names d'

-- `f"<{v} || >{v}"`
unfoldable pub point_complement : Text → Text
point_complement v = codes "<" ++ (v ++ (codes " || >" ++ v))

module _ (adapter : Adapter) where
  -- One exact version carved out of a whole-package deny.
  unfoldable pub carve : Text → Option Text → Text → Ranges → Result PolicyError Ranges
  carve name reason v ranges = elim (adapter.validate_range (point_complement v)) [
    | ok _ ↦ ok (push name (point_complement v, reason) ranges)
    | err _ ↦ err (no_carve_out name v)
  ]

  unfoldable pub carve_all : Text → Option Text → List Text → Ranges → Result PolicyError Ranges
  carve_all name reason [] ranges = ok ranges
  carve_all name reason (v ∷ vs) ranges = do
    ranges' ← carve name reason v ranges
    carve_all name reason vs ranges'

  unfoldable pub carve_package :
      Text → List Text → Option (Option Text) → Denies → Result PolicyError Denies
  carve_package name versions none d = ok d
  carve_package name versions (some reason) d = do
    ranges ← carve_all name reason (sorted versions) d.ranges
    ok (record { whole = remove name d.whole; ranges = ranges })

  -- The exact-version allows of one package.
  unfoldable pub allow_exact : Text → List Text → Denies → Result PolicyError Denies
  allow_exact name versions d = do
    reject_range_carving name d.ranges npm
    carve_package name versions (get name d.whole) d

  unfoldable pub allow_exacts : Dict Text (List Text) → Denies → Result PolicyError Denies
  allow_exacts [] d = ok d
  allow_exacts ((name, versions) ∷ rest) d = do
    d' ← allow_exact name versions d
    allow_exacts rest d'

  -- `_resolve_npm`, before the sorting: the scopes, and what is left of the denies.
  unfoldable pub resolve_denies : EcosystemRules → Result PolicyError Denies
  resolve_denies eco = do
    d ← allow_wholes (scopes_of eco) eco.whole_allows (copy_deny_buckets eco)
    allow_exacts eco.exact_allows d

-- What `_resolve_npm` returns.
pub record Resolved : Type 0 where
  pub scopes : List Text
  pub packages : List Text
  pub ranges : Ranges

-- `_resolve_npm`
unfoldable pub resolve_npm : EcosystemRules → Adapter → Result PolicyError Resolved
resolve_npm eco adapter = do
  d ← resolve_denies adapter eco
  ok (record {
    scopes = sorted (scopes_of eco);
    packages = sorted (keys d.whole);
    ranges = d.ranges;
  })

-- The lines of the artifact.
scope_line : Text → Text
scope_line scope = codes "    - " ++ npm_quote scope

reason_lines : Option Text → List Text
reason_lines none = []
reason_lines (some []) = []
reason_lines (some (c ∷ s)) = (codes "      reason: " ++ npm_quote (c ∷ s)) ∷ []

range_lines : Text → Text × Option Text → List Text
unfolding reason_lines
range_lines name (range, reason) =
    (codes "    - name: " ++ npm_quote name)
    ∷ (codes "      versions: " ++ npm_quote range)
    ∷ reason_lines reason

range_leb : Text × Option Text → Text × Option Text → Bool
range_leb (a, x) (b, y) = text_leb a b

module _ (adapter : Adapter) where
  -- The ranges of one package, each held to the adapter's grammar once more.
  package_lines : Text → List (Text × Option Text) → Result PolicyError (List Text)
  unfolding range_lines
  package_lines name [] = ok []
  package_lines name ((range, reason) ∷ rest) = do
    adapter.validate_range range
    lines ← package_lines name rest
    ok (range_lines name (range, reason) ++ lines)

  packages_lines : Ranges → List Text → Result PolicyError (List Text)
  unfolding package_lines sort_by range_leb
  packages_lines ranges [] = ok []
  packages_lines ranges (name ∷ names) = do
    first ← package_lines name (sort_by range_leb (items_at name ranges))
    rest ← packages_lines ranges names
    ok (first ++ rest)

nonempty {ℓ} : {A : Type ℓ} → List A → Bool
nonempty [] = false
nonempty (x ∷ xs) = true

-- A heading and its entries, if the test passes.
section : Bool → Text → List Text → List Text
section true heading entries = heading ∷ entries
section false heading entries = []

unfoldable pub emit_lines : Adapter → Text → Resolved → Result PolicyError (List Text)
unfolding packages_lines section scope_line sort_by nonempty
emit_lines adapter min_age r = do
  ranged ← packages_lines adapter r.ranges (sorted (keys r.ranges))
  let has_packages = nonempty r.packages || nonempty r.ranges
  ok (
      codes "upstream:"
      ∷ (codes "  min_age: " ++ npm_quote min_age)
      ∷ section (nonempty r.scopes || has_packages) (codes "blocked:") (
          section (nonempty r.scopes) (codes "  scopes:") (map scope_line r.scopes)
          ++ section has_packages (codes "  packages:") (map scope_line r.packages ++ ranged)))

-- The lines, each ended by a line feed.
unfoldable pub text_of_lines : List Text → Text
unfolding join
text_of_lines lines = join (10 ∷ []) lines ++ (10 ∷ [])

-- `_emit_npm`
unfoldable pub emit_npm : EcosystemRules → Adapter → Text → Action → Result PolicyError Text
emit_npm eco adapter min_age deny = err npm_default_deny
emit_npm eco adapter min_age allow = do
  r ← resolve_npm eco adapter
  lines ← emit_lines adapter min_age r
  ok (text_of_lines lines)

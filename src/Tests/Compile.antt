-- ===== src/Tests/Compile.antt =====
-- The compiler's theorems, on rules for npm and for PyPI.
use artea.Base.{
  ◌≡◌, ◌≢◌, refl, Bool, true, false, not, Option, none, some, List, [], ◌∷◌, Text, codes, eq_text,
  text_eq, ◌==◌, ok, if◌then◌else◌, contains, text_leb, text_eq_iff, is_some, Bool-cases, inl, inr,
  arith, traverse,
}
use artea.Base.Dict.{get, put, push, remove, add, keys}
use artea.Base.Lists.{all, IsUnique, keep, any}
use artea.Base.Strip
use artea.Base.Strip.{starts_with}
use mathlib.Core.Path.{subst}
use artea.Base.Sort.{sort_by}
use artea.Policy.{Rule, Action, deny, allow, npm, pypi}
use artea.Adapters.{npm_adapter, pypi_adapter}
use artea.Compiler.{
  EcosystemRules, classify, classify_from, classify_rule, classify_target, classify_name,
  classify_range, check_range, add_whole, add_exact, copy_deny_buckets, reject_range_carving,
  drop_denies,
}
use artea.Adapters.Npm
use artea.Compiler.Npm.{
  covered_by_scope, Resolved, resolve_npm, resolve_denies, allow_wholes, allow_exacts, allow_exact,
  carve_package, carve_all, carve, point_complement, scopes_of,
}
use artea.Adapters.Pypi
use artea.Adapters.Bounds
use artea.Compiler.Pypi.{
  Line, emit_pypi_lines, pass_allows, pass_wholes, pass_exacts, pass_exact, pin, emit_pypi_ranges,
  emit_pypi_wholes, emit_pypi_allows, range_line, valid_line, validate_pypi_line, validate_from,
  from_comparator, occurs, is_comparator_char, check_combined, pair_leb,
}
use artea.Base.Int
use artea.Value.{int}
use artea.Adapters.Bounds.Empty
use artea.Adapters.Bounds.Empty.{above, below, crossed_false_alarm}
use artea.Compiler.Quote.{npm_quote, quote_body, quote_char}
use artea.Compiler.Quote.Scalar.{scalar, is_plain, scalar-npm_quote, npm_quote-plain}
use artea.Compiler.Npm.{emit_npm, emit_lines, text_of_lines}
use artea.Compiler.Pypi.{emit_pypi, text_of, star_line}
use artea.Compiler.Pypi.Decides.{project_constraint, emit_pypi_lines-decides}
use artea.Compiler.Pypi.Unique.{emit_pypi_lines-IsUnique, whole_and_range-duplicate}
use artea.Compiler.Compile.{CompiledArtifacts, compile_policy}
use artea.Policy.{Policy, for_ecosystem}
use artea.Compiler.Npm.Decides.{blocks, denied, resolve_npm-decides, two_exact_allows-blocked}

abbrev rule : Text → Text → Option Text → Action → Rule
rule ecosystem name versions action = record {
  ecosystem = ecosystem;
  name = some name;
  namespace = none;
  versions = versions;
  action = action;
  reason = none;
  source = codes "manual";
  expires = none;
}

abbrev left_pad : Text
left_pad = codes "left-pad"

abbrev one_rule : List Rule
one_rule = rule npm left_pad none deny ∷ rule npm left_pad (some (codes "1.2.3")) allow ∷ []

abbrev one_eco : EcosystemRules
one_eco = record {
  namespace_denies = [];
  whole_denies = (left_pad, none) ∷ [];
  range_denies = [];
  whole_allows = [];
  exact_allows = (left_pad, codes "1.2.3" ∷ []) ∷ [];
  namespace_allows = [];
}

one_classified : classify one_rule npm npm_adapter ≡ ok one_eco
unfolding classify classify_from classify_rule classify_target classify_name classify_range
    check_range add_whole add_exact put get add contains text_eq Npm.normalize_name
    Npm.validate_range Npm.is_exact Npm.exact_value
one_classified = refl

-- `semver.satisfies` on the range that is carved out of a deny: all but the version.
abbrev all_but : Text → Text → Bool
all_but range v =
    if range == point_complement (codes "1.2.3")
    then not (codes "1.2.3" == v)
    else if range == point_complement (codes "2.0.0")
    then not (codes "2.0.0" == v)
    else false

abbrev one_resolved : Resolved
one_resolved = record {
  scopes = [];
  packages = [];
  ranges = (left_pad, (point_complement (codes "1.2.3"), none) ∷ []) ∷ [];
}

one_resolves : resolve_npm one_eco npm_adapter ≡ ok one_resolved
unfolding resolve_npm resolve_denies allow_wholes allow_exacts allow_exact carve_package carve_all
    carve scopes_of keep contains copy_deny_buckets reject_range_carving drop_denies get put push
    remove text_eq point_complement sort_by text_leb Npm.validate_range Strip.is_space
one_resolves = refl

all_but-point :
    (v x : Text)
    → contains x (codes "1.2.3" ∷ []) ≡ true
    → all_but (point_complement x) v ≡ not (x == v)
unfolding contains
all_but-point v x m = elim (Bool-cases (codes "1.2.3" == x)) [
  | inl e ↦
      subst (λ (y : Text). all_but (point_complement y) v ≡ not (y == v))
        ((text_eq_iff (codes "1.2.3") x).0 e) (unfold point_complement text_eq in refl)
  | inr e ↦ absurd (cc (rw e at m))
]

unscoped : covered_by_scope left_pad (scopes_of one_eco) ≡ false
unfolding covered_by_scope starts_with
unscoped = refl

resolve_npm-decides_example :
    blocks all_but one_resolved left_pad (codes "1.2.3")
    ≡ denied all_but one_eco left_pad (codes "1.2.3")
resolve_npm-decides_example =
    resolve_npm-decides all_but npm_adapter one_rule one_classified one_resolves left_pad
      (codes "1.2.3") (unfold get text_eq in omega arith)
      (unfold get text_eq in all_but-point (codes "1.2.3")) (λ h. absurd (cc (rw unscoped at h)))

abbrev two_rules : List Rule
two_rules =
    rule npm left_pad none deny
    ∷ rule npm left_pad (some (codes "1.2.3")) allow
    ∷ rule npm left_pad (some (codes "2.0.0")) allow
    ∷ []

abbrev two_eco : EcosystemRules
two_eco = record one_eco { exact_allows = (left_pad, codes "1.2.3" ∷ codes "2.0.0" ∷ []) ∷ [] }

two_classified : classify two_rules npm npm_adapter ≡ ok two_eco
unfolding classify classify_from classify_rule classify_target classify_name classify_range
    check_range add_whole add_exact put get add contains text_eq Npm.normalize_name
    Npm.validate_range Npm.is_exact Npm.exact_value
two_classified = refl

abbrev two_resolved : Resolved
two_resolved = record {
  scopes = [];
  packages = [];
  ranges =
      (
        left_pad,
        (point_complement (codes "1.2.3"), none) ∷ (point_complement (codes "2.0.0"), none) ∷ [],
      )
      ∷ [];
}

two_resolves : resolve_npm two_eco npm_adapter ≡ ok two_resolved
unfolding resolve_npm resolve_denies allow_wholes allow_exacts allow_exact carve_package carve_all
    carve scopes_of keep contains copy_deny_buckets reject_range_carving drop_denies get put push
    remove text_eq point_complement sort_by text_leb Npm.validate_range Strip.is_space
two_resolves = refl

versions_differ : codes "1.2.3" ≢ codes "2.0.0"
unfolding text_eq
versions_differ e =
    let same : text_eq (codes "1.2.3") (codes "2.0.0") ≡ true =
      (text_eq_iff (codes "1.2.3") (codes "2.0.0")).1 e in
    cc same

two_exact_allows-blocked_example : blocks all_but two_resolved left_pad (codes "1.2.3") ≡ true
two_exact_allows-blocked_example =
    two_exact_allows-blocked all_but npm_adapter two_rules two_classified two_resolves left_pad
      (codes "1.2.3") (codes "1.2.3") (codes "2.0.0") {reason = none} versions_differ
      (unfold contains in refl) (unfold get text_eq in refl) (unfold get contains text_eq in refl)
      (unfold get contains text_eq in refl) (unfold point_complement text_eq in refl)
      (unfold point_complement text_eq in refl)

-- PyPI, where allowing is the default: a package with a range, one that is denied, and one that is
-- denied but for a version.
abbrev pub pypi_rules : List Rule
pypi_rules =
    rule pypi (codes "urllib3") (some (codes ">=2")) deny
    ∷ rule pypi (codes "evil") none deny
    ∷ rule pypi (codes "django") none deny
    ∷ rule pypi (codes "django") (some (codes "==4.2")) allow
    ∷ []

abbrev pub pypi_eco : EcosystemRules
pypi_eco = record {
  namespace_denies = [];
  whole_denies = (codes "evil", none) ∷ (codes "django", none) ∷ [];
  range_denies = (codes "urllib3", (codes ">=2", none) ∷ []) ∷ [];
  whole_allows = [];
  exact_allows = (codes "django", codes "4.2" ∷ []) ∷ [];
  namespace_allows = [];
}

pub pypi_classified : classify pypi_rules pypi pypi_adapter ≡ ok pypi_eco
unfolding classify classify_from classify_rule classify_target classify_name classify_range
    check_range add_whole add_exact put get push add contains text_eq Pypi.normalize_name
    Pypi.validate_range Pypi.is_exact Pypi.exact_value
pypi_classified = refl

abbrev pub pypi_lines : List Line
pypi_lines =
    (codes "urllib3", codes "<2")
    ∷ (codes "evil", codes "==0")
    ∷ (codes "django", codes "==4.2")
    ∷ []

pub pypi_emitted : emit_pypi_lines pypi_eco false ≡ ok pypi_lines
unfolding emit_pypi_lines pass_allows pass_wholes pass_exacts pass_exact pin emit_pypi_ranges
    emit_pypi_wholes emit_pypi_allows range_line valid_line validate_pypi_line validate_from
    from_comparator occurs is_comparator_char check_combined traverse any copy_deny_buckets
    reject_range_carving get put remove keep contains text_eq text_leb sort_by pair_leb Strip.join
    Pypi.validate_range Pypi.complement Bounds.complement_set_is_empty starts_with Strip.is_space
pypi_emitted = refl

-- Only urllib3 has a range denied, and it is not denied as a whole.
pub pypi_apart :
    (n : Text)
    → false ≡ false
    → contains n pypi_eco.whole_allows ≡ false
    → is_some (get n pypi_eco.range_denies) ≡ true
    → is_some (get n pypi_eco.whole_denies) ≡ false
unfolding get
pypi_apart n d w m = elim (Bool-cases (codes "urllib3" == n)) [
  | inl e ↦
      subst (λ (x : Text). is_some (get x pypi_eco.whole_denies) ≡ false)
        ((text_eq_iff (codes "urllib3") n).0 e) (unfold text_eq in refl)
  | inr e ↦ absurd (cc (rw e at m))
]

emit_pypi_lines-decides_example :
    get (codes "django") pypi_lines ≡ project_constraint pypi_eco false (codes "django")
emit_pypi_lines-decides_example =
    emit_pypi_lines-decides pypi_adapter pypi_rules false pypi_classified pypi_emitted pypi_apart
      (codes "django")

emit_pypi_lines-IsUnique_example : IsUnique (keys pypi_lines)
emit_pypi_lines-IsUnique_example =
    emit_pypi_lines-IsUnique pypi_adapter pypi_rules false pypi_classified pypi_emitted pypi_apart

-- A package that is denied as a whole and by a range.
abbrev pub both_rules : List Rule
both_rules =
    rule pypi (codes "evil") none deny ∷ rule pypi (codes "evil") (some (codes ">=2")) deny ∷ []

abbrev pub both_eco : EcosystemRules
both_eco = record {
  namespace_denies = [];
  whole_denies = (codes "evil", none) ∷ [];
  range_denies = (codes "evil", (codes ">=2", none) ∷ []) ∷ [];
  whole_allows = [];
  exact_allows = [];
  namespace_allows = [];
}

pub both_classified : classify both_rules pypi pypi_adapter ≡ ok both_eco
unfolding classify classify_from classify_rule classify_target classify_name classify_range
    check_range add_whole add_exact put get push add contains text_eq Pypi.normalize_name
    Pypi.validate_range Pypi.is_exact Pypi.exact_value
both_classified = refl

abbrev pub both_lines : List Line
both_lines = (codes "evil", codes "<2") ∷ (codes "evil", codes "==0") ∷ []

pub both_emitted : emit_pypi_lines both_eco false ≡ ok both_lines
unfolding emit_pypi_lines pass_allows pass_wholes pass_exacts pass_exact pin emit_pypi_ranges
    emit_pypi_wholes emit_pypi_allows range_line valid_line validate_pypi_line validate_from
    from_comparator occurs is_comparator_char check_combined traverse any copy_deny_buckets
    reject_range_carving get put remove keep contains text_eq text_leb sort_by pair_leb Strip.join
    Pypi.validate_range Pypi.complement Bounds.complement_set_is_empty starts_with Strip.is_space
both_emitted = refl

whole_and_range-duplicate_example : ¬ IsUnique (keys both_lines)
whole_and_range-duplicate_example =
    whole_and_range-duplicate pypi_adapter both_rules false both_classified both_emitted
      (codes "evil") refl (unfold contains in refl) (unfold get text_eq in refl)
      (unfold get text_eq in refl)

-- A policy without rules.
abbrev empty_policy : Policy
empty_policy = record {
  schema = int (Int.pos 1);
  defaults = record { action = allow; ecosystems = [] };
  rules = [];
  min_age = codes "P3D";
  osv_malicious_packages = false;
}

abbrev empty_artifacts : CompiledArtifacts
empty_artifacts = record {
  npm_yaml = codes "upstream:\n  min_age: \"P3D\"\n";
  pypi_constraints = [];
  upstream_yaml = codes "upstream:\n  min_age: \"P3D\"\n";
  min_age = codes "P3D";
}

empty_compiles : compile_policy empty_policy ≡ ok empty_artifacts
unfolding compile_policy classify classify_from emit_npm resolve_npm resolve_denies allow_wholes
    allow_exacts emit_lines text_of_lines scopes_of keep copy_deny_buckets sort_by get npm_quote
    for_ecosystem Strip.join emit_pypi emit_pypi_lines pass_allows pass_wholes pass_exacts
    emit_pypi_ranges emit_pypi_wholes emit_pypi_allows traverse text_of star_line quote_body
    quote_char
empty_compiles = refl

scalar-npm_quote_example : scalar (npm_quote (codes "a\n\"b\"")) ≡ some (codes "a\n\"b\"")
scalar-npm_quote_example = scalar-npm_quote (codes "a\n\"b\"")

npm_quote-plain_example : all is_plain (npm_quote (codes "a\nb")) ≡ true
npm_quote-plain_example = npm_quote-plain (codes "a\nb")

crossed_false_alarm_example :
    (Bounds.crossed (some (1 ∷ 0 ∷ [], true)) (some (1 ∷ [], true)) ≡ true)
    × (above (1 ∷ []) (1 ∷ 0 ∷ [], true) ≡ true)
    × (below (1 ∷ []) (1 ∷ [], true) ≡ true)
crossed_false_alarm_example = crossed_false_alarm (1 ∷ [])

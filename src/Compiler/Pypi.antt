-- ===== src/Compiler/Pypi.antt =====
-- The pypi emission of policy-sync/policy_sync/compiler.py. An emitted line is the pair of the
-- project and what follows it, until `line_text` joins them.
pub mod View
pub mod Allows
pub mod Lines
pub mod Decides
pub mod Unique
use mathlib.Core.Option.{get_or}
use artea.Base.{
  ℕ, Bool, true, false, not, ◌&&◌, ◌||◌, Option, none, some, List, [], ◌∷◌, ◌++◌, map, Text, codes,
  eq_text, eq_nat, text_leb, contains, Result, ok, err, ◌>>=◌, ◌>>◌, raise_if, is_some,
  if◌then◌else◌, nat_eq, ltb, traverse,
}
use artea.Base.Dict.{Dict, get, put, remove, keys, items_at, add}
use artea.Base.Lists.{length, any}
use artea.Base.Sort.{sorted, sort_by}
use artea.Base.Strip.{starts_with, join}
use artea.Policy.{
  PolicyError, Action, deny, allow, not_one_specifier, empty_allow_set, several_exact_allows, pypi,
}
use artea.Adapters.Pypi.{validate_range, complement}
use artea.Adapters.Bounds.{complement_set_is_empty}
use artea.Compiler.{
  Ranges, EcosystemRules, Denies, copy_deny_buckets, reject_range_carving, drop_denies,
}

-- A project and its specifier set, which is empty for a name on its own.
abbrev pub Line : Type 0
Line = Text × Text

abbrev pub line_text : Line → Text
line_text (name, spec) = name ++ spec

-- `op in line`
unfoldable pub occurs : Text → Text → Bool
unfolding starts_with
occurs op [] = starts_with [] op
occurs op (c ∷ s) = starts_with (c ∷ s) op || occurs op s

abbrev pub comparators : List Text
comparators = codes "==" ∷ codes "!=" ∷ codes "<" ∷ codes ">" ∷ codes "~=" ∷ []

-- `ch in "=!<>~"`
unfoldable pub is_comparator_char : ℕ → Bool
unfolding contains
is_comparator_char c = contains c (codes "=!<>~")

-- The line from its first comparator character on, if it has one.
unfoldable pub from_comparator : Text → Option Text
unfolding is_comparator_char
from_comparator [] = none
from_comparator (c ∷ s) =
    let rest = from_comparator s in if is_comparator_char c then some (c ∷ s) else rest

unfoldable pub validate_from : Option Text → Result PolicyError (Unit {0})
validate_from none = ok tt
validate_from (some spec) = validate_range spec

-- `_validate_pypi_line`
unfoldable pub validate_pypi_line : Text → Result PolicyError (Unit {0})
unfolding any occurs
validate_pypi_line line =
    if not (any (λ op. occurs op line) comparators)
    then ok tt
    else validate_from (from_comparator line)

unfoldable pub pair_leb : Text × Option Text → Text × Option Text → Bool
pair_leb (a, x) (b, y) = text_leb a b

unfoldable pub check_combined : Text → Text → Result PolicyError (Unit {0})
check_combined name combined = elim (validate_range combined) [
  | ok _ ↦ ok tt
  | err _ ↦ err (not_one_specifier name combined)
]

-- The one line of a package with range denies.
unfoldable pub range_line : Ranges → Text → Result PolicyError Line
unfolding sort_by
range_line ranges name = do
  specs ← traverse (λ r. complement r.0) (sort_by pair_leb (items_at name ranges))
  let combined = join (codes ",") specs
  check_combined name combined
  raise_if (complement_set_is_empty specs) (empty_allow_set name combined)
  validate_pypi_line (name ++ combined)
  ok (name, combined)

-- `_emit_pypi_ranges`
unfoldable pub emit_pypi_ranges : Ranges → Bool → Result PolicyError (List Line)
emit_pypi_ranges ranges true = ok []
emit_pypi_ranges ranges false = traverse (range_line ranges) (sorted (keys ranges))

-- A line that is emitted once it is validated.
unfoldable pub valid_line : Text → Text → Result PolicyError Line
valid_line name spec = do validate_pypi_line (name ++ spec); ok (name, spec)

-- `_emit_pypi_wholes`
unfoldable pub emit_pypi_wholes : Dict Text (Option Text) → Bool → Result PolicyError (List Line)
emit_pypi_wholes whole true = ok []
emit_pypi_wholes whole false =
    traverse (λ name. valid_line name (codes "==0")) (sorted (keys whole))

-- `exact_passthrough[name]`, for a name that is there
abbrev pub pinned : Dict Text Text → Text → Text
pinned exact name = codes "==" ++ get_or (get name exact) []

-- `_emit_pypi_allows`
unfoldable pub emit_pypi_allows : Dict Text Text → List Text → Result PolicyError (List Line)
emit_pypi_allows exact whole = do
  first ← traverse (λ name. valid_line name (pinned exact name)) (sorted (keys exact))
  rest ← traverse (λ name. valid_line name []) (sorted whole)
  ok (first ++ rest)

-- What the two loops over the allows change.
pub record Emission : Type 0 where
  pub denies : Denies
  pub exact_passthrough : Dict Text Text
  pub allow_passthrough : List Text

-- One whole-package allow.
unfoldable pub pass_whole : Bool → Text → Emission → Emission
unfolding drop_denies
pass_whole default_deny name e = record e {
  denies = drop_denies name e.denies;
  allow_passthrough = if default_deny then add name e.allow_passthrough else e.allow_passthrough;
}

unfoldable pub pass_wholes : Bool → List Text → Emission → Emission
pass_wholes default_deny [] e = e
pass_wholes default_deny (name ∷ names) e =
    pass_wholes default_deny names (pass_whole default_deny name e)

-- `(exact_passthrough[name],) = versions`, after the test for more than one version. A set of
-- exact versions is never empty (`Compiler.Laws.IsClassified`).
unfoldable pub pin : Text → List Text → Emission → Result PolicyError Emission
pin name [] e = ok e
pin name (v ∷ []) e = ok (record e { exact_passthrough = put name v e.exact_passthrough })
pin name (v ∷ w ∷ vs) e = err (several_exact_allows name (sorted (v ∷ w ∷ vs)))

-- The exact-version allows of one package.
unfoldable pub pass_exact :
    List Text → Bool → Text → List Text → Emission → Result PolicyError Emission
pass_exact whole_allows default_deny name versions e =
    if contains name whole_allows then ok e else do
      reject_range_carving name e.denies.ranges pypi
      let emit_exact = is_some (get name e.denies.whole) || default_deny
      let popped = record e { denies = record e.denies { whole = remove name e.denies.whole } }
      if not emit_exact then ok popped else pin name versions popped

unfoldable pub pass_exacts :
    List Text → Bool → Dict Text (List Text) → Emission → Result PolicyError Emission
pass_exacts whole_allows default_deny [] e = ok e
pass_exacts whole_allows default_deny ((name, versions) ∷ rest) e = do
  e' ← pass_exact whole_allows default_deny name versions e
  pass_exacts whole_allows default_deny rest e'

unfoldable pub pass_allows : EcosystemRules → Bool → Result PolicyError Emission
pass_allows eco default_deny = pass_exacts eco.whole_allows default_deny eco.exact_allows (
    pass_wholes default_deny eco.whole_allows
      (record { denies = copy_deny_buckets eco; exact_passthrough = []; allow_passthrough = [] }))

-- The lines of the artifact but for the last `*`.
unfoldable pub emit_pypi_lines : EcosystemRules → Bool → Result PolicyError (List Line)
emit_pypi_lines eco default_deny = do
  e ← pass_allows eco default_deny
  ranges ← emit_pypi_ranges e.denies.ranges default_deny
  wholes ← emit_pypi_wholes e.denies.whole default_deny
  allows ← emit_pypi_allows e.exact_passthrough e.allow_passthrough
  ok (ranges ++ (wholes ++ allows))

abbrev pub is_deny : Action → Bool
is_deny deny = true
is_deny allow = false

unfoldable pub star_line : Bool → List Text
star_line true = codes "*" ∷ []
star_line false = []

-- `"\n".join(lines) + ("\n" if lines else "")`
unfoldable pub text_of : List Text → Text
unfolding join
text_of [] = []
text_of (line ∷ lines) = join (10 ∷ []) (line ∷ lines) ++ (10 ∷ [])

-- `_emit_pypi`
unfoldable pub emit_pypi : EcosystemRules → Action → Result PolicyError Text
emit_pypi eco default_action = do
  lines ← emit_pypi_lines eco (is_deny default_action)
  ok (text_of (map line_text lines ++ star_line (is_deny default_action)))

-- ===== src/Osv/Semver.antt =====
-- The versions and the ranges of policy-sync/policy_sync/osv.py that are decided locally.
pub mod Order
pub mod Ranges
use mathlib.Core.Option.{get_or}
use artea.Base.{
  ℕ, Bool, true, false, not, ◌&&◌, ◌||◌, Option, none, some, List, [], ◌∷◌, ◌++◌, map, Text, codes,
  eq_text, eq_nat, text_leb, ◌==◌, nat_eq, ltb, leb, if◌then◌else◌, is_some,
}
use artea.Base.Dict.{get}
use artea.Base.Strip.{split, is_digit}
use artea.Pattern.{
  Pattern, at_end, char_in, seq, alt, star, group, nothing, opt, plus, literal, one_of, all_of,
  digit, is_id_char, match, Groups,
}
use artea.Adapters.Release.{int_of}
use artea.Osv.Json.{Json, string, array, object, Members, end, member, items, at}

-- An identifier of a prerelease.
pub data Part : Type 0 where
  num : ℕ → Part
  word : Text → Part

pub record Semver : Type 0 where
  pub major : ℕ
  pub minor : ℕ
  pub patch : ℕ
  pub prerelease : Option (List Part)

-- `0|[1-9]\d*`
number_re : Pattern
unfolding literal is_digit
number_re = alt (literal (codes "0")) (seq (char_in (λ c. leb b'1' c && leb c b'9')) (star digit))

-- `_SEMVER_RE`
semver_re : Pattern
unfolding number_re literal all_of is_id_char
semver_re = all_of (
    opt (literal (codes "v"))
    ∷ group 1 number_re
    ∷ opt (seq (literal (codes ".")) (group 2 number_re))
    ∷ opt (seq (literal (codes ".")) (group 3 number_re))
    ∷ opt (seq (literal (codes "-")) (group 4 (plus (char_in is_id_char))))
    ∷ opt (seq (literal (codes "+")) (plus (char_in is_id_char)))
    ∷ at_end
    ∷ [])

-- `_SEMVER_NUMERIC_ID_RE`
numeric_id_re : Pattern
unfolding number_re
numeric_id_re = seq number_re at_end

unfoldable pub part_of : Text → Part
unfolding match numeric_id_re int_of
part_of s = if is_some (match numeric_id_re s) then num (int_of s) else word s

-- The parts of a prerelease, none of which is empty.
unfoldable pub parts_of : List Text → Option (List Part)
unfolding part_of
parts_of [] = some []
parts_of ([] ∷ rest) = none
parts_of ((c ∷ s) ∷ rest) = elim (parts_of rest) [
  | none ↦ none
  | some qs ↦ some (part_of (c ∷ s) ∷ qs)
]

unfoldable pub with_prerelease : Groups → Option (List Part) → Semver
unfolding get int_of
with_prerelease g p = record {
  major = int_of (get_or (get 1 g) []);
  minor = int_of (get_or (get 2 g) (codes "0"));
  patch = int_of (get_or (get 3 g) (codes "0"));
  prerelease = p;
}

unfoldable pub semver_of : Groups → Option Semver
unfolding get parts_of split with_prerelease
semver_of g = elim (get 4 g) [
  | none ↦ some (with_prerelease g none)
  | some raw ↦ elim (parts_of (split b'.' raw)) [
    | none ↦ none
    | some ps ↦ some (with_prerelease g (some ps))
  ]
]

-- `_parse_semver`
unfoldable pub parse_semver : Text → Option Semver
unfolding match semver_re semver_of
parse_semver version = elim (match semver_re version) [ none ↦ none | some g ↦ semver_of g ]

-- -1, 0 and 1
pub data Comparison : Type 0 where
  less equal greater : Comparison

unfoldable pub part_eq : Part → Part → Bool
part_eq (num a) (num b) = nat_eq a b
part_eq (num a) (word t) = false
part_eq (word s) (num b) = false
part_eq (word s) (word t) = s == t

-- Two identifiers that differ.
unfoldable pub compare_parts : Part → Part → Comparison
compare_parts (num a) (num b) = if ltb a b then less else greater
compare_parts (num a) (word t) = less
compare_parts (word s) (num b) = greater
compare_parts (word s) (word t) = if not (text_leb t s) then less else greater

-- `_compare_prerelease`, where there are two: the first identifier that differs, then the lengths.
unfoldable pub compare_lists : List Part → List Part → Comparison
unfolding part_eq compare_parts
compare_lists [] [] = equal
compare_lists [] (b ∷ qs) = less
compare_lists (a ∷ ps) [] = greater
compare_lists (a ∷ ps) (b ∷ qs) =
    let rest = compare_lists ps qs in if part_eq a b then rest else compare_parts a b

unfoldable pub compare_prerelease : Option (List Part) → Option (List Part) → Comparison
unfolding compare_lists
compare_prerelease none none = equal
compare_prerelease none (some r) = greater
compare_prerelease (some l) none = less
compare_prerelease (some l) (some r) = compare_lists l r

-- `left_core < right_core`
unfoldable pub core_less : Semver → Semver → Bool
core_less l r =
    ltb l.major r.major
    || (nat_eq l.major r.major
        && (ltb l.minor r.minor || (nat_eq l.minor r.minor && ltb l.patch r.patch)))

unfoldable pub core_eq : Semver → Semver → Bool
core_eq l r = nat_eq l.major r.major && (nat_eq l.minor r.minor && nat_eq l.patch r.patch)

-- `_compare_semver`
unfoldable pub compare_semver : Semver → Semver → Comparison
unfolding core_less core_eq compare_prerelease
compare_semver l r =
    if not (core_eq l r)
    then (if core_less l r then less else greater)
    else compare_prerelease l.prerelease r.prerelease

abbrev pub at_least : Comparison → Bool
at_least less = false
at_least equal = true
at_least greater = true

abbrev pub above : Comparison → Bool
above less = false
above equal = false
above greater = true

-- An event of a range.
pub data Event : Type 0 where
  introduced fixed limit last_affected : Semver → Event

unfoldable pub kind_of : Text → Option (Semver → Event)
kind_of kind =
    if kind == codes "introduced"
    then some introduced
    else if kind == codes "fixed"
    then some fixed
    else if kind == codes "limit"
    then some limit
    else if kind == codes "last_affected"
    then some last_affected
    else none

unfoldable pub event_of : Text → Option Semver → Option Event
unfolding kind_of
event_of kind none = none
event_of kind (some v) = elim (kind_of kind) [ none ↦ none | some f ↦ some (f v) ]

unfoldable pub read_event : Json → Option Event
unfolding event_of parse_semver
read_event (object (member kind (string s) end)) = event_of kind (parse_semver s)
read_event j = none

-- Whether the version is affected after the event.
unfoldable pub apply_event : Semver → Event → Bool → Bool
apply_event v (introduced e) affected = if at_least (compare_semver v e) then true else affected
apply_event v (fixed e) affected = if at_least (compare_semver v e) then false else affected
apply_event v (limit e) affected = if at_least (compare_semver v e) then false else affected
apply_event v (last_affected e) affected = if above (compare_semver v e) then false else affected

unfoldable pub affected_from : Semver → List Json → Bool → Option Bool
affected_from v [] affected = some affected
affected_from v (j ∷ js) affected = elim (read_event j) [
  | none ↦ none
  | some e ↦ affected_from v js (apply_event v e affected)
]

-- The candidates with their versions, if each has one.
unfoldable pub candidates : List Text → Option (List (Text × Semver))
unfolding parse_semver
candidates [] = some []
candidates (v ∷ vs) = elim (parse_semver v) [
  | none ↦ none
  | some p ↦ elim (candidates vs) [ none ↦ none | some ps ↦ some ((v, p) ∷ ps) ]
]

unfoldable pub affected_of : List Json → List (Text × Semver) → Option (List Text)
unfolding affected_from
affected_of events [] = some []
affected_of events ((v, p) ∷ ps) = elim (affected_from p events false) [
  | none ↦ none
  | some hit ↦ elim (affected_of events ps) [
    | none ↦ none
    | some vs ↦ some (if hit then v ∷ vs else vs)
  ]
]

unfoldable pub affected_by_events : Json → List Text → Option (List Text)
unfolding candidates affected_of items
affected_by_events (array events) wanted = elim (candidates wanted) [
  | none ↦ none
  | some ps ↦ affected_of (items events) ps
]
affected_by_events j wanted = none

unfoldable pub is_text : Text → Json → Bool
is_text t (string s) = s == t
is_text t j = false

-- `_semver_range_affected_versions`; `wanted` is a set.
unfoldable pub semver_range_affected_versions : Members → List Text → Option (List Text)
unfolding affected_by_events at is_text
semver_range_affected_versions raw_range wanted =
    if not (is_text (codes "SEMVER") (at (codes "type") raw_range))
    then none
    else affected_by_events (at (codes "events") raw_range) wanted

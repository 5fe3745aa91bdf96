-- ===== src/Policy/MinAge.antt =====
-- `_validate_min_age` of policy-sync/policy_sync/policy_model.py
use artea.Base.{
  ℕ, ◌&&◌, Option, none, some, List, [], ◌∷◌, Text, codes, nat_eq, Result, ok, err, if◌then◌else◌,
  eq_nat,
}
use artea.Base.Dict.{values}
use artea.Base.Lists.{any}
use artea.Base.Strip.{strip, starts_with, is_digit}
use artea.Value.{Value, null, str}
use artea.Pattern.{
  Pattern, at_end, char_in, seq, alt, group, opt, plus, literal, literal_any_case, all_of, digit,
  match,
}
use artea.Policy.{PolicyError, min_age_type, min_age_syntax, min_age_negative}

-- Under `re.IGNORECASE` the letter S also matches the long s, U+017F.
abbrev unit_letter : ℕ → Pattern
unit_letter c = alt (literal_any_case c) (char_in (λ d. nat_eq c b'S' && nat_eq d 0x17f))

-- `(?:(\d+(?:\.\d+)?)W)?`
abbrev component : ℕ → ℕ → Pattern
component n letter = opt (
    seq (group n (seq (plus digit) (opt (seq (literal (codes ".")) (plus digit)))))
      (unit_letter letter))

-- `ISO_DURATION_RE`
unfoldable pub iso_duration_re : Pattern
unfolding literal literal_any_case all_of is_digit
iso_duration_re = all_of (
    literal_any_case b'P'
    ∷ component 1 b'W'
    ∷ component 2 b'D'
    ∷ opt (
        all_of
          (literal_any_case b'T' ∷ component 3 b'H' ∷ component 4 b'M' ∷ component 5 b'S' ∷ []))
    ∷ at_end
    ∷ [])

abbrev pub default_min_age : Text
default_min_age = codes "P0D"

-- A group that took part is a number, negative if it begins with a minus sign.
unfoldable pub check_groups : Text → Option (List Text) → Result PolicyError Text
unfolding any starts_with
check_groups value none = err min_age_syntax
check_groups value (some []) = err min_age_syntax
check_groups value (some (g ∷ gs)) =
    if any (λ t. starts_with t (codes "-")) (g ∷ gs) then err min_age_negative else ok value

unfoldable pub matched_groups : Text → Option (List Text)
unfolding match iso_duration_re
matched_groups value = elim (match iso_duration_re value) [ none ↦ none | some g ↦ some (values g) ]

unfoldable pub validate_min_age : Value → Result PolicyError Text
unfolding strip check_groups matched_groups
validate_min_age null = ok default_min_age
validate_min_age (str raw) = let value = strip raw in check_groups value (matched_groups value)
validate_min_age _ = err min_age_type

-- ===== src/Adapters/Npm.antt =====
-- `NpmAdapter` of policy-sync/policy_sync/adapters.py
use mathlib.Core.Option.{get_or}
use artea.Base.{
  Bool, true, ◌||◌, none, some, [], ◌∷◌, Text, codes, nat_eq, leb, ◌&&◌, if◌then◌else◌, Result, ok,
  err, is_some, eq_text, eq_nat, ◌==◌,
}
use artea.Base.Lists.{drop}
use artea.Base.Dict.{get}
use artea.Base.Strip.{strip, lower, starts_with, is_digit}
use artea.Pattern.{
  Pattern, at_end, char_in, seq, alt, star, group, opt, plus, literal, one_of, all_of, digit, space,
  is_id_char, match,
}
use artea.Policy.{PolicyError, invalid_semver_range, not_exact_npm}

-- `(?:0|[1-9]\d*)`
abbrev num_seg : Pattern
num_seg = alt (literal (codes "0")) (seq (char_in (λ c. leb b'1' c && leb c b'9')) (star digit))

abbrev wild : Pattern
wild = char_in (λ c. nat_eq c b'x' || nat_eq c b'X' || nat_eq c b'*')

abbrev dot : Pattern
dot = literal (codes ".")

abbrev pre : Pattern
pre = opt (seq (literal (codes "-")) (plus (char_in is_id_char)))

abbrev build : Pattern
build = opt (seq (literal (codes "+")) (plus (char_in is_id_char)))

-- `_NPM_VERSION`
abbrev version : Pattern
version = seq (opt (literal (codes "v"))) (
    one_of (
      wild
      ∷ all_of (num_seg ∷ dot ∷ wild ∷ opt (seq dot wild) ∷ [])
      ∷ all_of (num_seg ∷ dot ∷ num_seg ∷ dot ∷ wild ∷ [])
      ∷ all_of (num_seg ∷ dot ∷ num_seg ∷ dot ∷ num_seg ∷ pre ∷ build ∷ [])
      ∷ all_of (num_seg ∷ opt (seq dot num_seg) ∷ build ∷ [])
      ∷ []))

abbrev op : Pattern
op = opt (
    one_of (
      literal (codes "<=")
      ∷ literal (codes ">=")
      ∷ literal (codes "<")
      ∷ literal (codes ">")
      ∷ literal (codes "=")
      ∷ literal (codes "^")
      ∷ literal (codes "~")
      ∷ []))

abbrev comparator : Pattern
comparator = one_of (
    all_of (version ∷ plus space ∷ literal (codes "-") ∷ plus space ∷ version ∷ [])
    ∷ all_of (op ∷ star space ∷ version ∷ [])
    ∷ wild
    ∷ [])

abbrev and_set : Pattern
and_set = seq comparator (star (seq (plus space) comparator))

-- `_NPM_RANGE_RE`
range_re : Pattern
unfolding literal one_of all_of is_id_char is_digit
range_re = all_of (
    star space
    ∷ and_set
    ∷ star (all_of (star space ∷ literal (codes "||") ∷ star space ∷ and_set ∷ []))
    ∷ star space
    ∷ at_end
    ∷ [])

-- `_NPM_EXACT_RE`
exact_re : Pattern
unfolding literal one_of all_of is_id_char is_digit
exact_re = all_of (
    star space
    ∷ opt (literal (codes "="))
    ∷ star space
    ∷ group 1 (
        all_of
          (opt (literal (codes "v")) ∷ num_seg ∷ dot ∷ num_seg ∷ dot ∷ num_seg ∷ pre ∷ build ∷ []))
    ∷ star space
    ∷ at_end
    ∷ [])

unfoldable pub normalize_name : Text → Result PolicyError Text
unfolding strip lower
normalize_name name = ok (lower (strip name))

unfoldable pub supports_namespace : Bool
supports_namespace = true

unfoldable pub normalize_namespace : Text → Result PolicyError Text
unfolding strip starts_with
normalize_namespace ns = let s = strip ns in ok (if starts_with s (codes "@") then s else b'@' ∷ s)

unfoldable pub validate_range : Text → Result PolicyError (Unit {0})
unfolding match range_re
validate_range expr = elim (match range_re expr) [
  | none ↦ err (invalid_semver_range expr)
  | some _ ↦ ok tt
]

unfoldable pub is_exact : Text → Bool
unfolding match exact_re
is_exact expr = is_some (match exact_re expr)

unfoldable pub exact_value : Text → Result PolicyError Text
unfolding match exact_re get starts_with
exact_value expr = elim (match exact_re expr) [
  | none ↦ err (not_exact_npm expr)
  | some g ↦ let v = get_or (get 1 g) [] in ok (if starts_with v (codes "v") then drop 1 v else v)
]

unfoldable pub exact_allows : Text → Text → Result PolicyError Bool
unfolding exact_value
exact_allows expr version = elim (exact_value expr) [ ok v ↦ ok (v == version) | err e ↦ err e ]

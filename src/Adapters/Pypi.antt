-- ===== src/Adapters/Pypi.antt =====
-- `PypiAdapter` of policy-sync/policy_sync/adapters.py
use mathlib.Core.Option.{get_or}
use artea.Base.{
  ℕ, zero, suc, Bool, true, false, ◌||◌, Option, none, some, List, [], ◌∷◌, ◌++◌, Text, codes,
  eq_nat, eq_text, ◌==◌, nat_eq, ltb, if◌then◌else◌, is_some, Result, ok, err,
}
use artea.Base.Lists.{length}
use artea.Base.Dict.{get}
use artea.Base.Strip.{strip, lower, is_lower, is_ascii_digit, is_digit}
use artea.Pattern.{
  Pattern, at_end, char_in, seq, star, group, opt, plus, literal, one_of, all_of, digit, space,
  match,
}
use artea.Policy.{
  PolicyError, invalid_pypi_name, invalid_specifier, not_exact_pypi, not_invertible,
  pypi_has_no_namespaces,
}
use artea.Adapters.Release.{release_tuple}

is_name_char : ℕ → Bool
is_name_char c = is_lower c || is_ascii_digit c

-- `_PYPI_NAME_RE`
name_re : Pattern
unfolding all_of is_name_char is_lower is_ascii_digit
name_re = all_of (
    char_in is_name_char
    ∷ opt (seq (star (char_in (λ c. is_name_char c || nat_eq c b'-'))) (char_in is_name_char))
    ∷ at_end
    ∷ [])

abbrev separator : Pattern
separator = opt (char_in (λ c. nat_eq c b'-' || nat_eq c b'.' || nat_eq c b'_'))

abbrev opt_dot : Pattern
opt_dot = opt (literal (codes "."))

-- `_PEP440_CORE`
abbrev core : Pattern
core = all_of (
    opt (seq (plus digit) (literal (codes "!")))
    ∷ plus digit
    ∷ star (seq (literal (codes ".")) (plus digit))
    ∷ opt (
        all_of (
          one_of (
            literal (codes "a")
            ∷ literal (codes "b")
            ∷ literal (codes "c")
            ∷ literal (codes "rc")
            ∷ literal (codes "alpha")
            ∷ literal (codes "beta")
            ∷ literal (codes "pre")
            ∷ literal (codes "preview")
            ∷ [])
          ∷ opt_dot
          ∷ star digit
          ∷ []))
    ∷ opt (
        all_of (
          separator
          ∷ one_of (literal (codes "post") ∷ literal (codes "rev") ∷ literal (codes "r") ∷ [])
          ∷ opt_dot
          ∷ star digit
          ∷ []))
    ∷ opt (all_of (separator ∷ literal (codes "dev") ∷ opt_dot ∷ star digit ∷ []))
    ∷ [])

-- `_PEP440_SPEC`
abbrev spec : Pattern
spec = all_of (
    one_of (
      literal (codes "===")
      ∷ literal (codes "==")
      ∷ literal (codes "!=")
      ∷ literal (codes "<=")
      ∷ literal (codes ">=")
      ∷ literal (codes "~=")
      ∷ literal (codes "<")
      ∷ literal (codes ">")
      ∷ [])
    ∷ star space
    ∷ core
    ∷ opt (literal (codes ".*"))
    ∷ [])

-- `_PEP440_SET_RE`
set_re : Pattern
unfolding literal one_of all_of is_digit
set_re = all_of (
    star space
    ∷ spec
    ∷ star (all_of (star space ∷ literal (codes ",") ∷ star space ∷ spec ∷ []))
    ∷ star space
    ∷ at_end
    ∷ [])

-- `_PEP440_SINGLE_CMP_RE`
single_cmp_re : Pattern
unfolding literal one_of all_of is_digit
single_cmp_re = all_of (
    star space
    ∷ group 1 (
        one_of (
          literal (codes "<=")
          ∷ literal (codes ">=")
          ∷ literal (codes "==")
          ∷ literal (codes "<")
          ∷ literal (codes ">")
          ∷ []))
    ∷ star space
    ∷ group 2 core
    ∷ star space
    ∷ at_end
    ∷ [])

-- `_PEP440_EXACT_RE`
exact_re : Pattern
unfolding literal one_of all_of is_digit
exact_re =
    all_of
      (star space ∷ literal (codes "==") ∷ star space ∷ group 1 core ∷ star space ∷ at_end ∷ [])

is_separator : ℕ → Bool
is_separator c = nat_eq c b'-' || nat_eq c b'_' || nat_eq c b'.'

-- `re.sub(r"[-_.]+", "-", s)`; the flag says that the character before was a separator.
collapse : Bool → Text → Text
collapse prev [] = []
collapse prev (c ∷ s) =
    let rest = collapse (is_separator c) s in
    if is_separator c then (if prev then rest else b'-' ∷ rest) else c ∷ rest

unfoldable pub normalize_name : Text → Result PolicyError Text
unfolding strip lower collapse is_separator match name_re
normalize_name name =
    let normalized = lower (collapse false (strip name)) in
    elim (match name_re normalized) [ none ↦ err (invalid_pypi_name name) | some _ ↦ ok normalized ]

unfoldable pub supports_namespace : Bool
supports_namespace = false

unfoldable pub normalize_namespace : Text → Result PolicyError Text
normalize_namespace ns = err pypi_has_no_namespaces

unfoldable pub validate_range : Text → Result PolicyError (Unit {0})
unfolding match set_re
validate_range expr = elim (match set_re expr) [
  | none ↦ err (invalid_specifier expr)
  | some _ ↦ ok tt
]

unfoldable pub is_exact : Text → Bool
unfolding match exact_re
is_exact expr = is_some (match exact_re expr)

unfoldable pub exact_value : Text → Result PolicyError Text
unfolding match exact_re get
exact_value expr = elim (match exact_re expr) [
  | none ↦ err (not_exact_pypi expr)
  | some g ↦ ok (get_or (get 1 g) [])
]

-- `r + (0,) * (width - len(r))`
unfoldable pub pad : ℕ → List ℕ → List ℕ
pad zero r = r
pad (suc w) [] = 0 ∷ pad w []
pad (suc w) (n ∷ r) = n ∷ pad w r

same_release : Option (List ℕ) → Option (List ℕ) → Bool
unfolding pad
same_release none b = false
same_release (some r) none = false
same_release (some r) (some s) =
    let width = if ltb (length r) (length s) then length s else length r in
    pad width r == pad width s

unfoldable pub exact_allows : Text → Text → Result PolicyError Bool
unfolding exact_value same_release release_tuple
exact_allows expr version = elim (exact_value expr) [
  | err e ↦ err e
  | ok pinned ↦ ok (
      if pinned == version
      then true
      else same_release (release_tuple pinned) (release_tuple version))
]

-- `_PEP440_COMPLEMENT_OP`
unfoldable pub complement_op : Text → Text
complement_op op =
    if op == codes "<"
    then codes ">="
    else if op == codes "<="
    then codes ">"
    else if op == codes ">"
    then codes "<="
    else if op == codes ">="
    then codes "<"
    else codes "!="

-- `_PEP440_SINGLE_CMP_RE.match`, with the groups for the operator and the version
unfoldable pub single_comparator : Text → Option (Text × Text)
unfolding match single_cmp_re get
single_comparator expr = elim (match single_cmp_re expr) [
  | none ↦ none
  | some g ↦ some (get_or (get 1 g) [], get_or (get 2 g) [])
]

unfoldable pub complement : Text → Result PolicyError Text
unfolding single_comparator complement_op
complement expr = elim (single_comparator expr) [
  | none ↦ err (not_invertible expr)
  | some (op, version) ↦ ok (complement_op op ++ version)
]

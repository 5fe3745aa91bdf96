-- ===== src/Adapters/Release.antt =====
-- `_release_tuple` of policy-sync/policy_sync/adapters.py, and `int` of a string of digits.
use artea.Base.{
  ℕ, ◌+◌, ◌-◌, ◌*◌, not, ◌&&◌, Option, none, some, List, [], ◌∷◌, map, Text, codes, contains,
  eq_nat, leb, ltb, if◌then◌else◌, is_some,
}
use artea.Base.Lists.{length, any}
use artea.Base.Strip.{zeros, is_digit, split}
use artea.Pattern.{Pattern, seq, star, plus, digit, literal, full_match}

-- The value of a decimal digit: its distance from its zero.
digit_from : List ℕ → ℕ → ℕ
digit_from [] c = 0
digit_from (z ∷ zs) c = if leb z c && ltb c (z + 10) then c - z else digit_from zs c

unfoldable pub digit_value : ℕ → ℕ
unfolding digit_from
digit_value = digit_from zeros

int_loop : ℕ → Text → ℕ
int_loop acc [] = acc
int_loop acc (c ∷ s) = int_loop (acc * 10 + digit_value c) s

-- `int(s)`, for a string of decimal digits
unfoldable pub int_of : Text → ℕ
unfolding int_loop digit_value
int_of = int_loop 0

-- `_PEP440_PLAIN_RELEASE_RE`
plain_release_re : Pattern
unfolding literal is_digit
plain_release_re = seq (plus digit) (star (seq (literal (codes ".")) (plus digit)))

abbrev segment_max_digits : ℕ
segment_max_digits = 18

-- `PypiAdapter._release_tuple`
unfoldable pub release_tuple : Text → Option (List ℕ)
unfolding contains full_match plain_release_re split any int_of
release_tuple version =
    if contains b'!' version
    then none
    else if not (is_some (full_match plain_release_re version))
    then none
    else if any (λ p. ltb segment_max_digits (length p)) (split b'.' version)
    then none
    else some (map int_of (split b'.' version))

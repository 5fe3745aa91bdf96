-- ===== src/Compiler/Quote.antt =====
-- `_npm_quote` of policy-sync/policy_sync/compiler.py
pub mod Scalar
use artea.Base.{
  ℕ, ◌+◌, ◌-◌, ◌/◌, ◌%◌, List, [], ◌∷◌, ◌++◌, Text, codes, nat_eq, ltb, if◌then◌else◌, ◌||◌,
}

abbrev pub backslash : ℕ
backslash = 92

-- A digit of a lower-case hexadecimal number.
unfoldable pub hex_digit : ℕ → ℕ
hex_digit n = if ltb n 10 then n + b'0' else n - 10 + b'a'

-- `f"\\x{ord(ch):02x}"` and `f"\\u{ord(ch):04x}"`
unfoldable pub hex_escape : ℕ → Text
unfolding hex_digit
hex_escape c = backslash ∷ b'x' ∷ hex_digit (c / 16) ∷ hex_digit (c % 16) ∷ []

unfoldable pub unicode_escape : ℕ → Text
unfolding hex_digit
unicode_escape c =
    backslash
    ∷ b'u'
    ∷ hex_digit (c / 4096)
    ∷ hex_digit (c / 256 % 16)
    ∷ hex_digit (c / 16 % 16)
    ∷ hex_digit (c % 16)
    ∷ []

-- What the loop writes for a character.
unfoldable pub quote_char : ℕ → Text
quote_char c =
    if nat_eq c backslash
    then backslash ∷ backslash ∷ []
    else if nat_eq c b'"'
    then backslash ∷ b'"' ∷ []
    else if nat_eq c 9
    then backslash ∷ b't' ∷ []
    else if nat_eq c 10
    then backslash ∷ b'n' ∷ []
    else if nat_eq c 13
    then backslash ∷ b'r' ∷ []
    else if ltb c 0x20 || nat_eq c 0x7f
    then hex_escape c
    else if nat_eq c 0x2028 || nat_eq c 0x2029
    then unicode_escape c
    else c ∷ []

unfoldable pub quote_body : Text → Text
quote_body [] = []
quote_body (c ∷ s) = quote_char c ++ quote_body s

-- `_npm_quote`
unfoldable pub npm_quote : Text → Text
npm_quote s = b'"' ∷ (quote_body s ++ b'"' ∷ [])

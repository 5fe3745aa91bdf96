-- ===== src/Compiler/Quote/Scalar.antt =====
-- A quoted text is a double-quoted scalar of YAML that stands for the text.
use mathlib.Core.Option
use mathlib.Core.List.{append_assoc}
use artea.Base.{
  ℕ, zero, suc, ◌+◌, ◌-◌, ◌*◌, ◌/◌, ◌%◌, ◌<◌, ◌≡◌, refl, ◌∙◌, Bool, true, not, ◌&&◌, ◌||◌, Option,
  none, some, [], ◌∷◌, ◌++◌, Text, nat_eq, ltb, leb, if◌then◌else◌, arith,
}
use artea.Base.Lists.{all, all-append}
use artea.Compiler.Quote.{
  backslash, hex_digit, hex_escape, unicode_escape, quote_char, quote_body, npm_quote,
}

-- A reader of the escapes of YAML 1.2, section 5.7, that have one character, two hexadecimal digits
-- or four. `digits n v` waits for `n + 1` digits after those of value `v`.
pub data Mode : Type 0 where
  plain escape : Mode
  digits : ℕ → ℕ → Mode

pub data Act : Type 0 where
  emit : ℕ → Act
  go : Mode → Act
  stop fail : Act

hex_value : ℕ → Option ℕ
hex_value c =
    if leb b'0' c && leb c b'9'
    then some (c - b'0')
    else if leb b'a' c && leb c b'f'
    then some (c - b'a' + 10)
    else if leb b'A' c && leb c b'F'
    then some (c - b'A' + 10)
    else none

-- A character that may stand for itself: none below U+0020, not U+007F, and not the separators U+2028 and
-- U+2029. YAML takes the characters from U+0080 to U+009F as they are in a quoted scalar.
unfoldable pub is_plain : ℕ → Bool
is_plain c = not (ltb c 0x20 || nat_eq c 0x7f || nat_eq c 0x2028 || nat_eq c 0x2029)

take_digit : ℕ → ℕ → Option ℕ → Act
take_digit n v none = fail
take_digit zero v (some d) = emit (v * 16 + d)
take_digit (suc n) v (some d) = go (digits n (v * 16 + d))

act : Mode → ℕ → Act
unfolding hex_value is_plain take_digit
act plain c =
    if nat_eq c b'"'
    then stop
    else if nat_eq c backslash
    then go escape
    else if is_plain c
    then emit c
    else fail
act escape c =
    if nat_eq c backslash || nat_eq c b'"'
    then emit c
    else if nat_eq c b't'
    then emit 9
    else if nat_eq c b'n'
    then emit 10
    else if nat_eq c b'r'
    then emit 13
    else if nat_eq c b'x'
    then go (digits 1 0)
    else if nat_eq c b'u'
    then go (digits 3 0)
    else fail
act (digits n v) c = take_digit n v (hex_value c)

after : Act → Mode
after (go m) = m
after _ = plain

-- What the scalar stands for, with `stop` at the last character only.
finish : Act → Option Text → Text → Option Text
finish (emit c) rest s = Option.map (◌∷◌ c) rest
finish (go m) rest s = rest
finish stop rest [] = some []
finish stop rest (c ∷ s) = none
finish fail rest s = none

read : Mode → Text → Option Text
read m [] = none
read m (c ∷ s) = finish (act m c) (read (after (act m c)) s) s

pub scalar : Text → Option Text
unfolding read act after finish
scalar [] = none
scalar (c ∷ s) = if nat_eq c b'"' then read plain s else none

hex_value-hex_digit : (n : ℕ) → n < 16 → hex_value (hex_digit n) ≡ some n
unfolding hex_value hex_digit
hex_value-hex_digit n h = ground arith

read-hex_escape :
    (c : ℕ) (s : Text)
    → c < 256
    → read plain (hex_escape c ++ s) ≡ Option.map (◌∷◌ c) (read plain s)
unfolding read act after finish take_digit hex_escape
read-hex_escape c s h =
    rw
      (
        hex_value-hex_digit (c / 16) (omega arith),
        take_digit,
        hex_value-hex_digit (c % 16) (omega arith),
      )
      (let e : (0 * 16 + c / 16) * 16 + c % 16 ≡ c = omega arith in rw e)

read-unicode_escape :
    (c : ℕ) (s : Text)
    → c < 65536
    → read plain (unicode_escape c ++ s) ≡ Option.map (◌∷◌ c) (read plain s)
unfolding read act after finish take_digit unicode_escape
read-unicode_escape c s h =
    rw
      (
        hex_value-hex_digit (c / 4096) (omega arith),
        take_digit,
        hex_value-hex_digit (c / 256 % 16) (omega arith),
        hex_value-hex_digit (c / 16 % 16) (omega arith),
        hex_value-hex_digit (c % 16) (omega arith),
      )
      (let e : (((0 * 16 + c / 4096) * 16 + c / 256 % 16) * 16 + c / 16 % 16) * 16 + c % 16 ≡ c =
          omega arith in
        rw e)

read-quote_char :
    (c : ℕ) (s : Text) → read plain (quote_char c ++ s) ≡ Option.map (◌∷◌ c) (read plain s)
unfolding read act after finish quote_char
read-quote_char c s = ground (arith, read-hex_escape c s, read-unicode_escape c s)

read-quote_body : (s : Text) → read plain (quote_body s ++ b'"' ∷ []) ≡ some s
unfolding quote_body
read-quote_body [] = unfold read act finish in refl
read-quote_body (c ∷ s) = rw (append_assoc, read-quote_char, read-quote_body s)

-- A quoted text, read as a YAML scalar, is the text again, whatever characters it has.
pub scalar-npm_quote : (s : Text) → scalar (npm_quote s) ≡ some s
unfolding scalar npm_quote
scalar-npm_quote s = read-quote_body s

hex_digit-plain : (n : ℕ) → n < 16 → is_plain (hex_digit n) ≡ true
unfolding is_plain hex_digit
hex_digit-plain n h = ground arith

hex_escape-plain : (c : ℕ) → c < 256 → all is_plain (hex_escape c) ≡ true
unfolding all hex_escape
hex_escape-plain c h =
    rw (hex_digit-plain (c / 16) (omega arith), hex_digit-plain (c % 16) (omega arith))
      (unfold is_plain in refl)

unicode_escape-plain : (c : ℕ) → c < 65536 → all is_plain (unicode_escape c) ≡ true
unfolding all unicode_escape
unicode_escape-plain c h =
    rw
      (
        hex_digit-plain (c / 4096) (omega arith),
        hex_digit-plain (c / 256 % 16) (omega arith),
        hex_digit-plain (c / 16 % 16) (omega arith),
        hex_digit-plain (c % 16) (omega arith),
      )
      (unfold is_plain in refl)

quote_char-plain : (c : ℕ) → all is_plain (quote_char c) ≡ true
unfolding all quote_char is_plain
quote_char-plain c = ground (arith, hex_escape-plain c, unicode_escape-plain c)

quote_body-plain : (s : Text) → all is_plain (quote_body s) ≡ true
unfolding quote_body all
quote_body-plain [] = refl
quote_body-plain (c ∷ s) =
    all-append is_plain (quote_char c) (quote_body s) ∙ rw (quote_char-plain c, quote_body-plain s)

-- A quoted text has no character below U+0020, so no line feed and no carriage return, and no U+007F,
-- U+2028 or U+2029.
pub npm_quote-plain : (s : Text) → all is_plain (npm_quote s) ≡ true
unfolding npm_quote all is_plain
npm_quote-plain s = all-append is_plain (quote_body s) (b'"' ∷ []) ∙ rw (quote_body-plain s)

-- ===== src/Pattern.antt =====
-- The regular expressions that the program uses, as Python's `re` matches them: alternatives in
-- order, repetitions greedy, with backtracking and numbered groups.
use artea.Base.{
  ℕ, zero, suc, ◌-◌, Bool, true, false, ◌||◌, Option, none, some, List, [], ◌∷◌, Text, nat_eq,
  eq_nat, ltb, eq_text,
}
use artea.Base.Lists.{length, take}
use artea.Base.Dict.{Dict, put}
use artea.Base.Strip.{is_digit, is_space, is_ascii_digit, is_lower, is_upper, lower_char}

pub data Pattern : Type 0 where
  -- `(?:)`, a character of a class, `ab`, `a|b`, `a*`, `(a)` and `$`
  nothing at_end : Pattern
  char_in : (ℕ → Bool) → Pattern
  seq alt : Pattern → Pattern → Pattern
  star : Pattern → Pattern
  group : ℕ → Pattern → Pattern

-- What the groups that took part have matched.
abbrev pub Groups : Type 0
Groups = Dict ℕ Text

abbrev Rest : Type 0
Rest = Text → Groups → Option Groups

-- The repetition tries one more round first. A round that takes no character ends it.
repeat : (Text → Groups → Rest → Option Groups) → ℕ → Text → Groups → Rest → Option Groups
repeat once zero s g k = k s g
repeat once (suc n) s g k =
    elim (once s g (λ s' g'. elim (ltb (length s') (length s)) [
      | true ↦ repeat once n s' g' k
      | false ↦ none
    ])) [ some r ↦ some r | none ↦ k s g ]

ends : Text → Bool
ends [] = true
ends (c ∷ []) = nat_eq c 10
ends (c ∷ d ∷ s) = false

run : Pattern → Text → Groups → Rest → Option Groups
unfolding repeat ends put
run nothing s g k = k s g
run at_end s g k = elim (ends s) [ true ↦ k s g | false ↦ none ]
run (char_in p) [] g k = none
run (char_in p) (c ∷ s) g k = elim (p c) [ true ↦ k s g | false ↦ none ]
run (seq a b) s g k = run a s g (λ s' g'. run b s' g' k)
run (alt a b) s g k = elim (run a s g k) [ some r ↦ some r | none ↦ run b s g k ]
run (star a) s g k = repeat (run a) (length s) s g k
run (group n a) s g k = run a s g (λ s' g'. k s' (put n (take (length s - length s') s) g'))

-- `re.match`: a match at the beginning of the text.
unfoldable pub match : Pattern → Text → Option Groups
unfolding run
match r s = run r s [] (λ s' g. some g)

-- `re.fullmatch`
unfoldable pub full_match : Pattern → Text → Option Groups
unfolding run
full_match r s = run r s [] (λ s' g. elim s' [ [] ↦ some g | c ∷ s'' ↦ none ])

-- `re.search`: at the first place where the pattern matches.
unfoldable pub search_in : Pattern → Text → Option Groups
unfolding match
search_in r [] = match r []
search_in r (c ∷ s) = elim (match r (c ∷ s)) [ some g ↦ some g | none ↦ search_in r s ]

abbrev pub opt : Pattern → Pattern
opt a = alt a nothing

abbrev pub plus : Pattern → Pattern
plus a = seq a (star a)

-- A literal piece of a pattern, and one that ignores case.
unfoldable pub literal : Text → Pattern
literal [] = nothing
literal (c ∷ []) = char_in (nat_eq c)
literal (c ∷ d ∷ s) = seq (char_in (nat_eq c)) (literal (d ∷ s))

unfoldable pub literal_any_case : ℕ → Pattern
unfolding lower_char
literal_any_case c = char_in (λ d. nat_eq (lower_char c) (lower_char d))

unfoldable pub one_of : List Pattern → Pattern
one_of [] = nothing
one_of (a ∷ []) = a
one_of (a ∷ b ∷ r) = alt a (one_of (b ∷ r))

unfoldable pub all_of : List Pattern → Pattern
all_of [] = nothing
all_of (a ∷ []) = a
all_of (a ∷ b ∷ r) = seq a (all_of (b ∷ r))

abbrev pub digit : Pattern
digit = char_in is_digit

abbrev pub space : Pattern
space = char_in is_space

-- `[0-9A-Za-z.-]`
unfoldable pub is_id_char : ℕ → Bool
unfolding is_ascii_digit is_lower is_upper
is_id_char c = is_ascii_digit c || is_lower c || is_upper c || nat_eq c b'.' || nat_eq c b'-'

-- ===== src/Devpi/Lines.antt =====
-- `constraint_lines` of devpi/artea_devpi_policy/src/artea_devpi_policy/main.py, and `str.splitlines`.
pub mod Strip
use artea.Base.{
  ℕ, Bool, true, false, not, ◌&&◌, ◌||◌, List, [], ◌∷◌, ◌++◌, Text, codes, eq_nat, nat_eq,
  if◌then◌else◌, contains,
}
use artea.Base.Strip.{strip, starts_with}

-- The characters that end a line for `splitlines`
abbrev breaks : List ℕ
breaks = 10 ∷ 11 ∷ 12 ∷ 13 ∷ 28 ∷ 29 ∷ 30 ∷ 0x85 ∷ 0x2028 ∷ 0x2029 ∷ []

-- A text that does not end in a line break has a last line after it.
last_line : Text → List Text
last_line [] = []
last_line (c ∷ s) = (c ∷ s) ∷ []

-- The lines of a text after `line`; a line feed after a carriage return ends no line.
lines_from : Text → Bool → Text → List Text
unfolding contains last_line
lines_from line returned [] = last_line line
lines_from line returned (c ∷ s) =
    let within = lines_from line false s in
    let ended = lines_from [] (nat_eq c 13) s in
    let longer = lines_from (line ++ c ∷ []) false s in
    if returned && nat_eq c 10 then within else if contains c breaks then line ∷ ended else longer

-- `s.splitlines()`
unfoldable pub splitlines : Text → List Text
unfolding lines_from
splitlines s = lines_from [] false s

unfoldable pub is_effective : Text → Bool
unfolding starts_with
is_effective [] = false
is_effective (c ∷ s) = not (starts_with (c ∷ s) (codes "#"))

-- Each line stripped, without the blank ones and the comments
unfoldable pub effective : List Text → List Text
unfolding strip is_effective
effective [] = []
effective (s ∷ ss) =
    let rest = effective ss in if is_effective (strip s) then strip s ∷ rest else rest

-- `constraint_lines`
unfoldable pub constraint_lines : Text → List Text
unfolding splitlines effective
constraint_lines text = effective (splitlines text)

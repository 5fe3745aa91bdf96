-- ===== src/Devpi/Plugin/Duration.antt =====
-- `parse_iso_duration_seconds` of devpi/artea_devpi_policy/src/artea_devpi_policy/main.py. A number
-- of seconds is a decimal fraction, exactly; the source rounds it to a float.
pub mod Accepts
use artea.Base.{
  ℕ, zero, suc, ◌+◌, ◌-◌, ◌*◌, ◌^◌, Bool, true, false, Option, none, some, List, [], ◌∷◌, ◌++◌,
  Text, codes, eq_nat, ltb, leb, nat_eq, if◌then◌else◌, Result, ok, err,
}
use artea.Base.Dict.{get}
use artea.Base.Lists.{length}
use artea.Base.Strip.{strip, split}
use artea.Pattern.{Groups, match}
use artea.Policy.MinAge.{iso_duration_re}
use artea.Adapters.Release.{int_of}
use artea.Osv.Json.{Json, null, boolean, number, string}
use artea.Devpi.Plugin.{PluginError, duration_type, duration_syntax}

-- `units / scale` seconds
pub record Seconds : Type 0 where
  pub units : ℕ
  pub scale : ℕ

abbrev pub no_seconds : Seconds
no_seconds = record { units = 0; scale = 1 }

-- `a + b`
unfoldable pub add_seconds : Seconds → Seconds → Seconds
add_seconds a b = record {
  units = a.units * b.scale + b.units * a.scale;
  scale = a.scale * b.scale;
}

-- `float(value)` of decimal digits with a fraction or without, times the factor
unfoldable pub decimal : List Text → ℕ → Seconds
unfolding int_of
decimal [] factor = no_seconds
decimal (whole ∷ []) factor = record { units = int_of whole * factor; scale = 1 }
decimal (whole ∷ fraction ∷ rest) factor = record {
  units = int_of (whole ++ fraction) * factor;
  scale = 10 ^ length fraction;
}

-- `ISO_FACTORS`, by the numbers of the groups
abbrev pub iso_factors : List (ℕ × ℕ)
iso_factors = (1, 604_800) ∷ (2, 86_400) ∷ (3, 3_600) ∷ (4, 60) ∷ (5, 1) ∷ []

unfoldable pub sum_groups : Groups → List (ℕ × ℕ) → Seconds → Seconds
unfolding get split decimal add_seconds
sum_groups groups [] seconds = seconds
sum_groups groups ((n, factor) ∷ rest) seconds = sum_groups groups rest (elim (get n groups) [
  | none ↦ seconds
  | some value ↦ add_seconds seconds (decimal (split b'.' value) factor)
])

-- A group that took part has a digit, so it is not empty.
unfoldable pub seconds_of : Option Groups → Result PluginError Seconds
unfolding sum_groups
seconds_of none = err duration_syntax
seconds_of (some []) = err duration_syntax
seconds_of (some (g ∷ groups)) = ok (sum_groups (g ∷ groups) iso_factors no_seconds)

-- `parse_iso_duration_seconds`
unfoldable pub parse_iso_duration_seconds : Json → Result PluginError Seconds
unfolding seconds_of match iso_duration_re strip
parse_iso_duration_seconds null = ok no_seconds
parse_iso_duration_seconds (boolean false) = ok no_seconds
parse_iso_duration_seconds (number zero) = ok no_seconds
parse_iso_duration_seconds (string []) = ok no_seconds
parse_iso_duration_seconds (string (c ∷ s)) = seconds_of (match iso_duration_re (strip (c ∷ s)))
parse_iso_duration_seconds j = err duration_type

-- `seconds > 0`
unfoldable pub is_positive : Seconds → Bool
is_positive s = ltb 0 s.units

-- `now - uploaded >= seconds`; both sides are multiplied by the scale.
unfoldable pub is_old : Seconds → ℕ → ℕ → Bool
is_old s now uploaded = leb (s.units + uploaded * s.scale) (now * s.scale)

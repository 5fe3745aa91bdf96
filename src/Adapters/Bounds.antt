-- ===== src/Adapters/Bounds.antt =====
-- `complement_set_is_empty` of policy-sync/policy_sync/adapters.py
pub mod Empty
use artea.Base.{
  ℕ, Bool, true, false, not, ◌&&◌, ◌||◌, Option, none, some, List, [], ◌∷◌, Text, codes, contains,
  eq_text, ◌==◌, text_leb, if◌then◌else◌,
}
use artea.Adapters.Release.{release_tuple}
use artea.Adapters.Pypi.{single_comparator}

-- A release, and whether the bound includes it.
abbrev pub Bound : Type 0
Bound = List ℕ × Bool

-- `a > b` on tuples of numbers
abbrev pub tuple_gt : List ℕ → List ℕ → Bool
tuple_gt a b = not (text_leb a b)

unfoldable pub raise_lower : Option Bound → Bound → Option Bound
raise_lower none cand = some cand
raise_lower (some old) cand = if tuple_gt cand.0 old.0 then some cand else some old

unfoldable pub reduce_upper : Option Bound → Bound → Option Bound
reduce_upper none cand = some cand
reduce_upper (some old) cand = if tuple_gt old.0 cand.0 then some cand else some old

-- The comparison after the loop.
unfoldable pub crossed : Option Bound → Option Bound → Bool
crossed none upper = false
crossed (some lower) none = false
crossed (some (lo_v, lo_incl)) (some (up_v, up_incl)) =
    if tuple_gt lo_v up_v then true else lo_v == up_v && not (lo_incl && up_incl)

-- What the loop makes of one specifier: nothing if it cannot decide.
pub data Limit : Type 0 where
  lower upper : Bound → Limit

limit_of : Text → Option (List ℕ) → Option Limit
limit_of op none = none
limit_of op (some rel) =
    if op == codes "=="
    then none
    else if contains op (codes ">" ∷ codes ">=" ∷ [])
    then some (lower (rel, op == codes ">="))
    else some (upper (rel, op == codes "<="))

unfoldable pub limit : Text → Option Limit
unfolding single_comparator limit_of contains release_tuple
limit spec = elim (single_comparator spec) [
  | none ↦ none
  | some (op, ver) ↦ limit_of op (release_tuple ver)
]

-- One round of the loop, and the rounds that follow it.
round : (Option Bound → Option Bound → Bool) → Option Limit → Option Bound → Option Bound → Bool
round rest none lo up = false
round rest (some (lower b)) lo up = rest (raise_lower lo b) up
round rest (some (upper b)) lo up = rest lo (reduce_upper up b)

unfoldable pub scan : List Text → Option Bound → Option Bound → Bool
unfolding round limit raise_lower reduce_upper crossed
scan [] lo up = crossed lo up
scan (s ∷ specs) lo up = round (scan specs) (limit s) lo up

unfoldable pub complement_set_is_empty : List Text → Bool
unfolding scan
complement_set_is_empty specs = scan specs none none

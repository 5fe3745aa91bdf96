-- ===== src/Value.antt =====
-- The Python objects that `tomllib` and `json` build: the values that the program takes apart.
use artea.Base.{ℕ, zero, ◌^◌, Bool, true, false, Option, List, [], ◌∷◌, Text, nat_eq}
use mathlib.Core.Option.{get_or}
use artea.Base.Dict.{Dict}
use artea.Base.Int.{ℤ, pos, ◌-ℤ◌}

-- `finite m e` is m / 2 ^ e; `special` stands for the infinities and NaN.
pub data Float : Type 0 where
  finite : ℤ → ℕ → Float
  special : Float

-- A `datetime`: the wall clock in microseconds from 1970, the offset from UTC if it has one, and
-- what `isoformat()` gives.
pub record DateTime : Type 0 where
  pub wall : ℤ
  pub offset : Option ℤ
  pub iso : Text

-- The instant, with UTC for a missing offset (`replace(tzinfo=timezone.utc)`).
unfoldable pub instant : DateTime → ℤ
unfolding ◌-ℤ◌
instant t = t.wall -ℤ get_or t.offset (pos 0)

mutual
  pub data Value : Type 0 where
    null : Value
    bool : Bool → Value
    int : ℤ → Value
    float : Float → Value
    str : Text → Value
    datetime : DateTime → Value
    -- the dates and times of TOML that are no `datetime`
    other : Value
    list : Items → Value
    dict : Fields → Value

  pub data Items : Type 0 where
    nil : Items
    cons : Value → Items → Items

  pub data Fields : Type 0 where
    end : Fields
    field : Text → Value → Fields → Fields

unfoldable pub items : Items → List Value
items nil = []
items (cons v r) = v ∷ items r

unfoldable pub fields : Fields → Dict Text Value
fields end = []
fields (field k v r) = (k, v) ∷ fields r

-- `bool(x)`
unfoldable pub truthy : Value → Bool
truthy null = false
truthy (bool b) = b
truthy (int (pos zero)) = false
truthy (int _) = true
truthy (float (finite (pos zero) e)) = false
truthy (float _) = true
truthy (str []) = false
truthy (list nil) = false
truthy (dict end) = false
truthy _ = true

-- `x == 1`: `True` and `1.0` are equal to 1.
unfoldable pub is_one : Value → Bool
is_one (bool b) = b
is_one (int (pos n)) = nat_eq n 1
is_one (float (finite (pos m) e)) = nat_eq m (2 ^ e)
is_one _ = false

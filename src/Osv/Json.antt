-- ===== src/Osv/Json.antt =====
-- What `json.load` gives; its numbers are the natural numbers.
use mathlib.Core.Option.{get_or}
use artea.Base.{
  ℕ, ◌≡◌, refl, Option, none, some, arith, zero, suc, Bool, true, false, List, [], ◌∷◌, Text,
  eq_text, ◌==◌, if◌then◌else◌,
}

mutual
  pub data Json : Type 0 where
    null : Json
    boolean : Bool → Json
    number : ℕ → Json
    string : Text → Json
    array : Jsons → Json
    object : Members → Json

  pub data Jsons : Type 0 where
    nil : Jsons
    cons : Json → Jsons → Jsons

  pub data Members : Type 0 where
    end : Members
    member : Text → Json → Members → Members

unfoldable pub items : Jsons → List Json
items nil = []
items (cons j js) = j ∷ items js

unfoldable pub array_of : List Json → Jsons
array_of [] = nil
array_of (j ∷ js) = cons j (array_of js)

unfoldable pub members : Members → List (Text × Json)
members end = []
members (member k j ms) = (k, j) ∷ members ms

-- `data.get(k)` of an object, `None` for a key that is missing
unfoldable pub at : Text → Members → Json
at k end = null
at k (member j v ms) = if j == k then v else at k ms

-- The value under a key, if there is one
unfoldable pub find : Text → Members → Option Json
find k end = none
find k (member j v ms) = if j == k then some v else find k ms

-- `data[k] = v`
unfoldable pub set_member : Text → Json → Members → Members
set_member k v end = member k v end
set_member k v (member j w ms) = if j == k then member j v ms else member j w (set_member k v ms)

pub find-set_member :
    (k j : Text) (v : Json) (ms : Members)
    → find j (set_member k v ms) ≡ (if k == j then some v else find j ms)
unfolding find set_member
find-set_member k j v end = refl
find-set_member k j v (member i w ms) =
    ground (
      arith,
      eq_text.beq_iff k j,
      eq_text.beq_iff i k,
      eq_text.beq_iff i j,
      find-set_member k j v ms,
    )

-- `data.get(k)` in terms of `find`
pub at-find : (k : Text) (ms : Members) → at k ms ≡ get_or (find k ms) null
unfolding find at
at-find k end = refl
at-find k (member j v ms) = ground (arith, at-find k ms)

-- `bool(x)`
unfoldable pub truthy : Json → Bool
truthy null = false
truthy (boolean b) = b
truthy (number zero) = false
truthy (number (suc n)) = true
truthy (string []) = false
truthy (string (c ∷ s)) = true
truthy (array nil) = false
truthy (array (cons j js)) = true
truthy (object end) = false
truthy (object (member k v ms)) = true

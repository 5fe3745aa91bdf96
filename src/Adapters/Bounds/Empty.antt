-- ===== src/Adapters/Bounds/Empty.antt =====
-- When the check for contradictory bounds is right: against the order of PEP 440 releases, in
-- which a missing segment is zero.
use artea.Base.{
  ℕ, ◌≡◌, refl, Bool, true, false, not, ◌&&◌, ◌||◌, Option, none, some, List, [], ◌∷◌, ◌++◌, Text,
  nat_eq, ltb, arith, text_leb, if◌then◌else◌,
}
use artea.Base.Lists.{length}
use artea.Adapters.Bounds.{Bound, Limit, lower, upper, limit, crossed}

-- `a <= b` of PEP 440 releases.
unfoldable pub release_leb : List ℕ → List ℕ → Bool
release_leb [] b = true
release_leb (m ∷ a) [] = nat_eq m 0 && release_leb a []
release_leb (m ∷ a) (n ∷ b) = ltb m n || nat_eq m n && release_leb a b

release_leb_refl : (a : List ℕ) → release_leb a a ≡ true
unfolding release_leb
release_leb_refl [] = refl
release_leb_refl (m ∷ a) = ground (arith, release_leb_refl a)

-- The bound lets the release through.
unfoldable pub above : List ℕ → Bound → Bool
above v (rel, incl) = if incl then release_leb rel v else not (release_leb v rel)

unfoldable pub below : List ℕ → Bound → Bool
below v (rel, incl) = if incl then release_leb v rel else not (release_leb rel v)

allowed_by : List ℕ → Option Limit → Bool
allowed_by v none = false
allowed_by v (some (lower b)) = above v b
allowed_by v (some (upper b)) = below v b

-- The specifier, one comparator, lets the release through.
unfoldable pub allows : List ℕ → Text → Bool
unfolding allowed_by above below
allows v spec = allowed_by v (limit spec)

limit_width : Option Limit → ℕ
limit_width none = 0
limit_width (some (lower b)) = length b.0
limit_width (some (upper b)) = length b.0

-- The number of segments that the specifier's release has.
unfoldable pub width_of : Text → ℕ
unfolding limit_width
width_of spec = limit_width (limit spec)

-- What the loop has seen lets the release through, and is of one width.
abbrev Seen : ℕ → (Bound → Bool) → Option Bound → Type 0
Seen w p none = Unit
Seen w p (some b) = (length b.0 ≡ w) × (p b ≡ true)

module _ (w : ℕ) (v : List ℕ) where
  -- A loop, or the rest of one, that answers yes only where nothing gets through.
  abbrev Sound : (Option Bound → Option Bound → Bool) → Type 0
  Sound rest =
      (lo up : Option Bound) → Seen w (above v) lo → Seen w (below v) up → rest lo up ≡ true → ⊥

release_leb-zero : (r : List ℕ) → release_leb (r ++ 0 ∷ []) r ≡ true
unfolding release_leb
release_leb-zero [] = ground arith
release_leb-zero (n ∷ r) = ground (arith, release_leb-zero r)

text_leb-zero : (r : List ℕ) → text_leb (r ++ 0 ∷ []) r ≡ false
unfolding text_leb
text_leb-zero [] = refl
text_leb-zero (n ∷ r) = ground (arith, text_leb-zero r)

-- The same release with one zero more, as an inclusive lower bound, and without it, as an inclusive
-- upper bound: the check calls the set empty, and the release itself lies in it.
pub crossed_false_alarm :
    (r : List ℕ)
    → (crossed (some (r ++ 0 ∷ [], true)) (some (r, true)) ≡ true)
      × (above r (r ++ 0 ∷ [], true) ≡ true)
      × (below r (r, true) ≡ true)
unfolding crossed above below
crossed_false_alarm r =
    (ground (arith, text_leb-zero r), ground (arith, release_leb-zero r), release_leb_refl r)

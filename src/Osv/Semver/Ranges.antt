-- ===== src/Osv/Semver/Ranges.antt =====
-- A range of OSV is the union of its intervals.
use artea.Base.{
  some, map, ◌≡◌, refl, ap, ◌∙◌, Bool, true, false, not, ◌&&◌, List, [], ◌∷◌, if◌then◌else◌, arith,
  Bool-cases, inl, inr,
}
use artea.Base.Lists.{any}
use artea.Osv.Semver.{
  Semver, Event, introduced, fixed, compare_semver, at_least, apply_event, read_event,
  affected_from,
}
use artea.Osv.Json.{Json}
use artea.Osv.Semver.Order.{at_least_trans}

-- From the version where the flaw came in up to the one where it was fixed.
abbrev pub Interval : Type 0
Interval = Semver × Semver

abbrev pub not_below : Semver → Semver → Bool
not_below v w = at_least (compare_semver v w)

unfoldable pub within : Semver → Interval → Bool
within v (from, to) = not_below v from && not (not_below v to)

-- The events of the intervals, in their order.
unfoldable pub events_of : List Interval → List Event
events_of [] = []
events_of ((from, to) ∷ rest) = introduced from ∷ fixed to ∷ events_of rest

-- The loop over the events, once they are read.
unfoldable pub walk : Semver → List Event → Bool → Bool
walk v [] affected = affected
walk v (e ∷ es) affected = walk v es (apply_event v e affected)

-- Each interval ends before the next begins, and none ends before it begins.
abbrev pub Ascending : List Interval → Type 0
Ascending [] = Unit
Ascending ((from, to) ∷ []) = not_below to from ≡ true
Ascending ((from, to) ∷ (from', to') ∷ rest) =
    (not_below to from ≡ true) × ((not_below from' to ≡ true) × Ascending ((from', to') ∷ rest))

contra : (a b : Bool) → (a ≡ true → b ≡ true) → b ≡ false → a ≡ false
contra a b f h = ground arith

below_begin :
    (v to from : Semver)
    → not_below from to ≡ true
    → not_below v to ≡ false
    → not_below v from ≡ false
below_begin v to from s h = contra _ _ (λ a. at_least_trans v from to a s) h

-- The two events of an interval.
abbrev after : Bool → Bool → Bool → Bool
after begun over affected = if over then false else if begun then true else affected

untouched :
    (begun over affected : Bool)
    → begun ≡ false
    → over ≡ false
    → after begun over affected ≡ affected
untouched begun over affected a b = rw (a, b) refl

-- A version below the end of an interval is not touched by the later ones.
walk-later :
    (v from to : Semver) (rest : List Interval) (affected : Bool)
    → Ascending ((from, to) ∷ rest)
    → not_below v to ≡ false
    → walk v (events_of rest) affected ≡ affected
unfolding walk events_of apply_event
walk-later v from to [] affected s h = refl
walk-later v from to ((from', to') ∷ []) affected s h =
    let a = below_begin v to from' s.1.0 h in
    let b = below_begin v from' to' s.1.1 a in rw (a, b) refl
walk-later v from to ((from', to') ∷ next ∷ rest) affected s h =
    let a = below_begin v to from' s.1.0 h in
    let b = below_begin v from' to' s.1.1.0 a in
    ap (walk v (events_of (next ∷ rest)))
      (untouched (not_below v from') (not_below v to') affected a b)
    ∙ walk-later v from' to' (next ∷ rest) affected s.1.1 b

tail-Ascending : (i : Interval) (rest : List Interval) → Ascending (i ∷ rest) → Ascending rest
tail-Ascending (from, to) [] s = tt
tail-Ascending (from, to) (i ∷ rest) s = s.1.1

ends_after :
    (from to : Semver) (rest : List Interval)
    → Ascending ((from, to) ∷ rest)
    → not_below to from ≡ true
ends_after from to [] s = s
ends_after from to (i ∷ rest) s = s.0

walk-within :
    (v : Semver) (is : List Interval)
    → Ascending is
    → walk v (events_of is) false ≡ any (within v) is
unfolding walk events_of apply_event any within
walk-within v [] s = refl
walk-within v ((from, to) ∷ rest) s =
    let later = walk-within v rest (tail-Ascending (from, to) rest s) in
    elim (Bool-cases (not_below v to)) [
      | inl past ↦
          let a = at_least_trans v to from past (ends_after from to rest s) in
          ap (walk v (events_of rest)) (
            let e : after (not_below v from) (not_below v to) false ≡ false = rw (a, past) refl in
            e)
          ∙ (later ∙ rw (a, past) refl)
      | inr under ↦ elim (Bool-cases (not_below v from)) [
        | inl a ↦
            ap (walk v (events_of rest)) (
              let e : after (not_below v from) (not_below v to) false ≡ true = rw (a, under) refl in
              e)
            ∙ (walk-later v from to rest true s under ∙ rw (a, under) refl)
        | inr a ↦
            ap (walk v (events_of rest))
              (untouched (not_below v from) (not_below v to) false a under)
            ∙ (later ∙ rw a refl)
      ]
    ]

affected_from-walk :
    (v : Semver) (js : List Json) (es : List Event) (affected : Bool)
    → map read_event js ≡ map some es
    → affected_from v js affected ≡ some (walk v es affected)
unfolding affected_from walk
affected_from-walk v [] [] affected h = refl
affected_from-walk v [] (e ∷ es) affected h = absurd (cc h)
affected_from-walk v (j ∷ js) [] affected h = absurd (cc h)
affected_from-walk v (j ∷ js) (e ∷ es) affected h =
    let one : read_event j ≡ some e = cc h in
    let rest : map read_event js ≡ map some es = cc h in
    rw (one, affected_from) (affected_from-walk v js es (apply_event v e affected) rest)

-- Where the events of a range are those of ascending intervals, the loop finds a version affected
-- exactly if it lies in one of them: at or above its begin, and below its end.
pub affected_from-within :
    (v : Semver) (js : List Json) (intervals : List Interval)
    → map read_event js ≡ map some (events_of intervals)
    → Ascending intervals
    → affected_from v js false ≡ some (any (within v) intervals)
affected_from-within v js intervals h s =
    affected_from-walk v js (events_of intervals) false h ∙ rw (walk-within v intervals s) refl

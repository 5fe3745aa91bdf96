-- ===== src/Osv/Semver/Order.antt =====
-- The comparison of versions is a total order.
use artea.Base.{
  ◌≡◌, refl, Bool, true, false, Option, none, some, List, [], ◌∷◌, Text, eq_text, text_leb,
  text_eq_iff, text_leb_total, text_leb_trans, text_leb_antisymm, arith, Bool-cases, inl, inr, ◌↔◌,
}
use artea.Osv.Semver.{
  Part, num, word, Semver, Comparison, less, equal, greater, part_eq, compare_parts, compare_lists,
  compare_prerelease, core_less, core_eq, compare_semver, at_least,
}

abbrev pub flipped : Comparison → Comparison
flipped less = greater
flipped equal = equal
flipped greater = less

part_eq_iff : (a b : Part) → (part_eq a b ≡ true) ↔ (a ≡ b)
unfolding part_eq
part_eq_iff (num a) (num b) = ground arith
part_eq_iff (num a) (word t) = ground arith
part_eq_iff (word s) (num b) = ground arith
part_eq_iff (word s) (word t) = ground (arith, text_eq_iff s t)

text_leb_refl : (s : Text) → text_leb s s ≡ true
text_leb_refl s = ground (arith, text_leb_total s s)

compare_parts-flip :
    (a b : Part) → part_eq a b ≡ false → compare_parts b a ≡ flipped (compare_parts a b)
unfolding part_eq compare_parts
compare_parts-flip (num a) (num b) h = ground arith
compare_parts-flip (num a) (word t) h = refl
compare_parts-flip (word s) (num b) h = refl
compare_parts-flip (word s) (word t) h =
    ground (arith, text_leb_total s t, text_leb_antisymm s t, text_eq_iff s t)

part_eq-sym : (a b : Part) → part_eq a b ≡ part_eq b a
part_eq-sym a b = ground (arith, part_eq_iff a b, part_eq_iff b a)

compare_lists-flip : (l r : List Part) → compare_lists r l ≡ flipped (compare_lists l r)
unfolding compare_lists
compare_lists-flip [] [] = refl
compare_lists-flip [] (b ∷ qs) = refl
compare_lists-flip (a ∷ ps) [] = refl
compare_lists-flip (a ∷ ps) (b ∷ qs) = elim (Bool-cases (part_eq a b)) [
  | inl e ↦ rw (← part_eq-sym a b, e) (compare_lists-flip ps qs)
  | inr e ↦ rw (← part_eq-sym a b, e) (compare_parts-flip a b e)
]

compare_lists-equal : (l r : List Part) → compare_lists l r ≡ equal → l ≡ r
unfolding compare_lists
compare_lists-equal [] [] h = refl
compare_lists-equal [] (b ∷ qs) h = absurd (cc h)
compare_lists-equal (a ∷ ps) [] h = absurd (cc h)
compare_lists-equal (a ∷ ps) (b ∷ qs) h = elim (Bool-cases (part_eq a b)) [
  | inl e ↦ cc ((part_eq_iff a b).0 e, compare_lists-equal ps qs (rw e at h))
  | inr e ↦ absurd (differ a b (rw e at h))
]
  where
    differ : (a b : Part) → compare_parts a b ≡ equal → ⊥
    differ (num a) (num b) h = unfold compare_parts in ground arith
    differ (num a) (word t) h = unfold compare_parts in ground arith
    differ (word s) (num b) h = unfold compare_parts in ground arith
    differ (word s) (word t) h = unfold compare_parts in ground arith

compare_prerelease-flip :
    (l r : Option (List Part)) → compare_prerelease r l ≡ flipped (compare_prerelease l r)
unfolding compare_prerelease
compare_prerelease-flip none none = refl
compare_prerelease-flip none (some r) = refl
compare_prerelease-flip (some l) none = refl
compare_prerelease-flip (some l) (some r) = compare_lists-flip l r

compare_prerelease-equal : (l r : Option (List Part)) → compare_prerelease l r ≡ equal → l ≡ r
unfolding compare_prerelease
compare_prerelease-equal none none h = refl
compare_prerelease-equal none (some r) h = absurd (cc h)
compare_prerelease-equal (some l) none h = absurd (cc h)
compare_prerelease-equal (some l) (some r) h = cc (compare_lists-equal l r h)

compare_semver-flip : (l r : Semver) → compare_semver r l ≡ flipped (compare_semver l r)
unfolding compare_semver core_less core_eq
compare_semver-flip l r = ground (arith, compare_prerelease-flip l.prerelease r.prerelease)

compare_semver-equal : (l r : Semver) → compare_semver l r ≡ equal → l ≡ r
unfolding compare_semver core_less core_eq
compare_semver-equal l r h = ground (arith, compare_prerelease-equal l.prerelease r.prerelease)

-- Not above: the order.
abbrev pub le : Comparison → Bool
le less = true
le equal = true
le greater = false

compare_parts_trans :
    (a b c : Part)
    → part_eq a b ≡ false
    → part_eq b c ≡ false
    → compare_parts a b ≡ less
    → compare_parts b c ≡ less
    → (part_eq a c ≡ false) × (compare_parts a c ≡ less)
unfolding part_eq compare_parts
compare_parts_trans (num a) (num b) (num c) e f h g = ground arith
compare_parts_trans (num a) (num b) (word c) e f h g = ground arith
compare_parts_trans (num a) (word b) (num c) e f h g = ground arith
compare_parts_trans (num a) (word b) (word c) e f h g = ground arith
compare_parts_trans (word a) (num b) (num c) e f h g = ground arith
compare_parts_trans (word a) (num b) (word c) e f h g = ground arith
compare_parts_trans (word a) (word b) (num c) e f h g = ground arith
compare_parts_trans (word a) (word b) (word c) e f h g = ground (
  arith,
  text_eq_iff a b,
  text_eq_iff b c,
  text_eq_iff a c,
  text_leb_total a b,
  text_leb_total b c,
  text_leb_total a c,
  text_leb_trans c a b,
  text_leb_trans b c a,
  text_leb_antisymm a b,
)

compare_lists_trans :
    (l m r : List Part)
    → compare_lists l m ≡ less
    → compare_lists m r ≡ less
    → compare_lists l r ≡ less
unfolding compare_lists
compare_lists_trans [] [] r h g = absurd (cc h)
compare_lists_trans [] (b ∷ qs) [] h g = absurd (cc g)
compare_lists_trans [] (b ∷ qs) (c ∷ rs) h g = refl
compare_lists_trans (a ∷ ps) [] r h g = absurd (cc h)
compare_lists_trans (a ∷ ps) (b ∷ qs) [] h g = absurd (cc g)
compare_lists_trans (a ∷ ps) (b ∷ qs) (c ∷ rs) h g = elim (Bool-cases (part_eq a b)) [
  | inl e ↦
      let same : a ≡ b = (part_eq_iff a b).0 e in
      rw same (elim (Bool-cases (part_eq b c)) [
        | inl f ↦ rw f (compare_lists_trans ps qs rs (rw e at h) (rw f at g))
        | inr f ↦ rw f (rw f at g)
      ])
  | inr e ↦ elim (Bool-cases (part_eq b c)) [
    | inl f ↦ let same : b ≡ c = (part_eq_iff b c).0 f in rw (← same, e) (rw e at h)
    | inr f ↦
        let (ne, lt) = compare_parts_trans a b c e f (rw e at h) (rw f at g) in rw (ne, lt) refl
  ]
]

compare_prerelease_trans :
    (l m r : Option (List Part))
    → compare_prerelease l m ≡ less
    → compare_prerelease m r ≡ less
    → compare_prerelease l r ≡ less
unfolding compare_prerelease
compare_prerelease_trans none none r h g = absurd (cc h)
compare_prerelease_trans none (some m) r h g = absurd (cc h)
compare_prerelease_trans (some l) none none h g = absurd (cc g)
compare_prerelease_trans (some l) none (some r) h g = absurd (cc g)
compare_prerelease_trans (some l) (some m) none h g = refl
compare_prerelease_trans (some l) (some m) (some r) h g = compare_lists_trans l m r h g

-- A version below a second one that is below a third is below the third.
pub compare_semver_trans :
    (l m r : Semver)
    → compare_semver l m ≡ less
    → compare_semver m r ≡ less
    → compare_semver l r ≡ less
unfolding compare_semver core_less core_eq
compare_semver_trans l m r h g =
    ground (arith, compare_prerelease_trans l.prerelease m.prerelease r.prerelease)

compare_semver_refl : (v : Semver) → compare_semver v v ≡ equal
compare_semver_refl v = self (compare_semver v v) (compare_semver-flip v v)
  where
    self : (c : Comparison) → c ≡ flipped c → c ≡ equal
    self less h = absurd (cc h)
    self equal h = refl
    self greater h = absurd (cc h)

-- The comparison of versions is total: exchanging the two turns the answer round, and the answer is
-- that they are equal exactly for versions with the same parts.
pub compare_semver-total :
    (l r : Semver)
    → (compare_semver r l ≡ flipped (compare_semver l r)) × ((compare_semver l r ≡ equal) ↔ (l ≡ r))
compare_semver-total l r =
    (compare_semver-flip l r, (compare_semver-equal l r, λ e. rw e (compare_semver_refl r)))

at_least-cases :
    (l m r : Semver) (a b : Comparison)
    → compare_semver l m ≡ a
    → compare_semver m r ≡ b
    → at_least a ≡ true
    → at_least b ≡ true
    → at_least (compare_semver l r) ≡ true
at_least-cases l m r less b e f h g = absurd (cc h)
at_least-cases l m r equal b e f h g = rw (compare_semver-equal l m e, f) g
at_least-cases l m r greater less e f h g = absurd (cc g)
at_least-cases l m r greater equal e f h g = rw (← compare_semver-equal m r f, e) refl
at_least-cases l m r greater greater e f h g =
    let a : compare_semver m l ≡ less = rw (compare_semver-flip l m, e) refl in
    let b : compare_semver r m ≡ less = rw (compare_semver-flip m r, f) refl in
    rw (compare_semver-flip r l, compare_semver_trans r m l b a) refl

-- `at_least` is transitive.
pub at_least_trans :
    (l m r : Semver)
    → at_least (compare_semver l m) ≡ true
    → at_least (compare_semver m r) ≡ true
    → at_least (compare_semver l r) ≡ true
at_least_trans l m r h g =
    at_least-cases l m r (compare_semver l m) (compare_semver m r) refl refl h g

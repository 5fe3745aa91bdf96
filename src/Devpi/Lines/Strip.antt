-- ===== src/Devpi/Lines/Strip.antt =====
-- `str.strip` is idempotent, and so is the reduction to effective lines.
use mathlib.Core.List.{reverse, reverse-append, reverse-reverse, reverse-cons}
use artea.Base.{
  ℕ, ◌≡◌, refl, ◌∙◌, ap, Bool, false, List, [], ◌∷◌, ◌++◌, Text, arith, Bool-cases, inl, inr, ◌⊎◌,
}
use artea.Base.Strip.{strip, strip_left, strip_right, is_space}
use artea.Devpi.Lines.{is_effective, effective}

module _ (p : ℕ → Bool) where
  strip_left-snoc :
      (s : Text) (c : ℕ) → p c ≡ false → (t : Text) × (strip_left p (s ++ c ∷ []) ≡ t ++ c ∷ [])
  unfolding strip_left
  strip_left-snoc [] c h = ([], ground arith)
  strip_left-snoc (d ∷ s) c h = elim (Bool-cases (p d)) [
    | inl e ↦ let (t, g) = strip_left-snoc s c h in (t, rw e g)
    | inr e ↦ (d ∷ s, rw e refl)
  ]

  -- A text that begins with no such character keeps its first one.
  strip_right-cons : (c : ℕ) (s : Text) → p c ≡ false → (t : Text) × (strip_right p (c ∷ s) ≡ c ∷ t)
  unfolding strip_right
  strip_right-cons c s h =
      let (t, g) = strip_left-snoc (reverse s) c h in
      (
        reverse t,
        ap (λ r. reverse (strip_left p r)) (reverse-cons c s)
            ∙ ap reverse g
            ∙ reverse-append t (c ∷ []),
      )

  strip_left_idem : (s : Text) → strip_left p (strip_left p s) ≡ strip_left p s
  unfolding strip_left
  strip_left_idem [] = refl
  strip_left_idem (c ∷ s) = ground (arith, strip_left_idem s)

  strip_right_idem : (s : Text) → strip_right p (strip_right p s) ≡ strip_right p s
  unfolding strip_right
  strip_right_idem s =
      ap (λ r. reverse (strip_left p r)) (reverse-reverse (strip_left p (reverse s)))
      ∙ ap reverse (strip_left_idem (reverse s))

  -- What is left of a text is empty or begins with another character.
  strip_left-cases :
      (s : Text)
      → (strip_left p s ≡ []) ⊎ ((c : ℕ) × (t : Text) × (strip_left p s ≡ c ∷ t) × (p c ≡ false))
  unfolding strip_left
  strip_left-cases [] = inl refl
  strip_left-cases (c ∷ s) = elim (Bool-cases (p c)) [
    | inl e ↦ rw e (strip_left-cases s)
    | inr e ↦ rw e (inr (c, s, refl, e))
  ]

  strip_both_idem :
      (s : Text)
      → strip_right p (strip_left p (strip_right p (strip_left p s)))
        ≡ strip_right p (strip_left p s)
  strip_both_idem s = elim (strip_left-cases s) [
    | inl e ↦ rw e (unfold strip_right strip_left in refl)
    | inr (c, t, e, h) ↦
        let (u, g) = strip_right-cons c t h in
        let kept : strip_left p (c ∷ u) ≡ c ∷ u = unfold strip_left in rw h refl in
        rw (e, g, kept, ← g) (strip_right_idem (c ∷ t))
  ]

pub strip_idem : (s : Text) → strip (strip s) ≡ strip s
unfolding strip
strip_idem s = strip_both_idem is_space s

-- Lines that are effective already stay as they are.
pub effective_idem : (ss : List Text) → effective (effective ss) ≡ effective ss
unfolding effective
effective_idem [] = refl
effective_idem (s ∷ ss) = elim (Bool-cases (is_effective (strip s))) [
  | inl e ↦ rw (e, strip_idem s, e, effective_idem ss) refl
  | inr e ↦ rw e (effective_idem ss)
]

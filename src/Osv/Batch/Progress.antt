-- ===== src/Osv/Batch/Progress.antt =====
-- No thread of policy-sync/policy_sync/osv.py waits for ever in `_query_package_first_page`: every step
-- keeps a leader for the open batch and a batch for every object that is waited for.
use mathlib.Core.Path.{subst}
use artea.Base.{
  ℕ, ◌≡◌, refl, Bool, true, not, ◌&&◌, ◌||◌, some, List, ◌∷◌, ◌++◌, eq_text, eq_pair, eq_nat, arith,
  ◌↔◌,
}
use artea.Base.Any.{any-append, all_imp}
use artea.Base.Lists.{all, any, all-append}
use artea.Osv.Batch.{
  Client, World, Thread, asks, missed, sleeps, waits, resolves, returned, Shared, run, Step, turn,
}
use artea.Osv.Batch.Keeps.{
  sleeper, holds, is_covered, well, no_batch, is_live, covered, HasLeader, HasBatch, KeepsIf,
  run-Keeps,
}

module _ (client : Client) where
  -- What a step leaves of the invariant
  is_live_at :
      (before after : List Thread) (t : Thread) (sh : Shared)
      → is_live (before ++ t ∷ after, sh) ≡ (
          (not sh.active || (sleeper t || (any sleeper before || any sleeper after)))
          && (sh.active || no_batch sh.pending)
          && all (well (is_covered (before ++ t ∷ after) sh)) (before ++ t ∷ after))
  unfolding is_live any
  is_live_at before after t sh = ground (arith, any-append sleeper before (t ∷ after))

  covered_at :
      (before after : List Thread) (t : Thread) (sh : Shared) (o : ℕ)
      → is_covered (before ++ t ∷ after) sh o
        ≡ covered
            (any sleeper before || any sleeper after)
            (λ u. any (holds u) before || any (holds u) after)
            t
            sh
            o
  unfolding is_covered covered any
  covered_at before after t sh o = ground (arith, any-append (holds o) before (t ∷ after))

  well_imp :
      (p q : ℕ → Bool)
      → ((o : ℕ) → p o ≡ true → q o ≡ true)
      → (t : Thread) → well p t ≡ true
      → well q t ≡ true
  unfolding well
  well_imp p q h (asks key) w = refl
  well_imp p q h (missed key) w = refl
  well_imp p q h (sleeps o) w = refl
  well_imp p q h (waits o) w = h o w
  well_imp p q h (resolves own batch todo found) w = refl
  well_imp p q h (returned outcome) w = refl

  module _ (before after : List Thread) where
    asleep : Bool
    asleep = any sleeper before || any sleeper after

    held : ℕ → Bool
    held u = any (holds u) before || any (holds u) after

    abbrev Parts : Thread → Shared → Type 0
    Parts t sh =
        let cover = well (is_covered (before ++ t ∷ after) sh) in
        HasLeader asleep held t sh
        × HasBatch asleep held sh
        × (all cover before ≡ true)
        × (cover t ≡ true)
        × (all cover after ≡ true)

    is_live-Parts :
        (t : Thread) (sh : Shared) → (is_live (before ++ t ∷ after, sh) ≡ true) ↔ Parts t sh
    unfolding asleep all
    is_live-Parts t sh = ground (
      arith,
      is_live_at before after t sh,
      all-append (well (is_covered (before ++ t ∷ after) sh)) before (t ∷ after),
    )

    covered_more :
        (t t' : Thread) (sh sh' : Shared)
        → ((o : ℕ) → covered asleep held t sh o ≡ true → covered asleep held t' sh' o ≡ true)
        → (o : ℕ) → is_covered (before ++ t ∷ after) sh o ≡ true
        → is_covered (before ++ t' ∷ after) sh' o ≡ true
    unfolding asleep held covered
    covered_more t t' sh sh' more o h =
        ground (arith, covered_at before after t sh o, covered_at before after t' sh' o, more o)

    turn-is_live :
        (w : World) (t t' : Thread) (sh sh' : Shared)
        → run client w t sh ≡ some (t', sh')
        → is_live (before ++ t ∷ after, sh) ≡ true
        → is_live (before ++ t' ∷ after, sh') ≡ true
    unfolding asleep held
    turn-is_live w t t' sh sh' ran live =
        let (leader, batch, first, self, last) = (is_live-Parts t sh).0 live in
        let kept : KeepsIf asleep held t sh (some (t', sh')) =
          subst (λ r. KeepsIf asleep held t sh r) ran
            (run-Keeps asleep held client w t sh leader batch) in
        let more = covered_more t t' sh sh' kept.2 in
        let p = is_covered (before ++ t ∷ after) sh in
        let q = is_covered (before ++ t' ∷ after) sh' in
        (is_live-Parts t' sh').1 (
          kept.0,
          kept.1,
          all_imp (well p) (well q) (well_imp p q more) before first,
          well_imp (covered asleep held t' sh') q
              (λ o h. ground (arith, covered_at before after t' sh' o)) t' kept.3,
          all_imp (well p) (well q) (well_imp p q more) after last,
        )

  pub Step-is_live :
      {s s' : List Thread × Shared} → Step client s s' → is_live s ≡ true → is_live s' ≡ true
  Step-is_live (turn w before after t t' sh sh' ran) live =
      turn-is_live before after w t t' sh sh' ran live

-- ===== src/Osv/Batch/Ends.antt =====
-- Every run of the threads of `_query_package_first_page` in policy-sync/policy_sync/osv.py ends.
use artea.Base.{
  ℕ, ◌*◌, ◌≤◌, ◌<◌, ◌≡◌, refl, Bool, true, false, not, ◌||◌, some, List, [], ◌∷◌, ◌++◌, map,
  eq_text, eq_pair, eq_nat, is_some, contains, arith, ◌⊎◌, inl, inr, Option-cases,
}
use artea.Base.Dict.{get, values}
use artea.Base.Any.{any-append, any_imp, any_split, not-all}
use artea.Base.Lists.{length, all, any, all-append}
use artea.Osv.Batch.{
  Key, PageCache, Client, Batch, World, Thread, asks, missed, sleeps, waits, resolves, returned,
  Shared, run, Step, turn, Run, here, next, start,
}
use artea.Osv.Batch.Cost.{total-asks, weight, Run-weight}
use artea.Osv.Batch.Keeps.{is_live, sleeper, holds, is_covered, well, no_batch}
use artea.Osv.Batch.Progress.{Step-is_live}

unfoldable pub is_returned : Thread → Bool
is_returned (returned outcome) = true
is_returned t = false

unfoldable can_run : Shared → Thread → Bool
unfolding get
can_run sh (waits o) = is_some (get o sh.outcomes)
can_run sh (returned outcome) = false
can_run sh t = true

sleeper-can_run : (sh : Shared) (t : Thread) → sleeper t ≡ true → can_run sh t ≡ true
unfolding sleeper can_run
sleeper-can_run sh (asks key) h = cc
sleeper-can_run sh (missed key) h = cc
sleeper-can_run sh (sleeps o) h = refl
sleeper-can_run sh (waits o) h = cc
sleeper-can_run sh (resolves own batch todo found) h = cc
sleeper-can_run sh (returned outcome) h = cc

holds-can_run : (sh : Shared) (o : ℕ) (t : Thread) → holds o t ≡ true → can_run sh t ≡ true
unfolding holds can_run
holds-can_run sh o (asks key) h = cc
holds-can_run sh o (missed key) h = cc
holds-can_run sh o (sleeps u) h = cc
holds-can_run sh o (waits u) h = cc
holds-can_run sh o (resolves own batch todo found) h = refl
holds-can_run sh o (returned outcome) h = cc

in_batch : (o : ℕ) (batch : Batch) → contains o (values batch) ≡ true → no_batch batch ≡ false
unfolding contains no_batch
in_batch o [] h = cc
in_batch o (q ∷ batch) h = refl

-- A thread that has not returned can run, or another one can.
someone_runs :
    (threads : List Thread) (sh : Shared)
    → is_live (threads, sh) ≡ true
    → (t : Thread) → not (is_returned t) ≡ true
    → well (is_covered threads sh) t ≡ true
    → (can_run sh t || any (can_run sh) threads) ≡ true
unfolding is_live is_returned can_run well is_covered no_batch contains
someone_runs threads sh live (asks key) r w = refl
someone_runs threads sh live (missed key) r w = refl
someone_runs threads sh live (sleeps o) r w = refl
someone_runs threads sh live (resolves own batch todo found) r w = refl
someone_runs threads sh live (returned outcome) r w = cc
someone_runs threads sh live (waits o) r w =
    let s = any_imp sleeper (can_run sh) (sleeper-can_run sh) threads in
    let h = any_imp (holds o) (can_run sh) (holds-can_run sh o) threads in
    ground (arith, s, h, in_batch o sh.pending)

all-well :
    (covered : ℕ → Bool) (before after : List Thread) (t : Thread)
    → all (well covered) (before ++ t ∷ after) ≡ true
    → well covered t ≡ true
unfolding all
all-well covered before after t h = ground (arith, all-append (well covered) before (t ∷ after))

someone :
    (threads : List Thread) (sh : Shared)
    → is_live (threads, sh) ≡ true
    → any (λ t. not (is_returned t)) threads ≡ true
    → any (can_run sh) threads ≡ true
unfolding is_live any
someone threads sh live left =
    let (before, after, t, r, e) = any_split (λ u. not (is_returned u)) threads left in
    let w : well (is_covered threads sh) t ≡ true =
      all-well (is_covered threads sh) before after t (rw (← e) (ground arith)) in
    ground
      (arith, someone_runs threads sh live t r w, e, any-append (can_run sh) before (t ∷ after))

can_run_lem :
    (client : Client) (w : World) (sh : Shared) (t : Thread)
    → can_run sh t ≡ true
    → (r : Thread × Shared) × (run client w t sh ≡ some r)
unfolding can_run run
can_run_lem client w sh (asks key) h = (_, refl)
can_run_lem client w sh (missed key) h = (_, refl)
can_run_lem client w sh (sleeps own) h = (_, refl)
can_run_lem client w sh (resolves own batch [] found) h = (_, refl)
can_run_lem client w sh (resolves own batch (q ∷ todo) found) h = (_, refl)
can_run_lem client w sh (waits o) h = elim (Option-cases (get o sh.outcomes)) [
  | inl n ↦ ground arith
  | inr (outcome, n) ↦ ((returned outcome, sh), rw (run, n) refl)
]
can_run_lem client w sh (returned outcome) h = cc

asks-well : (covered : ℕ → Bool) (asked : List Key) → all (well covered) (map asks asked) ≡ true
unfolding all well
asks-well covered [] = refl
asks-well covered (key ∷ asked) = asks-well covered asked

start-is_live : (asked : List Key) (pages : PageCache) → is_live (start asked pages) ≡ true
unfolding is_live no_batch
start-is_live asked pages =
    let (threads, sh) = start asked pages in asks-well (is_covered threads sh) asked

-- Where a thread has not returned, one can take a step.
is_live_progress :
    (client : Client) (w : World) (threads : List Thread) (sh : Shared)
    → is_live (threads, sh) ≡ true
    → (all is_returned threads ≡ true)
      ⊎ ((s' : List Thread × Shared) × Step client (threads, sh) s')
unfolding is_live
is_live_progress client w threads sh live = elim (not-all is_returned threads) [
  | inl done ↦ inl done
  | inr some_left ↦
      let (before, after, t, can, e) =
        any_split (can_run sh) threads (someone threads sh live some_left) in
      let ((t', sh'), ran) = can_run_lem client w sh t can in
      inr ((before ++ t' ∷ after, sh'), rw e (turn w before after t t' sh sh' ran))
]

module _ (client : Client) (positive : 0 < client.batch_size) where
  Run-is_live :
      (asked : List Key) (pages : PageCache) {n : ℕ} {s : List Thread × Shared}
      → Run client (start asked pages) n s
      → is_live s ≡ true
  Run-is_live asked pages here = start-is_live asked pages
  Run-is_live asked pages (next r st) = Step-is_live client st (Run-is_live asked pages r)

  -- However the threads that ask for package pages take turns, and whatever the clock and OSV give at
  -- each step: if the batch size is positive, a run has at most six times as many steps, of all the
  -- threads together, as there are threads, and as long as one of them has not returned, some thread
  -- can take a step.
  pub Run-ends :
      (w : World) (asked : List Key) (pages : PageCache) {n : ℕ} {s : List Thread × Shared}
      → Run client (start asked pages) n s
      → (n ≤ 6 * length asked)
        × ((all is_returned s.0 ≡ true) ⊎ ((s' : List Thread × Shared) × Step client s s'))
  unfolding weight
  Run-ends w asked pages {n} {s} r = (
    omega (arith, Run-weight client positive r, total-asks asked),
    is_live_progress client w s.0 s.1 (Run-is_live asked pages r),
  )

-- ===== src/Osv/Batch/Keeps.antt =====
-- What one step of a thread in `_query_package_first_page` of policy-sync/policy_sync/osv.py does to
-- the others that wait.
use artea.Base.{
  ℕ, suc, ◌≡◌, refl, Bool, true, false, not, ◌&&◌, ◌||◌, Option, none, some, List, [], ◌∷◌, eq_text,
  eq_pair, eq_nat, is_some, contains, Result, ok, err, arith, inl, inr, Bool-cases, Option-cases,
}
use artea.Base.Dict.{get, put, values, get-put}
use artea.Base.Entries.{get-values, put-values}
use artea.Base.Lists.{take, drop, all, any}
use artea.Osv.{OsvError}
use artea.Osv.Json.{Members}
use artea.Osv.Batch.{
  Key, PageCache, Client, Batch, Found, Outcomes, World, Thread, asks, missed, sleeps, waits,
  resolves, returned, Shared, after_cache, lead_or_wait, join, finish, after_chunk, run, set_events,
  object_outcome, cached_page, resolve_chunk,
}

settled-set_events :
    (found : Result OsvError Found) (o : ℕ) (batch : Batch) (outcomes : Outcomes)
    → is_some (get o (set_events found batch outcomes))
      ≡ (contains o (values batch) || is_some (get o outcomes))
unfolding set_events contains
settled-set_events found o [] outcomes = refl
settled-set_events found o ((key, u) ∷ batch) outcomes = ground (
  arith,
  settled-set_events found o batch (put u (object_outcome found u) outcomes),
  get-put u o (object_outcome found u) outcomes,
)

unfoldable pub sleeper : Thread → Bool
sleeper (sleeps o) = true
sleeper t = false

unfoldable pub holds : ℕ → Thread → Bool
unfolding contains
holds o (resolves own batch todo found) = contains o (values batch)
holds o t = false

-- An object whose event is set, or will be by a thread that leads or resolves
unfoldable pub is_covered : List Thread → Shared → ℕ → Bool
unfolding contains any holds get
is_covered threads sh o =
    is_some (get o sh.outcomes) || contains o (values sh.pending) || any (holds o) threads

unfoldable pub well : (ℕ → Bool) → Thread → Bool
well covered (waits o) = covered o
well covered t = true

unfoldable pub no_batch : Batch → Bool
no_batch [] = true
no_batch (q ∷ qs) = false

-- Who waits will be woken: a batch that is open has a leader, and every object waited for is in a batch.
unfoldable pub is_live : List Thread × Shared → Bool
unfolding sleeper any all well is_covered no_batch
is_live (threads, sh) =
    (not sh.active || any sleeper threads)
    && (sh.active || no_batch sh.pending)
    && all (well (is_covered threads sh)) threads

-- What the other threads do: whether one sleeps, and which objects they hold
module _ (asleep : Bool) (held : ℕ → Bool) where
  unfoldable pub covered : Thread → Shared → ℕ → Bool
  unfolding contains holds get
  covered t sh o =
      is_some (get o sh.outcomes) || contains o (values sh.pending) || (holds o t || held o)

  abbrev pub HasLeader : Thread → Shared → Type 0
  HasLeader t sh = (not sh.active || (sleeper t || asleep)) ≡ true

  abbrev pub HasBatch : Shared → Type 0
  HasBatch sh = (sh.active || no_batch sh.pending) ≡ true

  abbrev pub Keeps : Thread → Shared → Thread × Shared → Type 0
  Keeps t sh (t', sh') =
      HasLeader t' sh'
      × HasBatch sh'
      × ((o : ℕ) → covered t sh o ≡ true → covered t' sh' o ≡ true)
      × (well (covered t' sh') t' ≡ true)

  after_cache-Keeps :
      (key : Key) (sh : Shared) (r : PageCache × Option Members)
      → HasLeader (asks key) sh
      → HasBatch sh
      → Keeps (asks key) sh (after_cache key sh r)
  unfolding after_cache sleeper covered holds well
  after_cache-Keeps key sh (pages, none) leader batch = (leader, batch, (λ o h. h), refl)
  after_cache-Keeps key sh (pages, some page) leader batch = (leader, batch, (λ o h. h), refl)

  lead_or_wait-Keeps :
      (key : Key) (o : ℕ) (sh : Shared)
      → HasLeader (missed key) sh
      → contains o (values sh.pending) ≡ true
      → Keeps (missed key) sh (lead_or_wait o sh)
  unfolding lead_or_wait sleeper covered holds well
  lead_or_wait-Keeps key o sh leader mem = elim (Bool-cases sh.active) [
    | inl a ↦ rw a (ground arith)
    | inr a ↦ rw a (ground arith)
  ]

  Keeps-trans :
      (t : Thread) (sh mid : Shared) (r : Thread × Shared)
      → ((o : ℕ) → covered t sh o ≡ true → covered t mid o ≡ true)
      → Keeps t mid r
      → Keeps t sh r
  Keeps-trans t sh mid (t', sh') more (leader, batch, keeps, woken) =
      (leader, batch, (λ o h. keeps o (more o h)), woken)

  join-Keeps :
      (key : Key) (sh : Shared) → HasLeader (missed key) sh → Keeps (missed key) sh (join key sh)
  unfolding join covered holds
  join-Keeps key sh leader = elim (Option-cases (get key sh.pending)) [
    | inl none_there ↦
        let mid : Shared = record sh {
          pending = put key sh.objects sh.pending;
          objects = suc sh.objects;
        } in
        rw (join, none_there)
          (Keeps-trans (missed key) sh mid (lead_or_wait sh.objects mid)
            (λ o h. ground (arith, put-values key sh.objects o sh.pending none_there))
            (lead_or_wait-Keeps key sh.objects mid leader
              (ground (arith, put-values key sh.objects sh.objects sh.pending none_there))))
    | inr (o, there) ↦
        rw (join, there) (lead_or_wait-Keeps key o sh leader (get-values key o sh.pending there))
  ]

  finish-Keeps :
      (own : ℕ) (batch todo : Batch) (found : Found) (answer : Result OsvError Found) (sh : Shared)
      → HasLeader (resolves own batch todo found) sh
      → HasBatch sh
      → Keeps (resolves own batch todo found) sh (finish own batch answer sh)
  unfolding finish covered holds sleeper well
  finish-Keeps own batch todo found answer sh leader open_batch = (
    leader,
    open_batch,
    (λ o h. ground (arith, settled-set_events answer o batch sh.outcomes)),
    refl,
  )

  after_chunk-Keeps :
      (own : ℕ) (batch todo rest : Batch) (found : Found) (sh : Shared)
      (r : PageCache × Result OsvError Found)
      → HasLeader (resolves own batch todo found) sh
      → HasBatch sh
      → Keeps (resolves own batch todo found) sh (after_chunk own batch rest sh r)
  unfolding after_chunk covered holds sleeper well
  after_chunk-Keeps own batch todo rest found sh (pages, err e) leader open_batch =
      finish-Keeps own batch todo found (err e) (record sh { pages = pages }) leader open_batch
  after_chunk-Keeps own batch todo rest found sh (pages, ok more) leader open_batch =
      (leader, open_batch, (λ o h. h), refl)

  abbrev pub KeepsIf : Thread → Shared → Option (Thread × Shared) → Type 0
  KeepsIf t sh none = Unit
  KeepsIf t sh (some r) = Keeps t sh r

  pub run-Keeps :
      (client : Client) (w : World) (t : Thread) (sh : Shared)
      → HasLeader t sh
      → HasBatch sh
      → KeepsIf t sh (run client w t sh)
  unfolding run covered holds sleeper well no_batch
  run-Keeps client w (asks key) sh leader batch =
      after_cache-Keeps key sh (cached_page client w.now key sh.pages) leader batch
  run-Keeps client w (missed key) sh leader batch = join-Keeps key sh leader
  run-Keeps client w (sleeps own) sh leader batch = (refl, refl, (λ o h. ground arith), refl)
  run-Keeps client w (resolves own b [] found) sh leader batch =
      finish-Keeps own b [] found (ok found) sh leader batch
  run-Keeps client w (resolves own b (q ∷ todo) found) sh leader batch =
      after_chunk-Keeps own b (q ∷ todo) (drop client.batch_size (q ∷ todo)) found sh
        (resolve_chunk client w (take client.batch_size (q ∷ todo)) sh.pages found) leader batch
  run-Keeps client w (waits o) sh leader batch = elim (Option-cases (get o sh.outcomes)) [
    | inl n ↦ rw (run, n) tt
    | inr (r, n) ↦ rw (run, n) (leader, batch, (λ u h. h), refl)
  ]
  run-Keeps client w (returned outcome) sh leader batch = tt

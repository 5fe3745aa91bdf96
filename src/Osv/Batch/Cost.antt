-- ===== src/Osv/Batch/Cost.antt =====
-- How much the threads of `_query_package_first_page` in policy-sync/policy_sync/osv.py have left to do.
use mathlib.Core.Path.{subst}
use artea.Base.{
  ℕ, suc, ◌+◌, ◌*◌, ◌≤◌, ◌<◌, ◌≡◌, refl, Option, none, some, List, [], ◌∷◌, ◌++◌, map, eq_text,
  eq_pair, eq_nat, Result, ok, err, arith, inl, inr, Bool-cases, Option-cases,
}
use artea.Base.Dict.{get, put, length-put-le}
use artea.Base.Lists.{length, take, drop, length-drop}
use artea.Osv.{OsvError}
use artea.Osv.Json.{Members}
use artea.Osv.Batch.{
  Key, PageCache, Client, Batch, Found, World, Thread, asks, missed, sleeps, waits, resolves,
  returned, Shared, after_cache, lead_or_wait, join, finish, after_chunk, run, Step, turn, Run,
  here, next, cached_page, resolve_chunk,
}

-- What is left to do, at most
unfoldable pub cost : Thread → ℕ
cost (asks key) = 6
cost (missed key) = 5
cost (sleeps own) = 3
cost (resolves own batch todo found) = length todo + 2
cost (waits o) = 1
cost (returned outcome) = 0

unfoldable pub total : List Thread → ℕ
unfolding cost
total [] = 0
total (t ∷ ts) = cost t + total ts

total-append : (xs ys : List Thread) → total (xs ++ ys) ≡ total xs + total ys
unfolding total
total-append [] ys = ground arith
total-append (x ∷ xs) ys = ground (arith, total-append xs ys)

pub total-asks : (asked : List Key) → total (map asks asked) ≡ 6 * length asked
unfolding total cost
total-asks [] = refl
total-asks (k ∷ ks) = ground (arith, total-asks ks)

unfoldable pub weight : List Thread × Shared → ℕ
unfolding total
weight (threads, sh) = total threads + length sh.pending

abbrev LighterIf : Thread → Shared → Option (Thread × Shared) → Type 0
LighterIf t sh none = Unit
LighterIf t sh (some (t', sh')) = suc (cost t' + length sh'.pending) ≤ cost t + length sh.pending

after_cache-LighterIf :
    (key : Key) (sh : Shared) (r : PageCache × Option Members)
    → LighterIf (asks key) sh (some (after_cache key sh r))
unfolding after_cache cost
after_cache-LighterIf key sh (pages, none) = ground arith
after_cache-LighterIf key sh (pages, some page) = ground arith

lead_or_wait-LighterIf :
    (key : Key) (o : ℕ) (sh mid : Shared)
    → length mid.pending ≤ length sh.pending + 1
    → LighterIf (missed key) sh (some (lead_or_wait o mid))
unfolding lead_or_wait cost
lead_or_wait-LighterIf key o sh mid h = elim (Bool-cases mid.active) [
  | inl a ↦ rw (lead_or_wait, a) (ground arith)
  | inr a ↦ rw (lead_or_wait, a) (ground arith)
]

join-LighterIf : (key : Key) (sh : Shared) → LighterIf (missed key) sh (some (join key sh))
unfolding join
join-LighterIf key sh = elim (Option-cases (get key sh.pending)) [
  | inl n ↦
      rw (join, n)
        (lead_or_wait-LighterIf key sh.objects sh
          (record sh { pending = put key sh.objects sh.pending; objects = suc sh.objects })
          (length-put-le key sh.objects sh.pending))
  | inr (o, n) ↦ rw (join, n) (lead_or_wait-LighterIf key o sh sh (omega arith))
]

after_chunk-LighterIf :
    (own : ℕ) (batch todo rest : Batch) (found : Found) (sh : Shared)
    (r : PageCache × Result OsvError Found)
    → length rest < length todo
    → LighterIf (resolves own batch todo found) sh (some (after_chunk own batch rest sh r))
unfolding after_chunk finish cost
after_chunk-LighterIf own batch todo rest found sh (pages, err e) h = ground arith
after_chunk-LighterIf own batch todo rest found sh (pages, ok more) h = ground arith

module _ (client : Client) (positive : 0 < client.batch_size) where
  run-LighterIf : (w : World) (t : Thread) (sh : Shared) → LighterIf t sh (run client w t sh)
  unfolding run finish cost
  run-LighterIf w (asks key) sh =
      after_cache-LighterIf key sh (cached_page client w.now key sh.pages)
  run-LighterIf w (missed key) sh = join-LighterIf key sh
  run-LighterIf w (sleeps own) sh = ground arith
  run-LighterIf w (resolves own b [] found) sh = ground arith
  run-LighterIf w (resolves own b (q ∷ todo) found) sh =
      after_chunk-LighterIf own b (q ∷ todo) (drop client.batch_size (q ∷ todo)) found sh
        (resolve_chunk client w (take client.batch_size (q ∷ todo)) sh.pages found)
        (omega (arith, length-drop client.batch_size (q ∷ todo)))
  run-LighterIf w (waits o) sh = elim (Option-cases (get o sh.outcomes)) [
    | inl n ↦ rw (run, n) tt
    | inr (r, n) ↦ rw (run, n) (ground arith)
  ]
  run-LighterIf w (returned outcome) sh = tt

  Step-lighter : {s s' : List Thread × Shared} → Step client s s' → suc (weight s') ≤ weight s
  unfolding weight total
  Step-lighter (turn w before after t t' sh sh' ran) =
      let lighter : LighterIf t sh (some (t', sh')) =
        subst (λ r. LighterIf t sh r) ran (run-LighterIf w t sh) in
      ground (arith, lighter, total-append before (t ∷ after), total-append before (t' ∷ after))

  pub Run-weight :
      {from : List Thread × Shared} {n : ℕ} {s : List Thread × Shared}
      → Run client from n s
      → n + weight s ≤ weight from
  Run-weight here = omega arith
  Run-weight (next r st) = omega (arith, Step-lighter st, Run-weight r)

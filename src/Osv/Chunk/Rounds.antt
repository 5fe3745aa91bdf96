-- ===== src/Osv/Chunk/Rounds.antt =====
-- One round of `_query_chunk` in policy-sync/policy_sync/osv.py, on the pages of its versions.
use mathlib.Core.Option.{get_or}
use artea.Base.{
  ℕ, zero, suc, ◌≡◌, refl, Bool, true, false, not, ◌&&◌, some, List, [], ◌∷◌, map, Text, codes,
  eq_text, ◌==◌, if◌then◌else◌, contains, ok, arith,
}
use artea.Base.Dict.{get, put, get-put}
use artea.Base.Lists.{length, keep, IsUnique}
use artea.Base.Sort.{sorted}
use artea.Osv.{Verdict}
use artea.Osv.Json.{Json, object, Members, array_of, items, at}
use artea.Osv.Records.{list_of}
use artea.Osv.Records.Verdicts.{IdsByVersion, is_blocked}
use artea.Osv.Records.Pages.{max_pages, token_of}
use artea.Osv.Chunk.{Tokens, token_at, add_mal_ids, put_token, is_blank, with_result, read_results}

pub items-array_of : (js : List Json) → items (array_of js) ≡ js
unfolding items array_of
items-array_of [] = refl
items-array_of (j ∷ js) = rw (items-array_of js) refl

pub length-map {ℓ} : {A B : Type ℓ} (f : A → B) (xs : List A) → length (map f xs) ≡ length xs
length-map f [] = refl
length-map f (x ∷ xs) = rw (length-map f xs) refl

-- The ids of a version that has been seen, or no ids
abbrev pub ids_at : Text → IdsByVersion → List Text
ids_at v ids = get_or (get v ids) []

module _ (page : Text → Text → Members) (vulns : Text → Text → List Json) where
  -- The token that the page of a version under a token gives
  abbrev pub following : Text → Text → Text
  following v token = token_of (at (codes "next_page_token") (page v token))

  -- The pages of a version end within a number of pages.
  unfoldable pub ends : ℕ → Text → Text → Bool
  unfolding token_of at is_blank
  ends zero v token = false
  ends (suc n) v token =
      let rest = ends n v (following v token) in if is_blank (following v token) then true else rest

  -- The ids of the pages of a version, one page after the other
  unfoldable pub chain_ids : ℕ → Text → Text → List Text → List Text
  unfolding token_of at is_blank add_mal_ids
  chain_ids zero v token ids = ids
  chain_ids (suc n) v token ids =
      let more = add_mal_ids (vulns v token) ids in
      let rest = chain_ids n v (following v token) more in
      if is_blank (following v token) then more else rest

  -- The verdict on a version by the ids of its own pages
  unfoldable pub chain_verdict : Text → Verdict
  unfolding chain_ids is_blocked
  chain_verdict v =
      let found = chain_ids max_pages v [] [] in
      record { version = v; blocked = is_blocked found; ids = sorted found }

  abbrev pub Listed : Type 0
  Listed = (v token : Text) → list_of (at (codes "vulns") (page v token)) ≡ some (vulns v token)

  module _ (t : Text → Text) where
    unfoldable pub tokens_after : List Text → Tokens → Tokens
    unfolding put_token
    tokens_after [] tokens = tokens
    tokens_after (v ∷ vs) tokens = tokens_after vs (put_token v (following v (t v)) tokens)

    unfoldable pub ids_after : List Text → IdsByVersion → IdsByVersion
    unfolding put add_mal_ids get
    ids_after [] ids = ids
    ids_after (v ∷ vs) ids = ids_after vs (put v (add_mal_ids (vulns v (t v)) (ids_at v ids)) ids)

    abbrev pub going : Text → Bool
    going v = not (is_blank (following v (t v)))

    pub read_results_lem :
        ((v token : Text) → list_of (at (codes "vulns") (page v token)) ≡ some (vulns v token))
        → (vs : List Text) (tokens : Tokens) (ids : IdsByVersion)
        → read_results vs (map (λ v. object (page v (t v))) vs) tokens ids
          ≡ ok (keep going vs, (tokens_after vs tokens, ids_after vs ids))
    unfolding read_results keep tokens_after ids_after with_result
    read_results_lem listed [] tokens ids = refl
    read_results_lem listed (v ∷ vs) tokens ids =
        rw
          (
            read_results,
            listed v (t v),
            read_results_lem listed vs (put_token v (following v (t v)) tokens)
                (put v (add_mal_ids (vulns v (t v)) (ids_at v ids)) ids),
          )
          (ground arith)

    token_at-put_token :
        (v w token : Text) (tokens : Tokens)
        → token_at v (put_token w token tokens)
          ≡ (if w == v && not (is_blank token) then token else token_at v tokens)
    unfolding token_at put_token is_blank
    token_at-put_token v w [] tokens = ground arith
    token_at-put_token v w (c ∷ token) tokens = ground (arith, get-put w v (c ∷ token) tokens)

    pub token_at-tokens_after :
        (v : Text) (vs : List Text) (tokens : Tokens)
        → token_at v (tokens_after vs tokens)
          ≡ (if contains v vs && going v then following v (t v) else token_at v tokens)
    unfolding tokens_after contains
    token_at-tokens_after v [] tokens = refl
    token_at-tokens_after v (w ∷ vs) tokens = ground (
      arith,
      token_at-tokens_after v vs (put_token w (following w (t w)) tokens),
      token_at-put_token v w (following w (t w)) tokens,
      eq_text.beq_iff w v,
    )

    pub ids_at-ids_after :
        (v : Text) (vs : List Text) (ids : IdsByVersion)
        → IsUnique vs
        → ids_at v (ids_after vs ids)
          ≡ (if contains v vs then add_mal_ids (vulns v (t v)) (ids_at v ids) else ids_at v ids)
    unfolding ids_after contains
    ids_at-ids_after v [] ids u = refl
    ids_at-ids_after v (w ∷ vs) ids u =
        let more = add_mal_ids (vulns w (t w)) (ids_at w ids) in
        ground (
          arith,
          ids_at-ids_after v vs (put w more ids) u.1,
          get-put w v more ids,
          eq_text.beq_iff w v,
        )

-- ===== src/Devpi/Client/Idempotent.antt =====
-- Applying the constraints twice patches once: `apply_constraints` of policy-sync/policy_sync/devpi.py
-- with the plugin's normalization.
use artea.Base.{
  ◌≡◌, refl, ◌∙◌, ap, Bool, true, false, ◌&&◌, Option, some, List, [], ◌∷◌, map, Text, codes,
  eq_text, text_eq, list_eq_iff, ◌==◌, if◌then◌else◌, ok, err, ◌>>=◌, >>=-eq-ok, ok-injective,
  Result-cases, Bool-cases, inl, inr, arith,
}
use mathlib.Core.Option.{get_or}
use artea.Osv.Json.{
  Json, Members, string, array, object, items, array_of, at, find, set_member, find-set_member,
  at-find,
}
use artea.Devpi.Lines.{splitlines, effective, constraint_lines}
use artea.Devpi.Lines.Strip.{effective_idem}
use artea.Devpi.Plugin.Constraints.{normalize_indexconfig_value, normalize_constraints}
use artea.Devpi.Client.{
  Reply, failed, body, DevpiError, request, is_text, has_expected_base, result_of, config_of,
  check_config, read_config, Devpi, text_of, effective_lines, same_lines, is_current, updated,
  patched, apply_config, apply_constraints,
}

pub at-set_member :
    (k j : Text) (v : Json) (ms : Members)
    → at j (set_member k v ms) ≡ (if k == j then v else at j ms)
at-set_member k j v ms =
    ground (arith, at-find j (set_member k v ms), at-find j ms, find-set_member k j v ms)

checked :
    (config c : Members)
    → check_config config ≡ ok c
    → (is_text (codes "constrained") (at (codes "type") config) ≡ true)
      × (has_expected_base (at (codes "bases") config) ≡ true)
      × (config ≡ c)
unfolding check_config
checked config c h = ground (arith, h)

rechecked :
    (config : Members)
    → is_text (codes "constrained") (at (codes "type") config) ≡ true
    → has_expected_base (at (codes "bases") config) ≡ true
    → check_config config ≡ ok config
unfolding check_config
rechecked config h k = rw (check_config, h, k) refl

read_config-checked :
    (reply : Reply) {config : Members}
    → read_config reply ≡ ok config
    → (is_text (codes "constrained") (at (codes "type") config) ≡ true)
      × (has_expected_base (at (codes "bases") config) ≡ true)
unfolding read_config
read_config-checked reply {config} h =
    let (answer, _, h) = >>=-eq-ok (request reply) _ h in
    let (result, _, h) = >>=-eq-ok (result_of answer) _ h in
    let (c, _, h) = >>=-eq-ok (config_of result) _ h in
    let (t, b, same) = checked c config h in (rw same at t, rw same at b)

reads_back :
    (answer stored : Members)
    → at (codes "result") answer ≡ object stored
    → check_config stored ≡ ok stored
    → read_config (body (object answer)) ≡ ok stored
unfolding read_config request result_of
reads_back answer stored e h = ap (λ j. config_of j >>= check_config) e ∙ unfold config_of in h

pub normalized :
    (text : Text) (stored : Json)
    → normalize_indexconfig_value (codes "constraints") (string text) ≡ ok stored
    → array (array_of (map string (constraint_lines text))) ≡ stored
unfolding normalize_indexconfig_value normalize_constraints text_eq
normalized text stored h = ok-injective h

same_lines_refl : (ls : List Text) → same_lines (some ls) (some ls) ≡ true
unfolding same_lines
same_lines_refl ls = (list_eq_iff ls ls).1 refl

sent_patch :
    {D : Type 0} (r : D × Reply) {sent : Bool}
    → (patched r).1 ≡ ok sent
    → (j : Json) × (r.1 ≡ body j) × (patched r ≡ (r.0, ok true))
unfolding patched
sent_patch (d, failed) h = absurd (cc h)
sent_patch (d, body j) h = (j, refl, refl)

both : {a b : Bool} → a ≡ true → b ≡ true → (a && b) ≡ true
both h k = ground (arith, h, k)

module _ {D : Type 0} (devpi : Devpi D) where
  items-array_of : (ss : List Text) → map (text_of devpi) (items (array_of (map string ss))) ≡ ss
  unfolding items array_of text_of
  items-array_of [] = refl
  items-array_of (s ∷ ss) = ap (λ r. s ∷ r) (items-array_of ss)

  -- What devpi documents of a patch: the index then holds the config, with the constraints as the
  -- plugin normalizes them.
  abbrev pub Stores : Type 0
  Stores =
      (d : D) (config : Members) (text : Text) (j : Json)
      → find (codes "constraints") config ≡ some (string text)
      → (devpi.patch_index d config).1 ≡ body j
      → (answer : Members) × (stored : Members) × (devpi.get_index (devpi.patch_index d config).0
          ≡ body (object answer))
        × (at (codes "result") answer ≡ object stored)
        × (at (codes "type") stored ≡ at (codes "type") config)
        × (at (codes "bases") stored ≡ at (codes "bases") config)
        × (find (codes "min_upstream_age") stored ≡ find (codes "min_upstream_age") config)
        × (normalize_indexconfig_value (codes "constraints") (string text)
            ≡ ok (at (codes "constraints") stored))

  effective_lines-array :
      (ls : List Text)
      → effective_lines devpi (array (array_of (map string ls))) ≡ some (effective ls)
  unfolding effective_lines
  effective_lines-array ls = ap (λ ss. lines_of (effective ss)) (items-array_of ls)
    where
      lines_of : List Text → Option (List Text)
      lines_of ss = some ss

  stored_lines :
      (text : Text) (stored : Json)
      → normalize_indexconfig_value (codes "constraints") (string text) ≡ ok stored
      → effective_lines devpi stored ≡ effective_lines devpi (string text)
  stored_lines text stored normal =
      rw (← normalized text stored normal)
        (effective_lines-array (constraint_lines text) ∙ again text)
    where
      again : (t : Text) → some (effective (constraint_lines t)) ≡ effective_lines devpi (string t)
      again t =
          unfold effective_lines constraint_lines in
          ap {B = Option (List Text)} (λ ss. some ss) (effective_idem (splitlines t))

  stored-is_current :
      (stored : Members) (text age : Text)
      → find (codes "min_upstream_age") stored ≡ some (string age)
      → normalize_indexconfig_value (codes "constraints") (string text)
        ≡ ok (at (codes "constraints") stored)
      → is_current devpi stored text age ≡ true
  unfolding is_current
  stored-is_current stored text age kept normal =
      let lines : same_lines (effective_lines devpi (at (codes "constraints") stored))
            (effective_lines devpi (string text))
          ≡ true =
        rw (stored_lines text (at (codes "constraints") stored) normal)
          (unfold effective_lines in same_lines_refl (effective (splitlines text))) in
      let aged : is_text age
            (get_or (find (codes "min_upstream_age") stored) (string (codes "P0D")))
          ≡ true =
        rw kept (unfold is_text in (eq_text.beq_iff age age).1 refl) in
      both lines aged

  -- The config that is sent
  updated_type :
      (config : Members) (text age : Text)
      → (at (codes "type") (updated config text age) ≡ at (codes "type") config)
        × (at (codes "bases") (updated config text age) ≡ at (codes "bases") config)
        × (find (codes "min_upstream_age") (updated config text age) ≡ some (string age))
        × (find (codes "constraints") (updated config text age) ≡ some (string text))
  unfolding updated text_eq
  updated_type config text age = (
    at-set_member (codes "min_upstream_age") (codes "type") (string age)
          (set_member (codes "constraints") (string text) config)
        ∙ at-set_member (codes "constraints") (codes "type") (string text) config,
    at-set_member (codes "min_upstream_age") (codes "bases") (string age)
          (set_member (codes "constraints") (string text) config)
        ∙ at-set_member (codes "constraints") (codes "bases") (string text) config,
    find-set_member (codes "min_upstream_age") (codes "min_upstream_age") (string age)
        (set_member (codes "constraints") (string text) config),
    find-set_member (codes "min_upstream_age") (codes "constraints") (string age)
          (set_member (codes "constraints") (string text) config)
        ∙ find-set_member (codes "constraints") (codes "constraints") (string text) config,
  )

  module _ (stores : Stores) (text age : Text) where
    current_again :
        (d : D) (config : Members)
        → read_config (devpi.get_index d) ≡ ok config
        → is_current devpi config text age ≡ true
        → apply_constraints devpi d text age ≡ (d, ok false)
    unfolding apply_constraints apply_config
    current_again d config read same = rw (apply_constraints, read, same) refl

    refused :
        (d : D) (e : DevpiError)
        → read_config (devpi.get_index d) ≡ err e
        → apply_constraints devpi d text age ≡ (d, err e)
    unfolding apply_constraints apply_config
    refused d e read = rw (apply_constraints, read) refl

    sends :
        (d : D) (config : Members)
        → read_config (devpi.get_index d) ≡ ok config
        → is_current devpi config text age ≡ false
        → apply_constraints devpi d text age
          ≡ patched (devpi.patch_index d (updated config text age))
    unfolding apply_constraints apply_config
    sends d config read differs = rw (apply_constraints, read, differs) refl

    after_patch :
        (d : D) (config : Members) (j : Json)
        → read_config (devpi.get_index d) ≡ ok config
        → (devpi.patch_index d (updated config text age)).1 ≡ body j
        → apply_constraints devpi (devpi.patch_index d (updated config text age)).0 text age
          ≡ ((devpi.patch_index d (updated config text age)).0, ok false)
    after_patch d config j read done =
        let (t, b) = read_config-checked (devpi.get_index d) read in
        let (ut, ub, ua, uc) = updated_type config text age in
        let (answer, stored, got, found, st, sb, sa, sc) =
          stores d (updated config text age) text j uc done in
        current_again (devpi.patch_index d (updated config text age)).0 stored
          (rw got
            (reads_back answer stored found (rechecked stored (rw (st, ut) t) (rw (sb, ub) b))))
          (stored-is_current stored text age (sa ∙ ua) sc)

    -- If devpi keeps what is sent to it, with the constraints as the plugin normalizes them, then
    -- constraints that were applied are current: to apply them again changes nothing and sends no
    -- patch.
    pub apply_constraints_idem :
        (d : D) (sent : Bool)
        → (apply_constraints devpi d text age).1 ≡ ok sent
        → apply_constraints devpi (apply_constraints devpi d text age).0 text age
          ≡ ((apply_constraints devpi d text age).0, ok false)
    apply_constraints_idem d sent h = elim (Result-cases (read_config (devpi.get_index d))) [
      | inr (e, read) ↦ absurd (cc (rw (refused d e read) at h))
      | inl (config, read) ↦ elim (Bool-cases (is_current devpi config text age)) [
        | inl same ↦ let once = current_again d config read same in rw once once
        | inr differs ↦
            let step = sends d config read differs in
            let (j, done, sent) =
              sent_patch (devpi.patch_index d (updated config text age)) (rw step at h) in
            rw (step ∙ sent) (after_patch d config j read done)
      ]
    ]

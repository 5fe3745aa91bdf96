-- ===== src/Policy/Parse/Expiry.antt =====
-- How the rules depend on the time of the parse.
use artea.Base.{
  ℕ, ◌≡◌, ◌≢◌, ◌⊎◌, inl, inr, refl, Bool, true, false, Option, none, some, Text, codes, eq_text, ok,
  ◌||◌, >>=-eq-ok, raise_if, ap,
}
use mathlib.Core.Option.{get_or}
use artea.Base.Dict.{Dict, get}
use artea.Base.Int.{ℤ}
use artea.Value.{Value, DateTime, dict, str, fields}
use artea.Policy.{at_rule, bad_name, bad_namespace, Rule, name_or_namespace, reserved_name}
use artea.Policy.Parse.{
  Reader, Parsed, get_value, both_or_neither, is_star, allowed_rule_keys, reject_unknown_keys,
  parse_ecosystem, optional_text, parse_versions, parse_action, parse_reason, parse_source,
  parse_expires, is_expired, expires_text, unless_expired, read_table, parse_rule_table, parse_rule,
}

abbrev pub at_time : Reader → ℤ → Reader
at_time rd t = record rd { now = t }

ok-injective : {a b : Option Rule} → ◌≡◌ {A = Parsed (Option Rule)} (ok a) (ok b) → a ≡ b
ok-injective h = cc

expires-injective :
    {e e' : Option (DateTime × Text)} {q r : Rule}
    → ◌≡◌ {A = Parsed (Option (DateTime × Text) × Rule)} (ok (e, q)) (ok (e', r))
    → q.expires ≡ expires_text e
    → r.expires ≡ expires_text e'
expires-injective h k = cc

unless_expired-or :
    (b c : Bool) (rule : Rule) {r : Rule}
    → unless_expired b rule ≡ some r
    → (unless_expired c rule ≡ some r) ⊎ ((unless_expired c rule ≡ none) × (rule ≡ r))
unfolding unless_expired
unless_expired-or true c rule h = cc
unless_expired-or false true rule h = inr (refl, cc)
unless_expired-or false false rule h = inl h

-- What a clock makes of a rule.
unless_expired-at_time :
    (rd : Reader) (t u : ℤ) (e : Option (DateTime × Text)) (rule : Rule) {r : Rule}
    → rule.expires ≡ expires_text e
    → unless_expired (is_expired (at_time rd t) e) rule ≡ some r
    → (unless_expired (is_expired (at_time rd u) e) rule ≡ some r)
      ⊎ ((unless_expired (is_expired (at_time rd u) e) rule ≡ none) × (r.expires ≢ none))
unfolding is_expired unless_expired expires_text
unless_expired-at_time rd t u none rule x h = inl h
unless_expired-at_time rd t u (some (d, s)) rule x h =
    elim (unless_expired-or (is_expired (at_time rd t) (some (d, s)))
      (is_expired (at_time rd u) (some (d, s))) rule h) [
        | inl same ↦ inl same
        | inr (gone, e) ↦ inr (gone, λ k. cc (x, k, ap (λ (q : Rule). q.expires) e))
      ]

read_table-expires :
    (read : Text → Option DateTime) (raw : Dict Text Value) (i : ℕ) {e : Option (DateTime × Text)}
    {r : Rule}
    → read_table read raw i ≡ ok (e, r)
    → r.expires ≡ expires_text e
unfolding read_table
read_table-expires read raw i h =
    let (_, _, h) = >>=-eq-ok (reject_unknown_keys (at_rule i) allowed_rule_keys raw) _ h in
    let (_, _, h) = >>=-eq-ok (parse_ecosystem i (get_value (codes "ecosystem") raw)) _ h in
    let nv = get_value (codes "name") raw in
    let nsv = get_value (codes "namespace") raw in
    let (_, _, h) = >>=-eq-ok (raise_if (both_or_neither nv nsv) (name_or_namespace i)) _ h in
    let (name, _, h) = >>=-eq-ok (optional_text (bad_name i) nv) _ h in
    let (ns, _, h) = >>=-eq-ok (optional_text (bad_namespace i) nsv) _ h in
    let (_, _, h) = >>=-eq-ok (raise_if (is_star name || is_star ns) (reserved_name i)) _ h in
    let (_, _, h) = >>=-eq-ok (parse_versions i ns (get_value (codes "versions") raw)) _ h in
    let av = get_or (get (codes "action") raw) (str (codes "deny")) in
    let (_, _, h) = >>=-eq-ok (parse_action (at_rule i) av) _ h in
    let (_, _, h) = >>=-eq-ok (parse_reason i (get_value (codes "reason") raw)) _ h in
    let sv = get_or (get (codes "source") raw) (str (codes "curated")) in
    let (_, _, h) = >>=-eq-ok (parse_source i sv) _ h in
    let v = get_value (codes "expires") raw in
    let (e, _, h) = >>=-eq-ok (parse_expires read i v) _ h in expires-injective h refl

table-at_time :
    (rd : Reader) (raw : Dict Text Value) (i : ℕ) (t u : ℤ) {r : Rule}
    → parse_rule_table (at_time rd t) raw i ≡ ok (some r)
    → (parse_rule_table (at_time rd u) raw i ≡ ok (some r))
      ⊎ ((parse_rule_table (at_time rd u) raw i ≡ ok none) × (r.expires ≢ none))
unfolding parse_rule_table
table-at_time rd raw i t u {r} h =
    let ((e, rule), read_ok, h) = >>=-eq-ok (read_table rd.fromisoformat raw i) _ h in
    let x = read_table-expires rd.fromisoformat raw i read_ok in
    elim (unless_expired-at_time rd t u e rule x (ok-injective h)) [
      | inl same ↦ inl (rw read_ok (ap ok same))
      | inr (gone, late) ↦ inr (rw read_ok (ap ok gone), late)
    ]

-- A table that gives a rule at one time gives, at any other time, the same rule, or none if the
-- rule has an expiry: time does nothing but drop rules, and raises no error.
pub parse_rule-at_time :
    (rd : Reader) (raw : Value) (i : ℕ) (t u : ℤ) {r : Rule}
    → parse_rule (at_time rd t) raw i ≡ ok (some r)
    → (parse_rule (at_time rd u) raw i ≡ ok (some r))
      ⊎ ((parse_rule (at_time rd u) raw i ≡ ok none) × (r.expires ≢ none))
unfolding parse_rule
parse_rule-at_time rd (dict fs) i t u h = table-at_time rd (fields fs) i t u h
parse_rule-at_time rd _ i t u h = cc

-- ===== src/Policy/Parse/Allowed.antt =====
-- A misspelt key is an error: what the parser accepts has allowed keys only.
use artea.Base.{
  ℕ, ◌≡◌, refl, true, not, Option, List, [], ◌∷◌, Text, eq_text, contains, ok, >>=-eq-ok, arith,
}
use artea.Base.Lists.{contains-keep}
use artea.Base.Dict.{Dict, keys}
use artea.Value.{Value, dict, fields}
use artea.Policy.{PolicyError, Rule, Policy, unknown_top_level, unknown_key, at_rule}
use artea.Policy.Parse.{
  Reader, unknown_keys, raise_unknown, reject_unknown_keys, allowed_rule_keys, allowed_top_level,
  read_table, parse_rule_table, parse_rule, parse_document,
}

raise_unknown-nil :
    (e : List Text → PolicyError) (ks : List Text) {u : Unit} → raise_unknown e ks ≡ ok u → ks ≡ []
unfolding raise_unknown
raise_unknown-nil e [] h = refl
raise_unknown-nil e (k ∷ ks) h = cc

no_unknown_keys :
    (e : List Text → PolicyError) (allowed : List Text) (raw : Dict Text Value) {u : Unit}
    → raise_unknown e (unknown_keys allowed raw) ≡ ok u
    → (k : Text) → contains k (keys raw) ≡ true
    → contains k allowed ≡ true
unfolding unknown_keys contains
no_unknown_keys e allowed raw h k m = ground (
  arith,
  raise_unknown-nil e (unknown_keys allowed raw) h,
  contains-keep (λ (j : Text). not (contains j allowed)) k (keys raw),
)

-- The keys of a table.
abbrev pub keys_of : Value → List Text
keys_of (dict fs) = keys (fields fs)
keys_of _ = []

table-allowed :
    (rd : Reader) (raw : Dict Text Value) (i : ℕ) {o : Option Rule}
    → parse_rule_table rd raw i ≡ ok o
    → (k : Text) → contains k (keys raw) ≡ true
    → contains k allowed_rule_keys ≡ true
unfolding parse_rule_table read_table reject_unknown_keys
table-allowed rd raw i h =
    let (_, read_ok, _) = >>=-eq-ok (read_table rd.fromisoformat raw i) _ h in
    let (_, keys_ok, _) =
      >>=-eq-ok (reject_unknown_keys (at_rule i) allowed_rule_keys raw) _ read_ok in
    no_unknown_keys (unknown_key (at_rule i)) allowed_rule_keys raw keys_ok

-- A table of rules that the parser does not refuse, also one that has expired, has no key but the
-- eight of a rule.
pub parse_rule-allowed :
    (rd : Reader) (raw : Value) (i : ℕ) {o : Option Rule}
    → parse_rule rd raw i ≡ ok o
    → (k : Text) → contains k (keys_of raw) ≡ true
    → contains k allowed_rule_keys ≡ true
unfolding parse_rule
parse_rule-allowed rd (dict fs) i h = table-allowed rd (fields fs) i h
parse_rule-allowed rd _ i h = cc

-- A policy that the document parser accepts has no key but the five of the top level.
pub parse_document-allowed :
    (rd : Reader) (doc : Dict Text Value) {p : Policy}
    → parse_document rd doc ≡ ok p
    → (k : Text) → contains k (keys doc) ≡ true
    → contains k allowed_top_level ≡ true
unfolding parse_document
parse_document-allowed rd doc h =
    let (_, keys_ok, _) =
      >>=-eq-ok (raise_unknown unknown_top_level (unknown_keys allowed_top_level doc)) _ h in
    no_unknown_keys unknown_top_level allowed_top_level doc keys_ok

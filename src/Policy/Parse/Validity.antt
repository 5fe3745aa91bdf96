-- ===== src/Policy/Parse/Validity.antt =====
-- What the parser guarantees of the rules that it accepts.
use artea.Base.{
  ℕ, ◌≡◌, ◌≢◌, ap, ◌∙◌, suc, ◌⊎◌, inl, inr, refl, Bool, true, false, Option, none, some, List, [],
  ◌∷◌, Text, codes, eq_text, text_eq_iff, contains, ok, >>=-eq-ok, arith, not, raise_if, ◌||◌,
  is_some,
}
use mathlib.Core.Path.{subst}
use artea.Base.Lists.{All}
use artea.Base.Dict.{Dict, get}
use artea.Value.{Value, DateTime, Fields, null, str, dict, list, items, fields, is_one}
use artea.Policy.{PolicyError, Rule, Policy, known_ecosystems}
use artea.Policy.Parse.{
  Reader, Parsed, get_value, is_null, both_or_neither, reject_unknown_keys, parse_ecosystem,
  optional_text, is_star, parse_versions, parse_action, parse_reason, parse_source, parse_expires,
  is_expired, unless_expired, read_table, parse_rule_table, parse_rule, parse_rules, cons_some,
  parse_rule_array, parse_document, parse_loaded, parse_decoded, parse_policy, raise_unknown,
  unknown_keys, allowed_top_level, parse_defaults, parse_upstream, parse_osv,
}
use artea.Policy.{bad_versions, bad_schema, unknown_top_level, name_or_namespace, reserved_name}

-- A name of a package or of a namespace.
abbrev pub IsName : Option Text → Type 0
IsName none = ⊥
IsName (some s) = (s ≢ []) × (s ≢ codes "*")

-- The rules that the rest of the program may meet.
pub record IsValid (r : Rule) : Type 0 where
  pub known : contains r.ecosystem known_ecosystems ≡ true
  pub named : (IsName r.name × (r.namespace ≡ none)) ⊎ (IsName r.namespace × (r.name ≡ none))
  pub versions_of_name : is_some r.namespace ≡ true → r.versions ≡ none
  pub versions_nonempty : r.versions ≢ some []

parse_ecosystem-known :
    (i : ℕ) (v : Value) {e : Text} → parse_ecosystem i v ≡ ok e → contains e known_ecosystems ≡ true
unfolding parse_ecosystem
parse_ecosystem-known i (str []) h = cc
parse_ecosystem-known i (str (c ∷ s)) h = ground arith
parse_ecosystem-known i _ h = cc

optional_text-is_some :
    (e : PolicyError) (v : Value) {n : Option Text}
    → optional_text e v ≡ ok n
    → (is_some n ≡ not (is_null v)) × (n ≢ some [])
unfolding optional_text is_null
optional_text-is_some e null h = ground arith
optional_text-is_some e (str []) h = ground arith
optional_text-is_some e (str (c ∷ s)) h = ground arith
optional_text-is_some e _ h = ground arith

parse_versions-shape :
    (i : ℕ) (ns : Option Text) (v : Value) {vs : Option Text}
    → parse_versions i ns v ≡ ok vs
    → (is_some ns ≡ true → vs ≡ none) × (vs ≢ some [])
unfolding parse_versions
parse_versions-shape i ns null h = ground arith
parse_versions-shape i (some n) _ h = ground arith
parse_versions-shape i none v h = ground (arith, optional_text-is_some (bad_versions i) v h)

raise_if-eq-ok : {b : Bool} (e : PolicyError) {u : Unit} → raise_if b e ≡ ok u → b ≡ false
raise_if-eq-ok {b = true} e h = cc
raise_if-eq-ok {b = false} e h = refl

-- What is left of a rule by its expiry is the rule.
unless_expired-eq-some :
    (b : Bool) (r : Rule) {r' : Rule}
    → ◌≡◌ {A = Parsed (Option Rule)} (ok (unless_expired b r)) (ok (some r'))
    → r ≡ r'
unfolding unless_expired
unless_expired-eq-some true r h = cc
unless_expired-eq-some false r h = cc

-- The facts that the checks of the name and of the namespace leave.
named_one :
    (nv nsv : Value) {name ns : Option Text}
    → both_or_neither nv nsv ≡ false
    → (is_some name ≡ not (is_null nv)) × (name ≢ some [])
    → (is_some ns ≡ not (is_null nsv)) × (ns ≢ some [])
    → (is_star name || is_star ns) ≡ false
    → (IsName name × (ns ≡ none)) ⊎ (IsName ns × (name ≡ none))
unfolding is_star both_or_neither
named_one nv nsv {name = none} {ns = none} x a b s = absurd (ground arith)
named_one nv nsv {name = some n} {ns = none} x a b s =
    inl (((λ e. a.1 (ap some e)), λ e. ground (arith, text_eq_iff n (codes "*"))), refl)
named_one nv nsv {name = none} {ns = some n} x a b s =
    inr (((λ e. b.1 (ap some e)), λ e. ground (arith, text_eq_iff n (codes "*"))), refl)
named_one nv nsv {name = some n} {ns = some m} x a b s = absurd (ground arith)

pair-injective :
    {e e' : Option (DateTime × Text)} {r r' : Rule}
    → ◌≡◌ {A = Parsed (Option (DateTime × Text) × Rule)} (ok (e, r)) (ok (e', r'))
    → r ≡ r'
pair-injective h = cc

read_table-IsValid :
    (read : Text → Option DateTime) (raw : Dict Text Value) (i : ℕ) {e : Option (DateTime × Text)}
    {r : Rule}
    → read_table read raw i ≡ ok (e, r)
    → IsValid r
unfolding read_table
read_table-IsValid read raw i {r} h =
    let (_, _, h) = >>=-eq-ok (reject_unknown_keys _ _ raw) _ h in
    let (eco, eco_ok, h) = >>=-eq-ok (parse_ecosystem i (get_value (codes "ecosystem") raw)) _ h in
    let (_, one, h) = >>=-eq-ok (raise_if _ (name_or_namespace i)) _ h in
    let (name, name_ok, h) = >>=-eq-ok (optional_text _ (get_value (codes "name") raw)) _ h in
    let (ns, ns_ok, h) = >>=-eq-ok (optional_text _ (get_value (codes "namespace") raw)) _ h in
    let (_, star, h) = >>=-eq-ok (raise_if _ (reserved_name i)) _ h in
    let (vs, vs_ok, h) = >>=-eq-ok (parse_versions i ns _) _ h in
    let (_, _, h) = >>=-eq-ok (parse_action _ _) _ h in
    let (_, _, h) = >>=-eq-ok (parse_reason i _) _ h in
    let (_, _, h) = >>=-eq-ok (parse_source i _) _ h in
    let (_, _, h) = >>=-eq-ok (parse_expires read i _) _ h in
    subst IsValid (pair-injective h) (record {
      known = parse_ecosystem-known i _ eco_ok;
      named =
          named_one (get_value (codes "name") raw) (get_value (codes "namespace") raw)
            (raise_if-eq-ok _ one) (optional_text-is_some _ _ name_ok)
            (optional_text-is_some _ _ ns_ok) (raise_if-eq-ok _ star);
      versions_of_name = (parse_versions-shape i ns _ vs_ok).0;
      versions_nonempty = (parse_versions-shape i ns _ vs_ok).1;
    })

parse_rule_table-IsValid :
    (rd : Reader) (raw : Dict Text Value) (i : ℕ) {r : Rule}
    → parse_rule_table rd raw i ≡ ok (some r)
    → IsValid r
unfolding parse_rule_table
parse_rule_table-IsValid rd raw i {r} h =
    let ((e, rule), read_ok, h) = >>=-eq-ok (read_table rd.fromisoformat raw i) _ h in
    subst IsValid (unless_expired-eq-some (is_expired rd e) rule h)
      (read_table-IsValid rd.fromisoformat raw i read_ok)

parse_rule-IsValid :
    (rd : Reader) (raw : Value) (i : ℕ) {r : Rule} → parse_rule rd raw i ≡ ok (some r) → IsValid r
unfolding parse_rule
parse_rule-IsValid rd (dict fs) i h = parse_rule_table-IsValid rd (fields fs) i h
parse_rule-IsValid rd _ i h = cc

cons_some-IsValid :
    (o : Option Rule) (rules : List Rule)
    → ((r : Rule) → o ≡ some r → IsValid r)
    → All IsValid rules
    → All IsValid (cons_some o rules)
unfolding cons_some
cons_some-IsValid none rules h k = k
cons_some-IsValid (some r) rules h k = (h r refl, k)

parse_rules-IsValid :
    (rd : Reader) (i : ℕ) (raws : List Value) {rules : List Rule}
    → parse_rules rd i raws ≡ ok rules
    → All IsValid rules
unfolding parse_rules
parse_rules-IsValid rd i [] {rules} h = subst (All IsValid) (let e : [] ≡ rules = cc in e) tt
parse_rules-IsValid rd i (raw ∷ raws) {rules} h =
    let (o, o_ok, h) = >>=-eq-ok (parse_rule rd raw i) _ h in
    let (rest, rest_ok, h) = >>=-eq-ok (parse_rules rd (suc i) raws) _ h in
    let e : cons_some o rest ≡ rules = cc in
    subst (All IsValid) e (
      cons_some-IsValid o rest (λ r same. parse_rule-IsValid rd raw i (o_ok ∙ ap ok same))
        (parse_rules-IsValid rd (suc i) raws rest_ok))

parse_rule_array-IsValid :
    (rd : Reader) (v : Option Value) {rules : List Rule}
    → parse_rule_array rd v ≡ ok rules
    → All IsValid rules
unfolding parse_rule_array
parse_rule_array-IsValid rd none {rules} h = subst (All IsValid) (let e : [] ≡ rules = cc in e) tt
parse_rule_array-IsValid rd (some (list vs)) h = parse_rules-IsValid rd 0 (items vs) h
parse_rule_array-IsValid rd (some _) h = cc

parse_document-IsValid :
    (rd : Reader) (doc : Dict Text Value) {p : Policy}
    → parse_document rd doc ≡ ok p
    → All IsValid p.rules
unfolding parse_document
parse_document-IsValid rd doc {p} h =
    let (_, _, h) =
      >>=-eq-ok (raise_unknown unknown_top_level (unknown_keys allowed_top_level doc)) _ h in
    let (_, _, h) =
      >>=-eq-ok
        (raise_if (not (is_one (get_value (codes "schema") doc)))
          (bad_schema (get_value (codes "schema") doc)))
        _ h in
    let (_, _, h) = >>=-eq-ok (parse_defaults (get_value (codes "defaults") doc)) _ h in
    let (_, _, h) = >>=-eq-ok (parse_upstream (get_value (codes "upstream") doc)) _ h in
    let (_, _, h) = >>=-eq-ok (parse_osv (get_value (codes "osv") doc)) _ h in
    let (rules, rules_ok, h) = >>=-eq-ok (parse_rule_array rd (get (codes "rules") doc)) _ h in
    let e : rules ≡ p.rules = cc in subst (All IsValid) e (parse_rule_array-IsValid rd _ rules_ok)

-- Every rule of a policy that the parser accepts is well formed: a known ecosystem, exactly one of
-- name and namespace, neither empty nor the sentinel `*`, and a version range, which is not empty,
-- only beside a name.
pub parse_policy-IsValid :
    (rd : Reader) (content : List ℕ) {p : Policy}
    → parse_policy rd content ≡ ok p
    → All IsValid p.rules
unfolding parse_policy parse_decoded parse_loaded
parse_policy-IsValid rd content {p} h = decoded (rd.decode content) h
  where
    loaded : (o : Option Fields) → parse_loaded rd o ≡ ok p → All IsValid p.rules
    loaded none e = cc
    loaded (some doc) e = parse_document-IsValid rd (fields doc) e

    decoded : (o : Option Text) → parse_decoded rd o ≡ ok p → All IsValid p.rules
    decoded none e = cc
    decoded (some text) e = loaded (rd.loads text) e

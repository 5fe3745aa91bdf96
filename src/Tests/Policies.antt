-- ===== src/Tests/Policies.antt =====
-- The theorems on the parser and the sync, on a policy with one rule.
use artea.Base.{
  ◌≡◌, ◌≢◌, ◌≤◌, ◌+◌, ◌⊎◌, refl, true, false, Option, none, some, List, [], ◌∷◌, Text, codes,
  eq_text, text_eq, ok, contains, arith, traverse,
}
use artea.Base.Dict.{get, put}
use artea.Base.Lists.{length, keep, All}
use artea.Base.Sort.{sort_by}
use artea.Base.Strip
use artea.Base.Int
use artea.Base.Int.{ℤ}
use artea.Value.{
  Fields, str, int, list, dict, datetime, fields, items, is_one, instant, end, field, cons, nil,
}
use artea.Policy.{Policy, Rule, allow, deny, npm}
use artea.Policy.Parse.{
  Reader, parse_policy, parse_decoded, parse_loaded, parse_document, parse_rule_array, parse_rules,
  parse_rule, parse_rule_table, read_table, raise_unknown, unknown_keys, get_value, parse_defaults,
  parse_upstream, parse_osv, reject_unknown_keys, parse_ecosystem, optional_text, is_star,
  parse_versions, parse_action, parse_reason, parse_source, parse_expires, is_expired,
  unless_expired, expires_text, cons_some, allowed_rule_keys, allowed_top_level, both_or_neither,
  is_null,
}
use artea.Adapters.Npm
use artea.Compiler.{
  classify, classify_from, classify_rule, classify_target, classify_name, add_whole,
  copy_deny_buckets,
}
use artea.Compiler.Quote.{npm_quote, quote_body, quote_char}
use artea.Compiler.Npm.{
  emit_npm, resolve_npm, resolve_denies, allow_wholes, allow_exacts, emit_lines, text_of_lines,
  scopes_of,
}
use artea.Compiler.Pypi.{
  emit_pypi, emit_pypi_lines, pass_allows, pass_wholes, pass_exacts, emit_pypi_ranges,
  emit_pypi_wholes, emit_pypi_allows, text_of, star_line,
}
use artea.Compiler.Compile.{compile_policy}
use artea.Policy.{for_ecosystem}
use artea.Sync.{
  Fetch, not_found, unavailable, content, Environment, Config, Services, sync_once, sync_fetched,
  sync_parsed, sync_compiled, publish, then_do, write, store_upstream, store_npm, store_parsed,
  apply, retry_from,
}
use artea.Sync.Keeps.{
  Compiled, others, applied_others, sync_once-last_known_good, sync_once-applied,
}
use artea.Sync.Retry.{spent, sync_with_retry-fair}
use artea.Policy.Parse.Validity.{IsValid, parse_policy-IsValid}
use artea.Policy.Parse.Expiry.{at_time, parse_rule-at_time}
use artea.Policy.Parse.Allowed.{parse_rule-allowed, parse_document-allowed}

abbrev rule_fields : Fields
rule_fields = field (codes "ecosystem") (str npm) (
    field (codes "name") (str (codes "left-pad")) (field (codes "action") (str (codes "deny")) end))

abbrev document : Fields
document =
    field (codes "schema") (int (Int.pos 1))
      (field (codes "rules") (list (cons (dict rule_fields) nil)) end)

-- A file of ASCII text that holds the document.
abbrev reader : Reader
reader = record {
  decode = λ bytes. some bytes;
  loads = λ text. some document;
  fromisoformat = λ s. none;
  now = Int.pos 0;
}

abbrev parsed_rule : Rule
parsed_rule = record {
  ecosystem = npm;
  name = some (codes "left-pad");
  namespace = none;
  versions = none;
  action = deny;
  reason = none;
  source = codes "curated";
  expires = none;
}

abbrev parsed : Policy
parsed = record {
  schema = int (Int.pos 1);
  defaults = record { action = allow; ecosystems = [] };
  rules = parsed_rule ∷ [];
  min_age = codes "P0D";
  osv_malicious_packages = false;
}

parses_document : parse_document reader (fields document) ≡ ok parsed
unfolding parse_document parse_rule_array parse_rules parse_rule parse_rule_table read_table
    raise_unknown unknown_keys get_value parse_defaults parse_upstream parse_osv reject_unknown_keys
    parse_ecosystem optional_text is_star parse_versions parse_action parse_reason parse_source
    parse_expires is_expired unless_expired expires_text cons_some both_or_neither is_null fields
    items is_one get keep contains text_eq sort_by
parses_document = refl

parses : parse_policy reader (codes "schema = 1") ≡ ok parsed
unfolding parse_policy parse_decoded parse_loaded
parses = parses_document

parse_policy-IsValid_example : All IsValid parsed.rules
parse_policy-IsValid_example = parse_policy-IsValid reader (codes "schema = 1") parses

parse_document-allowed_example : contains (codes "rules") allowed_top_level ≡ true
parse_document-allowed_example =
    parse_document-allowed reader (fields document) parses_document (codes "rules")
      (unfold fields contains text_eq in refl)

-- A rule that expires at the instant 100.
abbrev expiring : Fields
expiring = field (codes "ecosystem") (str npm) (
    field (codes "name") (str (codes "left-pad")) (
      field (codes "expires")
        (datetime (record { wall = Int.pos 100; offset = none; iso = codes "1970-01-01T00:01:40" }))
        end))

abbrev expiring_rule : Rule
expiring_rule = record parsed_rule { expires = some (codes "1970-01-01T00:01:40") }

still_there : parse_rule (at_time reader (Int.pos 50)) (dict expiring) 0 ≡ ok (some expiring_rule)
unfolding parse_rule parse_rule_table read_table raise_unknown unknown_keys get_value
    reject_unknown_keys parse_ecosystem optional_text is_star parse_versions parse_action
    parse_reason parse_source parse_expires is_expired unless_expired expires_text both_or_neither
    is_null fields get keep contains text_eq sort_by instant
still_there = refl

parse_rule-at_time_example :
    (parse_rule (at_time reader (Int.pos 150)) (dict expiring) 0 ≡ ok (some expiring_rule))
    ⊎ ((parse_rule (at_time reader (Int.pos 150)) (dict expiring) 0 ≡ ok none)
        × (expiring_rule.expires ≢ none))
parse_rule-at_time_example =
    parse_rule-at_time reader (dict expiring) 0 (Int.pos 50) (Int.pos 150) still_there

parse_rule-allowed_example : contains (codes "expires") allowed_rule_keys ≡ true
parse_rule-allowed_example =
    parse_rule-allowed (at_time reader (Int.pos 50)) (dict expiring) 0 still_there (codes "expires")
      (unfold fields contains text_eq in refl)

-- A devpi that remembers the constraints, and a service with every store.
abbrev Devpi : Type 0
Devpi = Option Text

abbrev environment : Fetch → Environment Devpi
environment f = record {
  fetch = f;
  reader = reader;
  writable = λ path. true;
  apply_constraints = λ devpi constraints min_age. (some constraints, true);
}

abbrev config : Config
config = record {
  policy_file_path = codes "npm-rules.yaml";
  pypi_policy_file_path = [];
  parsed_policy_file_path = [];
  upstream_policy_file_path = [];
}

abbrev services : Services Devpi
services = record {
  files = [];
  store = some none;
  upstream_store = none;
  parsed_policy_store = some none;
  devpi = none;
}

sync_once-last_known_good_example :
    (sync_once config (environment not_found) services ≡ (services, false))
    ⊎ ((c : Compiled (environment not_found)) × (sync_once config (environment not_found) services
          ≡ publish config (environment not_found) c.bytes c.policy c.artifacts services))
sync_once-last_known_good_example =
    sync_once-last_known_good config (environment not_found) services

abbrev good : Environment Devpi
good = environment (content (codes "schema = 1"))

-- The rule compiles and the sync goes through.
goes_through : (sync_once config good services).1 ≡ true
unfolding sync_once sync_fetched sync_parsed sync_compiled publish then_do write store_upstream
    store_npm store_parsed apply compile_policy classify classify_from classify_rule classify_target
    classify_name add_whole emit_npm resolve_npm resolve_denies allow_wholes allow_exacts emit_lines
    text_of_lines scopes_of keep copy_deny_buckets sort_by get put contains text_eq npm_quote
    quote_body quote_char for_ecosystem Strip.join emit_pypi emit_pypi_lines pass_allows pass_wholes
    pass_exacts emit_pypi_ranges emit_pypi_wholes emit_pypi_allows traverse text_of star_line
    Npm.normalize_name Strip.is_space
goes_through = rw parses refl

sync_once-applied_example :
    (c : Compiled good) × ((others (sync_once config good services).0
        ≡ applied_others good c.policy c.artifacts (others services))
      × ((good.apply_constraints services.devpi c.artifacts.pypi_constraints c.artifacts.min_age).1
          ≡ true))
sync_once-applied_example = sync_once-applied config good services goes_through

abbrev attempts : List (Environment Devpi)
attempts = environment not_found ∷ environment unavailable ∷ good ∷ []

sync_with_retry-fair_example :
    All (λ d. d ≤ 60) (retry_from config attempts 2 60 services).slept
    × ((length (retry_from config attempts 2 60 services).slept + 1 ≤ 3)
        × (spent attempts (retry_from config attempts 2 60 services) ≡ true))
sync_with_retry-fair_example =
    sync_with_retry-fair config (environment not_found) (environment unavailable ∷ good ∷ []) 2 60
      services (omega arith)

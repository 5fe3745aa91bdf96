-- ===== src/Tests/Devpi.antt =====
-- The theorems on devpi and its plugin at concrete inputs.
use artea.Base.{
  ℕ, ◌≡◌, ◌≤◌, ◌∙◌, ap, refl, Bool, true, false, not, ◌&&◌, ◌||◌, Option, some, List, [], ◌∷◌, ◌++◌,
  map, Text, codes, eq_text, text_eq, eq_texts, eq_pair, ◌==◌, nat_eq, if◌then◌else◌, contains, ok,
  err, arith,
}
use artea.Base.Dict.{IsDict, get, add, contains-add}
use artea.Base.Lists.{length}
use artea.Base.Strip.{lower, strip_left}
use artea.Osv.Json.{
  Json, Jsons, Members, null, string, boolean, set_member, find-set_member, array, items, object,
  member, end, nil, find, at, array_of,
}
use artea.Policy.MinAge.{validate_min_age}
use artea.Adapters.{pypi_adapter}
use artea.Compiler.Pypi.{Line}
use artea.Tests.Compile.{
  pypi_rules, pypi_classified, pypi_emitted, pypi_apart, pypi_lines, both_rules, both_classified,
  both_lines, both_emitted,
}
use artea.Devpi.Plugin.{Packaging, already_exists}
use artea.Devpi.Plugin.Duration.{Seconds, parse_iso_duration_seconds, is_positive}
use artea.Devpi.Plugin.Duration.Accepts.{parse_iso_duration_seconds-validate_min_age}
use artea.Devpi.Plugin.Constraints.{
  normalize_indexconfig_value, normalize_constraints, parse_constraints,
}
use artea.Devpi.Plugin.Constraints.Unique.{emitted_constraints}
use artea.Devpi.Plugin.Compiled.{parse_constraints-emitted, parse_constraints-refused}
use artea.Devpi.Plugin.OsvCache.{Key, store_osv_cache_entry, osv_cache_max_entries}
use artea.Devpi.Plugin.OsvCache.Bounds.{store_osv_cache_entry-bounded}
use artea.Devpi.Plugin.Query.{
  World, is_blank, blocked_of, add_result, is_true, unavailable, answered,
}
use artea.Devpi.Plugin.Query.Honest.{IsHonest, IsCoherent}
use artea.Devpi.Plugin.Stage.{
  project_or_name, link_version, LinkInfo, entry, Caches, Stage, has_file_policy,
}
use artea.Devpi.Plugin.Stage.Filter.{
  get_simple_links_filter_iter, get_versions_filter_iter, link_allowed,
}
use artea.Devpi.Plugin.Stage.Verdicts.{is_within, is_ruled, is_served, seen, result}
use artea.Devpi.Plugin.Stage.Agree.{get_simple_links_filter_iter-link_allowed}
use artea.Devpi.Plugin.Views.{
  tween, pypi_file_allowed_view, is_mirror_file, Mirror, get_link_from_entrypath, link_project,
  project_or_link_name,
}
use artea.Devpi.Plugin.Views.Agree.{as_served, tween-pypi_file_allowed_view}
use artea.Devpi.Client
use artea.Devpi.Client.{
  Devpi, Reply, body, apply_constraints, apply_config, read_config, request, check_config, patched,
  is_text, has_expected_base, is_current, effective_lines, same_lines,
}
use artea.Devpi.Lines.{constraint_lines}
use artea.Devpi.Client.Idempotent.{at-set_member, Stores, apply_constraints_idem}
use artea.Devpi.Bootstrap.{Server, ensure_constrained_index, kvdict}
use artea.Devpi.Bootstrap
use artea.Devpi.Bootstrap.FailClosed.{
  refusal, is_missing, seed, ensure_constrained_index-fail_closed,
}

-- The project of a line ends before its comparison.
abbrev is_operator : ℕ → Bool
is_operator c = nat_eq c b'<' || nat_eq c b'=' || nat_eq c b'>'

abbrev cut : Text → Text × Text
cut [] = ([], [])
cut (c ∷ s) = let rest = cut s in if is_operator c then ([], c ∷ s) else (c ∷ rest.0, rest.1)

abbrev no_text : Text → Bool
no_text [] = true
no_text (c ∷ s) = false

abbrev packaging : Packaging
packaging = record {
  Specifier = Text;
  parse_requirement = λ line. some (cut line);
  is_unrestricted = no_text;
  is_legacy = λ v. false;
  admits = λ specifier v. no_text specifier || text_eq specifier (codes "==" ++ v);
  normalize_name = lower;
  stem = λ s. s;
  unquote = λ s. s;
  iso_to_epoch = λ s. some 0;
}

abbrev specifier_of : Line → Text
specifier_of line = line.1

parse_constraints-emitted_example :
    parse_constraints packaging (emitted_constraints pypi_lines false)
    ≡ ok (record { constrain_all = false; entries = map (λ line. (line.0, line.1)) pypi_lines })
parse_constraints-emitted_example =
    parse_constraints-emitted pypi_adapter pypi_rules false pypi_classified pypi_emitted packaging
      specifier_of (unfold text_eq in ((refl, refl), ((refl, refl), ((refl, refl), tt)))) pypi_apart

parse_constraints-refused_example :
    (project : Text) × (parse_constraints packaging (emitted_constraints both_lines false)
      ≡ err (already_exists project))
parse_constraints-refused_example =
    parse_constraints-refused pypi_adapter both_rules false both_classified both_emitted packaging
      specifier_of (unfold text_eq in ((refl, refl), ((refl, refl), tt))) (codes "evil") refl
      (unfold contains in refl) (unfold get text_eq in refl) (unfold get text_eq in refl)

parse_iso_duration_seconds-validate_min_age_example :
    (seconds : Seconds) × (parse_iso_duration_seconds (string (codes "P3D")) ≡ ok seconds)
parse_iso_duration_seconds-validate_min_age_example =
    parse_iso_duration_seconds-validate_min_age (codes " P3D ") (codes "P3D")
      (unfold validate_min_age in refl)

abbrev cache_key : Text → Key
cache_key project = (codes "http://osv", (project, codes "1.0" ∷ []))

store_osv_cache_entry-bounded_example :
    (length (
        store_osv_cache_entry
          ((cache_key (codes "a"), (5, [])) ∷ [])
          (cache_key (codes "b"))
          10
          (codes "1.0" ∷ []))
      ≤ osv_cache_max_entries)
    × IsDict (
        store_osv_cache_entry
          ((cache_key (codes "a"), (5, [])) ∷ [])
          (cache_key (codes "b"))
          10
          (codes "1.0" ∷ []))
    × (get (cache_key (codes "b")) (
          store_osv_cache_entry
            ((cache_key (codes "a"), (5, [])) ∷ [])
            (cache_key (codes "b"))
            10
            (codes "1.0" ∷ []))
        ≡ some (10, codes "1.0" ∷ []))
store_osv_cache_entry-bounded_example =
    store_osv_cache_entry-bounded ((cache_key (codes "a"), (5, [])) ∷ []) (cache_key (codes "b")) 10
      (codes "1.0" ∷ []) (unfold contains in (refl, tt))

some-injective : {a b : LinkInfo} → ◌≡◌ {A = Option LinkInfo} (some a) (some b) → a ≡ b
some-injective h = cc

-- One release of the package is malicious.
abbrev bad_version : Text → Bool
bad_version v = v == codes "6.6.6"

result_of : Text → Json
result_of v =
    object
      (member (codes "version") (string v) (member (codes "blocked") (boolean (bad_version v)) end))

results_of : List Text → Jsons
results_of vs = array_of (map result_of vs)

abbrev answer_of : List Text → Members
answer_of vs =
    member (codes "results") (array (results_of vs))
      (member (codes "status") (string (codes "ok")) end)

abbrev world : World
world = record {
  now = 1_000;
  osv = λ url project vs. answered (object (answer_of vs));
  pypi = λ url project. unavailable;
}

same_badness : (w v : Text) → w ≡ v → bad_version w ≡ bad_version v
same_badness w v e = ap bad_version e

told :
    (v : Text) (vs out : List Text)
    → contains v (blocked_of (items (results_of vs)) out)
      ≡ (contains v out || contains v vs && bad_version v)
unfolding results_of result_of array_of items blocked_of add_result is_true at text_eq contains
told v [] out = ground arith
told v (w ∷ vs) out = ground (
  arith,
  told v vs out,
  told v vs (add w out),
  contains-add w v out,
  eq_text.beq_iff w v,
  same_badness w v,
)

abbrev osv_stage : Stage packaging
osv_stage = record {
  constraints = record { constrain_all = true; entries = (codes "left-pad", []) ∷ [] };
  min_upstream_age = record { units = 0; scale = 1 };
  pypi_json_url = codes "https://pypi.org/pypi";
  osv_url = codes "http://osv";
}

abbrev link : Text → LinkInfo
link version =
    entry (some (codes "left-pad")) (some (codes "left-pad")) version (codes "left-pad-" ++ version)

abbrev no_caches : Caches
no_caches = record { metadata = []; osv = [] }

world_honest : IsHonest bad_version world (codes "http://osv") (codes "left-pad")
world_honest versions = (
  answer_of versions,
  results_of versions,
  refl,
  unfold at text_eq in refl,
  λ v. told v versions [] ∙ unfold contains in refl,
)

uncached : IsCoherent bad_version [] (codes "http://osv") (codes "left-pad")
unfolding get
uncached versions cached h = absurd (cc h)

get_simple_links_filter_iter-link_allowed_example :
    (result (
        get_simple_links_filter_iter packaging osv_stage
          (codes "left-pad")
          world
          no_caches
          (link (codes "1.3.0") ∷ link (codes "6.6.6") ∷ []))
      ≡ ok (
          if is_ruled packaging osv_stage (codes "left-pad") bad_version
          then map
              (is_served packaging osv_stage (codes "left-pad") bad_version 1_000 (
                seen packaging osv_stage
                  (codes "left-pad")
                  bad_version
                  world
                  world_honest
                  no_caches))
              (link (codes "1.3.0") ∷ link (codes "6.6.6") ∷ [])
          else []))
    × (result (
          link_allowed packaging osv_stage
            (codes "left-pad")
            world
            no_caches
            (link (codes "6.6.6")))
        ≡ ok (
            not (is_ruled packaging osv_stage (codes "left-pad") bad_version)
            || is_served packaging osv_stage
                (codes "left-pad")
                bad_version
                1_000
                (seen packaging osv_stage
                  (codes "left-pad")
                  bad_version
                  world
                  world_honest
                  no_caches)
                (link (codes "6.6.6"))))
get_simple_links_filter_iter-link_allowed_example =
    get_simple_links_filter_iter-link_allowed packaging osv_stage (codes "left-pad") bad_version
      world world_honest no_caches (link (codes "1.3.0") ∷ link (codes "6.6.6") ∷ [])
      (link (codes "6.6.6")) uncached

-- What the two links come to
links_served :
    map
      (is_served packaging osv_stage
        (codes "left-pad")
        bad_version
        1_000
        (seen packaging osv_stage (codes "left-pad") bad_version world world_honest no_caches))
      (link (codes "1.3.0") ∷ link (codes "6.6.6") ∷ [])
    ≡ true ∷ false ∷ []
unfolding is_served is_within link_version get text_eq lower is_blank is_positive
links_served = refl

abbrev mirror : Mirror packaging
mirror = some (λ path. some (link (codes "1.3.0")))

abbrev file_path : Text
file_path = codes "/root/pypi/+f/0a/left-pad-1.3.0.whl"

tween-pypi_file_allowed_view_example :
    tween packaging world (some osv_stage) mirror no_caches file_path ≡ (
      (pypi_file_allowed_view packaging world (some osv_stage) mirror no_caches file_path).0,
      as_served
          (pypi_file_allowed_view packaging world (some osv_stage) mirror no_caches file_path).1,
    )
tween-pypi_file_allowed_view_example =
    tween-pypi_file_allowed_view packaging world osv_stage mirror no_caches file_path
      (unfold has_file_policy in refl) (unfold is_mirror_file strip_left in refl)
      (λ l e. normal l (unfold get_link_from_entrypath in e))
  where
    normal :
        (l : LinkInfo)
        → some (link (codes "1.3.0")) ≡ some l
        → lower (project_or_link_name l) ≡ link_project l
    normal l e =
        rw (← some-injective e)
          (unfold link_project project_or_link_name project_or_name lower in refl)

-- A devpi that is its index config
abbrev constraints_of : Option Json → Json
constraints_of (some (string text)) = array (array_of (map string (constraint_lines text)))
constraints_of _ = null

abbrev index : Devpi Members
index = record {
  get_index = λ config. body (object (member (codes "result") (object config) end));
  patch_index = λ d config. (
    set_member (codes "constraints") (constraints_of (find (codes "constraints") config)) config,
    body null,
  );
  str_of = λ j. [];
}

normal_stored :
    (o : Option Json) (config : Members) {text : Text}
    → o ≡ some (string text)
    → normalize_indexconfig_value (codes "constraints") (string text)
      ≡ ok (at (codes "constraints") (set_member (codes "constraints") (constraints_of o) config))
unfolding normalize_indexconfig_value normalize_constraints text_eq
normal_stored o config {text} e =
    rw
      (
        e,
        at-set_member (codes "constraints") (codes "constraints")
            (array (array_of (map string (constraint_lines text)))) config,
      )
      refl

index_stores : Stores index
index_stores d config text j sent done = (
  member (codes "result") (object (index.patch_index d config).0) end,
  (index.patch_index d config).0,
  refl,
  (unfold at text_eq in refl),
  at-set_member (codes "constraints") (codes "type") _ config ∙ unfold text_eq in refl,
  at-set_member (codes "constraints") (codes "bases") _ config ∙ unfold text_eq in refl,
  find-set_member (codes "constraints") (codes "min_upstream_age") _ config
      ∙ unfold text_eq in refl,
  normal_stored (find (codes "constraints") config) config sent,
)

-- An index that allows everything
abbrev open_config : Members
open_config = member (codes "type") (string (codes "constrained")) (
    member (codes "bases") (string (codes "root/pypi"))
      (member (codes "constraints") (array nil) end))

apply_constraints_idem_example :
    apply_constraints index
      (apply_constraints index open_config (codes "evil<0\n") (codes "P3D")).0
      (codes "evil<0\n")
      (codes "P3D")
    ≡ ((apply_constraints index open_config (codes "evil<0\n") (codes "P3D")).0, ok false)
apply_constraints_idem_example =
    apply_constraints_idem index index_stores (codes "evil<0\n") (codes "P3D") open_config true (
      unfold apply_constraints apply_config read_config request Client.result_of Client.config_of
        check_config patched at find is_text has_expected_base is_current effective_lines same_lines
        text_eq in
      refl)

-- A devpi without the index
abbrev empty_server : Server Bool
empty_server = record {
  get_constrained = λ made. Bootstrap.http_error 404;
  put_constrained = λ made config. (true, Bootstrap.body null);
  get_mirror = λ made. Bootstrap.unreachable;
  patch_mirror = λ made. (made, Bootstrap.unreachable);
}

-- The index as it is made, with no upstream age and no OSV
abbrev seeded : Stage packaging
seeded = record osv_stage {
  constraints = record { constrain_all = true; entries = [] };
  osv_url = [];
}

ensure_constrained_index-fail_closed_example :
    ((ensure_constrained_index empty_server false).0
      ≡ (if is_missing (Bootstrap.http_error 404) then true else false))
    × (get_versions_filter_iter packaging seeded
          (codes "left-pad")
          world
          no_caches
          (codes "1.3.0" ∷ [])
        ≡ (no_caches, ok (map (λ v. false) (codes "1.3.0" ∷ []))))
    × (get_simple_links_filter_iter packaging seeded
          (codes "left-pad")
          world
          no_caches
          (link (codes "1.3.0") ∷ [])
        ≡ (no_caches, ok (map (λ l. false) (link (codes "1.3.0") ∷ []))))
    × (link_allowed packaging seeded (codes "left-pad") world no_caches (link (codes "1.3.0"))
        ≡ (no_caches, ok false))
    × (pypi_file_allowed_view packaging world (some seeded) mirror no_caches file_path
        ≡ (no_caches, refusal file_path))
ensure_constrained_index-fail_closed_example =
    ensure_constrained_index-fail_closed empty_server false packaging seeded (codes "left-pad")
      world no_caches (codes "1.3.0" ∷ []) (link (codes "1.3.0") ∷ []) (link (codes "1.3.0")) mirror
      file_path (seed packaging)

-- ===== src/Lib.antt =====
-- Artea: a policy for packages, and the services that enforce it on npm and on PyPI.
--
-- The program. `policy.toml` holds one policy. policy-sync fetches it, parses it
-- (policy-sync/policy_sync/policy_model.py), compiles it (compiler.py, with an adapter for each
-- ecosystem from adapters.py) into a block list for the npm proxy and a list of constraints for
-- devpi, and publishes both (sync.py). The enforcement points ask it which versions are malicious,
-- and it decides by OSV, behind a cache of verdicts (osv.py). devpi is started with an index under
-- which the plugin lists nothing (devpi/ensure_index.py), takes the constraints (devpi.py) and enforces them by a
-- plugin (devpi/artea_devpi_policy).
--
-- The files.
-- - Base: lists, dictionaries, sorting, strings and results, as Python has them. A `dict` is an
--   association list in the order of insertion, a `set` a list in which no value stands twice, a
--   `str` the list of its code points. Pattern: the regular expressions, as `re` matches them, with
--   backtracking; the star runs on the length of the text, which is enough since a round that takes
--   no character ends it. Value: the values that `tomllib` gives.
-- - Policy (policy-sync/policy_sync/policy_model.py): Policy/MinAge is `_validate_min_age`,
--   Policy/Parse is `parse_policy` with its checks in their order; the record `Reader` stands for
--   the UTF-8 decoder, `tomllib.loads`, `datetime.fromisoformat` and the clock.
-- - Adapters (policy-sync/policy_sync/adapters.py): Adapters/Npm, Adapters/Pypi, Adapters/Release
--   for `_release_tuple`, Adapters/Bounds for `complement_set_is_empty`. The compiler takes an
--   adapter as a record.
-- - Compiler (policy-sync/policy_sync/compiler.py): `_classify` in Compiler itself, `_npm_quote` in
--   Compiler/Quote, `_resolve_npm` and `_emit_npm` in Compiler/Npm, `_emit_pypi` in Compiler/Pypi,
--   `compile_policy` in Compiler/Compile. `Compiler.Npm.Decides.denied` and
--   `Compiler.Pypi.Decides.project_constraint` say what the rules mean by docs/policy-schema.md.
-- - Osv (policy-sync/policy_sync/osv.py): Osv/Cache is `_VerdictCache`, with Osv/Cache/Persist for
--   its file; Osv/Decide is `OsvClient.decide`, which takes `_query_osv` as a function with a state
--   of its own; Osv/Semver has the versions and the ranges that are decided locally, Osv/Records
--   the records of a package. Osv/Query is `_query_osv`, Osv/Records/Pages
--   `_query_package_unbatched`, Osv/Chunk `_query_chunk`, Osv/Summary `summarize_package` and
--   Osv/Response `response_payload`. In these the answer of OSV to a request is a parameter, and the
--   rounds of a loop over pages are those that the source allows, `MAX_PAGES`. Osv/Batch is
--   `_query_package_first_page` with the cache of package pages: threads that take turns on a shared
--   state, a step from one lock, wait or request to the next. Osv/Json has the values of `json`.
-- - Sync (policy-sync/policy_sync/sync.py, with store.py and files.py): the services are a state,
--   each call is a step on it, and an attempt has an environment for what Gitea answers, which
--   paths can be written and what devpi does with the constraints.
-- - Devpi: Devpi/Lines is `constraint_lines`; Devpi/Client is policy-sync/policy_sync/devpi.py;
--   Devpi/Bootstrap is devpi/ensure_index.py; Devpi/Plugin is
--   devpi/artea_devpi_policy/src/artea_devpi_policy/main.py, with Plugin/Constraints for
--   `parse_constraints` and the index properties, Plugin/Duration for `parse_iso_duration_seconds`,
--   Plugin/Metadata for `fetch_project_metadata`, Plugin/OsvCache and Plugin/Query for
--   `query_osv_blocked_versions`, Plugin/Stage for `ConstrainedStage` (its filters and `link_allowed`
--   in Plugin/Stage/Filter) and Plugin/Views for the tween and the views. The record `Packaging`
--   stands for `packaging`, `devpi_common` and the decoding of paths and times, the record `World` for
--   the clock, pypi.org and the OSV endpoint. `Devpi.Plugin.Stage.Verdicts.is_served` says what is
--   served, and does not follow the code. Seconds are exact decimal fractions where the source has
--   floats.
-- - Tests: the theorems at concrete inputs.
--
-- Errors are values (`Base.Raise.Result`), with a constructor for each message of the source. Loops
-- are structural recursion on the list that the source walks. Times are natural numbers, and the
-- difference of two of them is moved to the other side of a comparison. Letter case is that of
-- ASCII; digits and white space are those of Unicode 14. Numbers in versions have no bound, where
-- Python's `int` refuses more than 4300 digits.
--
-- Not modelled: HTTP, TOML and JSON texts, threads and locks but those of Osv/Batch (elsewhere each
-- locked operation is one step), the enrichment of the Simple API, the server, devpi itself, and the
-- parts in other languages (the Verdaccio plugins, the gateway, the charts and scripts). How the npm
-- filter reads a range is the parameter `satisfies` of the theorems on the npm artifact.
pub mod Base
pub mod Pattern
pub mod Value
pub mod Policy
pub mod Adapters
pub mod Compiler
pub mod Osv
pub mod Devpi
pub mod Sync
pub mod Tests

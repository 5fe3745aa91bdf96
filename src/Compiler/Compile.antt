-- ===== src/Compiler/Compile.antt =====
-- `compile_policy` of policy-sync/policy_sync/compiler.py: the three artifacts of a policy.
use artea.Base.{◌++◌, Text, codes, Result, ok, ◌>>=◌}
use artea.Policy.{PolicyError, Policy, npm, pypi, for_ecosystem}
use artea.Adapters.{npm_adapter, pypi_adapter}
use artea.Compiler.{classify}
use artea.Compiler.Quote.{npm_quote}
use artea.Compiler.Npm.{emit_npm}
use artea.Compiler.Pypi.{emit_pypi}

-- `CompiledArtifacts`
pub record CompiledArtifacts : Type 0 where
  pub npm_yaml : Text
  pub pypi_constraints : Text
  pub upstream_yaml : Text
  pub min_age : Text

unfoldable pub compile_policy : Policy → Result PolicyError CompiledArtifacts
compile_policy policy = do
  npm_eco ← classify policy.rules npm npm_adapter
  pypi_eco ← classify policy.rules pypi pypi_adapter
  npm_yaml ← emit_npm npm_eco npm_adapter policy.min_age (for_ecosystem policy.defaults npm)
  pypi_constraints ← emit_pypi pypi_eco (for_ecosystem policy.defaults pypi)
  ok (record {
    npm_yaml = npm_yaml;
    pypi_constraints = pypi_constraints;
    upstream_yaml = codes "upstream:\n  min_age: " ++ (npm_quote policy.min_age ++ codes "\n");
    min_age = policy.min_age;
  })

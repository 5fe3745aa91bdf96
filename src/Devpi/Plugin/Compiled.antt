-- ===== src/Devpi/Plugin/Compiled.antt =====
-- The constraints that policy-sync/policy_sync/compiler.py emits, as `parse_constraints` of
-- devpi/artea_devpi_policy/src/artea_devpi_policy/main.py reads them.
use artea.Base.{◌≡◌, Bool, true, false, List, map, Text, eq_text, contains, is_some, ok, err}
use artea.Base.Dict.{get}
use artea.Base.Lists.{All}
use artea.Policy.{Rule, pypi}
use artea.Adapters.{Adapter}
use artea.Compiler.{EcosystemRules, classify}
use artea.Compiler.Pypi.{Line, emit_pypi_lines}
use artea.Compiler.Pypi.Unique.{emit_pypi_lines-IsUnique, whole_and_range-duplicate}
use artea.Devpi.Plugin.{Packaging, already_exists}
use artea.Devpi.Plugin.Constraints.{parse_constraints}
use artea.Devpi.Plugin.Constraints.Unique.{
  IsRead, emitted_constraints, parse_constraints_unique, parse_constraints-twice,
}

module _ (adapter : Adapter) (rules : List Rule) (default_deny : Bool) {eco : EcosystemRules}
    {lines : List Line} (classified : classify rules pypi adapter ≡ ok eco)
    (emitted : emit_pypi_lines eco default_deny ≡ ok lines) (pkg : Packaging)
    (specifier : Line → pkg.Specifier) (reads : All (IsRead pkg specifier) lines) where
  -- Where the rules compile and each line is read as its project and specifier, devpi takes the
  -- constraints, with `constrain_all` exactly if denying is the default and one entry for each line,
  -- if denying is the default or if no package that is not allowed as a whole is denied both as a
  -- whole and by a range.
  pub parse_constraints-emitted :
      ((n : Text)
        → default_deny ≡ false
        → contains n eco.whole_allows ≡ false
        → is_some (get n eco.range_denies) ≡ true
        → is_some (get n eco.whole_denies) ≡ false)
      → parse_constraints pkg (emitted_constraints lines default_deny)
        ≡ ok (record {
          constrain_all = default_deny;
          entries = map (λ line. (line.0, specifier line)) lines;
        })
  parse_constraints-emitted clear =
      parse_constraints_unique pkg specifier lines default_deny reads
        (emit_pypi_lines-IsUnique adapter rules default_deny classified emitted clear)

  -- Where the rules compile and each line is read as its project and specifier, devpi refuses the
  -- constraints of a policy that allows by default and denies a package, which is not allowed as a
  -- whole, both as a whole and by a range: a project exists already.
  pub parse_constraints-refused :
      (n : Text)
      → default_deny ≡ false
      → contains n eco.whole_allows ≡ false
      → is_some (get n eco.range_denies) ≡ true
      → is_some (get n eco.whole_denies) ≡ true
      → (project : Text) × (parse_constraints pkg (emitted_constraints lines default_deny)
          ≡ err (already_exists project))
  parse_constraints-refused n d w r h =
      parse_constraints-twice pkg specifier lines default_deny reads
        (whole_and_range-duplicate adapter rules default_deny classified emitted n d w r h)

-- ===== src/Osv.antt =====
-- policy-sync/policy_sync/osv.py: which versions of a package are malicious.
pub mod Json
pub mod Cache
pub mod Decide
pub mod Semver
pub mod Records
pub mod Chunk
pub mod Batch
pub mod Summary
pub mod Query
pub mod Response
use artea.Base.{ℕ, Bool, Option, List, Text}

-- `OsvVerdict`
pub record Verdict : Type 0 where
  pub version : Text
  pub blocked : Bool
  pub ids : List Text

-- `OsvError`, with a constructor for each message
pub data OsvError : Type 0 where
  package_pagination package_shape batch_shape batch_result_shape querybatch_pagination
        querybatch_shape querybatch_result_shape vulns_shape :
      OsvError
  http_status : ℕ → OsvError
  no_response : OsvError

pub data Status : Type 0 where
  decided degraded policy_unavailable disabled needs_versions : Status

pub data Reason : Type 0 where
  no_policy osv_disabled lacks_exact_versions : Reason
  failed : OsvError → Reason

-- `OsvDecisionResult`
pub record Decision : Type 0 where
  pub status : Status
  pub verdicts : List Verdict
  pub reason : Option Reason

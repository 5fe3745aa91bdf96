-- ===== src/Osv/Response.antt =====
-- `response_payload` of policy-sync/policy_sync/osv.py. `message` is the text of an `OsvError`, whose
-- constructors leave out the path of the request.
use artea.Base.{Bool, Option, none, some, [], ◌∷◌, map, Text, codes, if◌then◌else◌}
use artea.Base.Lists.{keep}
use artea.Osv.{
  Verdict, OsvError, Status, decided, degraded, policy_unavailable, disabled, needs_versions,
  Reason, no_policy, osv_disabled, lacks_exact_versions, failed, Decision,
}
use artea.Osv.Json.{Json, string, boolean, array, object, Members, member, end, array_of}

unfoldable pub status_text : Status → Text
status_text decided = codes "ok"
status_text degraded = codes "degraded"
status_text policy_unavailable = codes "policy_unavailable"
status_text disabled = codes "disabled"
status_text needs_versions = codes "needs_versions"

unfoldable pub verdict_json : Verdict → Json
unfolding array_of
verdict_json verdict = object (
    member (codes "version") (string verdict.version) (
      member (codes "blocked") (boolean verdict.blocked)
        (member (codes "ids") (array (array_of (map (λ id. string id) verdict.ids))) end)))

module _ (message : OsvError → Text) where
  unfoldable pub reason_text : Option Reason → Text
  reason_text none = []
  reason_text (some no_policy) = codes "no parsed policy has synced yet"
  reason_text (some osv_disabled) = codes "osv.malicious_packages is disabled"
  reason_text (some lacks_exact_versions) = codes "MAL record lacks exact affected versions"
  reason_text (some (failed e)) = message e

  -- The reason is left out if it is empty.
  unfoldable pub reason_member : Text → Members
  reason_member [] = end
  reason_member (c ∷ text) = member (codes "reason") (string (c ∷ text)) end

  -- `response_payload`
  unfoldable pub response_payload : Decision → Bool → Members
  unfolding status_text verdict_json reason_text reason_member array_of keep
  response_payload result blocked_only =
      let verdicts =
        if blocked_only then keep (λ v. v.blocked) result.verdicts else result.verdicts in
      member (codes "status") (string (status_text result.status)) (
        member (codes "results") (array (array_of (map verdict_json verdicts)))
          (reason_member (reason_text result.reason)))

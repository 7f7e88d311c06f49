-- ===== src/Opa/Answer.antt =====
-- `_normalize_opa_result` of policy.py.
use auth_claw.Policy.Json.{
  Fields, Json, arr, bool, get, has_key, items, nil, null, obj, or_else, py_str, str, truthy,
}
use auth_claw.Prelude.{
  Bool, List, Option, Text, [], codes, false, if◌then◌else◌, is_empty, none, not, one_of, some,
  upper, ◌&&◌, ◌∷◌,
}

-- The dict of a decision.
pub record OpaResult : Type 0 where
  pub allowed : Bool
  pub decision : Text
  pub reason : Json
  pub category : Json
  pub findings : List Json
  pub risk_level : Json

-- value is True
abbrev is_true : Json → Bool
is_true (bool b) = b
is_true _ = false

-- d.get("allow", d.get("allowed"))
unfoldable pub allowed_value : Fields → Json
unfolding get has_key codes
allowed_value fs =
    if has_key fs (codes "allow") then get fs (codes "allow") else get fs (codes "allowed")

abbrev refusals : List Text
refusals = codes "BLOCK" ∷ codes "DENY" ∷ codes "REQUIRE_APPROVAL" ∷ []

-- The first value of `allowed`.
unfoldable pub allowed_by : Json → Text → Bool
unfolding truthy one_of codes
allowed_by null decision = not (one_of decision refusals)
allowed_by v decision = truthy v

-- str(result.get("decision") or "").upper()
unfoldable pub decision_text : Fields → Text
unfolding get or_else py_str upper codes
decision_text fs = upper (py_str (or_else (get fs (codes "decision")) (str [])))

-- The decision and `allowed` after the if.
unfoldable pub settle : Fields → Bool → Text → Bool × Text
unfolding get codes
settle fs allowed decision =
    if is_true (get fs (codes "block"))
    then (false, codes "BLOCK")
    else if is_true (get fs (codes "requires_approval")) && is_empty decision
    then (false, codes "REQUIRE_APPROVAL")
    else if is_empty decision
    then (allowed, if allowed then codes "ALLOW" else codes "BLOCK")
    else (allowed, decision)

-- A dict becomes a list of one, and what is no list the empty one.
unfoldable pub findings_of : Json → List Json
findings_of (obj fs) = obj fs ∷ []
findings_of (arr vs) = items vs
findings_of _ = []

unfoldable pub decided : Fields → OpaResult
unfolding get or_else decision_text allowed_by allowed_value settle findings_of codes
decided fs =
    let (allowed, decision) =
      settle fs (allowed_by (allowed_value fs) (decision_text fs)) (decision_text fs) in
    record {
      allowed = allowed;
      decision = decision;
      reason =
          or_else (or_else (get fs (codes "reason")) (get fs (codes "explanation")))
            (str (codes "OPA policy decision"));
      category = or_else (get fs (codes "category")) (str (codes "opa"));
      findings = findings_of (
          or_else (or_else (get fs (codes "findings")) (get fs (codes "matched_policies")))
            (arr nil));
      risk_level = get fs (codes "risk_level");
    }

-- result["result"], where it is there
unfoldable pub unwrapped : Json → Json
unfolding get has_key codes
unwrapped (obj fs) = if has_key fs (codes "result") then get fs (codes "result") else obj fs
unwrapped v = v

abbrev decided_dict : Json → Option OpaResult
decided_dict (obj fs) = some (decided fs)
decided_dict _ = none

-- The empty dict is `none`.
unfoldable pub normalize_opa_result : Json → Option OpaResult
unfolding unwrapped
normalize_opa_result result = decided_dict (unwrapped result)

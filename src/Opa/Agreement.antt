-- ===== src/Opa/Agreement.antt =====
-- `validate_policy` and `check_policy_violations` of policy.py give the same verdict.
use auth_claw.Opa.Answer.{OpaResult}
use auth_claw.Opa.Calls.{
  Violations, check_policy_violations, default_finding, from_engine, from_opa, is_stopping, list_or,
  stops, validate_policy,
}
use auth_claw.Policy.Action.{final_action}
use auth_claw.Policy.Category.{TenantPolicy}
use auth_claw.Policy.Engine.{
  Detector, FindingDict, PolicyEvaluationResult, collect, conclude, decide, evaluate,
  raise_for_detections,
}
use auth_claw.Policy.Findings.{Detection, PolicyFinding}
use auth_claw.Policy.Json.{Json}
use auth_claw.Prelude.{
  Bool, List, Option, Text, [], ap, false, if◌then◌else◌, is_empty, keep, none, not, refl, some,
  subst, sym, true, ℕ, ◌||◌, ◌∙◌, ◌∷◌, ◌≡◌,
}
use auth_claw.Result.{>>=-eq-ok, Result, ok, raised}

abbrev pub has_findings : Violations → Bool
has_findings (from_opa fs) = not (is_empty fs)
has_findings (from_engine fs) = not (is_empty fs)

list_or-nonempty {ℓ} :
    {A : Type ℓ} (xs : List A) (y : A) (ys : List A) → is_empty (list_or xs (y ∷ ys)) ≡ false
list_or-nonempty [] y ys = refl
list_or-nonempty (x ∷ xs) y ys = refl

conclude-stops :
    (tenant_id : Option ℕ) (username : Text) (policies : List TenantPolicy) (redacted : Text)
    (detections : List Detection) (findings : List PolicyFinding)
    → let result = conclude tenant_id username policies redacted detections findings in
      stops result.action ≡ true → is_empty result.findings ≡ false
unfolding conclude decide final_action raise_for_detections
conclude-stops tenant_id username policies redacted [] [] h = cc
conclude-stops tenant_id username policies redacted (d ∷ ds) [] h = cc
conclude-stops tenant_id username policies redacted detections (f ∷ fs) h = refl

-- An engine's result that stops a request has a finding.
evaluate-stops :
    (detect : Detector) (tenant_id : Option ℕ) (username : Text) (policies : List TenantPolicy)
    (text : Text) (result : PolicyEvaluationResult)
    → evaluate detect tenant_id username policies text ≡ ok result
    → stops result.action ≡ true
    → is_empty result.findings ≡ false
unfolding evaluate
evaluate-stops detect tenant_id username policies text result h s =
    let (redacted, detections) = detect tenant_id text username in
    let (findings, e, k) =
      >>=-eq-ok (collect text policies detections)
        (λ fs. ok (conclude tenant_id username policies redacted detections fs)) h in
    let same_result : conclude tenant_id username policies redacted detections findings ≡ result =
      cc in
    subst (λ r. stops r.action ≡ true → is_empty r.findings ≡ false) same_result
      (conclude-stops tenant_id username policies redacted detections findings) s

-- What is stated below, for any result of the engine whose stops have a finding.
Agree : Option OpaResult → Result PolicyEvaluationResult → Bool → Violations → Type 0
Agree opa engine allowed found =
    (validate_policy opa engine ≡ ok allowed) × ((allowed || has_findings found) ≡ true)

abbrev pair_of : Bool → Violations → Bool × Violations
pair_of allowed found = (allowed, found)

verdict : Result (Bool × Violations) → Bool
verdict (raised fault) = false
verdict (ok (allowed, found)) = allowed

is_explained : Result (Bool × Violations) → Bool
is_explained (raised fault) = true
is_explained (ok (allowed, found)) = allowed || has_findings found

-- A refusal by the agent has its findings or one about the refusal.
agree_opa :
    (b : Bool) (fs : List Json) (d : Json) (allowed : Bool) (found : Violations)
    → (if not b
        then ok (pair_of false (from_opa (list_or fs (d ∷ []))))
        else ok (pair_of true (from_engine [])))
      ≡ ok (pair_of allowed found)
    → (b ≡ allowed) × ((allowed || has_findings found) ≡ true)
unfolding verdict is_explained
agree_opa true fs d allowed found h = (ap verdict h, sym (ap is_explained h))
agree_opa false fs d allowed found h =
    (ap verdict h, sym (ap is_explained h) ∙ ap not (list_or-nonempty fs d []))

-- A refusal by the engine has its stopping findings or all.
agree_engine :
    (b : Bool) (some_of all_of : List FindingDict) (allowed : Bool) (found : Violations)
    → (b ≡ true → is_empty all_of ≡ false)
    → ok (
        if b
        then pair_of false (from_engine (list_or some_of all_of))
        else pair_of true (from_engine []))
      ≡ ok (pair_of allowed found)
    → (not b ≡ allowed) × ((allowed || has_findings found) ≡ true)
unfolding verdict is_explained
agree_engine false some_of all_of allowed found p h = (ap verdict h, sym (ap is_explained h))
agree_engine true some_of [] allowed found p h = let no_way = p refl in cc
agree_engine true some_of (f ∷ fs) allowed found p h =
    (ap verdict h, sym (ap is_explained h) ∙ ap not (list_or-nonempty some_of f fs))

agree :
    (opa : Option OpaResult) (engine : Result PolicyEvaluationResult) (allowed : Bool)
    (found : Violations)
    → ((r : PolicyEvaluationResult)
        → engine ≡ ok r
        → stops r.action ≡ true
        → is_empty r.findings ≡ false)
    → check_policy_violations opa engine ≡ ok (allowed, found)
    → Agree opa engine allowed found
unfolding check_policy_violations validate_policy Agree
agree (some r) engine allowed found stopped h =
    let (same_verdict, explained) =
      agree_opa r.allowed r.findings (default_finding r) allowed found h in
    (ap ok same_verdict, explained)
agree none (raised fault) allowed found stopped h = cc
agree none (ok r) allowed found stopped h =
    let (same_verdict, explained) =
      agree_engine (stops r.action) (keep is_stopping r.findings) r.findings allowed found
        (stopped r refl) h in
    (ap ok same_verdict, explained)

-- Wherever check_policy_violations answers, validate_policy answers its verdict; and a refusal comes
-- with at least one finding.
pub check_policy_violations-agrees :
    (opa : Option OpaResult) (detect : Detector) (tenant_id : Option ℕ) (username : Text)
    (policies : List TenantPolicy) (text : Text) (allowed : Bool) (found : Violations)
    → check_policy_violations opa (evaluate detect tenant_id username policies text)
      ≡ ok (allowed, found)
    → (validate_policy opa (evaluate detect tenant_id username policies text) ≡ ok allowed)
      × ((allowed || has_findings found) ≡ true)
unfolding Agree
check_policy_violations-agrees opa detect tenant_id username policies text allowed found h =
    agree opa (evaluate detect tenant_id username policies text) allowed found
      (λ r e s. evaluate-stops detect tenant_id username policies text r e s) h

-- ===== src/Policy/Verdict.antt =====
-- What `PolicyEngine.evaluate` promises of its result.
use auth_claw.Policy.Action.{allow, block, permits, priority}
use auth_claw.Policy.Category.{TenantPolicy}
use auth_claw.Policy.Collected.{collect_inv, length-detector_findings, matches_of-Exists}
use auth_claw.Policy.Conclusion.{
  conclude-allowed_iff, conclude-block, conclude-high_iff, conclude-low_iff, conclude-reason,
}
use auth_claw.Policy.Engine.{
  Detector, PolicyEvaluationResult, collect, conclude, evaluate, high, low,
}
use auth_claw.Policy.Findings.{
  Detection, PolicyFinding, baseline_findings, bypass_findings, exfiltration_findings,
  injection_findings, keyword_findings,
}
use auth_claw.Policy.Patterns.{
  data_exfiltration_patterns, prompt_injection_patterns, security_bypass_patterns,
}
use auth_claw.Prelude.{
  All, Bool, Exists, Exists-append_left, Exists-append_right, List, Option, Text, [], any,
  any-append, ap, arith, contains, false, inl, inr, length, length-append, lower, or-split, refl,
  subst, sym, true, ℕ, ◌++◌, ◌↔◌, ◌∙◌, ◌≡◌, ◌≢◌, ◌≤◌, ◌⊎◌,
}
use auth_claw.Result.{>>=-eq-ok, ok}

-- All the patterns that the engine blocks whatever the policies say.
abbrev pub baseline_patterns : List Text
baseline_patterns =
    prompt_injection_patterns ++ (security_bypass_patterns ++ data_exfiltration_patterns)

-- `pattern in lowered` for one of the patterns
abbrev pub HasBaselinePattern : Text → Type 0
HasBaselinePattern text = any (contains (lower text)) baseline_patterns ≡ true

any-append_inv :
    (p : Text → Bool) (xs ys : List Text)
    → any p (xs ++ ys) ≡ true
    → (any p xs ≡ true) ⊎ (any p ys ≡ true)
any-append_inv p xs ys h = or-split (any p xs) (any p ys) (sym (any-append p xs ys) ∙ h)

abbrev IsBlock : PolicyFinding → Type 0
IsBlock f = f.action ≡ block

abbrev HasBlock : List PolicyFinding → Type 0
HasBlock fs = Exists IsBlock fs

module _ (lowered : Text) where
  injection-block :
      any (contains lowered) prompt_injection_patterns ≡ true
      → HasBlock (injection_findings lowered)
  unfolding injection_findings
  injection-block = matches_of-Exists _ lowered prompt_injection_patterns IsBlock (λ p. refl)

  bypass-block :
      any (contains lowered) security_bypass_patterns ≡ true → HasBlock (bypass_findings lowered)
  unfolding bypass_findings
  bypass-block = matches_of-Exists _ lowered security_bypass_patterns IsBlock (λ p. refl)

  exfiltration-block :
      any (contains lowered) data_exfiltration_patterns ≡ true
      → HasBlock (exfiltration_findings lowered)
  unfolding exfiltration_findings
  exfiltration-block = matches_of-Exists _ lowered data_exfiltration_patterns IsBlock (λ p. refl)

  later-block :
      any (contains lowered) (security_bypass_patterns ++ data_exfiltration_patterns) ≡ true
      → HasBlock (bypass_findings lowered ++ exfiltration_findings lowered)
  later-block h =
      elim (any-append_inv (contains lowered) security_bypass_patterns data_exfiltration_patterns
        h) [
          | inl e ↦
              Exists-append_left IsBlock (bypass_findings lowered) (exfiltration_findings lowered)
                (bypass-block e)
          | inr e ↦
              Exists-append_right IsBlock (bypass_findings lowered) (exfiltration_findings lowered)
                (exfiltration-block e)
        ]

baseline_findings-block :
    (text : Text) → HasBaselinePattern text → HasBlock (baseline_findings text)
unfolding baseline_findings
baseline_findings-block text h =
    let l = lower text in
    let later = bypass_findings l ++ exfiltration_findings l in
    elim (any-append_inv (contains l) prompt_injection_patterns
      (security_bypass_patterns ++ data_exfiltration_patterns) h) [
        | inl e ↦ Exists-append_left IsBlock (injection_findings l) later (injection-block l e)
        | inr e ↦ Exists-append_right IsBlock (injection_findings l) later (later-block l e)
      ]

module _ (detect : Detector) (tenant_id : Option ℕ) (username : Text) (policies : List TenantPolicy)
    (text : Text) {r : PolicyEvaluationResult}
    (done : evaluate detect tenant_id username policies text ≡ ok r) where
  abbrev detections : List Detection
  detections = (detect tenant_id text username).1

  abbrev concluded : List PolicyFinding → PolicyEvaluationResult
  concluded fs =
      conclude tenant_id username policies (detect tenant_id text username).0 detections fs

  evaluate_inv :
      (fs : List PolicyFinding) × (collect text policies detections ≡ ok fs) × (concluded fs ≡ r)
  unfolding evaluate
  evaluate_inv =
      let (fs, collected, e) =
        >>=-eq-ok (collect text policies detections) (λ fs. ok (concluded fs)) done in
      (fs, collected, ground arith)

  collected-block :
      HasBaselinePattern text
      → (fs : List PolicyFinding) → collect text policies detections ≡ ok fs
      → HasBlock fs
  collected-block h fs c =
      let (detected, topics, e, t, all_of) = collect_inv text policies detections c in
      let rest = topics ++ keyword_findings (lower text) policies in
      rw all_of (
        Exists-append_right IsBlock detected (baseline_findings text ++ rest) (
          Exists-append_left IsBlock (baseline_findings text) rest
            (baseline_findings-block text h)))

  enough :
      (fs : List PolicyFinding)
      → collect text policies detections ≡ ok fs
      → length detections ≤ length fs
  enough fs c =
      let (detected, topics, e, t, all_of) = collect_inv text policies detections c in
      let rest = baseline_findings text ++ (topics ++ keyword_findings (lower text) policies) in
      omega (
        arith,
        ap length all_of,
        length-append detected rest,
        length-detector_findings detections policies e,
      )

  -- A text that holds, in any case, one of the engine's own patterns is concluded by BLOCK, is
  -- not allowed and has HIGH risk, whatever the detector, the tenant and its policies are.
  pub evaluate-block :
      HasBaselinePattern text → (r.action ≡ block) × (r.allowed ≡ false) × (r.risk_level ≡ high)
  evaluate-block h =
      let (fs, collected, e) = evaluate_inv in
      subst (λ s. (s.action ≡ block) × (s.allowed ≡ false) × (s.risk_level ≡ high)) e
        (conclude-block _ _ _ _ _ fs (collected-block h fs collected))

  -- The request is allowed exactly when no finding's action is BLOCK or REQUIRE_APPROVAL.
  pub evaluate-allowed_iff :
      (r.allowed ≡ true) ↔ All (λ d. permits d.finding.action ≡ true) r.findings
  evaluate-allowed_iff =
      let (fs, collected, e) = evaluate_inv in
      subst (λ s. (s.allowed ≡ true) ↔ All (λ d. permits d.finding.action ≡ true) s.findings) e
        (conclude-allowed_iff _ _ _ _ _ fs)

  -- The risk is HIGH exactly when the request is not allowed, and LOW exactly when nothing was
  -- found.
  pub evaluate-risk :
      ((r.risk_level ≡ high) ↔ (r.allowed ≡ false)) × ((r.risk_level ≡ low) ↔ (r.findings ≡ []))
  evaluate-risk =
      let (fs, collected, e) = evaluate_inv in
      subst
        (λ s.
          ((s.risk_level ≡ high) ↔ (s.allowed ≡ false))
          × ((s.risk_level ≡ low) ↔ (s.findings ≡ [])))
        e (conclude-high_iff _ _ _ _ _ fs, conclude-low_iff _ _ _ _ _ fs (enough fs collected))

  -- Unless the action is ALLOW, the reason is that of a finding whose action no other finding
  -- passes in priority.
  pub evaluate-reason :
      r.action ≢ allow
      → Exists
          (λ d.
            (d.finding.reason ≡ r.reason)
            × All (λ e. priority e.finding.action ≤ priority d.finding.action) r.findings)
          r.findings
  evaluate-reason =
      let (fs, collected, e) = evaluate_inv in
      subst
        (λ s.
          s.action ≢ allow
          → Exists
              (λ d.
                (d.finding.reason ≡ s.reason)
                × All (λ e. priority e.finding.action ≤ priority d.finding.action) s.findings)
              s.findings)
        e (conclude-reason _ _ _ _ _ fs (enough fs collected))

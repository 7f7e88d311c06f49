-- ===== src/Policy/Conclusion.antt =====
-- What `conclude` makes of any list of findings.
use auth_claw.Policy.Action.{Action, allow, block, permits, priority}
use auth_claw.Policy.Category.{TenantPolicy}
use auth_claw.Policy.Decision.{decide-block, high_iff, permits-decide_iff, reason_of-Explains}
use auth_claw.Policy.Engine.{conclude, decide, high, low, risk_level_of, to_dict}
use auth_claw.Policy.Findings.{Detection, PolicyFinding}
use auth_claw.Prelude.{
  All, All-map, All-unmap, Exists, Exists-map, Exists-weaken, List, Option, Text, [], arith, false,
  length, refl, true, ℕ, ◌↔◌, ◌∷◌, ◌≡◌, ◌≢◌, ◌≤◌,
}

module _ (tenant_id : Option ℕ) (username : Text) (policies : List TenantPolicy) (redacted : Text)
    (ds : List Detection) (fs : List PolicyFinding) where
  pub conclude-allowed_iff :
      let r = conclude tenant_id username policies redacted ds fs in
      (r.allowed ≡ true) ↔ All (λ d. permits d.finding.action ≡ true) r.findings
  unfolding conclude to_dict
  conclude-allowed_iff =
      let (to, from) = permits-decide_iff fs ds in
      (
        λ h. All-map (λ d. permits d.finding.action ≡ true) (to_dict username tenant_id) fs (to h),
        λ h.
            from
              (All-unmap (λ d. permits d.finding.action ≡ true) (to_dict username tenant_id) fs h),
      )

  pub conclude-high_iff :
      let r = conclude tenant_id username policies redacted ds fs in
      (r.risk_level ≡ high) ↔ (r.allowed ≡ false)
  unfolding conclude
  conclude-high_iff = high_iff (decide fs ds) fs

  pub conclude-block :
      Exists (λ f. f.action ≡ block) fs
      → let r = conclude tenant_id username policies redacted ds fs in
        (r.action ≡ block) × (r.allowed ≡ false) × (r.risk_level ≡ high)
  unfolding conclude
  conclude-block e = rw (decide-block fs ds e) (refl, refl, unfold risk_level_of in refl)

-- Nothing was found and nothing detected: the action is ALLOW.
decide-nil : decide [] [] ≡ allow
unfolding decide
decide-nil = refl

risk-low :
    (a : Action) (fs : List PolicyFinding) → risk_level_of a fs ≡ low → (fs ≡ []) × (a ≡ allow)
unfolding risk_level_of
risk-low allow [] h = (refl, refl)
risk-low _ _ h = cc

pub conclude-low_iff :
    (tenant_id : Option ℕ) (username : Text) (policies : List TenantPolicy) (redacted : Text)
    (ds : List Detection) (fs : List PolicyFinding)
    → length ds ≤ length fs
    → let r = conclude tenant_id username policies redacted ds fs in
      (r.risk_level ≡ low) ↔ (r.findings ≡ [])
unfolding conclude
conclude-low_iff t u p x [] [] h = (λ e. refl, λ e. refl)
conclude-low_iff t u p x (d ∷ ds) [] h = absurd (omega arith)
conclude-low_iff t u p x ds (f ∷ fs) h =
    (λ e. cc ((risk-low (decide (f ∷ fs) ds) (f ∷ fs) e).0), λ e. cc)

pub conclude-reason :
    (tenant_id : Option ℕ) (username : Text) (policies : List TenantPolicy) (redacted : Text)
    (ds : List Detection) (fs : List PolicyFinding)
    → length ds ≤ length fs
    → let r = conclude tenant_id username policies redacted ds fs in
      r.action ≢ allow
      → Exists
          (λ d.
            (d.finding.reason ≡ r.reason)
            × All (λ e. priority e.finding.action ≤ priority d.finding.action) r.findings)
          r.findings
unfolding conclude to_dict
conclude-reason t u p x [] [] h n = absurd (n decide-nil)
conclude-reason t u p x (d ∷ ds) [] h n = absurd (omega arith)
conclude-reason t u p x ds (f ∷ fs) h n =
    let r = conclude t u p x ds (f ∷ fs) in
    Exists-map
      (λ d.
        (d.finding.reason ≡ r.reason)
        × All (λ e. priority e.finding.action ≤ priority d.finding.action) r.findings)
      (to_dict u t) (f ∷ fs)
      (Exists-weaken
        (λ g q. (
          q.0,
          All-map (λ e. priority e.finding.action ≤ priority g.action) (to_dict u t) (f ∷ fs) q.1,
        ))
        (f ∷ fs) (reason_of-Explains (decide (f ∷ fs) ds) f fs n))

-- ===== src/Policy/Lifecycle/Total.antt =====
-- services/policy_engine.py: `evaluate` with policies that the lifecycle accepts.
use auth_claw.Policy.Action.{Action}
use auth_claw.Policy.Category.{TenantPolicy, matching_policy, normalize_category, policy_categories}
use auth_claw.Policy.Engine.{Detector, collect, evaluate}
use auth_claw.Policy.Findings.{
  Detection, PolicyFinding, action_for_category, action_from, allowed_topic_findings,
  blocked_topic_findings, built_in_category, built_in_findings, category_action_in, cons_finding,
  detector_findings, entity_category, tenant_topic_findings, topic_finding, topic_findings,
}
use auth_claw.Policy.Json.{Fields, Json, end, field, get, null, str}
use auth_claw.Policy.Lifecycle.Accepted.{
  AllSupported, IsAccepted, IsSupported, accepted-action, accepted-category_rules,
}
use auth_claw.Policy.Patterns.{financial_patterns, legal_patterns, medical_patterns}
use auth_claw.Prelude.{
  All, All-weaken, Bool, Bool-cases, List, Option, Option-cases, Text, [], arith, codes, contains,
  false, if◌then◌else◌, inl, inr, lower, none, one_of, refl, some, some-injective, subst, text_eq,
  true, ℕ, ◌++◌, ◌∷◌, ◌≡◌, ◌≢◌,
}
use auth_claw.Result.{Result, Returns, Returns-bind, Returns-ok, ok}

abbrev IsRunnable : TenantPolicy → Type 0
IsRunnable p = (category : Text) → Returns (action_for_category category (some p))

accepted-IsRunnable : (p : TenantPolicy) → IsAccepted p.rules → IsRunnable p
unfolding action_for_category
accepted-IsRunnable p h category =
    let (fs, e, s) = accepted-category_rules p.rules h in rw e (Returns-ok _)

matching_policy-All :
    (P : TenantPolicy → Type 0) (category : Json) (ps : List TenantPolicy) (p : TenantPolicy)
    → All P ps
    → matching_policy category ps ≡ some p
    → P p
unfolding matching_policy
matching_policy-All P category [] p h e = cc
matching_policy-All P category (q ∷ ps) p (now, h) e =
    elim (Bool-cases (one_of (normalize_category category) (policy_categories q))) [
      | inl t ↦ let same : some q ≡ some p = ground arith in subst P (some-injective q p same) now
      | inr t ↦ matching_policy-All P category ps p h (ground arith)
    ]

option-Returns :
    (category : Text) (m : Option TenantPolicy)
    → ((p : TenantPolicy) → m ≡ some p → IsRunnable p)
    → Returns (action_for_category category m)
option-Returns category none h = unfold action_for_category in Returns-ok none
option-Returns category (some p) h = h p refl category

detector_findings-Returns :
    (ds : List Detection) (ps : List TenantPolicy)
    → All IsRunnable ps
    → Returns (detector_findings ds ps)
unfolding detector_findings
detector_findings-Returns [] ps h = Returns-ok []
detector_findings-Returns (d ∷ ds) ps h =
    let category = entity_category (lower d.matched_pattern) in
    let found = matching_policy (str category) ps in
    Returns-bind (action_for_category category found) _
      (option-Returns category found
        (λ p e. matching_policy-All IsRunnable (str category) ps p h e))
      (λ chosen.
        Returns-bind (detector_findings ds ps) _ (detector_findings-Returns ds ps h)
          (λ fs. Returns-ok _))

topic_finding-Returns :
    (p : TenantPolicy) (category pattern reason : Text)
    → IsRunnable p
    → Returns (topic_finding p category pattern reason)
unfolding topic_finding
topic_finding-Returns p category pattern reason h =
    Returns-bind (action_for_category category (some p)) _ (h category) (λ chosen. Returns-ok _)

cons_finding-Returns :
    (m : Result PolicyFinding) (n : Result (List PolicyFinding))
    → Returns m
    → Returns n
    → Returns (cons_finding m n)
unfolding cons_finding
cons_finding-Returns m n h k =
    Returns-bind m _ h (λ f. Returns-bind n _ k (λ fs. Returns-ok (f ∷ fs)))

-- A finding is made if a test holds.
if-Returns :
    (b : Bool) (m : Result PolicyFinding) (n : Result (List PolicyFinding))
    → Returns m
    → Returns n
    → Returns (if b then cons_finding m n else n)
if-Returns true m n h k = cons_finding-Returns m n h k
if-Returns false m n h k = k

built_in_findings-Returns :
    (p : TenantPolicy) (category lowered : Text) (patterns : List Text)
    → IsRunnable p
    → Returns (built_in_findings p category lowered patterns)
unfolding built_in_findings
built_in_findings-Returns p category lowered [] h = Returns-ok []
built_in_findings-Returns p category lowered (t ∷ ts) h =
    if-Returns (contains lowered t)
      (topic_finding p category t (codes "Built-in category topic matched"))
      (built_in_findings p category lowered ts) (topic_finding-Returns p category t _ h)
      (built_in_findings-Returns p category lowered ts h)

built_in_category-Returns :
    (ps : List TenantPolicy) (lowered category : Text) (patterns : List Text)
    → All IsRunnable ps
    → Returns (built_in_category ps lowered category patterns)
unfolding built_in_category
built_in_category-Returns ps lowered category patterns h =
    elim (Option-cases (matching_policy (str category) ps)) [
      | inl e ↦ rw e (Returns-ok [])
      | inr (p, e) ↦ rw e (
          built_in_findings-Returns p category lowered patterns
            (matching_policy-All IsRunnable (str category) ps p h e))
    ]

blocked_topic_findings-Returns :
    (p : TenantPolicy) (lowered : Text) (topics : List Text)
    → IsRunnable p
    → Returns (blocked_topic_findings p lowered topics)
unfolding blocked_topic_findings
blocked_topic_findings-Returns p lowered [] h = Returns-ok []
blocked_topic_findings-Returns p lowered (t ∷ ts) h =
    if-Returns (contains lowered (lower t))
      (topic_finding p (codes "CUSTOMER_DEFINED_TOPICS") t (codes "Tenant blocked topic matched"))
      (blocked_topic_findings p lowered ts)
      (topic_finding-Returns p (codes "CUSTOMER_DEFINED_TOPICS") t
        (codes "Tenant blocked topic matched") h)
      (blocked_topic_findings-Returns p lowered ts h)

allowed_topic_findings-Returns :
    (p : TenantPolicy) (lowered : Text) → IsRunnable p → Returns (allowed_topic_findings p lowered)
unfolding allowed_topic_findings
allowed_topic_findings-Returns p lowered h =
    if-Returns _
      (topic_finding p (codes "CUSTOMER_DEFINED_TOPICS") (codes "outside_allowed_topics")
        (codes "Prompt is outside tenant allowed topics"))
      (ok [])
      (topic_finding-Returns p (codes "CUSTOMER_DEFINED_TOPICS") (codes "outside_allowed_topics")
        (codes "Prompt is outside tenant allowed topics") h)
      (Returns-ok [])

tenant_topic_findings-Returns :
    (lowered : Text) (ps : List TenantPolicy)
    → All IsRunnable ps
    → Returns (tenant_topic_findings lowered ps)
unfolding tenant_topic_findings
tenant_topic_findings-Returns lowered [] h = Returns-ok []
tenant_topic_findings-Returns lowered (p ∷ ps) (now, h) =
    Returns-bind _ _ (blocked_topic_findings-Returns p lowered _ now) (λ b.
      Returns-bind _ _ (allowed_topic_findings-Returns p lowered now)
        (λ o. Returns-bind _ _ (tenant_topic_findings-Returns lowered ps h) (λ l. Returns-ok _)))

topic_findings-Returns :
    (text : Text) (ps : List TenantPolicy) → All IsRunnable ps → Returns (topic_findings text ps)
unfolding topic_findings
topic_findings-Returns text ps h =
    let lowered = lower text in
    let financial = codes "FINANCIAL_DATA" in
    let medical = codes "MEDICAL_DATA" in
    let legal = codes "LEGAL_DATA" in
    Returns-bind (built_in_category ps lowered financial financial_patterns) _
      (built_in_category-Returns ps lowered financial financial_patterns h)
      (λ a.
        Returns-bind (built_in_category ps lowered medical medical_patterns) _
          (built_in_category-Returns ps lowered medical medical_patterns h)
          (λ b.
            Returns-bind (built_in_category ps lowered legal legal_patterns) _
              (built_in_category-Returns ps lowered legal legal_patterns h)
              (λ c.
                Returns-bind (tenant_topic_findings lowered ps) _
                  (tenant_topic_findings-Returns lowered ps h)
                  (λ d. Returns-ok (a ++ (b ++ (c ++ d)))))))

collect-Returns :
    (text : Text) (ps : List TenantPolicy) (ds : List Detection)
    → All IsRunnable ps
    → Returns (collect text ps ds)
unfolding collect
collect-Returns text ps ds h =
    Returns-bind _ _ (detector_findings-Returns ds ps h)
      (λ a. Returns-bind _ _ (topic_findings-Returns text ps h) (λ b. Returns-ok _))

-- If the lifecycle accepts the rules of every policy, the evaluation of any text returns a result,
-- whatever the detector finds.
pub evaluate-Returns :
    (detect : Detector) (tenant_id : Option ℕ) (username : Text) (policies : List TenantPolicy)
    (text : Text)
    → All (λ p. IsAccepted p.rules) policies
    → Returns (evaluate detect tenant_id username policies text)
unfolding evaluate
evaluate-Returns detect tenant_id username policies text h =
    Returns-bind _ _
      (collect-Returns text policies _ (All-weaken (λ p k. accepted-IsRunnable p k) policies h))
      (λ fs. Returns-ok _)

category_action_in-supported :
    (key : Text) (fs : Fields) (default : Json)
    → AllSupported fs
    → IsSupported default
    → (a : Action) × (category_action_in key fs default ≡ some a)
unfolding category_action_in
category_action_in-supported key end default s d = d
category_action_in-supported key (field k v fs) default (now, s) d =
    elim (Bool-cases (text_eq (lower (normalize_category (str k))) key)) [
      | inl e ↦ rw e now
      | inr e ↦ rw e (category_action_in-supported key fs default s d)
    ]

-- Of an accepted policy that states an `action`, every category has a supported action.
pub accepted-action_for_category :
    (p : TenantPolicy) (category : Text)
    → IsAccepted p.rules
    → get p.rules (codes "action") ≢ null
    → (a : Action) × (action_for_category category (some p) ≡ ok (some a))
unfolding action_for_category
accepted-action_for_category p category h n =
    let (fs, e, s) = accepted-category_rules p.rules h in
    let key = lower (normalize_category (str category)) in
    let (a, found) =
      category_action_in-supported key fs (get p.rules (codes "action")) s
        (accepted-action p.rules h n) in
    (a, rw (e, action_from) (rw found))

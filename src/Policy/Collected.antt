-- ===== src/Policy/Collected.antt =====
-- The parts of the list of findings that `evaluate` collects.
use auth_claw.Policy.Category.{TenantPolicy, matching_policy}
use auth_claw.Policy.Engine.{collect}
use auth_claw.Policy.Findings.{
  Detection, PolicyFinding, action_for_category, baseline_findings, detector_findings,
  entity_category, keyword_findings, matches_of, topic_findings,
}
use auth_claw.Policy.Json.{str}
use auth_claw.Prelude.{
  Bool-cases, Exists, List, Text, [], any, arith, contains, here, inl, inr, length, lower, true,
  ◌++◌, ◌∷◌, ◌≡◌,
}
use auth_claw.Result.{>>=-eq-ok, ok}

abbrev pub Collected : Text → List TenantPolicy → List Detection → List PolicyFinding → Type 0
Collected text policies ds fs =
    (detected : List PolicyFinding) × (topics : List PolicyFinding) × (detector_findings ds policies
      ≡ ok detected)
    × (topic_findings text policies ≡ ok topics)
    × (fs
        ≡ detected
          ++ (baseline_findings text ++ (topics ++ keyword_findings (lower text) policies)))

pub collect_inv :
    (text : Text) (policies : List TenantPolicy) (ds : List Detection) {fs : List PolicyFinding}
    → collect text policies ds ≡ ok fs
    → Collected text policies ds fs
unfolding collect
collect_inv text policies ds h =
    let (detected, e, rest) = >>=-eq-ok (detector_findings ds policies) _ h in
    let (topics, t, last) = >>=-eq-ok (topic_findings text policies) _ rest in
    (detected, topics, e, t, ground arith)

-- Every detection gives a finding.
pub length-detector_findings :
    (ds : List Detection) (policies : List TenantPolicy) {fs : List PolicyFinding}
    → detector_findings ds policies ≡ ok fs
    → length fs ≡ length ds
unfolding detector_findings
length-detector_findings [] policies h = ground arith
length-detector_findings (d ∷ ds) policies h =
    let (chosen, c, rest) =
      >>=-eq-ok
        (action_for_category (entity_category (lower d.matched_pattern))
          (matching_policy (str (entity_category (lower d.matched_pattern))) policies))
        _ h in
    let (later, l, last) = >>=-eq-ok (detector_findings ds policies) _ rest in
    ground (arith, length-detector_findings ds policies l)

-- A pattern that stands in the text gives a finding of its loop.
pub matches_of-Exists :
    (make : Text → PolicyFinding) (lowered : Text) (patterns : List Text)
    (P : PolicyFinding → Type 0)
    → ((p : Text) → P (make p))
    → any (contains lowered) patterns ≡ true
    → Exists P (matches_of make lowered patterns)
unfolding matches_of
matches_of-Exists make lowered [] P f h = cc
matches_of-Exists make lowered (p ∷ ps) P f h = elim (Bool-cases (contains lowered p)) [
  | inl e ↦ rw e (here (f p))
  | inr e ↦ rw e (matches_of-Exists make lowered ps P f (rw e at h))
]

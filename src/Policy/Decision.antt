-- ===== src/Policy/Decision.antt =====
-- How the findings decide the action, the permission, the risk and the reason.
use auth_claw.Policy.Action.{
  Action, allow, block, final_action, permits, priority, redact, require_approval,
}
use auth_claw.Policy.Engine.{
  decide, high, raise_for_detections, reason_of, risk_level_of, strongest,
}
use auth_claw.Policy.Findings.{Detection, PolicyFinding}
use auth_claw.Policy.Strongest.{final_action-IsStrongest, final_action-block}
use auth_claw.Prelude.{
  All, All-Exists, All-map, All-unmap, All-weaken, Bool-cases, Exists, Exists-elim, Exists-map,
  Exists-weaken, List, Text, [], ap, arith, false, here, if◌then◌else◌, inl, inr, ltb, map, refl,
  subst, sym, there, true, ◌↔◌, ◌∙◌, ◌∷◌, ◌≡◌, ◌≢◌, ◌≤◌, ◌⊎◌,
}

pub permits_iff_le : (a : Action) → (permits a ≡ true) ↔ (priority a ≤ 1)
permits_iff_le allow = ground arith
permits_iff_le redact = ground arith
permits_iff_le require_approval = ground arith
permits_iff_le block = ground arith

permits-raise : (a : Action) (ds : List Detection) → permits (raise_for_detections a ds) ≡ permits a
unfolding raise_for_detections
permits-raise allow [] = refl
permits-raise allow (d ∷ ds) = refl
permits-raise redact ds = refl
permits-raise require_approval ds = refl
permits-raise block ds = refl

abbrev actions : List PolicyFinding → List Action
actions fs = map (λ f. f.action) fs

pub decide-block :
    (fs : List PolicyFinding) (ds : List Detection)
    → Exists (λ f. f.action ≡ block) fs
    → decide fs ds ≡ block
unfolding decide raise_for_detections
decide-block fs ds e =
    rw (final_action-block (actions fs) (Exists-map (λ b. b ≡ block) (λ f. f.action) fs e))

-- When the findings stand against the request.
final-permits_of_All :
    (as' : List Action) → All (λ a. permits a ≡ true) as' → permits (final_action as') ≡ true
final-permits_of_All [] h = unfold final_action in refl
final-permits_of_All (a ∷ as') h =
    Exists-elim (a ∷ as') (λ b q. ground (arith, q.0, q.1))
      (All-Exists (a ∷ as') h (final_action-IsStrongest a as').1)

All-permits_of_final :
    (as' : List Action) → permits (final_action as') ≡ true → All (λ a. permits a ≡ true) as'
All-permits_of_final [] h = tt
All-permits_of_final (a ∷ as') h =
    All-weaken
      (λ b q. (permits_iff_le b).1 (omega (arith, (permits_iff_le (final_action (a ∷ as'))).0 h)))
      (a ∷ as') (final_action-IsStrongest a as').0

-- A decision permits the request exactly when every finding's action does.
pub permits-decide_iff :
    (fs : List PolicyFinding) (ds : List Detection)
    → (permits (decide fs ds) ≡ true) ↔ All (λ f. permits f.action ≡ true) fs
unfolding decide
permits-decide_iff fs ds = (
  λ h.
      All-unmap (λ a. permits a ≡ true) (λ f. f.action) fs
        (All-permits_of_final (actions fs)
          (sym (permits-raise (final_action (actions fs)) ds) ∙ h)),
  λ h.
      permits-raise (final_action (actions fs)) ds
      ∙ final-permits_of_All (actions fs) (All-map (λ a. permits a ≡ true) (λ f. f.action) fs h),
)

-- The risk is HIGH exactly when the request is not permitted.
pub high_iff :
    (a : Action) (fs : List PolicyFinding) → (risk_level_of a fs ≡ high) ↔ (permits a ≡ false)
unfolding risk_level_of
high_iff allow [] = ground arith
high_iff allow (f ∷ fs) = ground arith
high_iff redact fs = ground arith
high_iff require_approval fs = ground arith
high_iff block fs = ground arith

abbrev AtMost : PolicyFinding → List PolicyFinding → Type 0
AtMost m fs = All (λ f. priority f.action ≤ priority m.action) fs

-- The finding that explains an action: none passes it in priority, and it gives the reason.
abbrev pub Explains : Text → List PolicyFinding → PolicyFinding → Type 0
Explains reason fs m = (m.reason ≡ reason) × All (λ f. priority f.action ≤ priority m.action) fs

abbrev firmer : PolicyFinding → PolicyFinding → PolicyFinding
firmer best f = if ltb (priority best.action) (priority f.action) then f else best

firmer_ge :
    (best f : PolicyFinding)
    → (priority best.action ≤ priority (firmer best f).action)
      × (priority f.action ≤ priority (firmer best f).action)
firmer_ge best f = ground arith

firmer_one : (best f : PolicyFinding) → (firmer best f ≡ best) ⊎ (firmer best f ≡ f)
firmer_one best f = elim (Bool-cases (ltb (priority best.action) (priority f.action))) [
  | inl e ↦ inr (rw e)
  | inr e ↦ inl (rw e)
]

abbrev IsFirmest : PolicyFinding → List PolicyFinding → Type 0
IsFirmest m fs = AtMost m fs × Exists (λ f. f ≡ m) fs

Exists-firmer :
    (m best f : PolicyFinding) (fs : List PolicyFinding)
    → Exists (λ b. b ≡ m) (firmer best f ∷ fs)
    → Exists (λ b. b ≡ m) (best ∷ f ∷ fs)
Exists-firmer m best f fs (here p) = elim (firmer_one best f) [
  | inl e ↦ here (sym e ∙ p)
  | inr e ↦ there (here (sym e ∙ p))
]
Exists-firmer m best f fs (there e) = there (there e)

strongest-IsFirmest :
    (best : PolicyFinding) (fs : List PolicyFinding) → IsFirmest (strongest best fs) (best ∷ fs)
unfolding strongest
strongest-IsFirmest best [] = ((omega arith, tt), here refl)
strongest-IsFirmest best (f ∷ fs) =
    let ((top, rest), found) = strongest-IsFirmest (firmer best f) fs in
    let (l, r) = firmer_ge best f in
    (
      (omega arith, (omega arith, rest)),
      Exists-firmer (strongest (firmer best f) fs) best f fs found,
    )

pub reason_of-Explains :
    (a : Action) (f : PolicyFinding) (fs : List PolicyFinding)
    → a ≢ allow
    → Exists (Explains (reason_of a (f ∷ fs)) (f ∷ fs)) (f ∷ fs)
unfolding reason_of
reason_of-Explains allow f fs h = absurd (h refl)
reason_of-Explains _ f fs h =
    let (top, found) = strongest-IsFirmest f fs in
    Exists-weaken (λ g e. (ap (λ m. m.reason) e, subst (λ m. AtMost m (f ∷ fs)) (sym e) top))
      (f ∷ fs) found

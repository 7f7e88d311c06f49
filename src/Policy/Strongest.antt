-- ===== src/Policy/Strongest.antt =====
-- services/policy_engine.py: `_final_action` and the priorities.
use auth_claw.Policy.Action.{
  Action, allow, as_action_lem, block, final_action, max_from, priority, redact, require_approval,
}
use auth_claw.Prelude.{
  All, Exists, Exists-weaken, List, [], ap, arith, here, if◌then◌else◌, inl, inr, ltb, refl, subst,
  sym, there, ℕ, ◌∙◌, ◌∷◌, ◌≡◌, ◌≤◌, ◌⊎◌,
}

eq_block : (a : Action) → 3 ≤ priority a → a ≡ block
eq_block allow h = absurd (omega arith)
eq_block redact h = absurd (omega arith)
eq_block require_approval h = absurd (omega arith)
eq_block block h = refl

pub priority-le : (a : Action) → priority a ≤ 3
priority-le allow = omega arith
priority-le redact = omega arith
priority-le require_approval = omega arith
priority-le block = omega arith

-- One round of the loop.
abbrev stronger : Action → Action → Action
stronger best a = if ltb (priority best) (priority a) then a else best

max_from-cons :
    (best a : Action) (as' : List Action) → max_from best (a ∷ as') ≡ max_from (stronger best a) as'
unfolding max_from
max_from-cons best a as' = rw as_action_lem

stronger_ge :
    (best a : Action)
    → (priority best ≤ priority (stronger best a)) × (priority a ≤ priority (stronger best a))
stronger_ge best a = ground arith

-- An action of the list that no other one passes in priority.
abbrev pub IsStrongest : Action → List Action → Type 0
IsStrongest m as' = All (λ b. priority b ≤ priority m) as' × Exists (λ b. b ≡ m) as'

stronger_one : (best a : Action) → (stronger best a ≡ best) ⊎ (stronger best a ≡ a)
stronger_one best a = ground arith

Exists-stronger :
    (m best a : Action) (as' : List Action)
    → Exists (λ b. b ≡ m) (stronger best a ∷ as')
    → Exists (λ b. b ≡ m) (best ∷ a ∷ as')
Exists-stronger m best a as' (here p) = elim (stronger_one best a) [
  | inl e ↦ here (sym e ∙ p)
  | inr e ↦ there (here (sym e ∙ p))
]
Exists-stronger m best a as' (there e) = there (there e)

max_from-IsStrongest :
    (best : Action) (as' : List Action) → IsStrongest (max_from best as') (best ∷ as')
max_from-IsStrongest best [] = unfold max_from in ((omega arith, tt), here refl)
max_from-IsStrongest best (a ∷ as') =
    let ((top, rest), found) = max_from-IsStrongest (stronger best a) as' in
    let (l, r) = stronger_ge best a in
    subst (λ m. IsStrongest m (best ∷ a ∷ as')) (sym (max_from-cons best a as'))
      (
        (omega arith, (omega arith, rest)),
        Exists-stronger (max_from (stronger best a) as') best a as' found,
      )

final_action-cons : (a : Action) (as' : List Action) → final_action (a ∷ as') ≡ max_from a as'
unfolding final_action
final_action-cons a as' = rw as_action_lem

-- A list of actions that is not empty is concluded by an action of the list that no other one
-- passes in priority.
pub final_action-IsStrongest :
    (a : Action) (as' : List Action) → IsStrongest (final_action (a ∷ as')) (a ∷ as')
final_action-IsStrongest a as' =
    subst (λ m. IsStrongest m (a ∷ as')) (sym (final_action-cons a as'))
      (max_from-IsStrongest a as')

bound_at :
    {n m : ℕ} (as' : List Action)
    → All (λ b. priority b ≤ m) as'
    → Exists (λ b. n ≤ priority b) as'
    → n ≤ m
bound_at [] h e = elim e [ ]
bound_at (a ∷ as') (p, h) (here q) = omega arith
bound_at (a ∷ as') (p, h) (there e) = bound_at as' h e

pub final_action-ge :
    {n : ℕ} (as' : List Action) → Exists (λ b. n ≤ priority b) as' → n ≤ priority (final_action as')
final_action-ge [] e = elim e [ ]
final_action-ge (a ∷ as') e = bound_at (a ∷ as') (final_action-IsStrongest a as').0 e

-- One BLOCK among the actions decides.
pub final_action-block :
    (as' : List Action) → Exists (λ b. b ≡ block) as' → final_action as' ≡ block
final_action-block as' e =
    eq_block (final_action as')
      (final_action-ge as' (Exists-weaken (λ b p. omega (arith, ap priority p)) as' e))

-- ===== src/Policy/Lifecycle/Accepted.antt =====
-- services/policy_engine.py: the rules that the lifecycle accepts.
use auth_claw.Policy.Action.{Action, normalize_action}
use auth_claw.Policy.Findings.{category_rules}
use auth_claw.Policy.Json.{
  Fields, Json, Rules, end, field, get, has_key, null, obj, or_else, py_str,
}
use auth_claw.Policy.Lifecycle.{
  LifecycleError, action_errors_of, bad_action, bad_category_action, bool_errors, category_errors,
  dict_errors, dict_errors_of, error_if, for_key, key_errors, list_errors, unsupported,
  validate_policy_rules_for_lifecycle,
}
use auth_claw.Prelude.{
  Bool, Bool-cases, List, Option-cases, Text, [], arith, codes, false, inl, inr, is_empty, refl,
  some, strip, true, ◌++◌, ◌∷◌, ◌≡◌, ◌≢◌,
}

append-eq-nil : (xs ys : List LifecycleError) → xs ++ ys ≡ [] → (xs ≡ []) × (ys ≡ [])
append-eq-nil [] ys h = (refl, h)
append-eq-nil (x ∷ xs) ys h = cc

-- `_normalize_action` knows the action.
abbrev pub IsSupported : Json → Type 0
IsSupported v = (a : Action) × (normalize_action v ≡ some a)

abbrev pub AllSupported : Fields → Type 0
AllSupported end = Unit
AllSupported (field k v fs) = IsSupported v × AllSupported fs

abbrev pub IsAccepted : Rules → Type 0
IsAccepted rules = validate_policy_rules_for_lifecycle (obj rules) ≡ []

IsSupported-of : (v : Json) → unsupported v ≡ false → IsSupported v
unfolding unsupported
IsSupported-of v h = elim (Option-cases (normalize_action v)) [
  | inl e ↦ ground arith
  | inr (a, e) ↦ (a, e)
]

error_if-nil : (b : Bool) (e : LifecycleError) → error_if b e ≡ [] → b ≡ false
unfolding error_if
error_if-nil true e h = cc
error_if-nil false e h = refl

category_errors-AllSupported :
    (key : Text) (fs : Fields) → category_errors key fs ≡ [] → AllSupported fs
unfolding category_errors
category_errors-AllSupported key end h = tt
category_errors-AllSupported key (field k v fs) h = elim (Bool-cases (is_empty (strip k))) [
  | inl e ↦ cc (rw e at h)
  | inr e ↦
      let (here_ok, later) =
        append-eq-nil (error_if (unsupported v) (bad_category_action key k (py_str v)))
          (category_errors key fs) (rw e at h) in
      (
        IsSupported-of v (error_if-nil (unsupported v) _ here_ok),
        category_errors-AllSupported key fs later,
      )
]

get_missing : (rules : Rules) (key : Text) → has_key rules key ≡ false → get rules key ≡ null
unfolding has_key get
get_missing end key h = refl
get_missing (field k v fs) key h = ground (arith, get_missing fs key)

-- Missing, or a dict of supported actions.
data IsActions (v : Json) : Type 0 where
  missing : v ≡ null → IsActions v
  dict : (fs : Fields) → v ≡ obj fs → AllSupported fs → IsActions v

dict_errors_of-IsActions : (key : Text) (v : Json) → dict_errors_of key v ≡ [] → IsActions v
unfolding dict_errors_of
dict_errors_of-IsActions key (obj fs) h = dict fs refl (category_errors-AllSupported key fs h)
dict_errors_of-IsActions key _ h = cc

for_key-IsActions :
    (rules : Rules) (key : Text)
    → for_key rules key (dict_errors_of key) ≡ []
    → IsActions (get rules key)
for_key-IsActions rules key h = elim (Bool-cases (has_key rules key)) [
  | inl e ↦ dict_errors_of-IsActions key (get rules key) (rw e at h)
  | inr e ↦ missing (get_missing rules key e)
]

or_else-IsActions : (v w : Json) → IsActions v → IsActions w → IsActions (or_else v w)
unfolding or_else
or_else-IsActions v w (missing e) k = rw e k
or_else-IsActions v w (dict end e s) k = rw e k
or_else-IsActions v w (dict (field x y fs) e s) k = rw e (dict (field x y fs) refl s)

IsActions-or_end :
    (v : Json) → IsActions v → (fs : Fields) × (or_else v (obj end) ≡ obj fs) × AllSupported fs
unfolding or_else
IsActions-or_end v (missing e) = (end, rw e, tt)
IsActions-or_end v (dict end e s) = (end, rw e, tt)
IsActions-or_end v (dict (field x y fs) e s) = (field x y fs, rw e, s)

accepted_parts :
    (rules : Rules)
    → IsAccepted rules
    → (action_errors_of (get rules (codes "action")) ≡ []) × (dict_errors rules ≡ [])
unfolding validate_policy_rules_for_lifecycle
accepted_parts rules h =
    let (k, h₁) = append-eq-nil (key_errors rules) _ h in
    let (a, h₂) = append-eq-nil (action_errors_of (get rules (codes "action"))) _ h₁ in
    let (l, h₃) = append-eq-nil (list_errors rules) _ h₂ in
    (a, (append-eq-nil (dict_errors rules) (bool_errors rules) h₃).0)

-- The dict that `_action_for_category` walks, for rules that were accepted.
pub accepted-category_rules :
    (rules : Rules)
    → IsAccepted rules
    → (fs : Fields) × (category_rules rules ≡ obj fs) × AllSupported fs
unfolding category_rules dict_errors
accepted-category_rules rules h =
    let (c, a) =
      append-eq-nil
        (for_key rules (codes "category_actions") (dict_errors_of (codes "category_actions"))) _
        (accepted_parts rules h).1 in
    IsActions-or_end _ (
      or_else-IsActions _ _ (for_key-IsActions rules (codes "category_actions") c)
        (for_key-IsActions rules (codes "actions") a))

IsSupported-unless_null : (v : Json) → v ≢ null → action_errors_of v ≡ [] → IsSupported v
unfolding action_errors_of
IsSupported-unless_null null n e = absurd (n refl)
IsSupported-unless_null v n e =
    IsSupported-of v (error_if-nil (unsupported v) (bad_action (py_str v)) e)

-- An action that is stated is supported.
pub accepted-action :
    (rules : Rules)
    → IsAccepted rules
    → get rules (codes "action") ≢ null
    → IsSupported (get rules (codes "action"))
accepted-action rules h n =
    IsSupported-unless_null (get rules (codes "action")) n (accepted_parts rules h).0

-- ===== src/Policy/Action.antt =====
-- The governance actions, their priority and how a rule's text names them.
use auth_claw.Policy.Json.{Json, arr, bool, cons, end, field, int, nil, obj, or_else, py_str, str}
use auth_claw.Prelude.{
  Bool, List, Option, Text, [], codes, false, if◌then◌else◌, lower, ltb, none, one_of, refl,
  replace, some, strip, true, ℕ, ◌∷◌, ◌≡◌,
}

pub data Action : Type 0 where
  allow redact require_approval block : Action

-- ACTION_PRIORITY
abbrev pub priority : Action → ℕ
priority allow = 0
priority redact = 1
priority require_approval = 2
priority block = 3

-- The text of ACTION_ALLOW, …
unfoldable pub action_text : Action → Text
unfolding codes
action_text allow = codes "ALLOW"
action_text redact = codes "REDACT"
action_text require_approval = codes "REQUIRE_APPROVAL"
action_text block = codes "BLOCK"

-- str(value or "").strip().lower() with "-" and " " as "_"
unfoldable pub key_of : Json → Text
unfolding lower strip replace or_else py_str
key_of v = replace b' ' b'_' (replace b'-' b'_' (lower (strip (py_str (or_else v (str []))))))

action_of_key : Text → Option Action
unfolding codes one_of
action_of_key key =
    if one_of key (codes "allow" ∷ codes "allowed" ∷ [])
    then some allow
    else if one_of key (codes "redact" ∷ codes "mask" ∷ codes "hash" ∷ codes "tokenize" ∷ [])
    then some redact
    else if one_of key
        (codes "block" ∷ codes "deny" ∷ codes "blocked" ∷ codes "block_or_review" ∷ [])
    then some block
    else if one_of key (
        codes "approval"
        ∷ codes "require_approval"
        ∷ codes "approval_required"
        ∷ codes "human_approval"
        ∷ [])
    then some require_approval
    else none

unfoldable pub normalize_action : Json → Option Action
unfolding action_of_key key_of
normalize_action v = action_of_key (key_of v)

-- x or y, where an action's text is never empty
abbrev pub or_action : Option Action → Action → Action
or_action none b = b
or_action (some a) b = a

-- self._normalize_action(action) or ACTION_ALLOW
unfoldable pub as_action : Action → Action
unfolding normalize_action action_text
as_action a = or_action (normalize_action (str (action_text a))) allow

-- The first of the greatest: Python's `max` by a key replaces only on a greater key.
unfoldable pub max_from : Action → List Action → Action
unfolding as_action
max_from best [] = best
max_from best (a ∷ as') =
    max_from (if ltb (priority best) (priority (as_action a)) then as_action a else best) as'

unfoldable pub final_action : List Action → Action
unfolding max_from
final_action [] = allow
final_action (a ∷ as') = max_from (as_action a) as'

-- final_action in {ACTION_ALLOW, ACTION_REDACT}
abbrev pub permits : Action → Bool
permits allow = true
permits redact = true
permits require_approval = false
permits block = false

pub as_action_lem : (a : Action) → as_action a ≡ a
unfolding as_action
as_action_lem allow = refl
as_action_lem redact = refl
as_action_lem require_approval = refl
as_action_lem block = refl

test_mask : normalize_action (str (codes " Block-or Review ")) ≡ some block
unfolding normalize_action codes
test_mask = refl

test_dict :
    py_str (obj (field (codes "a'b") (arr (cons (int 120) (cons (bool true) nil))) end))
    ≡ codes "{\"a'b\": [120, True]}"
unfolding py_str codes
test_dict = refl

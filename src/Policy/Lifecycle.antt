-- ===== src/Policy/Lifecycle.antt =====
-- `validate_policy_rules_for_lifecycle`: the errors of a policy's rules, in the order in which the
-- source appends its messages.
pub mod Accepted
pub mod Total
use auth_claw.Policy.Action.{normalize_action}
use auth_claw.Policy.Category.{sorted_set}
use auth_claw.Policy.Json.{
  Fields, Json, Rules, arr, bool, end, field, get, has_key, items, null, obj, py_str, str,
}
use auth_claw.Prelude.{
  Bool, List, Text, [], all, any, codes, false, if◌then◌else◌, is_empty, none, not, one_of, some,
  strip, true, ◌&&◌, ◌++◌, ◌∷◌,
}

pub data LifecycleError : Type 0 where
  not_an_object : LifecycleError
  no_control : LifecycleError
  unknown_keys : List Text → LifecycleError
  bad_action : Text → LifecycleError
  bad_list : Text → LifecycleError
  empty_list : Text → LifecycleError
  bad_item : Text → LifecycleError
  not_a_dict : Text → LifecycleError
  bad_category : Text → LifecycleError
  bad_category_action : Text → Text → Text → LifecycleError
  not_a_boolean : Text → LifecycleError

-- LIFECYCLE_ALLOWED_RULE_KEYS
unfoldable pub allowed_rule_keys : List Text
unfolding codes
allowed_rule_keys =
    codes "action"
    ∷ codes "allowed_topics"
    ∷ codes "blocked_keywords"
    ∷ codes "blocked_topics"
    ∷ codes "categories"
    ∷ codes "category"
    ∷ codes "category_actions"
    ∷ codes "pii_redaction"
    ∷ codes "secret_detection"
    ∷ codes "actions"
    ∷ []

-- set(rules) - LIFECYCLE_ALLOWED_RULE_KEYS, sorted
unknown_of : Fields → List Text
unfolding one_of
unknown_of end = []
unknown_of (field k v fs) =
    let rest = unknown_of fs in if one_of k allowed_rule_keys then rest else k ∷ rest

error_if : Bool → LifecycleError → List LifecycleError
error_if b e = if b then e ∷ [] else []

key_errors : Rules → List LifecycleError
unfolding error_if has_key unknown_of sorted_set
key_errors rules =
    let unknown = sorted_set (unknown_of rules) in
    error_if (not (any (has_key rules) allowed_rule_keys)) no_control
    ++ error_if (not (is_empty unknown)) (unknown_keys unknown)

unsupported : Json → Bool
unfolding normalize_action
unsupported v = elim (normalize_action v) [ none ↦ true | some a ↦ false ]

action_errors_of : Json → List LifecycleError
unfolding error_if unsupported py_str
action_errors_of null = []
action_errors_of v = error_if (unsupported v) (bad_action (py_str v))

-- `not isinstance(item, str) or not item.strip()`
bad_text : Json → Bool
unfolding strip
bad_text (str t) = is_empty (strip t)
bad_text _ = true

-- `str(item).strip()` of no item holds anything
all_blank : List Json → Bool
unfolding strip py_str
all_blank vs = all (λ v. is_empty (strip (py_str v))) vs

items_errors : Text → Bool → List Json → List LifecycleError
unfolding error_if bad_text all_blank
items_errors key may_be_empty vs =
    error_if (not may_be_empty && all_blank vs) (empty_list key)
    ++ error_if (any bad_text vs) (bad_item key)

list_errors_of : Text → Bool → Json → List LifecycleError
unfolding items_errors
list_errors_of key may_be_empty (str t) = items_errors key may_be_empty (str t ∷ [])
list_errors_of key may_be_empty (arr vs) = items_errors key may_be_empty (items vs)
list_errors_of key may_be_empty _ = bad_list key ∷ []

-- One round of `for key in (…): if key not in rules: continue`.
abbrev for_key : Rules → Text → (Json → List LifecycleError) → List LifecycleError
for_key rules key check = if has_key rules key then check (get rules key) else []

-- The loop over `value.items()`, which a category with no name breaks off.
category_errors : Text → Fields → List LifecycleError
unfolding error_if strip unsupported py_str
category_errors key end = []
category_errors key (field k v fs) =
    let rest = category_errors key fs in
    if is_empty (strip k)
    then bad_category key ∷ []
    else error_if (unsupported v) (bad_category_action key k (py_str v)) ++ rest

dict_errors_of : Text → Json → List LifecycleError
unfolding category_errors
dict_errors_of key (obj fs) = category_errors key fs
dict_errors_of key _ = not_a_dict key ∷ []

bool_errors_of : Text → Json → List LifecycleError
bool_errors_of key (bool b) = []
bool_errors_of key _ = not_a_boolean key ∷ []

list_errors : Rules → List LifecycleError
unfolding list_errors_of codes has_key get
list_errors rules =
    for_key rules (codes "blocked_keywords") (list_errors_of (codes "blocked_keywords") false)
    ++ (for_key rules (codes "blocked_topics") (list_errors_of (codes "blocked_topics") false)
        ++ (for_key rules (codes "allowed_topics") (list_errors_of (codes "allowed_topics") true)
            ++ for_key rules (codes "categories") (list_errors_of (codes "categories") false)))

dict_errors : Rules → List LifecycleError
unfolding dict_errors_of codes has_key get
dict_errors rules =
    for_key rules (codes "category_actions") (dict_errors_of (codes "category_actions"))
    ++ for_key rules (codes "actions") (dict_errors_of (codes "actions"))

bool_errors : Rules → List LifecycleError
unfolding bool_errors_of codes has_key get
bool_errors rules =
    for_key rules (codes "pii_redaction") (bool_errors_of (codes "pii_redaction"))
    ++ for_key rules (codes "secret_detection") (bool_errors_of (codes "secret_detection"))

unfoldable pub validate_policy_rules_for_lifecycle : Json → List LifecycleError
unfolding key_errors action_errors_of list_errors dict_errors bool_errors get codes
validate_policy_rules_for_lifecycle (obj rules) =
    key_errors rules
    ++ (action_errors_of (get rules (codes "action"))
        ++ (list_errors rules ++ (dict_errors rules ++ bool_errors rules)))
validate_policy_rules_for_lifecycle _ = not_an_object ∷ []

-- ===== src/Policy/Category.antt =====
-- Categories: their aliases, their order, and which of them a policy is about.
use auth_claw.Policy.Action.{key_of}
use auth_claw.Policy.Json.{
  Fields, Json, Rules, arr, end, field, get, items, obj, py_str, str, truthy,
}
use auth_claw.Prelude.{
  Bool, List, Option, Text, [], codes, contains, false, if◌then◌else◌, is_empty, lookup, lower, ltb,
  none, not, one_of, some, strip, text_eq, true, upper, ℕ, ◌&&◌, ◌++◌, ◌==◌, ◌||◌, ◌∷◌,
}

unfoldable pub category_aliases : List (Text × Text)
unfolding codes
category_aliases =
    (codes "pii", codes "PII")
    ∷ (codes "personal_data", codes "PII")
    ∷ (codes "secrets", codes "SECRETS")
    ∷ (codes "secret", codes "SECRETS")
    ∷ (codes "prompt_injection", codes "PROMPT_INJECTION")
    ∷ (codes "jailbreak", codes "PROMPT_INJECTION")
    ∷ (codes "financial", codes "FINANCIAL_DATA")
    ∷ (codes "financial_data", codes "FINANCIAL_DATA")
    ∷ (codes "medical", codes "MEDICAL_DATA")
    ∷ (codes "medical_data", codes "MEDICAL_DATA")
    ∷ (codes "legal", codes "LEGAL_DATA")
    ∷ (codes "legal_data", codes "LEGAL_DATA")
    ∷ (codes "customer_topic", codes "CUSTOMER_DEFINED_TOPICS")
    ∷ (codes "customer_defined_topics", codes "CUSTOMER_DEFINED_TOPICS")
    ∷ (codes "data_exfiltration", codes "DATA_EXFILTRATION")
    ∷ (codes "security_bypass", codes "SECURITY_BYPASS")
    ∷ (codes "custom", codes "CUSTOMER_DEFINED_TOPICS")
    ∷ []

unfoldable pub category_priorities : List (Text × ℕ)
unfolding codes
category_priorities =
    (codes "PROMPT_INJECTION", 0)
    ∷ (codes "SECURITY_BYPASS", 1)
    ∷ (codes "DATA_EXFILTRATION", 2)
    ∷ (codes "SECRETS", 3)
    ∷ (codes "PII", 4)
    ∷ (codes "FINANCIAL_DATA", 5)
    ∷ (codes "MEDICAL_DATA", 6)
    ∷ (codes "LEGAL_DATA", 7)
    ∷ (codes "CUSTOMER_DEFINED_TOPICS", 8)
    ∷ []

abbrev pub get_or {ℓ} : {A : Type ℓ} → Option A → A → A
get_or none d = d
get_or (some a) d = a

-- CATEGORY_PRIORITY.get(category, 100)
unfoldable pub category_priority : Text → ℕ
unfolding category_priorities lookup
category_priority category = get_or (lookup category category_priorities) 100

-- CATEGORY_ALIASES.get(key, key.upper() if key else "")
unfoldable pub category_of_key : Text → Text
unfolding category_aliases lookup upper
category_of_key key = get_or (lookup key category_aliases) (upper key)

unfoldable pub normalize_category : Json → Text
unfolding category_of_key key_of
normalize_category v = category_of_key (key_of v)

-- [str(item) for item in value if str(item).strip()]
unfoldable pub nonblank : List Json → List Text
unfolding strip py_str
nonblank [] = []
nonblank (v ∷ vs) =
    let rest = nonblank vs in if is_empty (strip (py_str v)) then rest else py_str v ∷ rest

-- The keys of a dict, which are what iterating over it gives.
abbrev pub keys : Fields → List Json
keys end = []
keys (field k v fs) = str k ∷ keys fs

list_of : Json → List Text
unfolding nonblank
list_of (str t) = t ∷ []
list_of (arr vs) = nonblank (items vs)
list_of (obj fs) = nonblank (keys fs)
list_of _ = []

unfoldable pub list_rules : Rules → Text → List Text
unfolding list_of get
list_rules rules key = list_of (get rules key)

abbrev text_if_str : Json → List Text
text_if_str (str t) = t ∷ []
text_if_str _ = []

-- The order of Python's strings: by code points.
unfoldable pub text_ltb : Text → Text → Bool
text_ltb [] [] = false
text_ltb [] (d ∷ t) = true
text_ltb (c ∷ s) [] = false
text_ltb (c ∷ s) (d ∷ t) = ltb c d || ((c == d) && text_ltb s t)

unfoldable pub insert_new : Text → List Text → List Text
unfolding text_ltb text_eq
insert_new t [] = t ∷ []
insert_new t (u ∷ us) =
    let rest = insert_new t us in
    if text_eq t u then u ∷ us else if text_ltb t u then t ∷ u ∷ us else u ∷ rest

-- sorted({…})
unfoldable pub sorted_set : List Text → List Text
unfolding insert_new
sorted_set [] = []
sorted_set (t ∷ ts) = insert_new t (sorted_set ts)

-- The normalised categories that are not empty.
unfoldable pub normalized : List Text → List Text
unfolding normalize_category
normalized [] = []
normalized (t ∷ ts) =
    let rest = normalized ts in
    let c = normalize_category (str t) in if is_empty c then rest else c ∷ rest

pub record TenantPolicy : Type 0 where
  pub id : Option ℕ
  pub name : Text
  pub type : Text
  pub rules : Rules
  pub enabled : Bool
  pub tenant_id : Option ℕ
  pub version : ℕ
  pub status : Text
  pub severity_level : Text

has_topics : Rules → Bool
unfolding codes list_rules
has_topics rules =
    not (is_empty (list_rules rules (codes "blocked_topics")))
    || not (is_empty (list_rules rules (codes "allowed_topics")))

-- The list that `_policy_categories` builds, before it is normalised and sorted.
unfoldable pub raw_categories : TenantPolicy → List Text
unfolding has_topics codes list_rules get lower contains truthy normalize_category
raw_categories policy =
    let rules = policy.rules in
    list_rules rules (codes "categories")
    ++ (text_if_str (get rules (codes "category"))
        ++ ((if truthy (get rules (codes "pii_redaction"))
                || contains (lower policy.type) (codes "pii")
              then codes "PII" ∷ []
              else [])
            ++ ((if truthy (get rules (codes "secret_detection")) then codes "SECRETS" ∷ [] else [])
                ++ ((if has_topics rules then codes "CUSTOMER_DEFINED_TOPICS" ∷ [] else [])
                    ++ (let kind = normalize_category (str policy.type) in
                        if is_empty kind then [] else kind ∷ [])))))

unfoldable pub policy_categories : TenantPolicy → List Text
unfolding raw_categories sorted_set normalized
policy_categories policy = sorted_set (normalized (raw_categories policy))

abbrev first_or : List Text → Text → Text
first_or [] d = d
first_or (t ∷ ts) d = t

unfoldable pub category_for_policy : TenantPolicy → Text
unfolding policy_categories codes
category_for_policy policy = first_or (policy_categories policy) (codes "CUSTOMER_DEFINED_TOPICS")

-- The first policy that is about a category.
unfoldable pub matching_policy : Json → List TenantPolicy → Option TenantPolicy
unfolding policy_categories one_of normalize_category
matching_policy category [] = none
matching_policy category (p ∷ ps) =
    if one_of (normalize_category category) (policy_categories p)
    then some p
    else matching_policy category ps

-- ===== src/Policy/Loading.antt =====
-- `load_policies`, `parse_rules` and `_policy_from_row`: which rows of the table `policies` are
-- evaluated for a tenant. `json_loads` is Python's parser, with none for text that it refuses.
use auth_claw.Policy.Category.{TenantPolicy, get_or}
use auth_claw.Policy.Json.{Json, Rules, end, obj, str}
use auth_claw.Prelude.{
  ==_iff, All, All-map, All-weaken, Bool, Bool-cases, List, Option, Text, [], and-split, ap, arith,
  codes, false, if◌then◌else◌, inl, inr, keep, leb, map, none, one_of, refl, some, suc, text_eq_iff,
  true, zero, ℕ, ◌&&◌, ◌==◌, ◌||◌, ◌∷◌, ◌≡◌, ◌⊎◌,
}

pub record PolicyRow : Type 0 where
  pub id : ℕ
  pub name : Option Text
  pub type : Option Text
  pub rules : Json
  pub enabled : Bool
  pub tenant_id : Option ℕ
  pub version : Option ℕ
  pub status : Option Text
  pub severity_level : Option Text

abbrev pub same_tenant : Option ℕ → Option ℕ → Bool
same_tenant none none = true
same_tenant (some a) (some b) = a == b
same_tenant _ _ = false

abbrev is_none {ℓ} : {A : Type ℓ} → Option A → Bool
is_none none = true
is_none (some a) = false

-- The WHERE clause; for no tenant only global policies are taken.
is_visible : Option ℕ → PolicyRow → Bool
unfolding one_of codes
is_visible tenant_id row =
    row.enabled
    && ((is_none row.tenant_id || same_tenant row.tenant_id tenant_id)
        && one_of (get_or row.status (codes "published")) (codes "published" ∷ codes "active" ∷ []))

insert_by_id : PolicyRow → List PolicyRow → List PolicyRow
insert_by_id r [] = r ∷ []
insert_by_id r (s ∷ ss) =
    let rest = insert_by_id r ss in if leb r.id s.id then r ∷ s ∷ ss else s ∷ rest

-- ORDER BY id ASC
order_by_id : List PolicyRow → List PolicyRow
unfolding insert_by_id
order_by_id [] = []
order_by_id (r ∷ rs) = insert_by_id r (order_by_id rs)

-- value or default, for text and for a number
unfoldable pub text_or : Option Text → Text → Text
text_or none d = d
text_or (some []) d = d
text_or (some (c ∷ s)) d = c ∷ s

number_or : Option ℕ → ℕ → ℕ
number_or none d = d
number_or (some zero) d = d
number_or (some (suc n)) d = suc n

as_rules : Option Json → Rules
as_rules (some (obj rules)) = rules
as_rules _ = end

unfoldable pub parse_rules : (Text → Option Json) → Json → Rules
unfolding as_rules
parse_rules json_loads (obj rules) = rules
parse_rules json_loads (str t) = as_rules (json_loads t)
parse_rules json_loads _ = end

unfoldable pub policy_from_row : (Text → Option Json) → PolicyRow → TenantPolicy
unfolding parse_rules text_or number_or codes
policy_from_row json_loads row = record {
  id = some row.id;
  name = text_or row.name (codes "Unnamed Policy");
  type = text_or row.type (codes "Custom");
  rules = parse_rules json_loads row.rules;
  enabled = row.enabled;
  tenant_id = row.tenant_id;
  version = number_or row.version 1;
  status = text_or row.status (codes "published");
  severity_level = text_or row.severity_level (codes "MEDIUM");
}

unfoldable pub load_policies : (Text → Option Json) → List PolicyRow → Option ℕ → List TenantPolicy
unfolding policy_from_row order_by_id is_visible
load_policies json_loads rows tenant_id =
    map (policy_from_row json_loads) (order_by_id (keep (is_visible tenant_id) rows))

-- A row that the tenant may see: its own or a global one, enabled and published or active.
abbrev pub IsVisible : Option ℕ → TenantPolicy → Type 0
IsVisible tenant_id p =
    (p.enabled ≡ true)
    × ((p.tenant_id ≡ none) ⊎ (p.tenant_id ≡ tenant_id))
    × ((p.status ≡ codes "published") ⊎ (p.status ≡ codes "active"))

same_tenant_sound : (a b : Option ℕ) → same_tenant a b ≡ true → a ≡ b
same_tenant_sound none none h = refl
same_tenant_sound (some a) (some b) h = ap some ((==_iff a b).0 h)
same_tenant_sound none (some b) h = cc
same_tenant_sound (some a) none h = cc

one_of_two : (k a b : Text) → one_of k (a ∷ b ∷ []) ≡ true → (k ≡ a) ⊎ (k ≡ b)
unfolding one_of
one_of_two k a b h = ground (arith, text_eq_iff k a, text_eq_iff k b)

visible_status :
    (s : Option Text)
    → one_of (get_or s (codes "published")) (codes "published" ∷ codes "active" ∷ []) ≡ true
    → (text_or s (codes "published") ≡ codes "published")
      ⊎ (text_or s (codes "published") ≡ codes "active")
unfolding text_or
visible_status none h = inl refl
visible_status (some []) h = unfold one_of codes in cc h
visible_status (some (c ∷ s)) h = one_of_two (c ∷ s) (codes "published") (codes "active") h

visible_tenant : (a b : Option ℕ) → (is_none a || same_tenant a b) ≡ true → (a ≡ none) ⊎ (a ≡ b)
visible_tenant none b h = inl refl
visible_tenant (some a) b h = inr (same_tenant_sound (some a) b h)

is_visible_sound :
    (json_loads : Text → Option Json) (tenant_id : Option ℕ) (row : PolicyRow)
    → is_visible tenant_id row ≡ true
    → IsVisible tenant_id (policy_from_row json_loads row)
unfolding is_visible policy_from_row
is_visible_sound json_loads tenant_id row h =
    let (on, rest) = and-split row.enabled _ h in
    let (tenant, status) =
      and-split (is_none row.tenant_id || same_tenant row.tenant_id tenant_id) _ rest in
    (on, visible_tenant row.tenant_id tenant_id tenant, visible_status row.status status)

All-keep :
    (tenant_id : Option ℕ) (rows : List PolicyRow)
    → All (λ r. is_visible tenant_id r ≡ true) (keep (is_visible tenant_id) rows)
All-keep tenant_id [] = tt
All-keep tenant_id (r ∷ rs) = elim (Bool-cases (is_visible tenant_id r)) [
  | inl e ↦ rw e (e, All-keep tenant_id rs)
  | inr e ↦ rw e (All-keep tenant_id rs)
]

module _ (P : PolicyRow → Type 0) where
  All-insert_by_id :
      (r : PolicyRow) (rs : List PolicyRow) → P r → All P rs → All P (insert_by_id r rs)
  unfolding insert_by_id
  All-insert_by_id r [] p h = (p, tt)
  All-insert_by_id r (s ∷ ss) p (q, h) = elim (Bool-cases (leb r.id s.id)) [
    | inl e ↦ rw e (p, (q, h))
    | inr e ↦ rw e (q, All-insert_by_id r ss p h)
  ]

  All-order_by_id : (rs : List PolicyRow) → All P rs → All P (order_by_id rs)
  unfolding order_by_id
  All-order_by_id [] h = tt
  All-order_by_id (r ∷ rs) (p, h) = All-insert_by_id r (order_by_id rs) p (All-order_by_id rs h)

-- Only enabled policies that are published or active are loaded, and of these only the tenant's
-- own and the global ones; without a tenant, only the global ones.
pub load_policies-IsVisible :
    (json_loads : Text → Option Json) (rows : List PolicyRow) (tenant_id : Option ℕ)
    → All (IsVisible tenant_id) (load_policies json_loads rows tenant_id)
unfolding load_policies
load_policies-IsVisible json_loads rows tenant_id =
    All-map (IsVisible tenant_id) (policy_from_row json_loads) _ (
      All-weaken (λ r e. is_visible_sound json_loads tenant_id r e) _
        (All-order_by_id (λ r. is_visible tenant_id r ≡ true) (keep (is_visible tenant_id) rows)
          (All-keep tenant_id rows)))

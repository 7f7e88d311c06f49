-- ===== src/Detector/Masks.antt =====
-- `mask` of services/sensitive_data_detection.py.
use auth_claw.Prelude.{
  Text, [], codes, contains, if◌then◌else◌, leb, length, ltb, one_of, text_eq, ℕ, ◌&&◌, ◌++◌, ◌+◌,
  ◌-◌, ◌∷◌,
}
use auth_claw.Redaction.Apply.{digits, is_digit, last_of, mask_local, split_at_sign, stars}

-- The loop over the characters with `index`, where the first `hidden` digits are masked.
unfoldable pub mask_first : ℕ → ℕ → Text → Text
mask_first hidden index [] = []
mask_first hidden index (c ∷ s) =
    (if is_digit c && ltb index hidden then 42 else c)
    ∷ mask_first hidden (if is_digit c then index + 1 else index) s

unfoldable pub mask_ends : Text → Text
unfolding stars last_of
mask_ends [] = []
mask_ends (c ∷ s) =
    if leb (length (c ∷ s)) 4
    then stars (length (c ∷ s))
    else c ∷ stars (length (c ∷ s) - 2) ++ last_of c s ∷ []

unfoldable pub mask_value : Text → Text → Text
unfolding codes text_eq one_of contains split_at_sign mask_local mask_first mask_ends digits
mask_value entity_type value =
    let (local, domain) = split_at_sign value in
    let visible = if leb 4 (digits value) then 4 else 0 in
    if text_eq entity_type (codes "email") && contains value (64 ∷ [])
    then mask_local local ++ 64 ∷ domain
    else if one_of entity_type (codes "aadhaar" ∷ codes "credit_card" ∷ codes "phone" ∷ [])
    then mask_first (digits value - visible) 0 value
    else mask_ends value

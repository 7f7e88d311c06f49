-- ===== src/Redaction/Apply.antt =====
-- `apply_redaction` of redaction.py. A field is the kind of a value that a regular expression found;
-- `fingerprint` stands for the HMAC of the value.
use auth_claw.Prelude.{
  Bool, Option, Text, [], codes, contains, if◌then◌else◌, leb, length, lower, ltb, none, some, suc,
  text_eq, zero, ℕ, ◌&&◌, ◌++◌, ◌+◌, ◌-◌, ◌==◌, ◌∷◌,
}

pub data FieldKind : Type 0 where
  email phone aadhaar credit_card other_field : FieldKind

abbrev pub is_digit : ℕ → Bool
is_digit c = leb 48 c && leb c 57

unfoldable pub digits : Text → ℕ
digits [] = 0
digits (c ∷ s) = let rest = digits s in if is_digit c then 1 + rest else rest

-- "*" * n
unfoldable pub stars : ℕ → Text
stars zero = []
stars (suc n) = 42 ∷ stars n

-- val[-4:]
unfoldable pub last_four : Text → Text
last_four [] = []
last_four (c ∷ s) = let rest = last_four s in if leb (length (c ∷ s)) 4 then c ∷ s else rest

-- The loop over the characters with `total_digits` and `digit_count`.
unfoldable pub mask_digits : ℕ → ℕ → Text → Text
mask_digits total count [] = []
mask_digits total count (c ∷ s) =
    let masked = is_digit c && ltb count (total - 4) in
    (if masked then 42 else c) ∷ mask_digits total (if masked then count + 1 else count) s

-- val.split("@", 1), where the value has an "@": what stands before it and after it.
unfoldable pub split_at_sign : Text → Text × Text
split_at_sign [] = ([], [])
split_at_sign (c ∷ s) =
    let (before, after) = split_at_sign s in if c == 64 then ([], s) else (c ∷ before, after)

unfoldable pub last_of : ℕ → Text → ℕ
last_of c [] = c
last_of c (d ∷ s) = last_of d s

-- The local part: its first and last character stay where it has more than two.
unfoldable pub mask_local : Text → Text
unfolding stars last_of
mask_local [] = []
mask_local (c ∷ s) =
    if ltb 2 (length (c ∷ s))
    then c ∷ stars (length (c ∷ s) - 2) ++ last_of c s ∷ []
    else stars (length (c ∷ s))

unfoldable pub mask : FieldKind → Text → Option Text
unfolding mask_digits mask_local split_at_sign last_four stars digits contains codes
mask email val =
    let (local, domain) = split_at_sign val in
    if contains val (64 ∷ []) then some (mask_local local ++ 64 ∷ domain) else some (codes "***")
mask phone val = some (stars 6 ++ last_four val)
mask aadhaar val = some (mask_digits (digits val) 0 val)
mask credit_card val = some (mask_digits (digits val) 0 val)
mask other_field val = none

unfoldable pub synthetic : FieldKind → Option Text
unfolding codes
synthetic email = some (codes "synthetic.email@example.com")
synthetic phone = some (codes "555-019-9283")
synthetic aadhaar = some (codes "0000 0000 0000")
synthetic credit_card = some (codes "4111-1111-1111-1111")
synthetic other_field = none

unfoldable pub redact_label : FieldKind → Text → Text
unfolding codes
redact_label email val = codes "[REDACTED_EMAIL]"
redact_label phone val = codes "[REDACTED_PHONE]"
redact_label aadhaar val = codes "[REDACTED_AADHAAR]"
redact_label credit_card val = codes "[REDACTED_CARD]"
redact_label other_field val = val

abbrev or_label : FieldKind → Text → Option Text → Text
or_label kind val none = redact_label kind val
or_label kind val (some t) = t

unfoldable pub apply_redaction : (Text → Text) → FieldKind → Text → Text → Text
unfolding codes text_eq lower mask synthetic redact_label
apply_redaction fingerprint kind val action =
    let name = lower action in
    if text_eq name (codes "mask")
    then or_label kind val (mask kind val)
    else if text_eq name (codes "hash")
    then codes "[HASH_" ++ fingerprint val ++ codes "]"
    else if text_eq name (codes "synthetic")
    then or_label kind val (synthetic kind)
    else redact_label kind val

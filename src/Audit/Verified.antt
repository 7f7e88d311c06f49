-- ===== src/Audit/Verified.antt =====
-- What the verification of the audit chain accepts.
use auth_claw.Audit.Chain.{
  AuditRow, Digest, Reason, Verification, calculate_record_hash, check_row, continue_with,
  genesis_hash, has_gap, valid, verify_rows,
}
use auth_claw.Policy.Category.{get_or}
use auth_claw.Prelude.{
  Bool-cases, List, Option, Text, [], ap, ap₂, arith, inl, inr, length, none, refl, some, suc,
  text_eq, text_eq_refl, text_eq_sound, ℕ, ◌+◌, ◌∙◌, ◌∷◌, ◌≡◌,
}

-- Every row has the hash of its own content and of the hash before it, and names that hash.
abbrev pub IsLinked : Digest → Option Text → List AuditRow → Type 0
IsLinked digest prev [] = Unit
IsLinked digest prev (row ∷ rows) =
    let before = get_or prev genesis_hash in
    (row.previous_hash ≡ some before)
    × (row.integrity_hash ≡ some (calculate_record_hash digest row before))
    × IsLinked digest row.integrity_hash rows

-- A row that passes the tests.
abbrev Passes : Digest → Option Text → AuditRow → Type 0
Passes digest prev row =
    (row.previous_hash ≡ some (get_or prev genesis_hash))
    × (row.integrity_hash ≡ some (calculate_record_hash digest row (get_or prev genesis_hash)))

check_row-Passes :
    (digest : Digest) (tenant_id prev_id : Option ℕ) (prev : Option Text) (row : AuditRow)
    (integrity previous : Option Text)
    → check_row digest tenant_id prev_id prev row integrity previous ≡ none
    → (previous ≡ some (get_or prev genesis_hash))
      × (integrity ≡ some (calculate_record_hash digest row (get_or prev genesis_hash)))
unfolding check_row
check_row-Passes digest tenant_id prev_id prev row (some i) (some p) h =
    elim (Bool-cases (has_gap tenant_id prev_id row.id)) [
      | inl g ↦ cc (rw g at h)
      | inr g ↦ elim (Bool-cases (text_eq p (get_or prev genesis_hash))) [
        | inr e ↦ cc (rw (g, e) at h)
        | inl e ↦ elim (Bool-cases (text_eq i (calculate_record_hash digest row p))) [
          | inr f ↦ cc (rw (g, e, f) at h)
          | inl f ↦
              let same = text_eq_sound p (get_or prev genesis_hash) e in
              (
                ap some same,
                ap some (
                    text_eq_sound i (calculate_record_hash digest row p) f
                    ∙ ap (calculate_record_hash digest row) same),
              )
        ]
      ]
    ]
check_row-Passes digest tenant_id prev_id prev row none previous h = cc
check_row-Passes digest tenant_id prev_id prev row (some i) none h = cc

verify_rows-invalid :
    (o : Option Reason) (c n k : ℕ) (rest : Verification)
    → continue_with o c n rest ≡ valid k
    → (o ≡ none) × (rest ≡ valid k)
verify_rows-invalid none c n k rest h = (refl, h)
verify_rows-invalid (some r) c n k rest h = cc

valid-injective : (a b : ℕ) → valid a ≡ valid b → a ≡ b
valid-injective a b h = cc

pub verify_rows-IsLinked :
    (digest : Digest) (tenant_id prev_id : Option ℕ) (prev : Option Text) (c k : ℕ)
    (rows : List AuditRow)
    → verify_rows digest tenant_id prev_id prev c rows ≡ valid k
    → IsLinked digest prev rows × (k ≡ c + length rows)
unfolding verify_rows
verify_rows-IsLinked digest tenant_id prev_id prev c k [] h =
    (tt, omega (arith, valid-injective c k h))
verify_rows-IsLinked digest tenant_id prev_id prev c k (row ∷ rows) h =
    let (o, rest) = verify_rows-invalid _ c row.id k _ h in
    let (p, i) =
      check_row-Passes digest tenant_id prev_id prev row row.integrity_hash row.previous_hash o in
    let (linked, e) =
      verify_rows-IsLinked digest tenant_id (some row.id) row.integrity_hash (suc c) k rows rest in
    ((p, i, linked), omega (arith, e))

check_row-passed :
    (digest : Digest) (n : ℕ) (prev_id : Option ℕ) (prev : Option Text) (row : AuditRow)
    → check_row digest
        (some n)
        prev_id
        prev
        row
        (some (calculate_record_hash digest row (get_or prev genesis_hash)))
        (some (get_or prev genesis_hash))
      ≡ none
unfolding check_row
check_row-passed digest n prev_id prev row =
    rw
      (
        text_eq_refl (get_or prev genesis_hash),
        text_eq_refl (calculate_record_hash digest row (get_or prev genesis_hash)),
      )
      refl

pub verify_rows-valid :
    (digest : Digest) (n : ℕ) (prev_id : Option ℕ) (prev : Option Text) (c : ℕ)
    (rows : List AuditRow)
    → IsLinked digest prev rows
    → verify_rows digest (some n) prev_id prev c rows ≡ valid (c + length rows)
unfolding verify_rows
verify_rows-valid digest n prev_id prev c [] h = ap valid (omega arith)
verify_rows-valid digest n prev_id prev c (row ∷ rows) (p, i, h) =
    let passed =
      ap₂ (check_row digest (some n) prev_id prev row) i p
      ∙ check_row-passed digest n prev_id prev row in
    rw passed (
      verify_rows-valid digest n (some row.id) row.integrity_hash (suc c) rows h
      ∙ ap valid (omega arith))

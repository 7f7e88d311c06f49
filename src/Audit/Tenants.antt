-- ===== src/Audit/Tenants.antt =====
-- The verification of all tenants together.
use auth_claw.Audit.Chain.{
  Digest, HashData, NewBlock, broken_link, by_id, calculate_record_hash, chained, check_row,
  create_audit_block, genesis_hash, hash_data, insert_block, inserted_row, invalid, last_hash,
  link_block, linked_row, update_row, verify_audit_chain, verify_rows,
}
use auth_claw.Detector.Sorting.{insert, sort}
use auth_claw.Policy.Loading.{same_tenant}
use auth_claw.Prelude.{
  ==_iff, Bool-cases, Text, [], arith, false, inl, inr, le→leb, ltb_self, lt→differs, lt→ltb, none,
  refl, sym, text_eq, text_eq_refl, text_eq_sound, ℕ, ◌+◌, ◌≡◌, ◌≢◌,
}

text_eq-false : (a b : Text) → a ≢ b → text_eq a b ≡ false
text_eq-false a b h = elim (Bool-cases (text_eq a b)) [
  | inl e ↦ elim (h (text_eq_sound a b e)) [ ]
  | inr e ↦ e
]

-- If no record has the genesis hash, then once two blocks of different tenants have been created in
-- an empty table, with consecutive ids, the verification without a tenant rejects the second with
-- a broken link.
pub verify_audit_chain-two_tenants :
    (digest : Digest)
    → ((a : HashData) → digest a ≢ genesis_hash)
    → (id : ℕ) (a b : NewBlock) → same_tenant b.tenant_id a.tenant_id ≡ false
    → verify_audit_chain digest
        (create_audit_block digest (create_audit_block digest [] id a) (id + 1) b)
        none
      ≡ invalid 1 (id + 1) broken_link
unfolding verify_audit_chain verify_rows check_row chained create_audit_block linked_row
    inserted_row last_hash calculate_record_hash hash_data by_id sort insert link_block insert_block
    update_row
verify_audit_chain-two_tenants digest fresh id a b other =
    let first = digest (hash_data (inserted_row id a) genesis_hash) in
    rw
      (
        (==_iff id id).1 refl,
        ltb_self id id refl,
        le→leb id (id + 1) (omega arith),
        lt→differs id (id + 1) (omega arith),
        lt→ltb id (id + 1) (omega arith),
        ltb_self (id + 1) (id + 1) refl,
        (==_iff (id + 1) (id + 1)).1 refl,
        other,
        le→leb id (id + 1) (omega arith),
        text_eq_refl first,
        (==_iff (id + 1) (id + 1)).1 refl,
        text_eq-false genesis_hash first (λ e. fresh _ (sym e)),
      )
      refl

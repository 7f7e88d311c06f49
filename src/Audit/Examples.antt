-- ===== src/Audit/Examples.antt =====
-- The audit chain with a digest that writes the whole record out.
use auth_claw.Audit.Appended.{IsCreated, IsCreated-verified, created, empty, view}
use auth_claw.Audit.Chain.{
  AuditRow, HashData, NewBlock, broken_link, by_id, calculate_record_hash, chained, check_row,
  create_audit_block, genesis_hash, hash_data, insert_block, inserted_row, invalid, last_hash,
  link_block, linked_row, update_row, valid, verify_audit_chain, verify_rows,
}
use auth_claw.Audit.Committed.{history, verified-committed, verify_rows-prefix}
use auth_claw.Audit.Tenants.{verify_audit_chain-two_tenants}
use auth_claw.Detector.Sorting.{insert, sort}
use auth_claw.Prelude.{
  Bool, List, Text, [], ap, ap₂, arith, codes, false, length, none, refl, some, text_eq, true, ℕ,
  ◌++◌, ◌+◌, ◌∷◌, ◌≡◌, ◌≢◌,
}

pack : Text → Text → Text
pack t rest = length t ∷ (t ++ rest)

bit : Bool → ℕ
bit true = 1
bit false = 0

-- A digest without collisions: every text stands behind its length.
encode : HashData → Text
unfolding pack bit
encode d =
    (d.record_id + 49)
    ∷ bit d.allowed
    ∷ pack d.user_query (
        pack d.response (
          pack d.created_at (pack d.risk_level (pack d.approval_status (pack d.previous_hash [])))))

head_eq : (a b : ℕ) (xs ys : Text) → a ∷ xs ≡ b ∷ ys → (a ≡ b) × (xs ≡ ys)
head_eq a b xs ys h = (ground arith, ground arith)

split_eq : (a b r s : Text) → length a ≡ length b → a ++ r ≡ b ++ s → (a ≡ b) × (r ≡ s)
split_eq [] [] r s l h = (refl, h)
split_eq [] (y ∷ b) r s l h = let no_way : ⊥ = omega (arith, l) in elim no_way [ ]
split_eq (x ∷ a) [] r s l h = let no_way : ⊥ = omega (arith, l) in elim no_way [ ]
split_eq (x ∷ a) (y ∷ b) r s l h =
    let (e, t) = head_eq x y (a ++ r) (b ++ s) h in
    let (e', t') = split_eq a b r s (omega (arith, l)) t in (ap₂ (λ z zs. z ∷ zs) e e', t')

pack-injective : (a b r s : Text) → pack a r ≡ pack b s → (a ≡ b) × (r ≡ s)
unfolding pack
pack-injective a b r s h =
    let (l, t) = head_eq (length a) (length b) (a ++ r) (b ++ s) h in split_eq a b r s l t

bit-injective : (a b : Bool) → bit a ≡ bit b → a ≡ b
unfolding bit
bit-injective true true h = refl
bit-injective false false h = refl
bit-injective true false h = let no_way : ⊥ = omega (arith, h) in elim no_way [ ]
bit-injective false true h = let no_way : ⊥ = omega (arith, h) in elim no_way [ ]

abbrev make : ℕ → Text → Text → Bool → Text → Text → Text → Text → HashData
make a b c d e f g h = record {
  record_id = a;
  user_query = b;
  response = c;
  allowed = d;
  created_at = e;
  risk_level = f;
  approval_status = g;
  previous_hash = h;
}

infixl 6 ◌<*>◌
◌<*>◌ : {A B : Type 0} {f g : A → B} {a b : A} → f ≡ g → a ≡ b → f a ≡ g b
p <*> q = ap₂ (λ f a. f a) p q

encode-injective : (a b : HashData) → encode a ≡ encode b → a ≡ b
unfolding encode
encode-injective a b h =
    let (i, h1) = head_eq _ _ _ _ h in
    let (l, h2) = head_eq _ _ _ _ h1 in
    let (q, h3) = pack-injective a.user_query b.user_query _ _ h2 in
    let (r, h4) = pack-injective a.response b.response _ _ h3 in
    let (c, h5) = pack-injective a.created_at b.created_at _ _ h4 in
    let (k, h6) = pack-injective a.risk_level b.risk_level _ _ h5 in
    let (s, h7) = pack-injective a.approval_status b.approval_status _ _ h6 in
    let (p, h8) = pack-injective a.previous_hash b.previous_hash _ _ h7 in
    let same_id : a.record_id ≡ b.record_id = omega (arith, i) in
    ap make same_id <*> q <*> r <*> bit-injective a.allowed b.allowed l <*> c <*> k <*> s <*> p

encode-fresh : (a : HashData) → encode a ≢ genesis_hash
unfolding encode genesis_hash codes
encode-fresh a h = let (i, t) = head_eq _ _ _ _ h in omega (arith, i)

abbrev question : ℕ → NewBlock
unfolding codes
question n = record {
  query = some (codes "q");
  response = none;
  allowed = true;
  created_at = codes "t";
  risk_level = some (codes "LOW");
  approval_status = none;
  tenant_id = some n;
}

-- Tenant 1, tenant 2 and tenant 1 again.
abbrev asked : List AuditRow
asked =
    create_audit_block encode
      (create_audit_block encode (create_audit_block encode [] 10 (question 1)) 11 (question 2)) 12
      (question 1)

asked-IsCreated : IsCreated encode asked
unfolding create_audit_block link_block insert_block update_row by_id sort linked_row inserted_row
asked-IsCreated =
    created (created (created empty 10 (question 1) tt) 11 (question 2) (omega arith, tt)) 12
      (question 1) (omega arith, (omega arith, tt))

-- Where ids do not ascend, the row links to the latest row with a smaller id.
out_of_order :
    verify_audit_chain encode
      (create_audit_block encode (create_audit_block encode [] 12 (question 1)) 10 (question 1))
      (some 1)
    ≡ invalid 1 12 broken_link
unfolding verify_audit_chain verify_rows check_row chained create_audit_block link_block
    insert_block update_row by_id sort insert linked_row inserted_row last_hash
    calculate_record_hash hash_data encode pack bit genesis_hash text_eq codes
out_of_order = refl

IsCreated-verified_example :
    verify_audit_chain encode asked (some 1) ≡ valid (length (view 1 asked))
IsCreated-verified_example = IsCreated-verified encode asked asked-IsCreated 1

verified-committed_example :
    history [] none (chained (view 1 asked)) ≡ history [] none (chained (view 1 asked))
verified-committed_example =
    verified-committed encode encode-injective encode-fresh 1 (length (view 1 asked))
      (length (view 1 asked)) asked asked (IsCreated-verified encode asked asked-IsCreated 1)
      (IsCreated-verified encode asked asked-IsCreated 1) refl

abbrev one_row : List AuditRow
one_row = create_audit_block encode [] 10 (question 1)

abbrev later_rows : List AuditRow
later_rows = elim (create_audit_block encode one_row 12 (question 1)) [ [] ↦ [] | r ∷ rs ↦ rs ]

two_rows_valid : verify_rows encode (some 1) none none 0 (one_row ++ later_rows) ≡ valid 2
unfolding verify_rows create_audit_block link_block insert_block update_row by_id question encode
two_rows_valid = refl

verify_rows-prefix_example :
    verify_rows encode (some 1) none none 0 one_row ≡ valid (length one_row)
verify_rows-prefix_example = verify_rows-prefix encode 1 2 one_row later_rows two_rows_valid

verify_audit_chain-two_tenants_example :
    verify_audit_chain encode
      (create_audit_block encode
        (create_audit_block encode [] 10 (question 1))
        (10 + 1)
        (question 2))
      none
    ≡ invalid 1 (10 + 1) broken_link
unfolding question
verify_audit_chain-two_tenants_example =
    verify_audit_chain-two_tenants encode encode-fresh 10 (question 1) (question 2) refl

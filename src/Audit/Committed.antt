-- ===== src/Audit/Committed.antt =====
-- verify_audit.py: the contents behind the last hash of a chain.
use auth_claw.Audit.Appended.{final_hash, view}
use auth_claw.Audit.Chain.{
  AuditRow, Digest, HashData, calculate_record_hash, chained, genesis_hash, hash_data, valid,
  verify_audit_chain, verify_rows,
}
use auth_claw.Audit.Verified.{IsLinked, verify_rows-IsLinked, verify_rows-valid}
use auth_claw.Policy.Category.{get_or}
use auth_claw.Prelude.{
  List, Option, Text, [], ap, ap₂, arith, length, none, refl, some, some-injective, subst, sym, ℕ,
  ◌++◌, ◌∙◌, ◌∷◌, ◌≡◌, ◌≢◌,
}

-- The hashed contents of the rows, the latest first, before those given.
abbrev pub history : List HashData → Option Text → List AuditRow → List HashData
history found prev [] = found
history found prev (row ∷ rows) =
    history (hash_data row (get_or prev genesis_hash) ∷ found) row.integrity_hash rows

module _ (digest : Digest) where
  -- The contents, the latest first, that end in the hash.
  IsRooted : Option Text → List HashData → Type 0
  IsRooted prev [] = prev ≡ none
  IsRooted prev (d ∷ ds) =
      (prev ≡ some (digest d))
      × ((before : Option Text) × IsRooted before ds
          × (d.previous_hash ≡ get_or before genesis_hash))

  history-IsRooted :
      (found : List HashData) (prev : Option Text) (rows : List AuditRow)
      → IsRooted prev found
      → IsLinked digest prev rows
      → IsRooted (final_hash prev rows) (history found prev rows)
  unfolding calculate_record_hash IsRooted
  history-IsRooted found prev [] r h = r
  history-IsRooted found prev (row ∷ rows) r (p, i, h) =
      history-IsRooted (hash_data row (get_or prev genesis_hash) ∷ found) row.integrity_hash rows
        (i, (prev, r, refl)) h

  module _ (injective : (a b : HashData) → digest a ≡ digest b → a ≡ b)
      (fresh : (a : HashData) → digest a ≢ genesis_hash) where
    before_eq :
        (o o' : Option Text) (ds ds' : List HashData)
        → IsRooted o ds
        → IsRooted o' ds'
        → get_or o genesis_hash ≡ get_or o' genesis_hash
        → o ≡ o'
    unfolding IsRooted
    before_eq o o' [] [] r r' e = r ∙ sym r'
    before_eq o o' [] (d ∷ ds) r (r', s) e =
        elim (fresh d (
          sym
            (ap (λ x. get_or x genesis_hash) (sym r) ∙ e ∙ ap (λ x. get_or x genesis_hash) r'))) [ ]
    before_eq o o' (d ∷ ds) [] (r, s) r' e =
        elim (fresh d
          (ap (λ x. get_or x genesis_hash) (sym r) ∙ e ∙ ap (λ x. get_or x genesis_hash) r')) [ ]
    before_eq o o' (d ∷ ds) (d' ∷ ds') (r, s) (r', s') e =
        r
        ∙ (ap some
              (ap (λ x. get_or x genesis_hash) (sym r) ∙ e ∙ ap (λ x. get_or x genesis_hash) r')
            ∙ sym r')

    IsRooted-unique :
        (h : Option Text) (ds es : List HashData) → IsRooted h ds → IsRooted h es → ds ≡ es
    unfolding IsRooted
    IsRooted-unique h [] [] r s = refl
    IsRooted-unique h [] (e ∷ es) r (s, t) = cc
    IsRooted-unique h (d ∷ ds) [] (r, t) s = cc
    IsRooted-unique h (d ∷ ds) (e ∷ es) (r, (o, ro, po)) (s, (o', ro', po')) =
        let same = injective d e (some-injective (digest d) (digest e) (sym r ∙ s)) in
        let prior = before_eq o o' ds es ro ro' (sym po ∙ (ap (λ x. x.previous_hash) same ∙ po')) in
        ap₂ (λ x xs. x ∷ xs) same
          (IsRooted-unique o' ds es (subst (λ x. IsRooted x ds) prior ro) ro')

    -- If no two records have one hash and no record has the genesis hash, then two tables that are
    -- both accepted for a tenant and whose chains end in the same hash hold the same hashed
    -- contents, record by record.
    pub verified-committed :
        (n k k' : ℕ) (table table' : List AuditRow)
        → verify_audit_chain digest table (some n) ≡ valid k
        → verify_audit_chain digest table' (some n) ≡ valid k'
        → final_hash none (chained (view n table)) ≡ final_hash none (chained (view n table'))
        → history [] none (chained (view n table)) ≡ history [] none (chained (view n table'))
    unfolding verify_audit_chain IsRooted
    verified-committed n k k' table table' v v' e =
        let (linked, c) =
          verify_rows-IsLinked digest (some n) none none 0 k (chained (view n table)) v in
        let (linked', c') =
          verify_rows-IsLinked digest (some n) none none 0 k' (chained (view n table')) v' in
        IsRooted-unique _ _ _ (history-IsRooted [] none (chained (view n table)) refl linked) (
          subst (λ h. IsRooted h (history [] none (chained (view n table')))) (sym e)
            (history-IsRooted [] none (chained (view n table')) refl linked'))

prefix-IsLinked :
    (digest : Digest) (prev : Option Text) (xs ys : List AuditRow)
    → IsLinked digest prev (xs ++ ys)
    → IsLinked digest prev xs
prefix-IsLinked digest prev [] ys h = tt
prefix-IsLinked digest prev (x ∷ xs) ys (p, i, h) =
    (p, i, prefix-IsLinked digest x.integrity_hash xs ys h)

-- If the verification for a tenant accepts linked rows, all of which are the tenant's, it accepts
-- the rows without any number of the last ones.
pub verify_rows-prefix :
    (digest : Digest) (n k : ℕ) (xs ys : List AuditRow)
    → verify_rows digest (some n) none none 0 (xs ++ ys) ≡ valid k
    → verify_rows digest (some n) none none 0 xs ≡ valid (length xs)
verify_rows-prefix digest n k xs ys v =
    let linked = (verify_rows-IsLinked digest (some n) none none 0 k (xs ++ ys) v).0 in
    verify_rows-valid digest n none none 0 xs (prefix-IsLinked digest none xs ys linked)
    ∙ ap valid (omega arith)

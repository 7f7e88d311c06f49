-- ===== src/Audit/Appended.antt =====
-- verify_audit.py: the verification of blocks created by `create_audit_block`.
use auth_claw.Audit.Chain.{
  AuditRow, Digest, NewBlock, by_id, calculate_record_hash, chained, create_audit_block,
  earlier_row, genesis_hash, in_view, insert_block, inserted_row, is_before, last_hash, link_block,
  linked_row, newer, started, update_row, valid, verify_audit_chain, verify_rows,
}
use auth_claw.Audit.Verified.{IsLinked, verify_rows-valid}
use auth_claw.Detector.Sorting.{insert, sort, sort-All}
use auth_claw.Policy.Category.{get_or}
use auth_claw.Policy.Loading.{same_tenant}
use auth_claw.Prelude.{
  ==_iff, All, Bool, Bool-cases, List, Option, Text, [], ap, append-nil, arith, inl, inr, keep, leb,
  length, le→leb, ltb_self, lt→differs, lt→ltb, none, refl, some, subst, sym, true, ℕ, ◌++◌, ◌<◌,
  ◌∙◌, ◌∷◌, ◌≡◌,
}

-- The hash of the last row, or the one before the first.
abbrev pub final_hash : Option Text → List AuditRow → Option Text
final_hash prev [] = prev
final_hash prev (row ∷ rows) = final_hash row.integrity_hash rows

abbrev HasHash : AuditRow → Type 0
HasHash row = (h : Text) × (row.integrity_hash ≡ some h)

IsLinked-HasHash :
    (digest : Digest) (prev : Option Text) (rows : List AuditRow)
    → IsLinked digest prev rows
    → All HasHash rows
IsLinked-HasHash digest prev [] h = tt
IsLinked-HasHash digest prev (row ∷ rows) (p, i, h) =
    ((_, i), IsLinked-HasHash digest row.integrity_hash rows h)

pub chained-All : (rows : List AuditRow) → All HasHash rows → chained rows ≡ rows
unfolding chained
chained-All [] h = refl
chained-All (row ∷ rows) ((t, e), h) = ap (λ o. started o (row ∷ rows) (chained rows)) e

-- The view of one tenant.
abbrev rows_of : ℕ → List AuditRow → List AuditRow
rows_of n rows = keep (in_view (some n)) rows

abbrev pub view : ℕ → List AuditRow → List AuditRow
view n table = rows_of n (by_id table)

pub keep-append :
    (p : AuditRow → Bool) (xs ys : List AuditRow) → keep p (xs ++ ys) ≡ keep p xs ++ keep p ys
keep-append p [] ys = refl
keep-append p (x ∷ xs) ys = elim (Bool-cases (p x)) [
  | inl e ↦ rw e (ap (λ l. x ∷ l) (keep-append p xs ys))
  | inr e ↦ rw e (keep-append p xs ys)
]

pub last_hash-final_hash :
    (n : ℕ) (found : Option Text) (table : List AuditRow)
    → All HasHash (rows_of n table)
    → last_hash (some n) found table ≡ final_hash found (rows_of n table)
unfolding last_hash
last_hash-final_hash n found [] h = refl
last_hash-final_hash n found (row ∷ rows) h =
    elim (Bool-cases (same_tenant (some n) row.tenant_id)) [
      | inl e ↦
          let (now, later) : All HasHash (row ∷ rows_of n rows) = rw e at h in
          rw e (
            last_hash-final_hash n (newer found row.integrity_hash) rows later
            ∙ ap (λ o. final_hash (newer found o) (rows_of n rows)) now.1
            ∙ ap (λ o. final_hash o (rows_of n rows)) (sym now.1))
      | inr e ↦ rw e (last_hash-final_hash n found rows (rw e at h))
    ]

append-IsLinked :
    (digest : Digest) (prev : Option Text) (rows : List AuditRow) (row : AuditRow)
    → IsLinked digest prev rows
    → IsLinked digest prev
        (rows ++ linked_row digest row (get_or (final_hash prev rows) genesis_hash) ∷ [])
unfolding linked_row calculate_record_hash
append-IsLinked digest prev [] row h = (refl, refl, tt)
append-IsLinked digest prev (r ∷ rows) row (p, i, h) =
    (p, i, append-IsLinked digest r.integrity_hash rows row h)

-- The row's id is less than a new one.
abbrev pub IsOlder : ℕ → AuditRow → Type 0
IsOlder id row = row.id < id

keep-older :
    (id : ℕ) (rows : List AuditRow) → All (IsOlder id) rows → keep (is_before id) rows ≡ rows
keep-older id [] h = refl
keep-older id (row ∷ rows) (l, h) =
    rw (lt→ltb row.id id l) (ap (λ k. row ∷ k) (keep-older id rows h))

insert-last :
    (x z : AuditRow) (ys : List AuditRow)
    → x.id < z.id
    → insert earlier_row x (ys ++ z ∷ []) ≡ insert earlier_row x ys ++ z ∷ []
unfolding insert
insert-last x z [] l = rw (le→leb x.id z.id (omega (arith, l))) refl
insert-last x z (y ∷ ys) l = elim (Bool-cases (leb x.id y.id)) [
  | inl e ↦ rw e refl
  | inr e ↦ rw e (ap (λ k. y ∷ k) (insert-last x z ys l))
]

-- A row with the greatest id stands last in the order of ids.
by_id-append :
    (table : List AuditRow) (z : AuditRow)
    → All (IsOlder z.id) table
    → by_id (table ++ z ∷ []) ≡ by_id table ++ z ∷ []
unfolding by_id sort insert
by_id-append [] z h = refl
by_id-append (x ∷ xs) z (l, h) =
    ap (insert earlier_row x) (by_id-append xs z h) ∙ insert-last x z (by_id xs) l

-- Every tenant's rows are linked.
abbrev IsSound : Digest → List AuditRow → Type 0
IsSound digest table = (n : ℕ) → IsLinked digest none (view n table)

same_tenant_eq : (n : ℕ) (o : Option ℕ) → same_tenant (some n) o ≡ true → o ≡ some n
same_tenant_eq n none h = cc
same_tenant_eq n (some m) h = ap some (sym ((==_iff n m).0 h))

-- Only the new row is updated.
update_row-last :
    (id : ℕ) (new row : AuditRow) (table : List AuditRow)
    → All (IsOlder id) table
    → row.id ≡ id
    → update_row id new (table ++ row ∷ []) ≡ table ++ new ∷ []
unfolding update_row
update_row-last id new row [] h e = rw ((==_iff row.id id).1 e) refl
update_row-last id new row (x ∷ xs) (l, h) e =
    rw (lt→differs x.id id l) (ap (λ k. x ∷ k) (update_row-last id new row xs h e))

-- The new row is not before itself.
keep-new : (id : ℕ) (row : AuditRow) → row.id ≡ id → keep (is_before id) (row ∷ []) ≡ []
keep-new id row e = rw (ltb_self row.id id e) refl

-- With an id greater than those before, the call adds the linked row at the end, and the previous
-- hash is the last one of the tenant's rows before.
pub create_audit_block-appended :
    (digest : Digest) (table : List AuditRow) (id : ℕ) (new : NewBlock)
    → All (IsOlder id) table
    → create_audit_block digest table id new
      ≡ table
        ++ linked_row digest
            (inserted_row id new)
            (get_or (last_hash new.tenant_id none (by_id table)) genesis_hash)
          ∷ []
unfolding create_audit_block link_block insert_block inserted_row by_id
create_audit_block-appended digest table id new older =
    let row = inserted_row id new in
    let sees : keep (is_before id) (by_id (table ++ row ∷ [])) ≡ by_id table =
      ap (keep (is_before id)) (by_id-append table row older)
      ∙ (keep-append (is_before id) (by_id table) (row ∷ [])
          ∙ (ap (λ l. keep (is_before id) (by_id table) ++ l) (keep-new id row refl)
              ∙ (append-nil _
                  ∙ keep-older id (by_id table)
                      (sort-All earlier_row (IsOlder id) table older)))) in
    update_row-last id _ row table older refl
    ∙ ap
        (λ l.
          table
          ++ linked_row digest row (get_or (last_hash new.tenant_id none l) genesis_hash) ∷ [])
        sees

create_audit_block-IsSound :
    (digest : Digest) (table : List AuditRow) (id : ℕ) (new : NewBlock)
    → All (IsOlder id) table
    → IsSound digest table
    → IsSound digest (create_audit_block digest table id new)
unfolding linked_row inserted_row by_id
create_audit_block-IsSound digest table id new older h n =
    let row = inserted_row id new in
    let rows = by_id table in
    let previous = get_or (last_hash new.tenant_id none rows) genesis_hash in
    let added = linked_row digest row previous in
    let sees = in_view (some n) in
    subst (IsLinked digest none)
      (sym (
        ap (view n) (create_audit_block-appended digest table id new older)
        ∙ ap (keep sees) (by_id-append table added older)
        ∙ keep-append sees rows (added ∷ [])))
      (elim (Bool-cases (same_tenant (some n) new.tenant_id)) [
        | inl e ↦
            let kept : keep sees (added ∷ []) ≡ added ∷ [] = rw e refl in
            let last =
              ap (λ t. last_hash t none rows) (same_tenant_eq n new.tenant_id e)
              ∙ last_hash-final_hash n none rows (IsLinked-HasHash digest none _ (h n)) in
            subst (λ l. IsLinked digest none (view n table ++ l)) (sym kept)
              (subst
                (λ o.
                  IsLinked digest none
                    (view n table ++ linked_row digest row (get_or o genesis_hash) ∷ []))
                (sym last) (append-IsLinked digest none (view n table) row (h n)))
        | inr e ↦
            let kept : keep sees (added ∷ []) ≡ [] = rw e refl in
            subst (λ l. IsLinked digest none (view n table ++ l)) (sym kept)
              (subst (IsLinked digest none) (sym (append-nil (view n table))) (h n))
      ])

-- The tables that calls of `create_audit_block` make of the empty one, each with an id greater than
-- those before, as a sequence gives them.
pub data IsCreated (digest : Digest) : List AuditRow → Type 0 where
  empty : IsCreated digest []
  created :
      {table : List AuditRow}
      → IsCreated digest table
      → (id : ℕ) (new : NewBlock) → All (IsOlder id) table
      → IsCreated digest (create_audit_block digest table id new)

IsCreated-IsSound :
    (digest : Digest) (table : List AuditRow) → IsCreated digest table → IsSound digest table
unfolding by_id
IsCreated-IsSound digest [] empty n = tt
IsCreated-IsSound digest _ (created {table} c id new older) n =
    create_audit_block-IsSound digest table id new older (IsCreated-IsSound digest table c) n

-- After any calls of `create_audit_block`, one after the other, of any tenants in any order, each with
-- an id greater than those before, the verification for a tenant accepts the chain and has checked every row of the tenant.
pub IsCreated-verified :
    (digest : Digest) (table : List AuditRow)
    → IsCreated digest table
    → (n : ℕ) → verify_audit_chain digest table (some n) ≡ valid (length (view n table))
unfolding verify_audit_chain
IsCreated-verified digest table c n =
    let linked = IsCreated-IsSound digest table c n in
    ap (verify_rows digest (some n) none none 0)
      (chained-All (view n table) (IsLinked-HasHash digest none (view n table) linked))
    ∙ (verify_rows-valid digest n none none 0 (view n table) linked ∙ ap valid (omega arith))

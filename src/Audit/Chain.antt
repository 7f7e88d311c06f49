-- ===== src/Audit/Chain.antt =====
-- `calculate_record_hash`, `verify_audit_chain` and `create_audit_block` of verify_audit.py. The
-- table audit_logs is the list of its rows in any order. SHA-256 of the JSON text of a record is the function `Digest`.
use auth_claw.Approvals.State.{found}
use auth_claw.Detector.Sorting.{sort}
use auth_claw.Policy.Category.{get_or}
use auth_claw.Policy.Loading.{same_tenant}
use auth_claw.Prelude.{
  Bool, List, Option, Text, [], codes, false, if◌then◌else◌, keep, leb, ltb, none, not, some, suc,
  text_eq, true, ℕ, ◌++◌, ◌+◌, ◌==◌, ◌∷◌,
}

-- `hash_data`, with `or ""` applied and the time as text
pub record HashData : Type 0 where
  pub record_id : ℕ
  pub user_query : Text
  pub response : Text
  pub allowed : Bool
  pub created_at : Text
  pub risk_level : Text
  pub approval_status : Text
  pub previous_hash : Text

abbrev pub Digest : Type 0
Digest = HashData → Text

-- A row, with the columns that the chain reads.
pub record AuditRow : Type 0 where
  pub id : ℕ
  pub user_query : Option Text
  pub response : Option Text
  pub allowed : Bool
  pub created_at : Text
  pub risk_level : Option Text
  pub approval_status : Option Text
  pub tenant_id : Option ℕ
  pub integrity_hash : Option Text
  pub previous_hash : Option Text

unfoldable pub genesis_hash : Text
unfolding codes
genesis_hash = codes "0000000000000000000000000000000000000000000000000000000000000000"

unfoldable pub hash_data : AuditRow → Text → HashData
hash_data row previous = record {
  record_id = row.id;
  user_query = get_or row.user_query [];
  response = get_or row.response [];
  allowed = row.allowed;
  created_at = row.created_at;
  risk_level = get_or row.risk_level [];
  approval_status = get_or row.approval_status [];
  previous_hash = previous;
}

unfoldable pub calculate_record_hash : Digest → AuditRow → Text → Text
unfolding hash_data
calculate_record_hash digest row previous = digest (hash_data row previous)

pub data Reason : Type 0 where
  missing_metadata missing_record broken_link hash_mismatch : Reason

pub data Verification : Type 0 where
  valid : ℕ → Verification
  invalid : ℕ → ℕ → Reason → Verification

-- `tenant_id is None and prev_id is not None and rec_id != prev_id + 1`
abbrev pub has_gap : Option ℕ → Option ℕ → ℕ → Bool
has_gap none (some prev_id) rec_id = not (rec_id == prev_id + 1)
has_gap _ _ rec_id = false

-- The tests on one row, with its hashes; none is a row that passes.
unfoldable pub check_row :
    Digest
    → Option ℕ
    → Option ℕ
    → Option Text
    → AuditRow
    → Option Text
    → Option Text
    → Option Reason
unfolding calculate_record_hash genesis_hash text_eq
check_row digest tenant_id prev_id prev_hash row (some integrity) (some previous) =
    if has_gap tenant_id prev_id row.id
    then some missing_record
    else if not (text_eq previous (get_or prev_hash genesis_hash))
    then some broken_link
    else if not (text_eq integrity (calculate_record_hash digest row previous))
    then some hash_mismatch
    else none
check_row digest tenant_id prev_id prev_hash row _ _ = some missing_metadata

-- The outcome once the row has been tested.
abbrev pub continue_with : Option Reason → ℕ → ℕ → Verification → Verification
continue_with none checked rec_id rest = rest
continue_with (some reason) checked rec_id rest = invalid checked rec_id reason

-- The loop over the rows from the start of the chain.
unfoldable pub verify_rows :
    Digest → Option ℕ → Option ℕ → Option Text → ℕ → List AuditRow → Verification
unfolding check_row
verify_rows digest tenant_id prev_id prev_hash checked [] = valid checked
verify_rows digest tenant_id prev_id prev_hash checked (row ∷ rows) =
    continue_with
      (check_row digest tenant_id prev_id prev_hash row row.integrity_hash row.previous_hash)
      checked row.id
      (verify_rows digest tenant_id (some row.id) row.integrity_hash (suc checked) rows)

abbrev pub started : Option Text → List AuditRow → List AuditRow → List AuditRow
started none rows rest = rest
started (some h) rows rest = rows

-- From the first row that has a hash on.
unfoldable pub chained : List AuditRow → List AuditRow
chained [] = []
chained (row ∷ rows) = started row.integrity_hash (row ∷ rows) (chained rows)

-- WHERE tenant_id = :tenant_id, if there is one
abbrev pub in_view : Option ℕ → AuditRow → Bool
in_view none row = true
in_view (some n) row = same_tenant (some n) row.tenant_id

abbrev pub earlier_row : AuditRow → AuditRow → Bool
earlier_row a b = leb a.id b.id

-- ORDER BY id ASC
unfoldable pub by_id : List AuditRow → List AuditRow
unfolding sort
by_id table = sort earlier_row table

unfoldable pub verify_audit_chain : Digest → List AuditRow → Option ℕ → Verification
unfolding verify_rows chained by_id
verify_audit_chain digest table tenant_id =
    verify_rows digest tenant_id none none 0 (chained (keep (in_view tenant_id) (by_id table)))

-- What `create_audit_block` is given.
pub record NewBlock : Type 0 where
  pub query : Option Text
  pub response : Option Text
  pub allowed : Bool
  pub created_at : Text
  pub risk_level : Option Text
  pub approval_status : Option Text
  pub tenant_id : Option ℕ

-- A later hash that is not NULL replaces the one found.
abbrev pub newer : Option Text → Option Text → Option Text
newer found none = found
newer found (some h) = some h

-- The last hash of the tenant's rows, or the one given: the first of ORDER BY id DESC LIMIT 1, from
-- rows in ascending order.
unfoldable pub last_hash : Option ℕ → Option Text → List AuditRow → Option Text
last_hash tenant_id found [] = found
last_hash tenant_id found (row ∷ rows) =
    last_hash tenant_id
      (if same_tenant tenant_id row.tenant_id then newer found row.integrity_hash else found) rows

-- The row as it is inserted, without hashes.
unfoldable pub inserted_row : ℕ → NewBlock → AuditRow
inserted_row new_id new = record {
  id = new_id;
  user_query = new.query;
  response = new.response;
  allowed = new.allowed;
  created_at = new.created_at;
  risk_level = new.risk_level;
  approval_status = new.approval_status;
  tenant_id = new.tenant_id;
  integrity_hash = none;
  previous_hash = none;
}

-- The row with its hashes, linked to a previous hash.
unfoldable pub linked_row : Digest → AuditRow → Text → AuditRow
unfolding calculate_record_hash
linked_row digest row previous = record row {
  integrity_hash = some (calculate_record_hash digest row previous);
  previous_hash = some previous;
}

-- WHERE id < :inserted_id
abbrev pub is_before : ℕ → AuditRow → Bool
is_before new_id row = ltb row.id new_id

-- The first transaction: INSERT, with the id that the sequence gives.
unfoldable pub insert_block : List AuditRow → ℕ → NewBlock → List AuditRow
unfolding inserted_row
insert_block table new_id new = table ++ inserted_row new_id new ∷ []

-- UPDATE audit_logs SET … WHERE id = :id
unfoldable pub update_row : ℕ → AuditRow → List AuditRow → List AuditRow
update_row id new [] = []
update_row id new (row ∷ rows) = (if row.id == id then new else row) ∷ update_row id new rows

-- The second one: SELECT of the previous hash and UPDATE.
unfoldable pub link_block : Digest → List AuditRow → ℕ → NewBlock → List AuditRow
unfolding inserted_row linked_row last_hash genesis_hash by_id update_row
link_block digest table new_id new =
    let older = keep (is_before new_id) (by_id table) in
    let previous = get_or (last_hash new.tenant_id none older) genesis_hash in
    update_row new_id (linked_row digest (inserted_row new_id new) previous) table

-- Both transactions, where no other call comes between them.
unfoldable pub create_audit_block : Digest → List AuditRow → ℕ → NewBlock → List AuditRow
unfolding insert_block link_block
create_audit_block digest table new_id new =
    link_block digest (insert_block table new_id new) new_id new

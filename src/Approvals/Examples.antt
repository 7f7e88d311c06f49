-- ===== src/Approvals/Examples.antt =====
-- An approval that is approved, executed and executed again.
use auth_claw.Approvals.Execute.{execute_record, execute_request}
use auth_claw.Approvals.Guarded.{IsGuarded, execute_record-IsGuarded}
use auth_claw.Approvals.Handlers.{approve_request, approved_record, reject_record, success}
use auth_claw.Approvals.Lifecycle.{IsReachable, IsReachable-once, approves, creates, executes}
use auth_claw.Approvals.Mfa.{first_counter, is_six_digits}
use auth_claw.Approvals.Once.{started}
use auth_claw.Approvals.State.{
  ActionRequest, ApprovalRecord, Config, Store, completed, create_approval, executing, parsed,
  pending,
}
use auth_claw.Policy.Loading.{text_or}
use auth_claw.Prelude.{
  Option, Text, [], codes, false, if◌then◌else◌, none, refl, some, strip, text_eq, true, ℕ, ◌==◌,
  ◌≡◌, ◌≤◌,
}

abbrev code_a : Text
unfolding codes
code_a = codes "111111"

abbrev code_b : Text
unfolding codes
code_b = codes "222222"

-- Counter 20 has the first code, counter 22 the second.
abbrev tokens : ℕ → Option Text
tokens c = if c == 20 then some code_a else if c == 22 then some code_b else none

abbrev test_config : Config
unfolding codes
test_config = record {
  require_mfa = true;
  execution_expiry_minutes = 10;
  totp_secret = λ r payload. some (codes "k");
  hotp = λ secret c. tokens c;
  binding_hash = λ r actor counter expiry. codes "b";
  execute = λ r. completed;
  token_hash = codes "h";
}

abbrev request_of : Text → ℕ → ActionRequest
unfolding codes
request_of code now = record {
  user = record { tenant_id = some 3; email = some (codes "ann"); sub = none };
  body = parsed (some code);
  now = now;
}

abbrev new_store : Store
unfolding codes
new_store =
    create_approval (codes "a") (some 3) (codes "delete") (codes "high_risk") 600 30
      (record { cache = none; row = none; events = [] })

abbrev approved_store : Store
approved_store = (approve_request test_config (request_of code_a 610) new_store).1

abbrev executed_store : Store
executed_store = (execute_request test_config (request_of code_b 660) approved_store).1

abbrev repeated_store : Store
repeated_store = (execute_request test_config (request_of code_b 670) executed_store).1

-- The action runs once.
runs_once : started repeated_store.events ≡ 1
unfolding new_store code_a code_b test_config request_of create_approval approve_request
    execute_request is_six_digits first_counter strip text_eq codes text_or
runs_once = refl

repeated-IsReachable : IsReachable test_config repeated_store
unfolding create_approval new_store
repeated-IsReachable =
    executes
      (executes
        (approves (creates (codes "a") (some 3) (codes "delete") (codes "high_risk") 600 30)
          (request_of code_a 610))
        (request_of code_b 660))
      (request_of code_b 670)

IsReachable-once_example : started repeated_store.events ≤ 1
IsReachable-once_example = IsReachable-once test_config repeated_store repeated-IsReachable

abbrev new_record : ApprovalRecord
unfolding codes
new_record = record {
  approval_id = codes "a";
  tenant_id = some 3;
  status = pending;
  created_at = 600;
  expires_at = some 2400;
  approved_at = none;
  rejected_at = none;
  executed_at = none;
  query = codes "delete";
  reason = codes "high_risk";
  approved_by = none;
  rejected_by = none;
  executed_by = none;
  mfa_verified = false;
  approval_mfa_verified = false;
  execution_mfa_verified = false;
  approval_mfa_binding_hash = none;
  execution_mfa_binding_hash = none;
  approval_mfa_counter = none;
  execution_mfa_counter = none;
  execution_token_hash = none;
  execution_token_used_at = none;
  execution_expires_at = none;
  last_action_at = 600;
}

abbrev approved_now : ApprovalRecord
approved_now =
    approved_record test_config new_record (request_of code_a 610) true (some (codes "b")) (some 20)

-- An approval that is running may be rejected.
running_is_rejected :
    (reject_record
      (record approved_now { status = executing })
      (request_of code_a 650)
      approved_store).0
    ≡ success
unfolding reject_record new_record approved_record
running_is_rejected = refl

execute_record-IsGuarded_example :
    IsGuarded test_config approved_now
      (request_of code_b 660)
      approved_store
      (execute_record test_config approved_now (request_of code_b 660) approved_store)
execute_record-IsGuarded_example =
    execute_record-IsGuarded test_config approved_now (request_of code_b 660) approved_store

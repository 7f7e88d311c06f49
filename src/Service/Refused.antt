-- ===== src/Service/Refused.antt =====
-- A text with a pattern of the policy engine is refused by the whole service.
use auth_claw.Gateway.Effects.{Event, Trace, agent_event}
use auth_claw.Gateway.Graph.{invoke}
use auth_claw.Gateway.Safety.{IsDenied, IsHarmless, invoke-blocks_pattern}
use auth_claw.Gateway.State.{AuthState, KeepsDeclared, allowed_of}
use auth_claw.Policy.Category.{get_or}
use auth_claw.Policy.Engine.{RiskLevel}
use auth_claw.Policy.Verdict.{HasBaselinePattern}
use auth_claw.Prelude.{
  All, List, Option, Text, [], ap, append-nil, append_assoc, codes, false, refl, sym, true, ℕ, ◌++◌,
  ◌∙◌, ◌∷◌, ◌≡◌,
}
use auth_claw.Result.{
  Result, attribute_error, ok, provider_error, raised, storage_error, timeout_error, value_error,
}
use auth_claw.Service.Format.{blocked_response, format_chat_response}
use auth_claw.Service.Rows.{
  Around, Registered, execution_of, finish_approval, finish_chat, new_state, result_row,
  unavailable_row,
}
use auth_claw.Service.Runs.{
  approval_around, approval_state, chat_around, chat_state, execute_approval, execute_chat,
  run_approval, run_chat,
}
use auth_claw.Service.State.{
  ApprovedRequest, ChatRequest, Gateway, RegisteredRequest, ServiceResult, executed,
}

-- The row does not allow the request.
abbrev pub IsRefusal : RegisteredRequest → Type 0
IsRefusal row = row.allowed ≡ false

-- If the call returns, its answer is the blocked one.
abbrev pub AnswersBlocked : ServiceResult → Type 0
AnswersBlocked (executed e) =
    (category : Text) × ((format_chat_response e).0 ≡ blocked_response category)
AnswersBlocked _ = Unit

-- What a call that is refused does.
abbrev pub IsRefused : Trace → Registered × Trace → Type 0
IsRefused t ((result, rows), t') =
    AnswersBlocked result
    × All IsRefusal rows
    × ((es : List Event) × (t' ≡ t ++ es) × All IsHarmless es)

finish_chat-AnswersBlocked :
    (a : Around) (result : Result AuthState)
    → ((s : AuthState) → result ≡ ok s → IsDenied s)
    → AnswersBlocked (finish_chat a result).0 × All IsRefusal (finish_chat a result).1
unfolding finish_chat format_chat_response execution_of result_row unavailable_row
finish_chat-AnswersBlocked a (ok s) h =
    let denied : allowed_of s ≡ false = ap (λ o. get_or o true) (h s refl) in
    ((get_or s.block_category (codes "prompt_injection"), rw denied refl), (denied, tt))
finish_chat-AnswersBlocked a (raised value_error) h = (tt, tt)
finish_chat-AnswersBlocked a (raised attribute_error) h = (tt, (refl, tt))
finish_chat-AnswersBlocked a (raised timeout_error) h = (tt, (refl, tt))
finish_chat-AnswersBlocked a (raised provider_error) h = (tt, (refl, tt))
finish_chat-AnswersBlocked a (raised storage_error) h = (tt, (refl, tt))

run_chat-IsRefused :
    (g : Gateway) (r : ChatRequest) (tenant : Result ℕ) (t : Trace)
    → KeepsDeclared g.carry
    → ((u : Text) (tenant_id : ℕ) → HasBaselinePattern (g.env.redact_rich r.message u tenant_id).0)
    → IsRefused t (run_chat g r tenant t)
unfolding run_chat chat_state new_state
run_chat-IsRefused g r (raised fault) t keeps h = (tt, tt, ([], sym (append-nil t), tt))
run_chat-IsRefused g r (ok tenant_id) t keeps h =
    let s = chat_state g r tenant_id in
    let (es, e, harmless, denied) =
      invoke-blocks_pattern g.env g.carry keeps s (λ u. h u tenant_id) t in
    let (answers, rows) =
      finish_chat-AnswersBlocked (chat_around g r tenant_id) (invoke g.env g.carry s t).0 denied in
    (answers, rows, (es, e, harmless))

-- If what redaction makes of the message holds, for every name of a user and every tenant, one of the
-- policy engine's own patterns, then execute_chat calls no provider and asks for no approval; the
-- audit blocks and the registered rows say that the request was not allowed; and an execution that it
-- returns is formatted as blocked.
pub execute_chat-IsRefused :
    (g : Gateway) (r : ChatRequest) (t : Trace)
    → KeepsDeclared g.carry
    → ((u : Text) (tenant_id : ℕ) → HasBaselinePattern (g.env.redact_rich r.message u tenant_id).0)
    → IsRefused t (execute_chat g r t)
unfolding execute_chat
execute_chat-IsRefused g r t keeps h =
    run_chat-IsRefused g r (g.resolve_tenant r.x_api_key r.authorization) t keeps h

finish_approval-AnswersBlocked :
    (a : Around) (risk : Option RiskLevel) (result : Result AuthState)
    → ((s : AuthState) → result ≡ ok s → IsDenied s)
    → AnswersBlocked (finish_approval a risk result).0
      × All IsRefusal (finish_approval a risk result).1
unfolding finish_approval format_chat_response execution_of result_row unavailable_row
finish_approval-AnswersBlocked a risk (ok s) h =
    let denied : allowed_of s ≡ false = ap (λ o. get_or o true) (h s refl) in
    ((get_or s.block_category (codes "prompt_injection"), rw denied refl), (denied, tt))
finish_approval-AnswersBlocked a risk (raised value_error) h = (tt, tt)
finish_approval-AnswersBlocked a risk (raised attribute_error) h = (tt, (refl, tt))
finish_approval-AnswersBlocked a risk (raised timeout_error) h = (tt, (refl, tt))
finish_approval-AnswersBlocked a risk (raised provider_error) h = (tt, (refl, tt))
finish_approval-AnswersBlocked a risk (raised storage_error) h = (tt, (refl, tt))

run_approval-IsRefused :
    (g : Gateway) (r : ApprovedRequest) (authorization username : Option Text)
    (provider model : Text) (tenant : Result ℕ) (t : Trace)
    → KeepsDeclared g.carry
    → ((u : Text) (tenant_id : ℕ) → HasBaselinePattern (g.env.redact_rich r.query u tenant_id).0)
    → IsRefused t (run_approval g r authorization username provider model tenant t)
unfolding run_approval approval_state new_state
run_approval-IsRefused g r authorization username provider model (raised fault) t keeps h =
    (tt, tt, ([], sym (append-nil t), tt))
run_approval-IsRefused g r authorization username provider model (ok tenant_id) t keeps h =
    let s = approval_state g r authorization username tenant_id in
    let start : Event = agent_event "Approval Execute" "APPROVAL_EXECUTION_STARTED" in
    let (es, e, harmless, denied) =
      invoke-blocks_pattern g.env g.carry keeps s (λ u. h u tenant_id) (t ++ start ∷ []) in
    let (answers, rows) =
      finish_approval-AnswersBlocked (approval_around g r provider model tenant_id) r.risk_level
        (invoke g.env g.carry s (t ++ start ∷ [])).0 denied in
    (answers, rows, (start ∷ es, e ∙ append_assoc t (start ∷ []) es, (tt, harmless)))

-- If what redaction makes of an approved query holds, for every name of a user and every tenant, one
-- of the policy engine's own patterns, then execute_approval, in spite of the approval, calls no
-- provider and asks for no approval; the audit blocks and the registered rows say that the request
-- was not allowed; and an execution that it returns is formatted as blocked.
pub execute_approval-IsRefused :
    (g : Gateway) (r : ApprovedRequest) (authorization x_api_key username : Option Text)
    (provider model : Text) (t : Trace)
    → KeepsDeclared g.carry
    → ((u : Text) (tenant_id : ℕ) → HasBaselinePattern (g.env.redact_rich r.query u tenant_id).0)
    → IsRefused t (execute_approval g r authorization x_api_key username provider model t)
unfolding execute_approval
execute_approval-IsRefused g r authorization x_api_key username provider model t keeps h =
    run_approval-IsRefused g r authorization username provider model _ t keeps h

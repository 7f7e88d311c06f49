-- ===== src/Opa/FailClosed.antt =====
-- Where the agent is required, nothing but its own answer lets a text through.
use auth_claw.Opa.Answer.{OpaResult, normalize_opa_result}
use auth_claw.Opa.Evaluate.{
  Environment, Reply, answered, evaluate_opa_policy, failed, is_opa_enabled, is_opa_required,
  is_success, opa_fail_closed, read_reply, without_decision,
}
use auth_claw.Policy.Json.{Json}
use auth_claw.Prelude.{
  Bool, Bool-cases, Option, Text, codes, false, inl, inr, ltb, refl, some, true, ℕ, ◌≡◌, ◌⊎◌,
}

-- The answer refuses.
abbrev pub Refuses : Option OpaResult → Type 0
Refuses o = (r : OpaResult) × (o ≡ some r) × (r.allowed ≡ false) × (r.decision ≡ codes "BLOCK")

-- The answer is what the agent said, in a reply with a status from 200 to 299.
abbrev pub SaidBy : Reply → Option OpaResult → Type 0
SaidBy reply o =
    (status : ℕ) × (body : Json) × (reply ≡ answered status body)
    × (is_success status ≡ true)
    × (o ≡ normalize_opa_result body)

without_decision-Refuses :
    (required : Bool) (reason : Text) → required ≡ true → Refuses (without_decision required reason)
unfolding opa_fail_closed
without_decision-Refuses true reason h = (opa_fail_closed reason, refl, refl, refl)
without_decision-Refuses false reason h = cc

read_reply-cases :
    (env : Environment) (reply : Reply) (disabled_until : ℕ)
    → is_opa_required env ≡ true
    → let o = (read_reply env reply disabled_until).0 in Refuses o ⊎ SaidBy reply o
unfolding read_reply
read_reply-cases env (failed error time) disabled_until h =
    inl (without_decision-Refuses (is_opa_required env) _ h)
read_reply-cases env (answered status body) disabled_until h =
    elim (Bool-cases (is_success status)) [
      | inl e ↦ inr (status, body, refl, e, rw e refl)
      | inr e ↦ rw e (inl (without_decision-Refuses (is_opa_required env) _ h))
    ]

-- Where the agent is required, every call is refused with BLOCK, or its answer is the normalised body
-- of a reply with a status from 200 to 299: a switched-off agent, an open circuit breaker, another
-- status and a failed request are all refused.
pub evaluate_opa_policy-required :
    (env : Environment) (now : ℕ) (reply : Reply) (disabled_until : ℕ)
    → is_opa_required env ≡ true
    → let o = (evaluate_opa_policy env now reply disabled_until).0 in Refuses o ⊎ SaidBy reply o
unfolding evaluate_opa_policy
evaluate_opa_policy-required env now reply disabled_until h =
    elim (Bool-cases (is_opa_enabled env)) [
      | inr e ↦ rw e (inl (without_decision-Refuses (is_opa_required env) _ h))
      | inl e ↦ elim (Bool-cases (ltb now disabled_until)) [
        | inl k ↦ rw e (rw k (inl (without_decision-Refuses (is_opa_required env) _ h)))
        | inr k ↦ rw e (rw k (read_reply-cases env reply disabled_until h))
      ]
    ]

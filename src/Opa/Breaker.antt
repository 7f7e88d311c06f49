-- ===== src/Opa/Breaker.antt =====
-- The circuit breaker of `evaluate_opa_policy`.
use auth_claw.Gateway.Graph.{answer}
use auth_claw.Opa.Answer.{OpaResult}
use auth_claw.Opa.Evaluate.{
  Environment, Reply, evaluate_opa_policy, failed, is_opa_enabled, is_opa_required, read_reply,
  without_decision,
}
use auth_claw.Prelude.{
  All, List, Option, Text, [], ap, arith, codes, false, ltb, map, refl, true, ℕ, ◌+◌, ◌<◌, ◌∙◌, ◌∷◌,
  ◌≡◌, ◌≤◌,
}

-- A call at a time, with the reply that the agent would give.
pub record Call : Type 0 where
  pub now : ℕ
  pub reply : Reply

-- Calls one after the other: their answers and the last `_opa_disabled_until`.
unfoldable pub run_calls : Environment → List Call → ℕ → List (Option OpaResult) × ℕ
unfolding evaluate_opa_policy
run_calls env [] disabled_until = ([], disabled_until)
run_calls env (c ∷ cs) disabled_until =
    let (answer, next) = evaluate_opa_policy env c.now c.reply disabled_until in
    let (answers, last) = run_calls env cs next in (answer ∷ answers, last)

-- The answer while the breaker is open.
abbrev pub while_open : Environment → Option OpaResult
while_open env =
    without_decision (is_opa_required env)
      (codes "OPA enforcement is required but the OPA circuit breaker is open.")

abbrev pub Before : ℕ → Call → Type 0
Before time c = c.now < time

evaluate-open :
    (env : Environment) (now : ℕ) (reply : Reply) (disabled_until : ℕ)
    → is_opa_enabled env ≡ true
    → now < disabled_until
    → evaluate_opa_policy env now reply disabled_until ≡ (while_open env, disabled_until)
unfolding evaluate_opa_policy
evaluate-open env now reply disabled_until h b =
    let early : ltb now disabled_until ≡ true = ground (arith, b) in rw h (rw early refl)

evaluate-closed :
    (env : Environment) (now : ℕ) (reply : Reply) (disabled_until : ℕ)
    → is_opa_enabled env ≡ true
    → disabled_until ≤ now
    → evaluate_opa_policy env now reply disabled_until ≡ read_reply env reply disabled_until
unfolding evaluate_opa_policy
evaluate-closed env now reply disabled_until h b =
    let late : ltb now disabled_until ≡ false = ground (arith, b) in rw h (rw late refl)

run_calls-open :
    (env : Environment) (cs : List Call) (disabled_until : ℕ)
    → is_opa_enabled env ≡ true
    → All (Before disabled_until) cs
    → run_calls env cs disabled_until ≡ (map (λ c. while_open env) cs, disabled_until)
unfolding run_calls
run_calls-open env [] disabled_until h b = refl
run_calls-open env (c ∷ cs) disabled_until h (b, bs) =
    let now = evaluate-open env c.now c.reply disabled_until h b in
    ap (λ q. let later = run_calls env cs q.1 in (q.0 ∷ later.0, later.1)) now
    ∙ ap (λ q. (while_open env ∷ q.0, q.1)) (run_calls-open env cs disabled_until h bs)

-- After a request that fails at some time, every call in the next OPA_CIRCUIT_BREAK_SECONDS gets the
-- answer of the open breaker, whatever the agent would reply, and none of them moves its end; the
-- first call from that end on is sent to the agent again.
pub run_calls-reopens :
    (env : Environment) (now time disabled_until later : ℕ) (error : Text) (cs : List Call)
    (reply : Reply)
    → is_opa_enabled env ≡ true
    → disabled_until ≤ now
    → All (Before (time + env.circuit_break_seconds)) cs
    → time + env.circuit_break_seconds ≤ later
    → let end_of = (evaluate_opa_policy env now (failed error time) disabled_until).1 in
      (run_calls env cs end_of ≡ (map (λ c. while_open env) cs, time + env.circuit_break_seconds))
      × (evaluate_opa_policy env later reply (run_calls env cs end_of).1
          ≡ read_reply env reply (time + env.circuit_break_seconds))
unfolding read_reply
run_calls-reopens env now time disabled_until later error cs reply h b early late =
    let stop = time + env.circuit_break_seconds in
    let opened : (evaluate_opa_policy env now (failed error time) disabled_until).1 ≡ stop =
      ap (λ q. q.1) (evaluate-closed env now (failed error time) disabled_until h b) in
    let still = ap (run_calls env cs) opened ∙ run_calls-open env cs stop h early in
    (
      still,
      ap (λ q. evaluate_opa_policy env later reply q.1) still
          ∙ evaluate-closed env later reply stop h late,
    )

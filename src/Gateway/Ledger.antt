-- ===== src/Gateway/Ledger.antt =====
-- How many audit blocks a run of the workflow stores, and of which state.
use auth_claw.Gateway.Audited.{IsNotAudit, after_policy-Unaudited, unaudited}
use auth_claw.Gateway.Effects.{Event, Run, Trace, agent_event, audit_block, continue_run, ◌>>=◌}
use auth_claw.Gateway.Env.{Env, ReadBack, read_fails, row_found, row_missing}
use auth_claw.Gateway.Governance.{policy_node}
use auth_claw.Gateway.Graph.{after_policy, invoke, route_after_policy}
use auth_claw.Gateway.Guarantee.{Guarantees}
use auth_claw.Gateway.Intake.{orchestrator_node, redact_node}
use auth_claw.Gateway.Nodes.{
  orchestrator_node-SameRequest, policy_node-logs, redact_node-IsRedacted,
}
use auth_claw.Gateway.Response.{audit_block_of, audit_node, audit_record, log_stored}
use auth_claw.Gateway.State.{AuthState}
use auth_claw.Prelude.{
  All, All-append, Option, [], ap, append-nil, append_assoc, inl, inr, none, refl, some, sym, ℕ,
  ◌++◌, ◌∙◌, ◌∷◌, ◌≡◌, ◌⊎◌,
}
use auth_claw.Result.{Fault, Result, ok, raised}

-- A run that returns a state has added one audit block, that of the state. One that raises has added
-- none, or it ends with one that was committed before its hashes were written or read back.
abbrev pub AuditedOnce : Env → Trace → Result AuthState × Trace → Type 0
AuditedOnce env t (ok r, t') =
    (before : Trace) × (after : Trace) × (t'
      ≡ t ++ (before ++ audit_block (audit_block_of r) ∷ after))
    × All IsNotAudit before
    × All IsNotAudit after
AuditedOnce env t (raised e, t') =
    ((es : Trace) × (t' ≡ t ++ es) × All IsNotAudit es)
    ⊎ ((env.read_back ≡ read_fails e)
        × ((before : Trace) × (s : AuthState) × (t'
              ≡ t ++ (before ++ audit_block (audit_block_of s) ∷ []))
            × All IsNotAudit before))

joined_before :
    (t t' u es before stored : Trace)
    → t' ≡ t ++ es
    → u ≡ t' ++ (before ++ stored)
    → u ≡ t ++ ((es ++ before) ++ stored)
joined_before t t' u es before stored e eq =
    eq
    ∙ (ap (λ l. l ++ (before ++ stored)) e
        ∙ (append_assoc t es (before ++ stored)
            ∙ ap (λ l. t ++ l) (sym (append_assoc es before stored))))

later :
    (env : Env) (t t' es : Trace) (o : Result AuthState × Trace)
    → t' ≡ t ++ es
    → All IsNotAudit es
    → AuditedOnce env t' o
    → AuditedOnce env t o
later env t t' es (ok r, u) e every (before, after, eq, h, k) = (
  es ++ before,
  after,
  joined_before t t' u es before _ e eq,
  All-append IsNotAudit es before every h,
  k,
)
later env t t' es (raised x, u) e every (inl (fs, eq, h)) = inl (
  es ++ fs,
  eq ∙ (ap (λ l. l ++ fs) e ∙ append_assoc t es fs),
  All-append IsNotAudit es fs every h,
)
later env t t' es (raised x, u) e every (inr (fails, (before, s, eq, h))) = inr (
  fails,
  (es ++ before, s, joined_before t t' u es before _ e eq, All-append IsNotAudit es before every h),
)

continued :
    {A : Type 0} (env : Env) (r : Result A) (f : A → Run AuthState) (t : Trace)
    → ((a : A) → AuditedOnce env t (f a t))
    → AuditedOnce env t (continue_run r f t)
continued env (ok a) f t h = h a
continued env (raised e) f t h = inl ([], sym (append-nil t), tt)

AuditedOnce-bind :
    {A : Type 0} {Q : A → Type 0} (env : Env) (m : Run A) (f : A → Run AuthState)
    → Guarantees m IsNotAudit Q
    → ((a : A) (t : Trace) → AuditedOnce env t (f a t))
    → (t : Trace) → AuditedOnce env t ((m >>= f) t)
AuditedOnce-bind env m f h k t =
    let (es, e, every, q) = h t in
    later env t (m t).1 es ((m >>= f) t) e every
      (continued env (m t).0 f (m t).1 (λ a. k a (m t).1))

four_emitted :
    (t : Trace) (a b c d : Event)
    → (((t ++ a ∷ []) ++ b ∷ []) ++ c ∷ []) ++ d ∷ [] ≡ t ++ (a ∷ b ∷ c ∷ d ∷ [])
four_emitted [] a b c d = refl
four_emitted (x ∷ t) a b c d = ap (λ l. x ∷ l) (four_emitted t a b c d)

audit_record-AuditedOnce :
    (env : Env) (record_id : ℕ) (fails : Option Fault) (read : ReadBack) (s : AuthState) (t : Trace)
    → env.read_back ≡ read
    → AuditedOnce env t (audit_record record_id fails read s t)
unfolding audit_record audit_block_of log_stored
audit_record-AuditedOnce env record_id (some e) read s t h = inl ([], sym (append-nil t), tt)
audit_record-AuditedOnce env record_id none row_found s t h = (
  [],
  agent_event "Audit Agent" "AUDIT_RECORD_STORED"
      ∷ agent_event "Audit Agent" "LEDGER_HASH_GENERATED"
      ∷ agent_event "Audit Agent" "CHAIN_VERIFICATION_COMPLETE"
      ∷ [],
  four_emitted t _ _ _ _,
  tt,
  (tt, (tt, (tt, tt))),
)
audit_record-AuditedOnce env record_id none row_missing s t h = ([], [], refl, tt, tt)
audit_record-AuditedOnce env record_id none (read_fails e) s t h = inr (h, ([], s, refl, tt))

audit_node-AuditedOnce :
    (env : Env) (s : AuthState) (t : Trace) → AuditedOnce env t (audit_node env s t)
unfolding audit_node
audit_node-AuditedOnce env s t =
    audit_record-AuditedOnce env env.new_record_id env.audit_fails env.read_back s t refl

-- Every run of the workflow that returns a state has added exactly one audit block, which is that of
-- the returned state. A run that raises has added none; or, only where the audit raises that same
-- exception after its INSERT is committed, exactly one, and nothing after it.
pub invoke-AuditedOnce :
    (env : Env) (carry : AuthState → AuthState) (s : AuthState) (t : Trace)
    → AuditedOnce env t (invoke env carry s t)
unfolding invoke
invoke-AuditedOnce env carry s =
    AuditedOnce-bind env (orchestrator_node (carry s)) _
      (unaudited _ (orchestrator_node-SameRequest (carry s)))
      (λ a.
        AuditedOnce-bind env (redact_node env (carry a)) _
          (unaudited _ (redact_node-IsRedacted env (carry a)))
          (λ b.
            AuditedOnce-bind env (policy_node env (carry b)) _
              (unaudited _ (policy_node-logs env (carry b)))
              (λ c.
                AuditedOnce-bind env
                  (after_policy env carry (carry c) (route_after_policy (carry c)))
                  (λ d. audit_node env (carry d))
                  (after_policy-Unaudited env carry (carry c) (route_after_policy (carry c)))
                  (λ d. audit_node-AuditedOnce env (carry d)))))

-- ===== src/Gateway/Checked.antt =====
-- nodes/response_checks_node.py: the texts that leave the workflow.
use auth_claw.Gateway.Effects.{Event, Run, agent_event, from_assistant, lift, message_added, ◌>>◌}
use auth_claw.Gateway.Env.{Env, LegacyProvider}
use auth_claw.Gateway.Graph.{answer}
use auth_claw.Gateway.Guarantee.{
  Any, Guarantees, Guarantees-bind, Guarantees-done, Guarantees-emit, Guarantees-if,
  Guarantees-lift, Guarantees-raise_some,
}
use auth_claw.Gateway.Provider.{
  build_prompt, call_legacy, call_provider, finish_call, legacy_selection, llm_node,
  provider_router_node, rag_node,
}
use auth_claw.Gateway.Response.{log_output_findings, response_checks_node}
use auth_claw.Gateway.State.{
  AuthState, KeepsDeclared, Selection, Trigger, allowed_of, is_pending, tenant_of, username_of,
}
use auth_claw.Policy.Category.{get_or}
use auth_claw.Prelude.{
  List, Option, String, Text, [], ap, none, not, refl, some, ℕ, ◌||◌, ◌∙◌, ◌∷◌, ◌≡◌,
}
use auth_claw.Result.{Result, ok, raised}

-- The text is an output of `sanitize_output` for the tenant.
abbrev pub IsChecked : Env → ℕ → Text → Type 0
IsChecked env tenant_id m = (x : Text) × (u : Text) × (m ≡ (env.redact_rich x u tenant_id).0)

-- An answer is stored in the chat history only if it is checked.
abbrev pub StoresChecked : Env → ℕ → Event → Type 0
StoresChecked env tenant_id (message_added s from_assistant m) = IsChecked env tenant_id m
StoresChecked env tenant_id _ = Unit

abbrev OfTenant : ℕ → AuthState → Type 0
OfTenant n s = tenant_of s ≡ n

module _ (env : Env) (n : ℕ) where
  abbrev Holds : Run AuthState → Type 0
  Holds m = Guarantees m (StoresChecked env n) (OfTenant n)

  router-Holds : (s : AuthState) → OfTenant n s → Holds (provider_router_node env s)
  unfolding provider_router_node
  router-Holds s h =
      Guarantees-if (not (allowed_of s) || is_pending s.approval_status) _ _
        (λ e. Guarantees-done _ h)
        (λ e.
          Guarantees-bind {Q = Any} (lift (env.select_provider (tenant_of s))) _
            (Guarantees-lift _ (λ a k. tt)) (λ a k. Guarantees-emit _ _ tt (Guarantees-done _ h)))

  rag_node-Holds : (s : AuthState) → OfTenant n s → Holds (rag_node env s)
  unfolding rag_node
  rag_node-Holds s h = Guarantees-done _ h

  finish_call-Holds : (s : AuthState) (r : Result Text) → OfTenant n s → Holds (finish_call s r)
  unfolding finish_call
  finish_call-Holds s (ok a) h = Guarantees-emit _ _ tt (Guarantees-done _ h)
  finish_call-Holds s (raised e) h = Guarantees-emit _ _ tt (Guarantees-done _ h)

  call_legacy-Holds :
      (s : AuthState) (prompt : Text) (o : Result LegacyProvider)
      → OfTenant n s
      → Holds (call_legacy env s prompt o)
  unfolding call_legacy
  call_legacy-Holds s prompt (raised e) h = finish_call-Holds s (raised e) h
  call_legacy-Holds s prompt (ok p) h = Guarantees-emit _ _ tt (
      Guarantees-emit _ _ tt
        (finish_call-Holds (record s { selection = some (legacy_selection p) }) _ h))

  call_provider-Holds :
      (s : AuthState) (prompt : Text) (o : Option Selection)
      → OfTenant n s
      → Holds (call_provider env s prompt o)
  unfolding call_provider
  call_provider-Holds s prompt none h = call_legacy-Holds s prompt env.legacy_provider h
  call_provider-Holds s prompt (some selection) h =
      Guarantees-emit _ _ tt (Guarantees-emit _ _ tt (finish_call-Holds s _ h))

  llm_node-Holds : (s : AuthState) → OfTenant n s → Holds (llm_node env s)
  unfolding llm_node
  llm_node-Holds s h =
      Guarantees-if (is_pending s.approval_status) _ _ (λ e. Guarantees-done _ h)
        (λ e.
          Guarantees-if (not (allowed_of s)) _ _ (λ k. Guarantees-done _ h)
            (λ k t. call_provider-Holds s (build_prompt env t s) s.selection h t))

abbrev pub HasCheckedResponse : Env → ℕ → AuthState → Type 0
HasCheckedResponse env n s = (m : Text) × (s.response ≡ some m) × IsChecked env n m

log_output_findings-Holds :
    {E : Event → Type 0} {Q : AuthState → Type 0} (ts : List Trigger) (m : Run AuthState)
    → ((a k : String) → E (agent_event a k))
    → Guarantees m E Q
    → Guarantees (log_output_findings ts >> m) E Q
unfolding log_output_findings
log_output_findings-Holds [] m l h = Guarantees-emit _ _ (l _ _) h
log_output_findings-Holds (x ∷ ts) m l h = Guarantees-emit _ _ (l _ _) h

response_checks_node-checked :
    (env : Env) (n : ℕ) (s : AuthState)
    → OfTenant n s
    → Guarantees (response_checks_node env s) (StoresChecked env n) (HasCheckedResponse env n)
unfolding response_checks_node
response_checks_node-checked env n s h =
    let x = get_or s.response [] in
    let (checked, triggers) = env.redact_rich x (username_of s) (tenant_of s) in
    let is : IsChecked env n (env.redact_rich x (username_of s) (tenant_of s)).0 =
      (x, username_of s, ap (λ k. (env.redact_rich x (username_of s) k).0) h) in
    Guarantees-emit _ _ tt (
      Guarantees-emit _ _ tt (
        Guarantees-raise_some _ _ (
          log_output_findings-Holds (env.redact_rich x (username_of s) (tenant_of s)).1 _
            (λ a k. tt) (Guarantees-emit _ _ is (Guarantees-done _ (_, refl, is))))))

-- From the provider router on, every answer that the run stores in the chat history is an output
-- of the redaction for the request's tenant, and so is the response of the state that the run
-- returns, if it returns one; this holds whatever the provider answers.
pub answer-checked :
    (env : Env) (carry : AuthState → AuthState)
    → KeepsDeclared carry
    → (s : AuthState)
    → Guarantees
        (answer env carry s)
        (StoresChecked env (tenant_of s))
        (HasCheckedResponse env (tenant_of s))
unfolding answer
answer-checked env carry keeps s =
    let n = tenant_of s in
    let kept : (a : AuthState) → OfTenant n a → OfTenant n (carry a) =
      λ a h. ap (λ o. get_or o 1) (keeps.tenant_id a) ∙ h in
    Guarantees-bind (provider_router_node env s) _ (router-Holds env n s refl) (λ a h.
      Guarantees-bind (rag_node env (carry a)) _ (rag_node-Holds env n (carry a) (kept a h)) (λ b h.
        Guarantees-bind (llm_node env (carry b)) _ (llm_node-Holds env n (carry b) (kept b h))
          (λ c h. response_checks_node-checked env n (carry c) (kept c h))))

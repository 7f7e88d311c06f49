-- ===== src/Gateway/Provider.antt =====
-- nodes/provider_router_node.py, nodes/rag_node.py with retriever.py, and nodes/llm_node.py. The
-- choice of a provider and the provider itself are functions of `Env`.
use auth_claw.Gateway.Effects.{
  Run, Trace, done, emit, lift, log_agent_event, provider_called, ◌>>=◌, ◌>>◌,
}
use auth_claw.Gateway.Env.{Env, HistoryMessage, LegacyProvider}
use auth_claw.Gateway.State.{AuthState, Selection, allowed_of, is_pending, session_of, tenant_of}
use auth_claw.Policy.Category.{get_or}
use auth_claw.Prelude.{
  List, Option, Text, [], codes, contains, if◌then◌else◌, lower, none, not, some, suc, text_eq,
  zero, ℕ, ◌++◌, ◌==◌, ◌||◌, ◌∷◌,
}
use auth_claw.Result.{Result, ok, raised}

unfoldable pub provider_router_node : Env → AuthState → Run AuthState
provider_router_node env s =
    if not (allowed_of s) || is_pending s.approval_status then done s else (do
      selection ← lift (env.select_provider (tenant_of s))
      log_agent_event "Provider Router" "PROVIDER_ROUTE_SELECTED"
      done (record s { selection = some selection }))

-- docs.split("\n")
lines_from : Text → Text → List Text
lines_from cur [] = cur ∷ []
lines_from cur (c ∷ s) =
    let closed = lines_from [] s in
    let longer = lines_from (cur ++ c ∷ []) s in if c == 10 then cur ∷ closed else longer

take : ℕ → List Text → List Text
take zero ts = []
take (suc n) [] = []
take (suc n) (t ∷ ts) = t ∷ take n ts

-- "\n".join(…)
join_lines : List Text → Text
join_lines [] = []
join_lines (t ∷ []) = t
join_lines (t ∷ u ∷ ts) = t ++ 10 ∷ join_lines (u ∷ ts)

-- From the first line that holds the query, five lines.
five_from : Text → List Text → Text
unfolding contains lower take join_lines
five_from query [] = []
five_from query (t ∷ ts) =
    let later = five_from query ts in
    if contains (lower t) query then join_lines (take 5 (t ∷ ts)) else later

unfoldable pub retrieve_context : Text → Text → Text
unfolding five_from lines_from lower
retrieve_context docs query = five_from (lower query) (lines_from [] docs)

unfoldable pub rag_node : Env → AuthState → Run AuthState
unfolding retrieve_context
rag_node env s = done (record s { context = some (retrieve_context env.docs s.message) })

-- What a message without content shows.
content_of : HistoryMessage → Text
unfolding codes text_eq
content_of m = elim m.content [
  | some content ↦ content
  | none ↦
      if text_eq (get_or m.role (codes "user")) (codes "blocked")
      then codes "[Blocked: " ++ get_or m.category (codes "policy_violation") ++ codes "]"
      else (elim m.approval_id [
        | none ↦ []
        | some held ↦
            if text_eq (get_or m.role (codes "user")) (codes "system")
            then codes "[Pending Approval: " ++ held ++ codes "]"
            else []
      ])
]

history_text : List HistoryMessage → Text
unfolding content_of codes
history_text [] = []
history_text (m ∷ ms) =
    get_or m.role (codes "user") ++ codes ": " ++ content_of m ++ 10 ∷ history_text ms

unfoldable pub build_prompt : Env → Trace → AuthState → Text
unfolding history_text session_of codes
build_prompt env t s =
    codes "\nYou are a compliance assistant.\n\nConversation History:\n"
    ++ (history_text (env.get_history t (session_of s))
        ++ (codes "\n\nCompliance Context:\n"
            ++ (get_or s.context []
                ++ (codes "\n\nUser Question:\n" ++ (s.message ++ codes "\n")))))

unfoldable pub offline_fallback : Text
unfolding codes
offline_fallback =
    codes "[Offline Fallback] The configured model provider is currently unavailable. "
    ++ (codes "AuthClaw completed the gateway security, policy, and audit checks, but the "
        ++ (codes "upstream LLM call could not be completed. Check the Providers page, API "
            ++ codes "credentials, and outbound network access, then try again."))

unfoldable pub current_trace : Run Trace
current_trace t = (ok t, t)

-- The answer of the provider, or of the fallback where it raises or is late.
unfoldable pub finish_call : AuthState → Result Text → Run AuthState
unfolding offline_fallback codes
finish_call s (ok reply) = do
  log_agent_event "LLM Provider" "PROVIDER_RESPONSE_RECEIVED"
  done (record s { response = some reply })
finish_call s (raised e) = do
  log_agent_event "LLM Provider" "PROVIDER_FAILOVER"
  done (record s {
    response = some offline_fallback;
    provider_status = some (codes "offline_fallback");
  })

unfoldable pub legacy_selection : LegacyProvider → Selection
unfolding codes
legacy_selection p = record {
  provider_client = p.client;
  provider_name = p.class_name;
  model = p.model_name;
  route_id = none;
  source = codes "legacy_provider_fallback";
}

-- Without a provider in the state, `_resolve_provider` takes that of `get_provider`.
unfoldable pub call_legacy : Env → AuthState → Text → Result LegacyProvider → Run AuthState
unfolding finish_call legacy_selection
call_legacy env s prompt (raised e) = finish_call s (raised e)
call_legacy env s prompt (ok p) = do
  log_agent_event "LLM Provider" "ROUTE_SELECTED"
  emit (provider_called p.client prompt)
  finish_call (record s { selection = some (legacy_selection p) }) (env.generate p.client prompt)

unfoldable pub call_provider : Env → AuthState → Text → Option Selection → Run AuthState
unfolding finish_call call_legacy
call_provider env s prompt none = call_legacy env s prompt env.legacy_provider
call_provider env s prompt (some selection) = do
  log_agent_event "LLM Provider" "ROUTE_SELECTED"
  emit (provider_called selection.provider_client prompt)
  finish_call s (env.generate selection.provider_client prompt)

-- `state["allowed"]`: policy_node has set the key.
unfoldable pub llm_node : Env → AuthState → Run AuthState
unfolding current_trace call_provider build_prompt codes
llm_node env s =
    if is_pending s.approval_status
    then done s
    else if not (allowed_of s)
    then done (record s { response = some (codes "Policy Violation") })
    else (do t ← current_trace; call_provider env s (build_prompt env t s) s.selection)

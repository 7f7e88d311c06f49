-- ===== src/Lib.antt =====
-- AuthClaw: a gateway that governs requests to language models. A request passes a workflow of
-- nodes (redaction, policy, risk, decision, approval, provider, output checks, audit).
--
-- Result models what a Python call answers: a value or the exception that it raises.
-- Prelude has the shared helpers: Boolean tests on numbers, lists, and text as lists of code
-- points with Python's lower, strip, replace and `in`.
--
-- Policy is services/policy_engine.py. Policy/Json: the values of a policy's rules;
-- Policy/Action, Category, Patterns, Findings: the helpers of PolicyEngine and its tables;
-- Policy/Engine: `evaluate`; Policy/Loading: `load_policies`; Policy/Lifecycle:
-- `validate_policy_rules_for_lifecycle`. The detector of sensitive data and Python's JSON parser
-- are parameters.
--
-- Gateway is graph.py with nodes/ and the agents of services/ that the nodes call.
-- Gateway/State: the dict AuthState; a key that is missing is `none`. Gateway/Effects: what a run
-- writes outside the state, as a sequence of events, and runs that may raise. Gateway/Env: what
-- the workflow calls as arguments: redaction, the detector, the choice of a provider, the provider,
-- the chat history, how timed calls end, and where the redaction and the storing of an audit block
-- raise. The detector, the tables of policies, the documents and the history are taken to answer. Gateway/Graph: the edges of
-- the workflow; what the graph's runtime does to the state between two nodes is a parameter of
-- which only `KeepsDeclared` is assumed, that the keys declared in state.py are kept.
--
-- Audit is the hash chain of verify_audit.py. Audit/Chain: `create_audit_block` and
-- `verify_audit_chain` over the rows of audit_logs, in any order, sorted by their ids where the
-- queries sort them; a call is its two transactions, the INSERT and the UPDATE, with no other call
-- between them. SHA-256 of a record's JSON text is the parameter `Digest`.
--
-- Approvals is approval_store.py with the endpoints of main.py for one approval. Approvals/State:
-- the record, its copy in memory and its row; Approvals/Mfa: TOTP codes, where the HMAC, the secrets
-- and the binding hash are fields of `Config`; Approvals/Handlers: approve and reject;
-- Approvals/Execute: execute and test/expire.
--
-- RateLimit is the counter of requests per tenant and minute of main.py, with what Redis does as an
-- argument.
--
-- Rbac is services/rbac_matrix.py. Rbac/Glob: `fnmatch` for patterns whose only special character is
-- `*`; Rbac/Roles, Rules: the tables; Rbac/Paths: the path templates; Rbac/Access: the decision on a
-- request.
--
-- Redaction is redaction.py. Redaction/Apply: `apply_redaction`; Redaction/Matches: what `finditer`
-- and `sub` give, where the engine of regular expressions is the parameter `Finder`; Redaction/Scan,
-- Compliance, Rich: `redact_sensitive_data_rich`; Redaction/Stream: the streaming redaction, of which
-- async_stream_redact_sensitive_tokens is a copy. The redactor of a stream's buffer and the HMAC of a
-- value are parameters. `redact_sensitive_data_rich` is modelled where its salt is configured and its
-- log file can be written; what it raises otherwise is `redact_fails` of Gateway/Env.
--
-- Detector is services/sensitive_data_detection.py. Detector/State: the findings; Detector/Dedupe:
-- `_dedupe`; Detector/Masks, Redact: what replaces a finding and the loop over the findings. The
-- findings of the regular expressions and of Presidio are an argument; their confidence counts in
-- ten-thousandths.
--
-- Opa is policy.py. Opa/Answer: `_normalize_opa_result`, where the empty dict is `none`;
-- Opa/Evaluate: `evaluate_opa_policy` with `_opa_disabled_until` as its state; what the request to the
-- agent comes to is an argument `Reply`, where an HTTPException of http.client, which the code does
-- not catch, is left out; Opa/Calls, Tables, Enforce: the checks on a text, for an
-- answer of the agent and a result of `PolicyEngine.evaluate`.
--
-- Service is services/gateway_service.py: Service/Rows, Runs: `execute_chat` and `execute_approval`,
-- which answer with the rows that they register; Service/Format: `format_chat_response`. The tenant of an
-- API key and the payload of a token are functions of `Gateway`.
--
-- Router is services/provider_router.py with the names of providers of services/secret_manager.py.
-- Router/State: the rows, with a payload after its aliases are read; Router/Select: `select`; the
-- decryption of a row, the environment's credential, GOOGLE_API_KEY and the fallbacks are fields of
-- `Tables`.
--
-- The components meet where the workflow stores an audit block (Gateway/Response, which calls
-- `create_audit_block` as an event) and where it asks for an approval (Gateway/Approval, whose event
-- `approval_created` is `create_approval`). Service runs the workflow of Gateway; Opa judges by the
-- result of Policy/Engine; Redaction/Rich starts from what Detector/Redact answers.
--
-- Every loop of the source runs over a list; only the printing of a number in Policy/Json has fuel,
-- one more than the number, which falls tenfold at each round. Not modelled are SQL and
-- HTTP, files, threads beyond the outcome of a timed call, several processes, printing, and the
-- passing of time within a request.
pub mod Prelude
pub mod Result
pub mod Policy
pub mod Gateway
pub mod Audit
pub mod Approvals
pub mod RateLimit
pub mod Rbac
pub mod Redaction
pub mod Detector
pub mod Opa
pub mod Service
pub mod Router

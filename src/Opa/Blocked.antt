-- ===== src/Opa/Blocked.antt =====
-- Which texts `enforce_policy` blocks.
use auth_claw.Opa.Answer.{OpaResult}
use auth_claw.Opa.Enforce.{
  Enforced, clean, enforce_policy, enforced_or, engine_refusal, let_through, match_patterns,
  opa_refusal, or_next, pattern_key, refusal_for, scan,
}
use auth_claw.Opa.Tables.{
  bypass_patterns, bypass_phrases, exfiltration_patterns, injection_patterns, injection_phrases,
}
use auth_claw.Policy.Action.{Action, allow, block, redact, require_approval}
use auth_claw.Policy.Engine.{PolicyEvaluationResult}
use auth_claw.Prelude.{
  Bool, Bool-cases, List, Option, Text, [], any, arith, codes, contains, false, inl, inr, none, not,
  refl, some, true, ◌||◌, ◌∙◌, ◌∷◌, ◌≡◌,
}
use auth_claw.Result.{Result, ok, raised}

-- The answer blocks.
abbrev pub blocks : Option Enforced → Bool
blocks none = false
blocks (some e) = e.is_blocked

-- The agent answers that the text is not allowed.
abbrev pub opa_denies : Option OpaResult → Bool
opa_denies none = false
opa_denies (some r) = not r.allowed

abbrev is_block : Action → Bool
is_block block = true
is_block _ = false

-- The engine answers BLOCK.
abbrev pub engine_blocks : Result PolicyEvaluationResult → Bool
engine_blocks (raised fault) = false
engine_blocks (ok result) = is_block result.action

-- A pattern without its signs, or a phrase as it is, occurs in the cleaned text.
unfoldable pub has_pattern : Text → Bool
has_pattern cleaned =
    any (λ p. contains cleaned (pattern_key p)) injection_patterns
    || (any (λ p. contains cleaned (pattern_key p)) bypass_patterns
        || (any (λ p. contains cleaned (pattern_key p)) exfiltration_patterns
            || (any (contains cleaned) injection_phrases || any (contains cleaned) bypass_phrases)))

scan-blocks :
    (key : Text → Text) (about category : Text) (ps : List Text) (cleaned : Text)
    → blocks (scan key about category ps cleaned) ≡ any (λ p. contains cleaned (key p)) ps
unfolding scan
scan-blocks key about category [] cleaned = refl
scan-blocks key about category (p ∷ ps) cleaned =
    let ih = scan-blocks key about category ps cleaned in
    elim (Bool-cases (contains cleaned (key p))) [ inl e ↦ rw e refl | inr e ↦ rw e ih ]

AllBlock : Option Enforced → Type 0
AllBlock none = Unit
AllBlock (some e) = e.is_blocked ≡ true

or_next-blocks :
    (a b : Option Enforced) (p q : Bool)
    → AllBlock a
    → blocks a ≡ p
    → blocks b ≡ q
    → blocks (or_next a b) ≡ (p || q)
unfolding AllBlock
or_next-blocks none b p q h e k = ground (arith, e, k)
or_next-blocks (some a) b p q h e k = ground (arith, h, e)

or_next-AllBlock : (a b : Option Enforced) → AllBlock a → AllBlock b → AllBlock (or_next a b)
unfolding AllBlock
or_next-AllBlock none b h k = k
or_next-AllBlock (some a) b h k = h

scan-AllBlock :
    (key : Text → Text) (about category : Text) (ps : List Text) (cleaned : Text)
    → AllBlock (scan key about category ps cleaned)
unfolding scan AllBlock
scan-AllBlock key about category [] cleaned = tt
scan-AllBlock key about category (p ∷ ps) cleaned = elim (Bool-cases (contains cleaned (key p))) [
  | inl e ↦ rw e refl
  | inr e ↦ rw e (scan-AllBlock key about category ps cleaned)
]

-- A table before others.
scan_or-blocks :
    (key : Text → Text) (about category : Text) (ps : List Text) (cleaned : Text)
    (rest : Option Enforced) (q : Bool)
    → blocks rest ≡ q
    → blocks (or_next (scan key about category ps cleaned) rest)
      ≡ (any (λ p. contains cleaned (key p)) ps || q)
scan_or-blocks key about category ps cleaned rest q h =
    or_next-blocks (scan key about category ps cleaned) rest
      (any (λ p. contains cleaned (key p)) ps) q (scan-AllBlock key about category ps cleaned)
      (scan-blocks key about category ps cleaned) h

match_patterns-blocks : (cleaned : Text) → blocks (match_patterns cleaned) ≡ has_pattern cleaned
unfolding match_patterns has_pattern
match_patterns-blocks cleaned =
    let m = codes "Policy violation: matched pattern " in
    let i = codes "Policy violation: prompt injection pattern " in
    let b = codes "Policy violation: security bypass pattern " in
    let injection = codes "prompt_injection" in
    let bypass = codes "security_bypass" in
    let leak = codes "data_exfiltration" in
    scan_or-blocks pattern_key m injection injection_patterns cleaned _ _ (
      scan_or-blocks pattern_key m bypass bypass_patterns cleaned _ _ (
        scan_or-blocks pattern_key m leak exfiltration_patterns cleaned _ _ (
          scan_or-blocks (λ p. p) i injection injection_phrases cleaned _ _
            (scan-blocks (λ p. p) b bypass bypass_phrases cleaned))))

opa_refusal-blocks : (opa : Option OpaResult) → blocks (opa_refusal opa) ≡ opa_denies opa
unfolding opa_refusal
opa_refusal-blocks none = refl
opa_refusal-blocks (some r) = elim (Bool-cases r.allowed) [ inl e ↦ rw e refl | inr e ↦ rw e refl ]

opa_refusal-AllBlock : (opa : Option OpaResult) → AllBlock (opa_refusal opa)
unfolding opa_refusal AllBlock
opa_refusal-AllBlock none = tt
opa_refusal-AllBlock (some r) = elim (Bool-cases r.allowed) [ inl e ↦ rw e tt | inr e ↦ rw e refl ]

refusal_for-blocks :
    (a : Action) (result : PolicyEvaluationResult) → blocks (refusal_for a result) ≡ is_block a
refusal_for-blocks block result = refl
refusal_for-blocks allow result = refl
refusal_for-blocks redact result = refl
refusal_for-blocks require_approval result = refl

refusal_for-AllBlock :
    (a : Action) (result : PolicyEvaluationResult) → AllBlock (refusal_for a result)
unfolding AllBlock
refusal_for-AllBlock block result = refl
refusal_for-AllBlock allow result = tt
refusal_for-AllBlock redact result = tt
refusal_for-AllBlock require_approval result = tt

engine_refusal-blocks :
    (engine : Result PolicyEvaluationResult) → blocks (engine_refusal engine) ≡ engine_blocks engine
unfolding engine_refusal
engine_refusal-blocks (raised fault) = refl
engine_refusal-blocks (ok result) = refusal_for-blocks result.action result

engine_refusal-AllBlock :
    (engine : Result PolicyEvaluationResult) → AllBlock (engine_refusal engine)
unfolding engine_refusal AllBlock
engine_refusal-AllBlock (raised fault) = tt
engine_refusal-AllBlock (ok result) = refusal_for-AllBlock result.action result

enforced_or-blocks : (o : Option Enforced) → (enforced_or o let_through).is_blocked ≡ blocks o
enforced_or-blocks none = refl
enforced_or-blocks (some e) = refl

-- A text is blocked exactly when the agent answers that it is not allowed, or the engine answers
-- BLOCK, or a pattern or a phrase of the five tables occurs in the cleaned text; an engine that raises
-- and an agent that allows the text do not stop the tables from being read.
pub enforce_policy-blocks :
    (opa : Option OpaResult) (engine : Result PolicyEvaluationResult) (text : Text)
    → (enforce_policy opa engine text).is_blocked
      ≡ (opa_denies opa || (engine_blocks engine || has_pattern (clean text)))
unfolding enforce_policy
enforce_policy-blocks opa engine text =
    let tables = match_patterns (clean text) in
    enforced_or-blocks (or_next (opa_refusal opa) (or_next (engine_refusal engine) tables))
    ∙ or_next-blocks (opa_refusal opa) (or_next (engine_refusal engine) tables) (opa_denies opa)
        (engine_blocks engine || has_pattern (clean text)) (opa_refusal-AllBlock opa)
        (opa_refusal-blocks opa)
        (or_next-blocks (engine_refusal engine) tables (engine_blocks engine)
          (has_pattern (clean text)) (engine_refusal-AllBlock engine) (engine_refusal-blocks engine)
          (match_patterns-blocks (clean text)))

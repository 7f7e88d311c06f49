-- ===== src/Opa/Enforce.antt =====
-- `enforce_policy` of policy.py, for an answer of `evaluate_opa_policy` and a result of
-- PolicyEngine().evaluate, which may raise. The regular expressions are read for ASCII text.
use auth_claw.Opa.Answer.{OpaResult}
use auth_claw.Opa.Tables.{
  bypass_patterns, bypass_phrases, exfiltration_patterns, injection_patterns, injection_phrases,
}
use auth_claw.Policy.Action.{Action, block}
use auth_claw.Policy.Engine.{PolicyEvaluationResult}
use auth_claw.Policy.Json.{Json, str}
use auth_claw.Prelude.{
  Bool, List, Option, Text, [], codes, contains, false, if◌then◌else◌, is_space, keep, leb, lower,
  none, not, some, strip, true, ℕ, ◌&&◌, ◌++◌, ◌==◌, ◌||◌, ◌∷◌,
}
use auth_claw.Result.{Result, ok, raised}

abbrev is_word : ℕ → Bool
is_word c =
    leb 48 c && leb c 57 || leb 65 c && leb c 90 || leb 97 c && leb c 122 || c == 95 || leb 128 c

-- re.sub(r'[^\w\s]', '', s)
unfoldable pub strip_signs : Text → Text
strip_signs s = keep (λ c. is_word c || is_space c) s

-- re.sub(r'\s+', ' ', s); the Boolean tells that a space stands before.
unfoldable pub squeeze : Bool → Text → Text
squeeze after [] = []
squeeze after (c ∷ s) =
    let rest = squeeze (is_space c) s in
    if is_space c && after then rest else (if is_space c then 32 else c) ∷ rest

unfoldable pub clean : Text → Text
unfolding strip_signs squeeze lower strip
clean text = strip (squeeze false (strip_signs (lower text)))

pub record Enforced : Type 0 where
  pub is_blocked : Bool
  pub reason : Json
  pub category : Json

-- for p in patterns: if key(p) in cleaned: return True, f"…'{p}'", category
unfoldable pub scan : (Text → Text) → Text → Text → List Text → Text → Option Enforced
unfolding contains codes
scan key about category [] cleaned = none
scan key about category (p ∷ ps) cleaned =
    let rest = scan key about category ps cleaned in
    if contains cleaned (key p)
    then some (record {
      is_blocked = true;
      reason = str (about ++ codes "'" ++ p ++ codes "'");
      category = str category;
    })
    else rest

-- re.sub(r'[^\w\s]', '', p).lower()
unfoldable pub pattern_key : Text → Text
unfolding strip_signs lower
pattern_key p = lower (strip_signs p)

abbrev phrase_key : Text → Text
phrase_key p = p

-- The first of two answers.
abbrev pub or_next {ℓ} : {A : Type ℓ} → Option A → Option A → Option A
or_next none b = b
or_next (some a) b = some a

unfoldable pub match_patterns : Text → Option Enforced
unfolding scan pattern_key injection_patterns bypass_patterns exfiltration_patterns
    injection_phrases bypass_phrases codes
match_patterns cleaned =
    let matched = codes "Policy violation: matched pattern " in
    or_next (scan pattern_key matched (codes "prompt_injection") injection_patterns cleaned) (
      or_next (scan pattern_key matched (codes "security_bypass") bypass_patterns cleaned) (
        or_next (scan pattern_key matched (codes "data_exfiltration") exfiltration_patterns cleaned)
          (or_next
            (scan phrase_key (codes "Policy violation: prompt injection pattern ")
              (codes "prompt_injection") injection_phrases cleaned)
            (scan phrase_key (codes "Policy violation: security bypass pattern ")
              (codes "security_bypass") bypass_phrases cleaned))))

abbrev pub let_through : Enforced
let_through = record { is_blocked = false; reason = str []; category = str [] }

abbrev pub enforced_or : Option Enforced → Enforced → Enforced
enforced_or none e = e
enforced_or (some d) e = d

-- triggered_categories[0].lower(), or "policy"
unfoldable pub engine_category : List Text → Text
unfolding lower codes
engine_category [] = codes "policy"
engine_category (c ∷ cs) = lower c

-- The answer of the agent where it refuses.
unfoldable pub opa_refusal : Option OpaResult → Option Enforced
opa_refusal none = none
opa_refusal (some r) =
    if not r.allowed
    then some (record { is_blocked = true; reason = r.reason; category = r.category })
    else none

abbrev pub refusal_for : Action → PolicyEvaluationResult → Option Enforced
refusal_for block result = some (record {
  is_blocked = true;
  reason = str result.reason;
  category = str (engine_category result.triggered_categories);
})
refusal_for _ result = none

-- The answer of the engine where it blocks; an exception is logged.
unfoldable pub engine_refusal : Result PolicyEvaluationResult → Option Enforced
unfolding engine_category
engine_refusal (raised fault) = none
engine_refusal (ok result) = refusal_for result.action result

unfoldable pub enforce_policy : Option OpaResult → Result PolicyEvaluationResult → Text → Enforced
unfolding opa_refusal engine_refusal match_patterns clean
enforce_policy opa engine text =
    enforced_or
      (or_next (opa_refusal opa) (or_next (engine_refusal engine) (match_patterns (clean text))))
      let_through

-- ===== src/Approvals/Mfa.antt =====
-- `verify_totp_token_with_counter` and `_verify_approval_stage_mfa` of main.py. The HMAC of a
-- counter, and the hash that binds a code to an approval, are functions of `Config`.
use auth_claw.Approvals.State.{ApprovalRecord, Config, UserPayload}
use auth_claw.Policy.Loading.{text_or}
use auth_claw.Prelude.{
  Bool, List, Option, Text, [], all, codes, false, if◌then◌else◌, is_empty, leb, length, none, not,
  some, strip, text_eq, true, ℕ, ◌&&◌, ◌+◌, ◌-◌, ◌/◌, ◌==◌, ◌||◌, ◌∷◌,
}

is_digit : ℕ → Bool
is_digit c = leb 48 c && leb c 57

-- token.isdigit() and len(token) == 6, for a token that HMAC can give
unfoldable pub is_six_digits : Text → Bool
unfolding is_digit
is_six_digits token = all is_digit token && length token == 6

abbrev pub matches : Option Text → Text → Bool
matches none token = false
matches (some t) token = text_eq t token

-- The first of the counters whose token is the given one.
unfoldable pub first_counter : (ℕ → Option Text) → Text → List ℕ → Option ℕ
unfolding text_eq
first_counter hotp token [] = none
first_counter hotp token (c ∷ cs) =
    let rest = first_counter hotp token cs in if matches (hotp c) token then some c else rest

-- The counters of the intervals before, at and after the time; the time is past the first interval.
abbrev pub window_of : ℕ → List ℕ
window_of now = (now / 30 - 1) ∷ (now / 30) ∷ (now / 30 + 1) ∷ []

unfoldable pub verify_totp_token_with_counter :
    (Text → ℕ → Option Text) → Text → Text → ℕ → Option ℕ
unfolding is_six_digits first_counter strip
verify_totp_token_with_counter hotp secret token now =
    if is_empty secret || is_empty token
    then none
    else if not (is_six_digits (strip token))
    then none
    else first_counter (hotp secret) (strip token) (window_of now)

pub data Stage : Type 0 where
  approval execution : Stage

pub data MfaResult : Type 0 where
  code_required invalid_code stale_code fresh_code_required not_configured : MfaResult
  verified : Text → ℕ → MfaResult

-- The counter that the same stage has used before.
abbrev pub prior_counter : Stage → ApprovalRecord → Option ℕ
prior_counter approval r = r.approval_mfa_counter
prior_counter execution r = r.execution_mfa_counter

abbrev pub is_counter : Option ℕ → ℕ → Bool
is_counter none c = false
is_counter (some d) c = d == c

abbrev pub is_execution : Stage → Bool
is_execution execution = true
is_execution approval = false

unfoldable pub approval_actor : UserPayload → Text
unfolding codes
approval_actor payload = text_or payload.email (text_or payload.sub (codes "System Admin"))

unfoldable pub verify_counter :
    Config → ApprovalRecord → UserPayload → Stage → Option ℕ → Option ℕ → MfaResult
unfolding approval_actor
verify_counter config r payload stage expiry_at none = invalid_code
verify_counter config r payload stage expiry_at (some counter) =
    if is_counter (prior_counter stage r) counter
    then stale_code
    else if is_execution stage && is_counter r.approval_mfa_counter counter
    then fresh_code_required
    else verified (config.binding_hash r (approval_actor payload) counter expiry_at) counter

unfoldable pub with_secret :
    Config → ApprovalRecord → UserPayload → Text → ℕ → Stage → Option ℕ → Option Text → MfaResult
unfolding verify_counter verify_totp_token_with_counter
with_secret config r payload code now stage expiry_at none = not_configured
with_secret config r payload code now stage expiry_at (some []) = not_configured
with_secret config r payload code now stage expiry_at (some (c ∷ secret)) =
    verify_counter config r payload stage expiry_at
      (verify_totp_token_with_counter config.hotp (c ∷ secret) code now)

unfoldable pub verify_approval_stage_mfa :
    Config → ApprovalRecord → UserPayload → Option Text → ℕ → Stage → Option ℕ → MfaResult
unfolding with_secret
verify_approval_stage_mfa config r payload none now stage expiry_at = code_required
verify_approval_stage_mfa config r payload (some []) now stage expiry_at = code_required
verify_approval_stage_mfa config r payload (some (c ∷ code)) now stage expiry_at =
    with_secret config r payload (c ∷ code) now stage expiry_at (config.totp_secret r payload)

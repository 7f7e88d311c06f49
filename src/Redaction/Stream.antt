-- ===== src/Redaction/Stream.antt =====
-- The streaming redaction of redaction.py. The redactor of a whole buffer is the parameter `redactor`;
-- the generator answers the list of the pieces that it yields.
use auth_claw.Prelude.{
  Bool, List, Option, Text, [], any, codes, contains, false, if◌then◌else◌, leb, length, lower, ltb,
  none, not, some, strip, suc, true, zero, ℕ, ◌&&◌, ◌*◌, ◌++◌, ◌+◌, ◌-◌, ◌==◌, ◌||◌, ◌∷◌,
}
use auth_claw.Redaction.Apply.{is_digit}

unfoldable pub stream_hint_words : List Text
unfolding codes
stream_hint_words =
    codes "@"
    ∷ codes "sk-"
    ∷ codes "akia"
    ∷ codes "asia"
    ∷ codes "aroa"
    ∷ codes "anpa"
    ∷ codes "aiza"
    ∷ codes "bearer"
    ∷ codes "eyj"
    ∷ codes "api_key"
    ∷ codes "api-key"
    ∷ codes "secret="
    ∷ codes "secret:"
    ∷ codes "token="
    ∷ codes "token:"
    ∷ codes "access_token"
    ∷ codes "refresh_token"
    ∷ codes "password="
    ∷ codes "password:"
    ∷ codes "client_secret"
    ∷ codes "ssn"
    ∷ codes "social security"
    ∷ codes "passport"
    ∷ codes "medical record"
    ∷ codes "patient"
    ∷ codes "diagnosis"
    ∷ codes "health history"
    ∷ codes "routing number"
    ∷ codes "credit card"
    ∷ codes "pin "
    ∷ codes "ignore previous"
    ∷ codes "reveal system prompt"
    ∷ codes "developer mode"
    ∷ codes "jailbreak"
    ∷ codes "system prompt"
    ∷ codes "hidden_metadata"
    ∷ []

-- The loop over the characters that returns at the fourth digit.
unfoldable pub has_digits : ℕ → Text → Bool
has_digits digit_count [] = false
has_digits digit_count (c ∷ s) =
    let n = if is_digit c then digit_count + 1 else digit_count in
    if is_digit c && leb 4 n then true else has_digits n s

unfoldable pub stream_needs_redaction_scan : Text → Bool
unfolding lower contains stream_hint_words has_digits
stream_needs_redaction_scan value =
    any (contains (lower value)) stream_hint_words || has_digits 0 value

-- value[:n] and value[n:]
unfoldable pub first_chars : ℕ → Text → Text
first_chars zero s = []
first_chars (suc n) [] = []
first_chars (suc n) (c ∷ s) = c ∷ first_chars n s

unfoldable pub after_chars : ℕ → Text → Text
after_chars zero s = s
after_chars (suc n) [] = []
after_chars (suc n) (c ∷ s) = after_chars n s

-- if value: yield value
abbrev pub yielded : Text → List Text
yielded [] = []
yielded (c ∷ s) = (c ∷ s) ∷ []

-- The pieces yielded and the text that is held back.
pub record Held : Type 0 where
  pub pieces : List Text
  pub pending : Text

-- A text longer than the window is cut so that the window stays.
unfoldable pub cut : ℕ → Text → Held
unfolding first_chars after_chars
cut holdback value =
    let slice_idx = length value - holdback in
    record { pieces = yielded (first_chars slice_idx value); pending = after_chars slice_idx value }

module _ (redactor : Text → Text) (holdback : ℕ) where
  -- The body of the loop for a token that is not None.
  unfoldable pub take_token : Text → Text → Held
  unfolding cut stream_needs_redaction_scan
  take_token pending token =
      let buffer = pending ++ token in
      let kept : Held = record { pieces = []; pending = buffer } in
      if leb (length buffer) holdback
      then kept
      else if not (stream_needs_redaction_scan buffer)
      then cut holdback buffer
      else if ltb 0 (length (redactor buffer) - holdback)
      then cut holdback (redactor buffer)
      else kept

  -- for token in token_stream, from a text that is held back
  unfoldable pub take_tokens : Text → List (Option Text) → Held
  unfolding take_token
  take_tokens pending [] = record { pieces = []; pending = pending }
  take_tokens pending (none ∷ tokens) = take_tokens pending tokens
  take_tokens pending (some token ∷ tokens) =
      let now = take_token pending token in
      let later = take_tokens now.pending tokens in
      record later { pieces = now.pieces ++ later.pieces }

  -- The end of the stream: what is held back goes through the redactor.
  abbrev pub tail_pieces : Text → List Text
  tail_pieces [] = []
  tail_pieces (c ∷ s) = yielded (redactor (c ∷ s))

  unfoldable pub stream_pieces : List (Option Text) → List Text
  unfolding take_tokens
  stream_pieces tokens = let held = take_tokens [] tokens in held.pieces ++ tail_pieces held.pending

-- holdback_chars or _stream_holdback_size()
unfoldable pub holdback_of : Option ℕ → ℕ → ℕ
holdback_of none size = size
holdback_of (some n) size = if n == 0 then size else n

-- int(s) of a decimal literal without spaces and sign, with single underscores between digits; the
-- Boolean tells that a digit stands before.
unfoldable pub decimal_of : Bool → ℕ → Text → Option ℕ
decimal_of true n [] = some n
decimal_of false n [] = none
decimal_of after n (c ∷ s) =
    let read = decimal_of (is_digit c) (if is_digit c then n * 10 + (c - 48) else n) s in
    if is_digit c || (c == 95 && after) then read else none

-- max(64, min(4096, n))
unfoldable pub clamp : ℕ → ℕ
clamp n = let least = if ltb n 4096 then n else 4096 in if ltb 64 least then least else 64

abbrev pub sized : (ℕ → ℕ) → Option ℕ → Option ℕ
sized f none = none
sized f (some n) = some (f n)

-- int(raw) with its sign: a negative number is below every bound.
unfoldable pub int_size : Text → Option ℕ
unfolding decimal_of clamp
int_size [] = none
int_size (c ∷ s) =
    if c == 45
    then sized (λ n. 64) (decimal_of false 0 s)
    else sized clamp (decimal_of false 0 (if c == 43 then s else c ∷ s))

-- 256 where int() raises ValueError.
abbrev pub size_or_default : Option ℕ → ℕ
size_or_default none = 256
size_or_default (some n) = n

-- The setting AUTHCLAW_STREAM_REDACTION_HOLDBACK_CHARS, where it is set.
unfoldable pub stream_holdback_size : Option Text → ℕ
unfolding int_size strip
stream_holdback_size none = 256
stream_holdback_size (some raw) = size_or_default (int_size (strip raw))

-- stream_redact_sensitive_tokens
unfoldable pub stream_redact_sensitive_tokens :
    (Text → Text) → Option Text → Option ℕ → List (Option Text) → List Text
unfolding stream_pieces holdback_of stream_holdback_size
stream_redact_sensitive_tokens redactor setting holdback_chars tokens =
    stream_pieces redactor (holdback_of holdback_chars (stream_holdback_size setting)) tokens

-- ===== src/Detector/State.antt =====
-- The findings of services/sensitive_data_detection.py.
use auth_claw.Prelude.{Bool, List, Text, [], codes, text_eq, ℕ, ◌&&◌, ◌==◌, ◌∷◌}

-- `object` is the identity that Python's `is` compares; the confidence counts in ten-thousandths.
pub record SensitiveFinding : Type 0 where
  pub object : ℕ
  pub entity_type : Text
  pub start : ℕ
  pub end : ℕ
  pub value : Text
  pub confidence : ℕ
  pub source : Text

-- == of the dataclass
unfoldable pub finding_eq : SensitiveFinding → SensitiveFinding → Bool
unfolding text_eq
finding_eq a b =
    text_eq a.entity_type b.entity_type
    && a.start == b.start
    && a.end == b.end
    && text_eq a.value b.value
    && a.confidence == b.confidence
    && text_eq a.source b.source

-- a is b
abbrev pub is_same : SensitiveFinding → SensitiveFinding → Bool
is_same a b = a.object == b.object

unfoldable pub secret_entities : List Text
unfolding codes
secret_entities =
    codes "openai_api_key"
    ∷ codes "google_api_key"
    ∷ codes "aws_access_key"
    ∷ codes "jwt_token"
    ∷ codes "bearer_token"
    ∷ codes "api_key_param"
    ∷ codes "secret_param"
    ∷ codes "token_param"
    ∷ codes "access_token"
    ∷ codes "private_key"
    ∷ []

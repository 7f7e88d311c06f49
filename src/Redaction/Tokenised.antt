-- ===== src/Redaction/Tokenised.antt =====
-- What `sanitize_finding_metadata` leaves of the recorded values.
use auth_claw.Detector.Redact.{FindingMetadata}
use auth_claw.Prelude.{
  All, Bool-cases, List, Text, [], arith, codes, inl, inr, map, refl, starts_with, true, ◌||◌, ◌∷◌,
  ◌≡◌,
}
use auth_claw.Redaction.Compliance.{DbPolicy, apply_gdpr, apply_hipaa, apply_soc2}
use auth_claw.Redaction.Matches.{Finder}
use auth_claw.Redaction.Rich.{
  apply_baseline, from_detector, is_hidden, is_passport, redact_sensitive_data_rich, sanitized,
  add_defaults,
}
use auth_claw.Redaction.Scan.{Scan, Triggered}

-- The value of an entry is a token, a label or empty, unless the entry is about a passport.
abbrev pub IsTokenised : Triggered → Type 0
IsTokenised t = (is_passport t || is_hidden t.redacted_value) ≡ true

sanitized-IsTokenised :
    (fingerprint : Text → Text) (t : Triggered) → IsTokenised (sanitized fingerprint t)
unfolding sanitized add_defaults starts_with codes
sanitized-IsTokenised fingerprint t = elim (Bool-cases (is_passport t)) [
  | inl e ↦ rw e (rw e refl)
  | inr e ↦ elim (Bool-cases (is_hidden t.redacted_value)) [
    | inl k ↦ rw e (rw k (ground (arith, k)))
    | inr k ↦ rw e (rw k (ground arith))
  ]
]

map-IsTokenised :
    (fingerprint : Text → Text) (ts : List Triggered)
    → All IsTokenised (map (sanitized fingerprint) ts)
map-IsTokenised fingerprint [] = tt
map-IsTokenised fingerprint (t ∷ ts) =
    (sanitized-IsTokenised fingerprint t, map-IsTokenised fingerprint ts)

-- Every finding that the redaction answers is about a passport, or its redacted_value is empty, one of
-- the labels N/A and [REDACTED], or begins with tok_.
pub redact_sensitive_data_rich-IsTokenised :
    (find : Finder) (fingerprint : Text → Text) (detected : Text × List FindingMetadata)
    (policies : List DbPolicy) (rules : List (Text × Text)) (username : Text)
    → All IsTokenised
        (redact_sensitive_data_rich find fingerprint detected policies rules username).1
unfolding redact_sensitive_data_rich
redact_sensitive_data_rich-IsTokenised find fingerprint detected policies rules username =
    let start : Scan = record { text = detected.0; triggered = map from_detector detected.1 } in
    map-IsTokenised fingerprint
      (apply_baseline find fingerprint username rules (
        apply_soc2 find username policies
          (apply_hipaa find username policies (apply_gdpr find username policies start)))).triggered

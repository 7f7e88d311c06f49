-- ===== src/Redaction/Recorded.antt =====
-- `redact_sensitive_data_rich` replaces nothing without a finding, and what it answers hides the
-- values.
use auth_claw.Detector.Redact.{FindingMetadata}
use auth_claw.Prelude.{
  All, All-weaken, Bool, List, Option, Text, [], ap, arith, codes, contains, false, if◌then◌else◌,
  inl, inr, is_empty, lookup, map, not, refl, sym, text_eq, text_eq_iff, true, ◌++◌, ◌||◌, ◌∙◌, ◌∷◌,
  ◌≡◌,
}
use auth_claw.Redaction.Apply.{FieldKind, aadhaar, email, phone}
use auth_claw.Redaction.Compliance.{
  DbPolicy, active_type, apply_gdpr, apply_hipaa, apply_soc2, is_redacting, name_of, redact_keyword,
  redact_pin, redact_whole, whole_of,
}
use auth_claw.Redaction.Honest.{
  Faithful, Honest, Honest-refl, Honest-trans, apply_pattern-Honest, is_open-cases,
  nonempty-append_right, replace_text-same,
}
use auth_claw.Redaction.Matches.{
  Finder, IsRegular, Match, Regex, baseline_aadhaar, baseline_email, baseline_phone, gdpr_keyword,
  gdpr_passport, gdpr_ssn, gdpr_ssn_raw, hipaa_keyword, hipaa_medical_record, is_baseline,
  is_keyword, replace_text, soc2_card_brand, soc2_card_delimited, soc2_card_digits, soc2_keyword,
  soc2_pin_near, soc2_routing,
}
use auth_claw.Redaction.Rich.{
  apply_baseline, from_detector, redact_baseline, redact_sensitive_data_rich, sanitized,
}
use auth_claw.Redaction.Scan.{Scan, Triggered, is_open, new_trigger, redacted_label}

everywhere : {P : Match → Type 0} (ms : List Match) → ((m : Match) → P m) → All P ms
everywhere [] f = tt
everywhere (m ∷ ms) f = (f m, everywhere ms f)

if-Honest : (b : Bool) (s t : Scan) → Honest s t → Honest s (if b then t else s)
if-Honest true s t h = h
if-Honest false s t h = Honest-refl s

module _ (find : Finder) (regular : IsRegular find) (username : Text) where
  module _ (name kind : Text) where
    redact_whole-Honest :
        (regex : Regex) (label : Text) (s : Scan)
        → Honest s (redact_whole find username name kind regex label s)
    unfolding redact_whole
    redact_whole-Honest regex label s =
        let found = find regex s.text in
        apply_pattern-Honest found (is_open whole_of)
          (λ m. new_trigger name kind username label m.whole) (λ m. redacted_label) s
          (regular.covers regex s.text)
          (everywhere found.matches
            (λ m. elim (is_open-cases whole_of m) [ inl e ↦ inl e | inr e ↦ inr (sym e) ]))

    redact_keyword-Honest :
        (regex : Regex) (s : Scan)
        → is_keyword regex ≡ true
        → Honest s (redact_keyword find username name kind regex s)
    unfolding redact_keyword
    redact_keyword-Honest regex s h =
        let found = find regex s.text in
        apply_pattern-Honest found (is_open (λ m. m.group_3))
          (λ m. new_trigger name kind username m.group_1 m.group_3)
          (λ m. m.group_1 ++ (m.group_2 ++ redacted_label)) s (regular.covers regex s.text)
          (All-weaken faithful found.matches (regular.groups regex s.text h))
      where
        faithful :
            (m : Match)
            → m.whole ≡ m.group_1 ++ (m.group_2 ++ m.group_3)
            → Faithful
                (is_open (λ x. x.group_3))
                (λ x. x.group_1 ++ (x.group_2 ++ redacted_label))
                m
        faithful m e = elim (is_open-cases (λ x. x.group_3) m) [
          | inl k ↦ inl k
          | inr k ↦ inr (ap (λ t. m.group_1 ++ (m.group_2 ++ t)) (sym k) ∙ sym e)
        ]

    redact_pin-Honest : (s : Scan) → Honest s (redact_pin find username name kind s)
    unfolding redact_pin
    redact_pin-Honest s =
        let found = find soc2_pin_near s.text in
        apply_pattern-Honest found (is_open (λ m. m.group_1))
          (λ m. new_trigger name kind username (codes "pin number") m.group_1)
          (λ m. replace_text m.group_1 redacted_label m.whole) s
          (regular.covers soc2_pin_near s.text)
          (everywhere found.matches (λ m. elim (is_open-cases (λ x. x.group_1) m) [
            | inl e ↦ inl e
            | inr e ↦ inr (
                ap (λ t. replace_text t redacted_label m.whole) e
                ∙ replace_text-same redacted_label m.whole)
          ]))

  redact_baseline-Honest :
      (fingerprint : Text → Text) (regex : Regex) (kind : FieldKind) (label : Text)
      (action : Option Text) (s : Scan)
      → is_baseline regex ≡ true
      → Honest s (redact_baseline find fingerprint username regex kind label action s)
  unfolding redact_baseline
  redact_baseline-Honest fingerprint regex kind label action s h =
      let found = find regex s.text in
      apply_pattern-Honest found (λ m. not (contains m.whole (codes "[REDACTED"))) _ _ s
        (regular.covers regex s.text)
        (All-weaken (λ m e. inl (ap not e)) found.matches (regular.unlabelled regex s.text h))

  apply_gdpr-Honest :
      (policies : List DbPolicy) (s : Scan) → Honest s (apply_gdpr find username policies s)
  unfolding apply_gdpr
  apply_gdpr-Honest policies s =
      let p = active_type (codes "GDPR") policies in
      let name = name_of p in
      let kind = codes "GDPR" in
      let s1 = redact_whole find username name kind gdpr_ssn (codes "ssn") s in
      let s2 = redact_whole find username name kind gdpr_ssn_raw (codes "ssn") s1 in
      let s3 = redact_whole find username name kind gdpr_passport (codes "passport") s2 in
      let s4 = redact_keyword find username name kind gdpr_keyword s3 in
      if-Honest (is_redacting p) s s4 (
        Honest-trans s s1 s4 (redact_whole-Honest name kind gdpr_ssn (codes "ssn") s) (
          Honest-trans s1 s2 s4 (redact_whole-Honest name kind gdpr_ssn_raw (codes "ssn") s1) (
            Honest-trans s2 s3 s4
              (redact_whole-Honest name kind gdpr_passport (codes "passport") s2)
              (redact_keyword-Honest name kind gdpr_keyword s3 refl))))

  apply_hipaa-Honest :
      (policies : List DbPolicy) (s : Scan) → Honest s (apply_hipaa find username policies s)
  unfolding apply_hipaa
  apply_hipaa-Honest policies s =
      let p = active_type (codes "HIPAA") policies in
      let name = name_of p in
      let kind = codes "HIPAA" in
      let s1 =
        redact_whole find username name kind hipaa_medical_record (codes "medical record") s in
      let s2 = redact_keyword find username name kind hipaa_keyword s1 in
      if-Honest (is_redacting p) s s2 (
        Honest-trans s s1 s2
          (redact_whole-Honest name kind hipaa_medical_record (codes "medical record") s)
          (redact_keyword-Honest name kind hipaa_keyword s1 refl))

  apply_soc2-Honest :
      (policies : List DbPolicy) (s : Scan) → Honest s (apply_soc2 find username policies s)
  unfolding apply_soc2
  apply_soc2-Honest policies s =
      let p = active_type (codes "SOC2") policies in
      let name = name_of p in
      let kind = codes "SOC2" in
      let s1 = redact_whole find username name kind soc2_card_brand (codes "credit card") s in
      let s2 = redact_whole find username name kind soc2_card_delimited (codes "credit card") s1 in
      let s3 = redact_whole find username name kind soc2_card_digits (codes "credit card") s2 in
      let s4 = redact_whole find username name kind soc2_routing (codes "bank routing") s3 in
      let s5 = redact_keyword find username name kind soc2_keyword s4 in
      let s6 = redact_pin find username name kind s5 in
      if-Honest (is_redacting p) s s6 (
        Honest-trans s s1 s6 (redact_whole-Honest name kind soc2_card_brand (codes "credit card") s)
          (Honest-trans s1 s2 s6
            (redact_whole-Honest name kind soc2_card_delimited (codes "credit card") s1)
            (Honest-trans s2 s3 s6
              (redact_whole-Honest name kind soc2_card_digits (codes "credit card") s2)
              (Honest-trans s3 s4 s6
                (redact_whole-Honest name kind soc2_routing (codes "bank routing") s3)
                (Honest-trans s4 s5 s6 (redact_keyword-Honest name kind soc2_keyword s4 refl)
                  (redact_pin-Honest name kind s5))))))

  apply_baseline-Honest :
      (fingerprint : Text → Text) (rules : List (Text × Text)) (s : Scan)
      → Honest s (apply_baseline find fingerprint username rules s)
  unfolding apply_baseline
  apply_baseline-Honest fingerprint rules s =
      let step = redact_baseline find fingerprint username in
      let s1 = step baseline_email email (codes "email") (lookup (codes "email") rules) s in
      let s2 =
        step baseline_aadhaar aadhaar (codes "aadhaar") (lookup (codes "aadhaar") rules) s1 in
      let s3 = step baseline_phone phone (codes "phone") (lookup (codes "phone") rules) s2 in
      Honest-trans s s1 s3
        (redact_baseline-Honest fingerprint baseline_email email (codes "email")
          (lookup (codes "email") rules) s refl)
        (Honest-trans s1 s2 s3
          (redact_baseline-Honest fingerprint baseline_aadhaar aadhaar (codes "aadhaar")
            (lookup (codes "aadhaar") rules) s1 refl)
          (redact_baseline-Honest fingerprint baseline_phone phone (codes "phone")
            (lookup (codes "phone") rules) s2 refl))

is_empty-map :
    (hide : Triggered → Triggered) (xs : List Triggered) → is_empty (map hide xs) ≡ is_empty xs
is_empty-map hide [] = refl
is_empty-map hide (x ∷ xs) = refl

-- A text that is another has an entry.
Honest-recorded :
    (hide : Triggered → Triggered) (s t : Scan)
    → Honest s t
    → (text_eq t.text s.text || not (is_empty (map hide t.triggered))) ≡ true
unfolding Honest
Honest-recorded hide s t (new, e, p) = elim p [
  | inl k ↦ let same_text = (text_eq_iff t.text s.text).1 k in ground (arith, same_text)
  | inr k ↦
      let filled : is_empty (map hide t.triggered) ≡ false =
        is_empty-map hide t.triggered ∙ ap is_empty e ∙ nonempty-append_right s.triggered new k in
      ground (arith, filled)
]

-- Where the regular expressions behave as Python's, a text that the patterns of the policies or the
-- baseline patterns change after the detector comes with at least one finding.
pub redact_sensitive_data_rich-recorded :
    (find : Finder) (fingerprint : Text → Text) (detected : Text × List FindingMetadata)
    (policies : List DbPolicy) (rules : List (Text × Text)) (username : Text)
    → IsRegular find
    → let answer = redact_sensitive_data_rich find fingerprint detected policies rules username in
      (text_eq answer.0 detected.0 || not (is_empty answer.1)) ≡ true
unfolding redact_sensitive_data_rich
redact_sensitive_data_rich-recorded find fingerprint detected policies rules username regular =
    let start : Scan = record { text = detected.0; triggered = map from_detector detected.1 } in
    let gdpr = apply_gdpr find username policies start in
    let hipaa = apply_hipaa find username policies gdpr in
    let soc2 = apply_soc2 find username policies hipaa in
    let last = apply_baseline find fingerprint username rules soc2 in
    Honest-recorded (sanitized fingerprint) start last (
      Honest-trans start gdpr last (apply_gdpr-Honest find regular username policies start) (
        Honest-trans gdpr hipaa last (apply_hipaa-Honest find regular username policies gdpr) (
          Honest-trans hipaa soc2 last (apply_soc2-Honest find regular username policies hipaa)
            (apply_baseline-Honest find regular username fingerprint rules soc2))))

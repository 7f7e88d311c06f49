-- ===== src/Redaction/Streamed.antt =====
-- What a redacted stream yields, and how much of it is held back.
use auth_claw.Prelude.{
  All, All-append, Bool-cases, List, Option, Text, [], ap, append-nil, append_assoc, arith, false,
  inl, inr, leb, leb→le, length, ltb, none, refl, some, subst, sym, ℕ, ◌++◌, ◌-◌, ◌∙◌, ◌∷◌, ◌≡◌,
  ◌≤◌, ◌⊎◌,
}
use auth_claw.Redaction.Pieces.{
  cut-joined, cut-pending, first_chars-after, joined, joined-append, joined-yielded, token_text,
}
use auth_claw.Redaction.Stream.{
  Held, after_chars, cut, first_chars, holdback_of, stream_holdback_size,
  stream_needs_redaction_scan, stream_pieces, stream_redact_sensitive_tokens, tail_pieces,
  take_token, take_tokens, yielded,
}

-- What the loop's body may answer for a buffer: it stays, it is cut as it is, or its redaction is cut.
data Taken (redactor : Text → Text) (n : ℕ) (buffer : Text) : Held → Type 0 where
  short : length buffer ≤ n → Taken redactor n buffer (record { pieces = []; pending = buffer })
  shrunk :
      length (redactor buffer) ≤ n
      → Taken redactor n buffer (record { pieces = []; pending = buffer })
  harmless : stream_needs_redaction_scan buffer ≡ false → Taken redactor n buffer (cut n buffer)
  scanned : Taken redactor n buffer (cut n (redactor buffer))

take_token-Taken :
    (redactor : Text → Text) (n : ℕ) (pending token : Text)
    → Taken redactor n (pending ++ token) (take_token redactor n pending token)
unfolding take_token
take_token-Taken redactor n pending token =
    let buffer = pending ++ token in
    elim (Bool-cases (leb (length buffer) n)) [
      | inl e ↦ rw e (short (leb→le (length buffer) n e))
      | inr e ↦ elim (Bool-cases (stream_needs_redaction_scan buffer)) [
        | inr k ↦ rw e (rw k (harmless k))
        | inl k ↦ elim (Bool-cases (ltb 0 (length (redactor buffer) - n))) [
          | inl l ↦ rw e (rw k (rw l scanned))
          | inr l ↦ rw e (rw k (rw l (shrunk (ground (arith, l)))))
        ]
      ]
    ]

-- The redactor keeps every contiguous part of a text.
abbrev pub Keeps : (Text → Text) → Text → Type 0
Keeps redactor text =
    (before part after : Text) → text ≡ before ++ (part ++ after) → redactor part ≡ part

-- What is held back fits the window, or its redaction does.
abbrev pub IsBounded : (Text → Text) → ℕ → Text → Type 0
IsBounded redactor n pending = (length pending ≤ n) ⊎ (length (redactor pending) ≤ n)

-- A piece of the output is the beginning of a redacted text, or of one that needs no scan.
pub data IsScreened (redactor : Text → Text) (piece : Text) : Type 0 where
  from_redacted : (b rest : Text) → redactor b ≡ piece ++ rest → IsScreened redactor piece
  from_harmless :
      (b rest : Text)
      → stream_needs_redaction_scan b ≡ false
      → b ≡ piece ++ rest
      → IsScreened redactor piece

module _ (redactor : Text → Text) (n : ℕ) where
  Taken-joined :
      (buffer : Text) (h : Held)
      → redactor buffer ≡ buffer
      → Taken redactor n buffer h
      → joined h.pieces ++ h.pending ≡ buffer
  unfolding joined
  Taken-joined buffer h keeps (short e) = refl
  Taken-joined buffer h keeps (shrunk e) = refl
  Taken-joined buffer h keeps (harmless e) = cut-joined n buffer
  Taken-joined buffer h keeps scanned = cut-joined n (redactor buffer) ∙ keeps

  Taken-IsBounded :
      (buffer : Text) (h : Held) → Taken redactor n buffer h → IsBounded redactor n h.pending
  Taken-IsBounded buffer h (short e) = inl e
  Taken-IsBounded buffer h (shrunk e) = inr e
  Taken-IsBounded buffer h (harmless e) = inl (cut-pending n buffer)
  Taken-IsBounded buffer h scanned = inl (cut-pending n (redactor buffer))

  cut-IsScreened :
      (value : Text)
      → ((piece rest : Text) → value ≡ piece ++ rest → IsScreened redactor piece)
      → All (IsScreened redactor) (cut n value).pieces
  unfolding cut
  cut-IsScreened value screened =
      let k = length value - n in
      all_yielded (first_chars k value) (after_chars k value) (sym (first_chars-after k value))
    where
      all_yielded : (t rest : Text) → value ≡ t ++ rest → All (IsScreened redactor) (yielded t)
      all_yielded [] rest e = tt
      all_yielded (c ∷ t) rest e = (screened (c ∷ t) rest e, tt)

  Taken-IsScreened :
      (buffer : Text) (h : Held) → Taken redactor n buffer h → All (IsScreened redactor) h.pieces
  Taken-IsScreened buffer h (short e) = tt
  Taken-IsScreened buffer h (shrunk e) = tt
  Taken-IsScreened buffer h (harmless e) =
      cut-IsScreened buffer (λ piece rest k. from_harmless buffer rest e k)
  Taken-IsScreened buffer h scanned =
      cut-IsScreened (redactor buffer) (λ piece rest k. from_redacted buffer rest k)

  take_tokens-joined :
      (before : Text) (tokens : List (Option Text)) (pending : Text)
      → Keeps redactor (before ++ (pending ++ token_text tokens))
      → let h = take_tokens redactor n pending tokens in
        joined h.pieces ++ h.pending ≡ pending ++ token_text tokens
  unfolding take_tokens joined token_text
  take_tokens-joined before [] pending keeps = sym (append-nil pending)
  take_tokens-joined before (none ∷ tokens) pending keeps =
      take_tokens-joined before tokens pending keeps
  take_tokens-joined before (some t ∷ tokens) pending keeps =
      let now = take_token redactor n pending t in
      let later = take_tokens redactor n now.pending tokens in
      let rest = token_text tokens in
      let kept =
        keeps before (pending ++ t) rest
          (ap (λ k. before ++ k) (sym (append_assoc pending t rest))) in
      let same : joined now.pieces ++ (now.pending ++ rest) ≡ pending ++ (t ++ rest) =
        sym (append_assoc (joined now.pieces) now.pending rest)
        ∙ ap (λ k. k ++ rest)
            (Taken-joined (pending ++ t) now kept (take_token-Taken redactor n pending t))
        ∙ append_assoc pending t rest in
      let moved : before ++ (pending ++ (t ++ rest))
          ≡ (before ++ joined now.pieces) ++ (now.pending ++ rest) =
        ap (λ k. before ++ k) (sym same)
        ∙ sym (append_assoc before (joined now.pieces) (now.pending ++ rest)) in
      ap (λ k. k ++ later.pending) (joined-append now.pieces later.pieces)
      ∙ append_assoc (joined now.pieces) (joined later.pieces) later.pending
      ∙ ap (λ k. joined now.pieces ++ k)
          (take_tokens-joined (before ++ joined now.pieces) tokens now.pending
            (subst (Keeps redactor) moved keeps))
      ∙ same

  take_tokens-IsScreened :
      (tokens : List (Option Text)) (pending : Text)
      → All (IsScreened redactor) (take_tokens redactor n pending tokens).pieces
  unfolding take_tokens
  take_tokens-IsScreened [] pending = tt
  take_tokens-IsScreened (none ∷ tokens) pending = take_tokens-IsScreened tokens pending
  take_tokens-IsScreened (some t ∷ tokens) pending =
      let now = take_token redactor n pending t in
      let later = take_tokens redactor n now.pending tokens in
      All-append (IsScreened redactor) now.pieces later.pieces
        (Taken-IsScreened (pending ++ t) now (take_token-Taken redactor n pending t))
        (take_tokens-IsScreened tokens now.pending)

  tail_pieces-IsScreened :
      (pending : Text) → All (IsScreened redactor) (tail_pieces redactor n pending)
  tail_pieces-IsScreened [] = tt
  tail_pieces-IsScreened (c ∷ s) = whole (redactor (c ∷ s)) refl
    where
      whole : (t : Text) → redactor (c ∷ s) ≡ t → All (IsScreened redactor) (yielded t)
      whole [] e = tt
      whole (d ∷ t) e = (from_redacted (c ∷ s) [] (e ∙ sym (append-nil (d ∷ t))), tt)

  tail_pieces-joined :
      (pending : Text)
      → redactor pending ≡ pending
      → joined (tail_pieces redactor n pending) ≡ pending
  unfolding joined
  tail_pieces-joined [] keeps = refl
  tail_pieces-joined (c ∷ s) keeps = joined-yielded (redactor (c ∷ s)) ∙ keeps

  -- From a buffer that fits the window, what is held back between two tokens fits the window, or else
  -- its redaction does.
  pub take_tokens-IsBounded :
      (tokens : List (Option Text)) (pending : Text)
      → IsBounded redactor n pending
      → IsBounded redactor n (take_tokens redactor n pending tokens).pending
  unfolding take_tokens
  take_tokens-IsBounded [] pending h = h
  take_tokens-IsBounded (none ∷ tokens) pending h = take_tokens-IsBounded tokens pending h
  take_tokens-IsBounded (some t ∷ tokens) pending h =
      let now = take_token redactor n pending t in
      take_tokens-IsBounded tokens now.pending
        (Taken-IsBounded (pending ++ t) now (take_token-Taken redactor n pending t))

-- Where the redactor changes no contiguous part of the text of the stream's tokens, whatever it does
-- to other texts, the stream yields that text, in whatever pieces, for every window.
pub stream_redact-joined :
    (redactor : Text → Text) (setting : Option Text) (chars : Option ℕ)
    (tokens : List (Option Text))
    → Keeps redactor (token_text tokens)
    → joined (stream_redact_sensitive_tokens redactor setting chars tokens) ≡ token_text tokens
unfolding stream_redact_sensitive_tokens stream_pieces
stream_redact-joined redactor setting chars tokens keeps =
    let n = holdback_of chars (stream_holdback_size setting) in
    let h = take_tokens redactor n [] tokens in
    let whole : joined h.pieces ++ h.pending ≡ token_text tokens =
      take_tokens-joined redactor n [] tokens [] keeps in
    let last : redactor h.pending ≡ h.pending =
      keeps (joined h.pieces) h.pending []
        (sym whole ∙ ap (λ k. joined h.pieces ++ k) (sym (append-nil h.pending))) in
    joined-append h.pieces (tail_pieces redactor n h.pending)
    ∙ ap (λ k. joined h.pieces ++ k) (tail_pieces-joined redactor n h.pending last)
    ∙ whole

-- Every piece that a stream yields is the beginning of a text that the redactor answered, or of a
-- buffer with none of the hints and fewer than four digits.
pub stream_redact-IsScreened :
    (redactor : Text → Text) (setting : Option Text) (chars : Option ℕ)
    (tokens : List (Option Text))
    → All (IsScreened redactor) (stream_redact_sensitive_tokens redactor setting chars tokens)
unfolding stream_redact_sensitive_tokens stream_pieces
stream_redact-IsScreened redactor setting chars tokens =
    let n = holdback_of chars (stream_holdback_size setting) in
    let h = take_tokens redactor n [] tokens in
    All-append (IsScreened redactor) h.pieces (tail_pieces redactor n h.pending)
      (take_tokens-IsScreened redactor n tokens []) (tail_pieces-IsScreened redactor n h.pending)

-- ===== src/Redaction/Pieces.antt =====
-- The text of a stream's pieces and tokens, and what a cut leaves of it.
use auth_claw.Prelude.{
  List, Option, Text, [], ap, append-nil, append_assoc, arith, length, none, refl, some, suc, sym,
  zero, ℕ, ◌++◌, ◌-◌, ◌∙◌, ◌∷◌, ◌≡◌, ◌≤◌,
}
use auth_claw.Redaction.Stream.{after_chars, cut, first_chars, yielded}

-- The concatenation of the pieces.
unfoldable pub joined : List Text → Text
joined [] = []
joined (t ∷ ts) = t ++ joined ts

-- The text of the tokens, where None is skipped.
unfoldable pub token_text : List (Option Text) → Text
token_text [] = []
token_text (none ∷ tokens) = token_text tokens
token_text (some t ∷ tokens) = t ++ token_text tokens

pub joined-append : (xs ys : List Text) → joined (xs ++ ys) ≡ joined xs ++ joined ys
unfolding joined
joined-append [] ys = refl
joined-append (x ∷ xs) ys =
    ap (λ k. x ++ k) (joined-append xs ys) ∙ sym (append_assoc x (joined xs) (joined ys))

pub joined-yielded : (t : Text) → joined (yielded t) ≡ t
unfolding joined
joined-yielded [] = refl
joined-yielded (c ∷ s) = append-nil (c ∷ s)

pub first_chars-after : (n : ℕ) (s : Text) → first_chars n s ++ after_chars n s ≡ s
unfolding first_chars after_chars
first_chars-after zero s = refl
first_chars-after (suc n) [] = refl
first_chars-after (suc n) (c ∷ s) = ap (◌∷◌ c) (first_chars-after n s)

after_chars-length : (n : ℕ) (s : Text) → length (after_chars n s) ≡ length s - n
unfolding after_chars
after_chars-length zero s = omega arith
after_chars-length (suc n) [] = omega arith
after_chars-length (suc n) (c ∷ s) = after_chars-length n s ∙ omega arith

-- Nothing is lost by a cut, and the window stays.
pub cut-joined : (n : ℕ) (s : Text) → joined (cut n s).pieces ++ (cut n s).pending ≡ s
unfolding cut
cut-joined n s =
    let k = length s - n in
    ap (λ t. t ++ after_chars k s) (joined-yielded (first_chars k s)) ∙ first_chars-after k s

pub cut-pending : (n : ℕ) (s : Text) → length (cut n s).pending ≤ n
unfolding cut
cut-pending n s = let k = length s - n in let e = after_chars-length k s in omega (arith, e)

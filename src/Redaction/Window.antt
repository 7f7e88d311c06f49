-- ===== src/Redaction/Window.antt =====
-- The bounds of the window that a stream holds back.
use auth_claw.Prelude.{
  Bool-cases, Option, Text, [], arith, false, if◌then◌else◌, inl, inr, none, refl, some, strip, suc,
  ℕ, ◌==◌, ◌∷◌, ◌≡◌, ◌≤◌,
}
use auth_claw.Redaction.Stream.{
  clamp, decimal_of, int_size, size_or_default, sized, stream_holdback_size, holdback_of,
}

clamp-bounds : (n : ℕ) → (64 ≤ clamp n) × (clamp n ≤ 4096)
unfolding clamp
clamp-bounds n = (ground arith, ground arith)

sized-bounds :
    (f : ℕ → ℕ)
    → ((n : ℕ) → (64 ≤ f n) × (f n ≤ 4096))
    → (o : Option ℕ) → (64 ≤ size_or_default (sized f o)) × (size_or_default (sized f o) ≤ 4096)
sized-bounds f h none = (omega arith, omega arith)
sized-bounds f h (some n) = h n

int_size-bounds :
    (s : Text) → (64 ≤ size_or_default (int_size s)) × (size_or_default (int_size s) ≤ 4096)
unfolding int_size
int_size-bounds [] = (omega arith, omega arith)
int_size-bounds (c ∷ s) = elim (Bool-cases (c == 45)) [
  | inl e ↦ rw e (sized-bounds (λ n. 64) (λ n. (omega arith, omega arith)) (decimal_of false 0 s))
  | inr e ↦
      rw e (sized-bounds clamp clamp-bounds (decimal_of false 0 (if c == 43 then s else c ∷ s)))
]

-- Whatever the setting holds, also where it is no number, a window that the caller does not choose
-- has from 64 to 4096 characters, and a caller's choice other than 0 is taken as it is.
pub holdback_of-bounds :
    (setting : Option Text) (n : ℕ)
    → (64 ≤ holdback_of none (stream_holdback_size setting))
      × (holdback_of none (stream_holdback_size setting) ≤ 4096)
      × (holdback_of (some 0) (stream_holdback_size setting) ≡ stream_holdback_size setting)
      × (holdback_of (some (suc n)) (stream_holdback_size setting) ≡ suc n)
unfolding holdback_of stream_holdback_size
holdback_of-bounds none n = (omega arith, omega arith, refl, ground arith)
holdback_of-bounds (some raw) n =
    let (least, most) = int_size-bounds (strip raw) in (least, most, refl, ground arith)

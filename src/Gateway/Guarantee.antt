-- ===== src/Gateway/Guarantee.antt =====
-- Reasoning on runs: what holds of the events that a run adds and of the state that it returns.
use auth_claw.Gateway.Effects.{
  Event, Run, Trace, continue_run, done, emit, lift, raise, raise_some, ◌>>=◌, ◌>>◌,
}
use auth_claw.Prelude.{
  All, All-append, All-weaken, Bool, List, Option, [], ap, append-nil, append_assoc, false,
  if◌then◌else◌, none, refl, some, subst, sym, true, ◌++◌, ◌∙◌, ◌∷◌, ◌≡◌,
}
use auth_claw.Result.{Fault, Result, ok, raised}

abbrev pub Outcome :
    {A : Type 0} → Trace → (Event → Type 0) → (A → Type 0) → Result A × Trace → Type 0
Outcome {A} t E Q (r, t') =
    (es : List Event) × (t' ≡ t ++ es) × All E es × ((a : A) → r ≡ ok a → Q a)

-- Every event that the run adds satisfies `E`, and what it returns, if it does, satisfies `Q`.
abbrev pub Guarantees : {A : Type 0} → Run A → (Event → Type 0) → (A → Type 0) → Type 0
Guarantees m E Q = (t : Trace) → Outcome t E Q (m t)

abbrev pub Any : {A : Type 0} → A → Type 0
Any a = Unit

pub ok-injective : {A : Type 0} (a b : A) → ok a ≡ ok b → a ≡ b
ok-injective a b h = cc

module _ {A : Type 0} {E : Event → Type 0} {Q : A → Type 0} where
  pub Guarantees-done : (a : A) → Q a → Guarantees (done a) E Q
  Guarantees-done a q t = ([], sym (append-nil t), tt, λ b e. subst Q (ok-injective a b e) q)

  pub Guarantees-raise : (e : Fault) → Guarantees (raise {A = A} e) E Q
  Guarantees-raise e t = ([], sym (append-nil t), tt, λ b h. cc)

  pub Guarantees-lift : (r : Result A) → ((a : A) → r ≡ ok a → Q a) → Guarantees (lift r) E Q
  Guarantees-lift r q t = ([], sym (append-nil t), tt, q)

  pub Guarantees-emit :
      (e : Event) (m : Run A) → E e → Guarantees m E Q → Guarantees (emit e >> m) E Q
  Guarantees-emit e m h k t =
      let (es, eq, every, q) = k (t ++ e ∷ []) in
      (e ∷ es, eq ∙ append_assoc t (e ∷ []) es, (h, every), q)

pub Guarantees-raise_some :
    {A : Type 0} {E : Event → Type 0} {Q : A → Type 0} (o : Option Fault) (m : Run A)
    → Guarantees m E Q
    → Guarantees (raise_some o >> m) E Q
Guarantees-raise_some none m h = h
Guarantees-raise_some (some e) m h = λ t. ([], sym (append-nil t), tt, λ b k. cc)

after :
    {B : Type 0} {E : Event → Type 0} {R : B → Type 0} (t t' : Trace) (es : List Event)
    (o : Result B × Trace)
    → t' ≡ t ++ es
    → All E es
    → Outcome t' E R o
    → Outcome t E R o
after {E} t t' es (r, u) e every (fs, e', later, q) =
    (es ++ fs, e' ∙ (ap (λ l. l ++ fs) e ∙ append_assoc t es fs), All-append E es fs every later, q)

continued :
    {A B : Type 0} {E : Event → Type 0} {R : B → Type 0} (r : Result A) (f : A → Run B) (t : Trace)
    → ((a : A) → r ≡ ok a → Outcome t E R (f a t))
    → Outcome t E R (continue_run r f t)
continued (ok a) f t h = h a refl
continued (raised e) f t h = ([], sym (append-nil t), tt, λ b k. cc)

module _ {A B : Type 0} {E : Event → Type 0} {Q : A → Type 0} {R : B → Type 0} where
  pub Guarantees-bind :
      (m : Run A) (f : A → Run B)
      → Guarantees m E Q
      → ((a : A) → Q a → Guarantees (f a) E R)
      → Guarantees (m >>= f) E R
  Guarantees-bind m f h k t =
      let (es, e, every, q) = h t in
      after t (m t).1 es ((m >>= f) t) e every
        (continued (m t).0 f (m t).1 (λ a eq. k a (q a eq) (m t).1))

-- A weaker demand.
pub Guarantees-weaken :
    {A : Type 0} {E E' : Event → Type 0} {Q Q' : A → Type 0} (m : Run A)
    → ((e : Event) → E e → E' e)
    → ((a : A) → Q a → Q' a)
    → Guarantees m E Q
    → Guarantees m E' Q'
Guarantees-weaken m f g h t =
    let (es, e, every, q) = h t in (es, e, All-weaken f es every, λ a r. g a (q a r))

-- Two branches.
pub Guarantees-if :
    {A : Type 0} {E : Event → Type 0} {Q : A → Type 0} (b : Bool) (m n : Run A)
    → (b ≡ true → Guarantees m E Q)
    → (b ≡ false → Guarantees n E Q)
    → Guarantees (if b then m else n) E Q
Guarantees-if true m n h k = h refl
Guarantees-if false m n h k = k refl

-- A run whose first part returns goes on.
pub continue-ok :
    {A B : Type 0} (m : Run A) (f : A → Run B) (t : Trace) {a : A} {u : Trace}
    → m t ≡ (ok a, u)
    → (m >>= f) t ≡ f a u
continue-ok m f t e = ap (λ o. continue_run o.0 f o.1) e

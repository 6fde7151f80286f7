-- ===== src/Domain/Checking.antt =====
-- `do` blocks over a `Result`: a chain of checks that may raise.
use nju_personal_assistant.Base.{◌≡◌, refl, ◌⊎◌, inl, inr, arith}
use nju_personal_assistant.Domain.Errors.{Error, Result, ok, err, bind}

infixl 10 ◌>>=◌ ◌>>◌
abbrev pub ◌>>=◌ {α β} : {A : Type α} {B : Type β} → Result A → (A → Result B) → Result B
m >>= f = bind m f

abbrev pub ◌>>◌ {α β} : {A : Type α} {B : Type β} → Result A → Result B → Result B
m >> k = bind m (λ _. k)

-- To split on a computed result and keep the equation.
pub Result-cases {ℓ} :
    {A : Type ℓ} (r : Result A) → ((a : A) × (r ≡ ok a)) ⊎ ((e : Error) × (r ≡ err e))
Result-cases (ok a) = inl (a, refl)
Result-cases (err e) = inr (e, refl)

-- The parts of a chain that returned
pub bind-eq-ok {α β} :
    {A : Type α} {B : Type β} (m : Result A) (f : A → Result B) {b : B}
    → bind m f ≡ ok b
    → (a : A) × (m ≡ ok a) × (f a ≡ ok b)
bind-eq-ok (ok a) f h = (a, refl, h)
bind-eq-ok (err e) f h = absurd (ground (arith, h))

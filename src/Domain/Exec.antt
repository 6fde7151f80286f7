-- ===== src/Domain/Exec.antt =====
-- Methods that change an object and may raise. What was written before a raise stays written.

use nju_personal_assistant.Domain.Errors.{Error, Result, ok, err}

abbrev pub Exec {σ α} : Type σ → Type α → Type (σ ⊔ α)
Exec State R = State → Result R × State

-- The rest of a method, unless something was raised.
abbrev pub continue {σ α β} :
    {State : Type σ} {Q : Type α} {R : Type β} → Result Q → (Q → Exec State R) → Exec State R
continue (err e) rest w = (err e, w)
continue (ok q) rest w = rest q w

infixl 10 ◌>>=◌
abbrev pub ◌>>=◌ {σ α β} :
    {State : Type σ} {Q : Type α} {R : Type β} → Exec State Q → (Q → Exec State R) → Exec State R
◌>>=◌ m rest w = let (r, w') = m w in continue r rest w'

infixl 10 ◌>>◌
abbrev pub ◌>>◌ {σ α β} :
    {State : Type σ} {Q : Type α} {R : Type β} → Exec State Q → Exec State R → Exec State R
m >> rest = m >>= λ _. rest

abbrev pub lift {σ α} : {State : Type σ} {R : Type α} → Result R → Exec State R
lift result w = (result, w)

abbrev pub throw {σ α} : {State : Type σ} {R : Type α} → Error → Exec State R
throw e = lift (err e)

abbrev pub pure {σ α} : {State : Type σ} {R : Type α} → R → Exec State R
pure value = lift (ok value)

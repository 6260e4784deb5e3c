-- ===== src/Common/Result.antt =====
-- What a call of a Go function comes to: a value, an error value, or a panic. An error is modelled
-- by the sentinel errors that it wraps; the text of its message is left out.
use mathlib.Core.Path.{◌≡◌, refl}
use mathlib.Core.Bool.{Bool, true, false}

pub data Result {ℓ} (E : Type 0) (A : Type ℓ) : Type ℓ where
  panic : Result E A
  err : E → Result E A
  ok : A → Result E A

-- `if fails { return e }`
abbrev pub reject_if : {E : Type 0} → Bool → E → Result E (Unit {0})
reject_if false e = ok tt
reject_if true e = err e

infixl 5 ◌>>=◌
abbrev pub ◌>>=◌ {κ ℓ} :
    {A : Type κ} {E : Type 0} {B : Type ℓ} → Result E A → (A → Result E B) → Result E B
panic >>= next = panic
err e >>= next = err e
ok value >>= next = next value

-- A chain of calls that returns has a first call that returns.
pub >>=-eq-ok {κ ℓ} :
    {A : Type κ} {E : Type 0} {B : Type ℓ} (call : Result E A) (next : A → Result E B) {r : B}
    → (call >>= next) ≡ ok r
    → (value : A) × (call ≡ ok value) × (next value ≡ ok r)
>>=-eq-ok panic next returns = cc
>>=-eq-ok (err e) next returns = cc
>>=-eq-ok (ok value) next returns = (value, refl, returns)

infixl 5 ◌>>◌
abbrev pub ◌>>◌ {ℓ} : {E : Type 0} {B : Type ℓ} → Result E (Unit {0}) → Result E B → Result E B
check >> rest = check >>= λ _. rest

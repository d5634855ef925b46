-- ===== src/Common/Results.antt =====
-- Code that only returns or raises: `do` blocks on a Result, and what a returned value tells of the steps.
use mathlib.Core.Bool.{Bool, true, false}
use mathlib.Core.Path.{◌≡◌, refl}
use docker_development_envir.Common.Runs.{Result, ok, err}

infixl 10 ◌>>=◌ ◌>>◌
abbrev pub ◌>>=◌ {ℓ} : {E A B : Type ℓ} → Result E A → (A → Result E B) → Result E B
ok a >>= f = f a
err e >>= f = err e

abbrev pub ◌>>◌ {ℓ} : {E A B : Type ℓ} → Result E A → Result E B → Result E B
m >> k = m >>= λ _. k

-- `if not test: raise error`
abbrev pub ensure {ℓ} : {E : Type ℓ} → Bool → E → Result E (Unit {ℓ})
ensure true e = ok tt
ensure false e = err e

-- A block that returns has got a value from its first step, and the rest returned.
pub >>=-ok {ℓ} :
    {E A B : Type ℓ} (first : Result E A) (then_do : A → Result E B) {end : B}
    → (first >>= then_do) ≡ ok end
    → (a : A) × (first ≡ ok a) × (then_do a ≡ ok end)
>>=-ok (ok a) then_do h = (a, refl, h)
>>=-ok (err e) then_do h = absurd (cc)

pub ensure-ok {ℓ} : {E : Type ℓ} (b : Bool) (e : E) {u : Unit {ℓ}} → ensure b e ≡ ok u → b ≡ true
ensure-ok true e h = refl
ensure-ok false e h = absurd (cc)

pub ok-injective {ℓ} : {E A : Type ℓ} {a b : A} → ◌≡◌ {A = Result E A} (ok a) (ok b) → a ≡ b
ok-injective h = cc

-- ===== src/Common/Runs.antt =====
-- Code that changes a state and may raise: what was written before the exception stays written.
use mathlib.Core.Bool.{Bool}
use mathlib.Core.Path.{◌≡◌, refl}
use mathlib.Core.Logic.{◌⊎◌, inl, inr}
use docker_development_envir.Common.Tests.{if◌then◌else◌}

pub data Result {ℓ} (E A : Type ℓ) : Type ℓ where
  ok : A → Result E A
  err : E → Result E A

pub Result-cases {ℓ} :
    {E A : Type ℓ} (r : Result E A) → ((e : E) × (r ≡ err e)) ⊎ ((a : A) × (r ≡ ok a))
Result-cases (err e) = inl (e, refl)
Result-cases (ok a) = inr (a, refl)

abbrev pub Run {ℓ} : Type ℓ → Type ℓ → Type ℓ → Type ℓ
Run E S A = S → Result E A × S

module _ {ℓ} {E S A : Type ℓ} where
  unfoldable pub pure : A → Run E S A
  pure a s = (ok a, s)

  unfoldable pub raise : E → Run E S A
  raise e s = (err e, s)

  unfoldable pub lift : Result E A → Run E S A
  lift r s = (r, s)

  unfoldable pub gets : (S → A) → Run E S A
  gets f s = (ok (f s), s)

  abbrev pub handle : Result E A × S → (E → Run E S A) → Result E A × S
  handle (ok a, s) h = (ok a, s)
  handle (err e, s) h = h e s

  -- `try: m` with `except: h`
  unfoldable pub catch : Run E S A → (E → Run E S A) → Run E S A
  catch m h s = handle (m s) h

unfoldable pub modify {ℓ} : {E S : Type ℓ} → (S → S) → Run E S (Unit {ℓ})
modify f s = (ok tt, f s)

module _ {ℓ} {E S A B : Type ℓ} where
  abbrev pub continue : Result E A × S → (A → Run E S B) → Result E B × S
  continue (ok a, s) f = f a s
  continue (err e, s) f = (err e, s)

  infixl 10 ◌>>=◌ ◌>>◌
  -- Opening this opens the ways to build an action too.
  unfoldable pub ◌>>=◌ : Run E S A → (A → Run E S B) → Run E S B
  unfolding pure raise lift gets modify catch
  ◌>>=◌ m f s = continue (m s) f

  abbrev pub ◌>>◌ : Run E S A → Run E S B → Run E S B
  m >> n = m >>= λ _. n

-- `if test: m`
abbrev pub when {ℓ} : {E S : Type ℓ} → Bool → Run E S (Unit {ℓ}) → Run E S (Unit {ℓ})
when b m = if b then m else pure tt

-- What holds of a result and the state beside it.
abbrev pub Post {ℓ} :
    {E S A : Type ℓ} → (A → S → Type ℓ) → (E → S → Type ℓ) → Result E A × S → Type ℓ
Post Q R (ok a, s) = Q a s
Post Q R (err e, s) = R e s

-- From `P`, `m` returns in `Q` or raises in `R`.
pub record Triple {ℓ} {E S A : Type ℓ} (P : S → Type ℓ) (m : Run E S A) (Q : A → S → Type ℓ)
    (R : E → S → Type ℓ) : Type ℓ where
  pub holds : (s : S) → P s → Post Q R (m s)

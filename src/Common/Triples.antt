-- ===== src/Common/Triples.antt =====
-- Rules for `Triple`, one for each way to build an action.
use mathlib.Core.Path.{◌≡◌, refl}
use mathlib.Core.Bool.{Bool, true, false}
use mathlib.Core.Option.{Option, none, some}
use docker_development_envir.Common.Tests.{if◌then◌else◌}
use docker_development_envir.Common.Runs.{
  Result, ok, err, Run, pure, raise, lift, gets, modify, catch, handle, ◌>>=◌, continue, Post,
  Triple,
}

module _ {ℓ} {E S A : Type ℓ} {Q : A → S → Type ℓ} {R : E → S → Type ℓ} where
  Post-handle :
      {R' : E → S → Type ℓ} (m : Result E A × S) (h : E → Run E S A)
      → Post Q R' m
      → ((e : E) → Triple (R' e) (h e) Q R)
      → Post Q R (handle m h)
  Post-handle (ok a, s) h p k = p
  Post-handle (err e, s) h p k = (k e).holds s p

  Post-weaken :
      {Q' : A → S → Type ℓ} {R' : E → S → Type ℓ} (x : Result E A × S)
      → ((s : S) (a : A) → Q' a s → Q a s)
      → ((s : S) (e : E) → R' e s → R e s)
      → Post Q' R' x
      → Post Q R x
  Post-weaken (ok a, s) h k p = h s a p
  Post-weaken (err e, s) h k p = k s e p

module _ {ℓ} {E S A B : Type ℓ} {Q' : B → S → Type ℓ} {R : E → S → Type ℓ} where
  Post-continue :
      {Q : A → S → Type ℓ} (m : Result E A × S) (f : A → Run E S B)
      → Post Q R m
      → ((a : A) → Triple (Q a) (f a) Q' R)
      → Post Q' R (continue m f)
  Post-continue (ok a, s) f p k = (k a).holds s p
  Post-continue (err e, s) f p k = p

module _ {ℓ} {E S A : Type ℓ} {P : S → Type ℓ} {Q : A → S → Type ℓ} {R : E → S → Type ℓ} where
  pub Triple-pure : (a : A) → ((s : S) → P s → Q a s) → Triple P (pure a) Q R
  unfolding pure
  Triple-pure a h = record { holds = h }

  pub Triple-raise : (e : E) → ((s : S) → P s → R e s) → Triple P (raise e) Q R
  unfolding raise
  Triple-raise e h = record { holds = h }

  pub Triple-lift :
      (r : Result E A)
      → ((s : S) (a : A) → P s → r ≡ ok a → Q a s)
      → ((s : S) (e : E) → P s → r ≡ err e → R e s)
      → Triple P (lift r) Q R
  unfolding lift
  Triple-lift (ok a) h k = record { holds = λ s p. h s a p refl }
  Triple-lift (err e) h k = record { holds = λ s p. k s e p refl }

  pub Triple-gets : (f : S → A) → ((s : S) → P s → Q (f s) s) → Triple P (gets f) Q R
  unfolding gets
  Triple-gets f h = record { holds = h }

  pub Triple-if :
      (b : Bool) (m n : Run E S A)
      → (b ≡ true → Triple P m Q R)
      → (b ≡ false → Triple P n Q R)
      → Triple P (if b then m else n) Q R
  Triple-if true m n h k = h refl
  Triple-if false m n h k = k refl

  pub Triple-catch :
      (R' : E → S → Type ℓ) (m : Run E S A) (h : E → Run E S A)
      → Triple P m Q R'
      → ((e : E) → Triple (R' e) (h e) Q R)
      → Triple P (catch m h) Q R
  unfolding catch
  Triple-catch R' m h t k = record { holds = λ s p. Post-handle (m s) h (t.holds s p) k }

  pub Triple-weaken :
      {P' : S → Type ℓ} {Q' : A → S → Type ℓ} {R' : E → S → Type ℓ} {m : Run E S A}
      → ((s : S) → P s → P' s)
      → ((s : S) (a : A) → Q' a s → Q a s)
      → ((s : S) (e : E) → R' e s → R e s)
      → Triple P' m Q' R'
      → Triple P m Q R
  Triple-weaken {m} f h k t = record { holds = λ s p. Post-weaken (m s) h k (t.holds s (f s p)) }

pub Triple-modify {ℓ} :
    {E S : Type ℓ} {P : S → Type ℓ} {Q : Unit {ℓ} → S → Type ℓ} {R : E → S → Type ℓ} (f : S → S)
    → ((s : S) → P s → Q tt (f s))
    → Triple P (modify f) Q R
unfolding modify
Triple-modify f h = record { holds = h }

module _ {ℓ} {E S A B : Type ℓ} {P : S → Type ℓ} {Q' : B → S → Type ℓ} {R : E → S → Type ℓ} where
  pub Triple-bind :
      (Q : A → S → Type ℓ) (m : Run E S A) (f : A → Run E S B)
      → Triple P m Q R
      → ((a : A) → Triple (Q a) (f a) Q' R)
      → Triple P (m >>= f) Q' R
  unfolding ◌>>=◌
  Triple-bind Q m f t k = record { holds = λ s p. Post-continue (m s) f (t.holds s p) k }

-- An action that returns or raises with `I` still true.
abbrev pub Keeps {ℓ} : {E S A : Type ℓ} → (S → Type ℓ) → Run E S A → Type ℓ
Keeps I m = Triple I m (λ _. I) (λ _. I)

module _ {ℓ} {E S A : Type ℓ} {I : S → Type ℓ} where
  pub Keeps-pure : (a : A) → Keeps {E = E} I (pure a)
  Keeps-pure a = Triple-pure a (λ s p. p)

  pub Keeps-raise : (e : E) → Keeps {A = A} I (raise e)
  Keeps-raise e = Triple-raise e (λ s p. p)

  pub Keeps-lift : (r : Result E A) → Keeps I (lift r)
  Keeps-lift r = Triple-lift r (λ s a p _. p) (λ s e p _. p)

  pub Keeps-gets : (f : S → A) → Keeps {E = E} I (gets f)
  Keeps-gets f = Triple-gets f (λ s p. p)

  pub Keeps-if : (b : Bool) (m n : Run E S A) → Keeps I m → Keeps I n → Keeps I (if b then m else n)
  Keeps-if b m n h k = Triple-if b m n (λ _. h) (λ _. k)

  pub Keeps-catch :
      (m : Run E S A) (h : E → Run E S A)
      → Keeps I m
      → ((e : E) → Keeps I (h e))
      → Keeps I (catch m h)
  Keeps-catch m h t k = Triple-catch (λ _. I) m h t k

module _ {ℓ} {E S A B : Type ℓ} {I : S → Type ℓ} where
  pub Keeps-bind :
      (m : Run E S A) (f : A → Run E S B)
      → Keeps I m
      → ((a : A) → Keeps I (f a))
      → Keeps I (m >>= f)
  Keeps-bind m f t k = Triple-bind (λ _. I) m f t k

pub ruleset keeps_rules = (
  Keeps-pure, Keeps-raise, Keeps-lift, Keeps-gets, Keeps-if, Keeps-catch, Keeps-bind, Triple-modify,
)

-- By cases on an optional value.
pub Triple-option {ℓ} :
    {E S A B : Type ℓ} {P : S → Type ℓ} {Q : A → S → Type ℓ} {R : E → S → Type ℓ} (o : Option B)
    {m : Run E S A} {f : B → Run E S A}
    → (o ≡ none → Triple P m Q R)
    → ((b : B) → o ≡ some b → Triple P (f b) Q R)
    → Triple P (elim o [ none ↦ m | some b ↦ f b ]) Q R
Triple-option none h k = h refl
Triple-option (some b) h k = k b refl

-- An action that always returns, with `I` still true.
abbrev pub Total : {E S A : Type 0} → (S → Type 0) → Run E S A → Type 0
Total I m = Triple I m (λ _. I) (λ _ _. ⊥)

module _ {E S A : Type 0} {I : S → Type 0} where
  pub Total-Keeps : {m : Run E S A} → Total I m → Keeps I m
  Total-Keeps t = Triple-weaken (λ s p. p) (λ s a p. p) (λ s e p. absurd p) t

  pub Total-pure : (a : A) → Total {E = E} I (pure a)
  Total-pure a = Triple-pure a (λ s p. p)

  pub Total-gets : (f : S → A) → Total {E = E} I (gets f)
  Total-gets f = Triple-gets f (λ s p. p)

  pub Total-if : (b : Bool) (m n : Run E S A) → Total I m → Total I n → Total I (if b then m else n)
  Total-if b m n h k = Triple-if b m n (λ _. h) (λ _. k)

  pub Total-catch :
      (m : Run E S A) (h : E → Run E S A)
      → Keeps I m
      → ((e : E) → Total I (h e))
      → Total I (catch m h)
  Total-catch m h t k = Triple-catch (λ _. I) m h t k

module _ {E S A B : Type 0} {I : S → Type 0} where
  pub Total-bind :
      (m : Run E S A) (f : A → Run E S B)
      → Total I m
      → ((a : A) → Total I (f a))
      → Total I (m >>= f)
  Total-bind m f t k = Triple-bind (λ _. I) m f t k

pub ruleset total_rules = (Total-pure, Total-gets, Total-if, Total-catch, Total-bind, Triple-modify)

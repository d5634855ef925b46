-- ===== src/Environments/Names.antt =====
-- The deployment environment of an environment names it.
use docker_development_envir.Common.{
  ℕ, true, false, ◌||◌, ◌==◌, nat_eq, list_eq, List, [], ◌∷◌, some, Text, ◌≡◌, refl, ap, ◌∙◌, all,
  codes, contains, is_digit, is_lower, map, arith, Bool-cases, inl, inr, &&-eq-true,
}
use docker_development_envir.Environments.{
  is_name, lower, lower_code, resolved, named_environment, deployment_environment, deployment_name,
}

lower_same : (c : ℕ) → (is_lower c || is_digit c) ≡ true → lower_code c ≡ c
unfolding lower_code
lower_same c h = ground arith

lower_all : (cs : Text) → all (λ d. is_lower d || is_digit d) cs ≡ true → map lower_code cs ≡ cs
lower_all [] h = refl
lower_all (c ∷ cs) h =
    let both = &&-eq-true _ _ h in
    ap (λ d. d ∷ map lower_code cs) (lower_same c both.0) ∙ ap (◌∷◌ c) (lower_all cs both.1)

member :
    (environment : Text) (extra : List Text)
    → contains environment (codes "stage" ∷ codes "prod" ∷ extra) ≡ true
    → (environment == codes "stage") ≡ false
    → (environment == codes "prod") ≡ false
    → contains environment extra ≡ true
member environment extra h s p = ground (
  arith,
  list_eq.beq_iff environment (codes "stage"),
  list_eq.beq_iff environment (codes "prod"),
  list_eq.beq_iff (codes "stage") environment,
  list_eq.beq_iff (codes "prod") environment,
)

lower_name : (name : Text) → is_name name ≡ true → lower name ≡ name
unfolding is_name lower
lower_name [] h = absurd (cc)
lower_name (c ∷ cs) h =
    let first : (is_lower c || is_digit c) ≡ true = ground arith in
    let others : all (λ d. is_lower d || is_digit d) cs ≡ true = ground arith in
    lower_all (c ∷ cs) (rw (first, others) refl)

resolved-own :
    (environment : Text) (extra : List Text)
    → (environment == codes "staging") ≡ false
    → (environment == codes "production") ≡ false
    → contains environment extra ≡ true
    → resolved environment extra ≡ some environment
unfolding resolved named_environment
resolved-own environment extra a b m = rw (resolved, named_environment, a, b, m) refl

-- The deployment environment that carries an environment's own name stands for that environment: for stage,
-- for prod and for every extra environment, but for one that is itself called staging or production.
pub deployment_environment-deployment_name :
    (environment : Text) (extra : List Text)
    → contains environment (codes "stage" ∷ codes "prod" ∷ extra) ≡ true
    → is_name environment ≡ true
    → (environment == codes "staging") ≡ false
    → (environment == codes "production") ≡ false
    → deployment_environment (deployment_name environment) extra ≡ some environment
unfolding deployment_environment deployment_name
deployment_environment-deployment_name environment extra h n a b =
    elim (Bool-cases (environment == codes "stage")) [
      | inl s ↦ rw s (rw ((list_eq.beq_iff environment (codes "stage")).0 s) refl)
      | inr s ↦ elim (Bool-cases (environment == codes "prod")) [
        | inl p ↦ rw (s, p) (rw ((list_eq.beq_iff environment (codes "prod")).0 p) refl)
        | inr p ↦
            rw (s, p)
              (ap (λ name. resolved name extra) (lower_name environment n)
                ∙ resolved-own environment extra a b (member environment extra h s p))
      ]
    ]

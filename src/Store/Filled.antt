-- ===== src/Store/Filled.antt =====
-- Which variables of a process change when it is filled from the store.
use mathlib.Core.Bool.{and-false as and_false}
use docker_development_envir.Common.{
  Bool, true, false, not, ◌&&◌, ◌||◌, ◌==◌, nat_eq, list_eq, List, [], ◌∷◌, Option, Text, ◌≡◌, refl,
  sym, ◌∙◌, ap, Result, ok, contains, put, is_empty, if◌then◌else◌, Bool-cases, inl, inr, arith,
  ◌⊎◌, codes,
}
use docker_development_envir.Common.Members.{contains-filter_by}
use docker_development_envir.Common.Results.{◌>>=◌, >>=-ok, ok-injective}
use docker_development_envir.Environments.{is_server}
use docker_development_envir.Settings.{Values, value_of}
use docker_development_envir.Settings.Put.{value_of-put}
use docker_development_envir.Settings.Variables.{SettingsError}
use docker_development_envir.Store.{
  put_all, lacking, held, fill, store_names, read_store, container_name, fill_from_store,
}

value_of-put_all :
    (store : Values) (names : List Text) (process_env : Values) (name : Text)
    → value_of name (put_all store names process_env)
      ≡ (if contains name names then value_of name store else value_of name process_env)
unfolding put_all
value_of-put_all store [] process_env name = refl
value_of-put_all store (first ∷ names) process_env name =
    value_of-put_all store names (put first (value_of first store) process_env) name
    ∙ (elim (Bool-cases (contains name names)) [
      | inl later ↦ rw (later, or_true (first == name)) refl
      | inr once ↦ rw once (
          value_of-put first name (value_of first store) process_env
          ∙ (elim (Bool-cases (first == name)) [
            | inl same ↦
                (let eq : first ≡ name = (list_eq.beq_iff first name).0 same in
                  rw same (ap (λ n. value_of n store) eq))
            | inr other ↦ rw other refl
          ]))
    ])
  where
    or_true : (b : Bool) → (b || true) ≡ true
    or_true b = ground arith

empty-eq : (t : Text) → is_empty t ≡ true → t ≡ []
empty-eq [] h = refl
empty-eq (c ∷ cs) h = absurd (cc)

unheld :
    (listed : Bool) (old new : Text)
    → (if listed && is_empty old && not (is_empty new) then new else old)
      ≡ (if listed && is_empty old then new else old)
unheld false old new = refl
unheld true (c ∷ cs) new = refl
unheld true [] [] = refl
unheld true [] (c ∷ cs) = refl

-- A listed variable that the process lacks gets the value that the store has, and every other variable of
-- the process stays as it is, whatever the store holds.
pub value_of-fill :
    (store : Values) (names : List Text) (process_env : Values) (name : Text)
    → value_of name (fill store names process_env).1 ≡ (
        if contains name names && is_empty (value_of name process_env)
        then value_of name store
        else value_of name process_env)
unfolding fill
value_of-fill store names process_env name =
    value_of-put_all store (held store (lacking process_env names)) process_env name
    ∙ ap (λ b. if b then value_of name store else value_of name process_env)
        (contains-filter_by (λ n. not (is_empty (value_of n store))) name
            (lacking process_env names)
          ∙ ap (λ b. b && not (is_empty (value_of name store)))
              (contains-filter_by (λ n. is_empty (value_of n process_env)) name names))
    ∙ unheld (contains name names) (value_of name process_env) (value_of name store)

module _ (inspect : Text → Text → Option (List Text))
    (files : Result SettingsError (Values × Values)) (environment : Text) (ci : Bool)
    (process_env : Values) where
  -- fill_from_store that returns leaves every variable alone that the process has a value for; and it
  -- changes the process at all only outside a pipeline and for a server environment.
  pub value_of-fill_from_store :
      {filled : List Text} {after : Values} (name : Text)
      → fill_from_store inspect files environment ci process_env ≡ ok (filled, after)
      → is_empty (value_of name process_env) ≡ false
      → (value_of name after ≡ value_of name process_env)
        × ((after ≡ process_env) ⊎ ((ci ≡ false) × (is_server environment ≡ true)))
  unfolding fill_from_store
  value_of-fill_from_store {filled} {after} name h k =
      elim (Bool-cases (not (is_server environment) || ci)) [
        | inl apart ↦
            (let same : after ≡ process_env =
                ap (λ (p : List Text × Values). p.1)
                  (sym (ok-injective {E = SettingsError} (rw apart at h))) in
              (ap (value_of name) same, inl same))
        | inr here ↦
            (let a = >>=-ok (store_names files environment) _ (rw here at h) in
              (kept a.0 (is_empty (lacking process_env a.0)) a.2, inr (ground arith, ground arith)))
      ]
    where
      kept :
          (names : List Text) (nothing : Bool)
          → (if nothing
              then ok ([], process_env)
              else (files >>= λ (found : Values × Values).
                  let container =
                    container_name (value_of (codes "PROJECT_NAME") found.0) environment in
                  let store =
                    read_store (inspect (value_of (codes "DEPLOY_CONTEXT") found.0) container) in
                  ok (fill store names process_env)))
            ≡ ok (filled, after)
          → value_of name after ≡ value_of name process_env
      kept names true e =
          ap (λ (p : List Text × Values). value_of name p.1)
            (sym (ok-injective {E = SettingsError} e))
      kept names false e =
          let b = >>=-ok files _ e in
          let store = read_store (
            inspect (value_of (codes "DEPLOY_CONTEXT") b.0.0)
              (container_name (value_of (codes "PROJECT_NAME") b.0.0) environment)) in
          ap (λ (p : List Text × Values). value_of name p.1)
            (sym (ok-injective {E = SettingsError} b.2))
          ∙ value_of-fill store names process_env name
          ∙ rw (k, and_false (contains name names)) refl

-- ===== src/Settings/Listed.antt =====
-- What deployment_variables lists: only what the env files leave to the process.
use docker_development_envir.Common.{
  none, some, get, ◌⊎◌, ◌&&◌, Option-cases, Bool, true, false, not, ◌||◌, ◌==◌, list_eq, nat_eq,
  List, [], ◌∷◌, ◌++◌, Text, ◌≡◌, refl, sym, ◌∙◌, ap, subst, ok, err, Result-cases, contains,
  is_empty, filter_by, if◌then◌else◌, Bool-cases, inl, inr, arith,
}
use docker_development_envir.Common.Members.{contains-append}
use docker_development_envir.Settings.{Values, process_secrets, hides_process_value}
use docker_development_envir.Settings.Variables.{
  SettingsError, hidden_variables, unlisted_plain, Listing, listed_names, is_set, list_names,
  list_groups, checked_listing, lists_of, groups_of, candidates, deployment_variables,
}

-- No listed name is one that the env files set.
abbrev Clean : Values → List Listing → Type 0
Clean mentioned listed =
    (n : Text) → contains n (listed_names listed) ≡ true → is_set mentioned n ≡ false

listed-append :
    (xs ys : List Listing) → listed_names (xs ++ ys) ≡ listed_names xs ++ listed_names ys
listed-append [] ys = refl
listed-append (x ∷ xs) ys = ap (◌∷◌ x.name) (listed-append xs ys)

Clean-append :
    (mentioned : Values) (listed : List Listing) (x : Listing)
    → Clean mentioned listed
    → is_set mentioned x.name ≡ false
    → Clean mentioned (listed ++ x ∷ [])
Clean-append mentioned listed x c h n m = elim (Bool-cases (contains n (listed_names listed))) [
  | inl k ↦ c n k
  | inr k ↦
      (let found : (contains n (listed_names listed) || contains n (x.name ∷ [])) ≡ true =
          sym (contains-append n (listed_names listed) (x.name ∷ []))
          ∙ ap (contains n) (sym (listed-append listed (x ∷ [])))
          ∙ m in
        let same : (x.name == n) ≡ true = ground arith in
        subst (λ t. is_set mentioned t ≡ false) ((list_eq.beq_iff x.name n).0 same) h)
]

Clean-list_names :
    (mentioned : Values) (plain : List Text) (required : Bool) (names : List Text)
    (listed : List Listing) (hidden : List Text)
    → Clean mentioned listed
    → Clean mentioned (list_names mentioned plain required names (listed, hidden)).0
unfolding list_names
Clean-list_names mentioned plain required [] listed hidden c = c
Clean-list_names mentioned plain required (name ∷ names) listed hidden c =
    elim (Bool-cases (contains name (listed_names listed))) [
      | inl k ↦ rw k (Clean-list_names mentioned plain required names listed hidden c)
      | inr k ↦ elim (Bool-cases (is_set mentioned name)) [
        | inl j ↦ rw (k, j) (Clean-list_names mentioned plain required names listed _ c)
        | inr j ↦
            rw (k, j)
              (Clean-list_names mentioned plain required names _ hidden
                (Clean-append mentioned listed _ c j))
      ]
    ]

Clean-list_groups :
    (mentioned : Values) (plain : List Text) (groups : List (List Text × Bool))
    (found : List Listing × List Text)
    → Clean mentioned found.0
    → Clean mentioned (list_groups mentioned plain groups found).0
unfolding list_groups
Clean-list_groups mentioned plain [] found c = c
Clean-list_groups mentioned plain ((names, required) ∷ groups) found c =
    Clean-list_groups mentioned plain groups (list_names mentioned plain required names found)
      (Clean-list_names mentioned plain required names found.0 found.1 c)

passes :
    (empty known : Bool) (a b : SettingsError) (names listed : List Listing)
    → (if not empty then err a else if not known then err b else ok names) ≡ ok listed
    → names ≡ listed
passes true true a b names listed h = cc
passes true false a b names listed h = absurd (cc)
passes false known a b names listed h = absurd (cc)

Clean-checked_listing :
    (mentioned : Values) (plain known : List Text) (found : List Listing × List Text)
    (listed : List Listing)
    → Clean mentioned found.0
    → checked_listing plain known found ≡ ok listed
    → Clean mentioned listed
unfolding checked_listing
Clean-checked_listing mentioned plain known (names, hidden) listed c h =
    subst (Clean mentioned)
      (passes (is_empty hidden) (is_empty (filter_by (λ name. not (contains name known)) plain))
        (hidden_variables hidden)
        (unlisted_plain (filter_by (λ name. not (contains name known)) plain)) names listed h)
      c

deployment_variables-Clean :
    (values mentioned : Values) (listed : List Listing)
    → deployment_variables values mentioned ≡ ok listed
    → Clean mentioned listed
unfolding deployment_variables
deployment_variables-Clean values mentioned listed h = elim (Result-cases (lists_of values)) [
  | inl (e, k) ↦ absurd (let clash : err e ≡ ok listed = rw (k, deployment_variables) at h in cc)
  | inr (lists, k) ↦
      (let groups = groups_of values mentioned lists in
        Clean-checked_listing mentioned lists.plain (candidates groups)
          (list_groups mentioned lists.plain groups ([], [])) listed
          (Clean-list_groups mentioned lists.plain groups ([], []) (λ n m. absurd (cc)))
          (rw (k, deployment_variables) at h))
]

left_to_process :
    (mentioned : Values) (name : Text)
    → is_set mentioned name ≡ false
    → (get name mentioned ≡ none)
      ⊎ ((get name mentioned ≡ some []) × (contains name process_secrets ≡ true))
unfolding is_set hides_process_value
left_to_process mentioned name h = elim (Option-cases (get name mentioned)) [
  | inl absent ↦ inl absent
  | inr (value, k) ↦
      (let open_value : not (value == [] && contains name process_secrets) ≡ false =
          rw (k, is_set) at h in
        let both = blank_secret (value == []) (contains name process_secrets) open_value in
        inr (k ∙ ap (λ (t : Text). some t) ((list_eq.beq_iff value []).0 both.0), both.1))
]
  where
    blank_secret : (a b : Bool) → not (a && b) ≡ false → (a ≡ true) × (b ≡ true)
    blank_secret true true e = (refl, refl)
    blank_secret true false e = absurd (cc)
    blank_secret false b e = absurd (cc)

-- A Deployment variable that deployment_variables lists is one that the env files leave to the process: they do
-- not name it, or it is one of setup's own secrets and they leave it blank.
pub get-deployment_variables :
    (values mentioned : Values) (listed : List Listing) (name : Text)
    → deployment_variables values mentioned ≡ ok listed
    → contains name (listed_names listed) ≡ true
    → (get name mentioned ≡ none)
      ⊎ ((get name mentioned ≡ some []) × (contains name process_secrets ≡ true))
get-deployment_variables values mentioned listed name h m =
    left_to_process mentioned name (deployment_variables-Clean values mentioned listed h name m)

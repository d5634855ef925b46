-- ===== src/Health/Paths.antt =====
-- health_paths in docker/project_deploy_health.py: the pages that a health check asks for.
use docker_development_envir.Common.{
  ℕ, Bool, true, false, not, ◌&&◌, ◌||◌, ◌==◌, nat_eq, list_eq, List, [], ◌∷◌, ◌++◌, Text, Result,
  ok, err, codes, all, length, leb, ltb, contains, dedup, dedup_onto, is_distinct, is_digit,
  is_lower, is_upper, is_empty, if◌then◌else◌, ◌≡◌, refl, ◌∙◌, Bool-cases, inl, inr, arith,
  beq_self,
}
use docker_development_envir.Settings.{Values, value_of}
use docker_development_envir.Settings.Setup.{words}

pub data PathError : Type 0 where
  bad_path too_many_paths : PathError

abbrev pub max_paths : ℕ
max_paths = 30

abbrev is_path_char : ℕ → Bool
is_path_char c =
    is_upper c
    || is_lower c
    || is_digit c
    || c == b'.'
    || c == b'_'
    || c == b'~'
    || c == b'/'
    || c == b'%'
    || c == b'-'

-- PATH, `/[A-Za-z0-9._~/%-]{0,200}`
unfoldable pub is_page : Text → Bool
is_page [] = false
is_page (c ∷ cs) = c == b'/' && all is_path_char cs && leb (length cs) 200

-- `[release] if release else []`
abbrev release_pages : Text → List Text
release_pages release = if is_empty release then [] else release ∷ []

abbrev release_page : Values → Text
release_page values = value_of (codes "DEPLOY_HEALTH_RELEASE_PATH") values

-- The pages that are asked for, in the order in which they are named.
unfoldable pub listed_pages : Values → Values → List Text
listed_pages values environ =
    words (value_of (codes "DEPLOY_HEALTH_PATHS") values)
    ++ words (value_of (codes "DEPLOY_HEALTH_EXTRA") environ)
    ++ release_pages (release_page values)

unfoldable pub health_paths : Values → Values → Result PathError (List Text × Text)
health_paths values environ =
    let listed = listed_pages values environ in
    let paths = dedup listed in
    if not (all is_page listed)
    then err bad_path
    else if ltb max_paths (length paths)
    then err too_many_paths
    else ok (paths, release_page values)

contains-dedup_onto :
    (a : Text) (seen xs : List Text)
    → contains a (dedup_onto seen xs) ≡ (contains a xs && not (contains a seen))
contains-dedup_onto a seen [] = refl
contains-dedup_onto a seen (x ∷ xs) = elim (Bool-cases (x == a)) [
  | inl same ↦
      (let eq : x ≡ a = (list_eq.beq_iff x a).0 same in
        let self = beq_self x in
        rw (← eq) (elim (Bool-cases (contains x seen)) [
          | inl k ↦ (let rest = contains-dedup_onto x seen xs in rw (k, self) (ground arith))
          | inr k ↦ rw (k, self) refl
        ]))
  | inr other ↦ (elim (Bool-cases (contains x seen)) [
    | inl k ↦ rw (k, other) (contains-dedup_onto a seen xs)
    | inr k ↦ rw (k, other) (contains-dedup_onto a (x ∷ seen) xs ∙ rw other refl)
  ])
]

is_distinct-dedup_onto : (seen xs : List Text) → is_distinct (dedup_onto seen xs) ≡ true
is_distinct-dedup_onto seen [] = refl
is_distinct-dedup_onto seen (x ∷ xs) = elim (Bool-cases (contains x seen)) [
  | inl k ↦ rw k (is_distinct-dedup_onto seen xs)
  | inr k ↦
      (let once = contains-dedup_onto x (x ∷ seen) xs in
        let rest = is_distinct-dedup_onto (x ∷ seen) xs in
        let self = beq_self x in rw k (ground arith))
]

all-dedup_onto :
    (p : Text → Bool) (seen xs : List Text) → all p xs ≡ true → all p (dedup_onto seen xs) ≡ true
all-dedup_onto p seen [] h = refl
all-dedup_onto p seen (x ∷ xs) h = elim (Bool-cases (contains x seen)) [
  | inl k ↦ rw k (all-dedup_onto p seen xs (ground arith))
  | inr k ↦
      (let tested : p x ≡ true = ground arith in
        rw (k, tested) (all-dedup_onto p (x ∷ seen) xs (ground arith)))
]

and_true : (b : Bool) → (b && true) ≡ b
and_true b = ground arith

-- What health_paths gives when it does not refuse: a page is asked for exactly when one of the three
-- settings names it, every page is a path that PATH accepts, no page stands twice, and there are at
-- most 30.
pub contains-health_paths :
    (values environ : Values) {paths : List Text} {release : Text} (page : Text)
    → health_paths values environ ≡ ok (paths, release)
    → (contains page paths ≡ contains page (listed_pages values environ))
      × (all is_page paths ≡ true)
      × (is_distinct paths ≡ true)
      × (ltb max_paths (length paths) ≡ false)
unfolding health_paths
contains-health_paths values environ {paths} {release} page h =
    let listed = listed_pages values environ in
    elim (Bool-cases (all is_page listed)) [
      | inr k ↦ (let no : err bad_path ≡ ok (paths, release) = rw k at h in absurd (cc))
      | inl k ↦ (elim (Bool-cases (ltb max_paths (length (dedup listed)))) [
        | inl j ↦
            (let no : err too_many_paths ≡ ok (paths, release) = rw (k, j) at h in absurd (cc))
        | inr j ↦
            (let both : ok (dedup listed, release_page values) ≡ ok (paths, release) =
                rw (k, j) at h in
              let same : dedup listed ≡ paths = cc in
              rw (← same) (
                contains-dedup_onto page [] listed ∙ and_true (contains page listed),
                all-dedup_onto is_page [] listed k,
                is_distinct-dedup_onto [] listed,
                j,
              ))
      ])
    ]

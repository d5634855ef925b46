-- ===== src/Domains/Hosts.antt =====
-- The hostnames that DOMAIN gives.
use docker_development_envir.Common.{
  Bool, true, false, not, ◌&&◌, ◌==◌, nat_eq, list_eq, option_eq, List, [], ◌∷◌, ◌++◌, Text, ◌≡◌,
  refl, sym, ◌∙◌, ap, ok, err, contains, is_distinct, all, split_on, if◌then◌else◌, Bool-cases, inl,
  inr, arith, ◌⊎◌,
}
use docker_development_envir.Common.Members.{contains-append}
use docker_development_envir.Common.Results.{>>=-ok, ok-injective}
use docker_development_envir.Settings.{Values}
use docker_development_envir.Settings.Dotenv.{is_space}
use docker_development_envir.Settings.Setup.{words}
use docker_development_envir.Domains.{
  DomainError, unset, bad_host, neither, is_label_char, is_label, is_hostname, References, host_of,
  add_host, add_reference, collect, stays, resolve_domains,
}
use docker_development_envir.Domains.Words.{is_word, split_on-parts, is_word-words}

beq_swap : (x y : Text) → (y == x) ≡ false → (x == y) ≡ false
beq_swap x y h = elim (Bool-cases (x == y)) [
  | inl same ↦
      (let eq : x ≡ y = (list_eq.beq_iff x y).0 same in
        let swapped = (list_eq.beq_iff y x).1 (sym eq) in absurd (cc))
  | inr other ↦ other
]

is_distinct-concat :
    (xs : List Text) (x : Text)
    → contains x xs ≡ false
    → is_distinct xs ≡ true
    → is_distinct (xs ++ x ∷ []) ≡ true
is_distinct-concat [] x h d = refl
is_distinct-concat (y ∷ xs) x h d =
    let rest = is_distinct-concat xs x (ground arith) (ground arith) in
    let apart = contains-append y xs (x ∷ []) in
    let other : (x == y) ≡ false = beq_swap x y (ground arith) in ground arith

all-concat :
    (p : Text → Bool) (xs : List Text) (x : Text)
    → all p xs ≡ true
    → p x ≡ true
    → all p (xs ++ x ∷ []) ≡ true
all-concat p [] x h k = rw k refl
all-concat p (y ∷ xs) x h k =
    let rest = all-concat p xs x (ground arith) k in
    let first : p y ≡ true = ground arith in rw first rest

-- What the loop keeps of the hosts it has found.
abbrev Good : List Text → Type 0
Good hosts = (is_distinct hosts ≡ true) × (all is_hostname hosts ≡ true)

Good-add_host :
    (host : Text) (hosts : List Text)
    → is_hostname host ≡ true
    → Good hosts
    → Good (add_host host hosts)
Good-add_host host hosts h good = elim (Bool-cases (contains host hosts)) [
  | inl known ↦ rw known good
  | inr new ↦
      rw new (is_distinct-concat hosts host new good.0, all-concat is_hostname hosts host good.1 h)
]

host_cases :
    (reference empty named_host word_host : Bool) (named word : Text) {host : Text}
    → (if reference
        then (if empty
            then err (unset word)
            else if named_host
            then ok named
            else err (bad_host word))
        else if word_host
        then ok word
        else err (neither word))
      ≡ ok host
    → ((named ≡ host) × (named_host ≡ true)) ⊎ ((word ≡ host) × (word_host ≡ true))
host_cases true true n w named word h = absurd (cc)
host_cases true false true w named word h = inl (ok-injective {E = DomainError} h, refl)
host_cases true false false w named word h = absurd (cc)
host_cases false e n true named word h = inr (ok-injective {E = DomainError} h, refl)
host_cases false e n false named word h = absurd (cc)

is_hostname-host_of :
    (values : Values) (word : Text) {host : Text}
    → host_of values word ≡ ok host
    → is_hostname host ≡ true
unfolding host_of
is_hostname-host_of values word h = elim (host_cases _ _ _ _ _ word h) [
  | inl (same, valid) ↦ rw (← same) valid
  | inr (same, valid) ↦ rw (← same) valid
]

Good-collect :
    (values : Values) (more hosts : List Text) (references : References)
    {found : List Text × References}
    → collect values more (hosts, references) ≡ ok found
    → Good hosts
    → Good found.0
unfolding collect
Good-collect values [] hosts references h good =
    let same = ok-injective {E = DomainError} h in rw (← same) good
Good-collect values (word ∷ more) hosts references h good =
    let a = >>=-ok (host_of values word) _ h in
    Good-collect values more (add_host a.0 hosts) (add_reference word a.0 references) a.2
      (Good-add_host a.0 hosts (is_hostname-host_of values word a.1) good)

all-labels :
    (text : Text)
    → all (all is_label_char) (split_on b'.' text) ≡ true
    → all (λ c. not (is_space c)) text ≡ true
unfolding is_label_char
all-labels [] h = refl
all-labels (c ∷ cs) h =
    let rest = split_on-parts b'.' cs in
    elim (Bool-cases (c == b'.')) [
      | inl dot ↦
          (let others : all (all is_label_char) (split_on b'.' cs) ≡ true =
              ap (all (all is_label_char)) rest.2 ∙ (rw (rest.2, dot) at h) in
            let known = all-labels cs others in ground arith)
      | inr letter ↦
          (let parted : (all is_label_char (c ∷ rest.0) && all (all is_label_char) rest.1) ≡ true =
              rw (rest.2, letter) at h in
            let others : all (all is_label_char) (split_on b'.' cs) ≡ true =
              ap (all (all is_label_char)) rest.2 ∙ ground arith in
            let known = all-labels cs others in ground arith)
    ]

all-weaken :
    (p q : Text → Bool)
    → ((t : Text) → p t ≡ true → q t ≡ true)
    → (xs : List Text) → all p xs ≡ true
    → all q xs ≡ true
all-weaken p q f [] h = refl
all-weaken p q f (x ∷ xs) h =
    let first = f x (ground arith) in let rest = all-weaken p q f xs (ground arith) in rw first rest

is_label_chars : (label : Text) → is_label label ≡ true → all is_label_char label ≡ true
unfolding is_label
is_label_chars label h = ground arith

is_word-is_hostname : (host : Text) → is_hostname host ≡ true → is_word host ≡ true
unfolding is_hostname
is_word-is_hostname [] h = absurd (cc)
is_word-is_hostname (c ∷ cs) h =
    all-labels (c ∷ cs)
      (all-weaken is_label (all is_label_char) is_label_chars (split_on b'.' (c ∷ cs)) h)

stays-distinct : (ws : List Text) → stays ws ≡ true → is_distinct ws ≡ true
unfolding stays
stays-distinct [] h = refl
stays-distinct (w ∷ []) h = refl
stays-distinct (w ∷ v ∷ ws) h = absurd (cc)

-- The hosts that DOMAIN gives are words without blanks, none twice; they are hostnames, unless DOMAIN is
-- a single word that names no variable, which stays as it is.
pub resolve_domains-hosts :
    (raw : Text) (entries : Values) {found : List Text × References}
    → resolve_domains raw entries ≡ ok found
    → (is_distinct found.0 ≡ true)
      × (all is_word found.0 ≡ true)
      × ((all is_hostname found.0 ≡ true) ⊎ ((found.0 ≡ words raw) × (stays (words raw) ≡ true)))
unfolding resolve_domains
resolve_domains-hosts raw entries {found} h = elim (Bool-cases (stays (words raw))) [
  | inl single ↦
      (let same : (words raw, []) ≡ found = ok-injective {E = DomainError} (rw single at h) in
        rw (← same) (stays-distinct (words raw) single, is_word-words raw, inr (refl, single)))
  | inr listed ↦
      (let good = Good-collect entries (words raw) [] [] (rw listed at h) (refl, refl) in
        (good.0, all-weaken is_hostname is_word is_word-is_hostname found.0 good.1, inl good.1))
]

-- ===== src/Database/Schemas/Reached.antt =====
-- What the `*` patterns of the test schemas reach (test_schemas of docker/database_client.py).
use docker_development_envir.Common.{
  ℕ, zero, suc, true, false, ◌&&◌, ◌==◌, nat_eq, list_eq, List, [], ◌∷◌, ◌++◌, Text, ok, codes, ◌≡◌,
  refl, sym, subst, ◌∙◌, ap, contains, length, take, drop, ◌-◌, leb, ◌⊎◌, inl, inr, arith,
  Bool-cases, &&-eq-true, append_assoc,
}
use docker_development_envir.Settings.{Values}
use docker_development_envir.Database.Schemas.{
  is_main, is_test_schema, extra_schemas, test_schemas, test_schemas-Free,
}

-- `*` matches any characters, each other character itself.
abbrev pub Reaches : Text → Text → Type 0
Reaches [] schema = schema ≡ []
Reaches (c ∷ pattern) schema =
    (found : Text) × (rest : Text) × ((c ≡ b'*') ⊎ (found ≡ c ∷ []))
    × (schema ≡ found ++ rest)
    × Reaches pattern rest

take-drop : (n : ℕ) (xs : Text) → take n xs ++ drop n xs ≡ xs
take-drop zero xs = refl
take-drop (suc n) [] = refl
take-drop (suc n) (x ∷ xs) = ap (◌∷◌ x) (take-drop n xs)

-- Without `*` a pattern reaches itself.
Reaches-plain :
    (pattern schema : Text)
    → contains b'*' pattern ≡ false
    → Reaches pattern schema
    → schema ≡ pattern
Reaches-plain [] schema h reached = reached
Reaches-plain (c ∷ pattern) schema h (found, rest, inl star, eq, more) =
    let same : (c == b'*') ≡ true = (nat_eq.beq_iff c b'*').1 star in absurd (ground arith)
Reaches-plain (c ∷ pattern) schema h (found, rest, inr one, eq, more) =
    let tail : rest ≡ pattern = Reaches-plain pattern rest (ground arith) more in
    eq ∙ ap (λ (l : Text). l ++ rest) one ∙ ap (◌∷◌ c) tail

-- What a pattern ends in, without `*`, ends every schema that it reaches.
ending :
    (stem suffix schema : Text)
    → contains b'*' suffix ≡ false
    → Reaches (stem ++ suffix) schema
    → (before : Text) × (schema ≡ before ++ suffix)
ending [] suffix schema h reached = ([], Reaches-plain suffix schema h reached)
ending (c ∷ stem) suffix schema h (found, rest, one, eq, more) =
    let (before, k) = ending stem suffix rest h more in
    (found ++ before, eq ∙ ap (◌++◌ found) k ∙ sym (append_assoc found before suffix))

is_test_schema_lem :
    (name : Text) → is_test_schema name ≡ true → name ≡ take (length name - 5) name ++ codes "_test"
unfolding is_test_schema
is_test_schema_lem name h =
    let stem = take (length name - 5) name in
    let a =
      &&-eq-true
        (leb 6 (length name)
          && drop (length name - 5) name == codes "_test"
          && leb (length stem) 59)
        _ h in
    let b =
      &&-eq-true (leb 6 (length name) && drop (length name - 5) name == codes "_test") _ a.0 in
    let c = &&-eq-true (leb 6 (length name)) _ b.0 in
    sym (take-drop (length name - 5) name)
    ∙ ap (◌++◌ (take (length name - 5) name))
        ((list_eq.beq_iff (drop (length name - 5) name) (codes "_test")).0 c.1)

-- When both lists of schemas are accepted, each schema that an entry of the test schemas reaches, where `*`
-- stands for any characters, ends in _test; and where the entry has no `*`, the schema is neither the main
-- database nor an extra schema.
pub Reaches-test_schemas :
    (settings : Values) {extras names : List Text} (pattern schema : Text)
    → extra_schemas settings ≡ ok extras
    → test_schemas settings ≡ ok names
    → contains pattern names ≡ true
    → Reaches pattern schema
    → ((before : Text) × (schema ≡ before ++ codes "_test"))
      × ((contains b'*' pattern ≡ true)
          ⊎ ((is_main settings schema ≡ false) × (contains schema extras ≡ false)))
Reaches-test_schemas settings {extras} pattern schema h k listed reached =
    let (other, free, tested) = test_schemas-Free settings pattern h k listed in
    (
      ending (take (length pattern - 5) pattern) (codes "_test") schema refl
          (subst (λ (p : Text). Reaches p schema) (is_test_schema_lem pattern tested) reached),
      elim (Bool-cases (contains b'*' pattern)) [
        | inl star ↦ inl star
        | inr plain ↦
            (let same : schema ≡ pattern = Reaches-plain pattern schema plain reached in
              inr (
                ap (is_main settings) same ∙ other,
                ap (λ (s : Text). contains s extras) same ∙ free,
              ))
      ],
    )

-- ===== src/Database/Quoted.antt =====
-- A server reads back what was quoted, whatever the value holds: nothing of it is read as SQL.
use docker_development_envir.Common.{
  ℕ, Bool, true, false, not, ◌||◌, ◌==◌, nat_eq, list_eq, [], ◌∷◌, ◌++◌, Option, none, some, Text,
  codes, ◌≡◌, refl, sym, ◌∙◌, ap, append_assoc, if◌then◌else◌, Bool-cases, inl, inr, arith,
}
use docker_development_envir.Database.{
  literal_rest, identifier_rest, literal, identifier, split_name, quoted,
}

-- What a server reads up to the closing quote, and what follows it: a doubled quote is one, and before a
-- backslash or a quote a backslash is dropped. Other escapes are not read here.
read_literal_rest : Text → Option (Text × Text)
read_literal_rest [] = none
read_literal_rest (c ∷ []) = if c == b'\'' then some ([], []) else none
read_literal_rest (c ∷ d ∷ cs) =
    let doubled = read_literal_rest cs in
    let single = read_literal_rest (d ∷ cs) in
    if c == b'\\'
    then (if d == b'\\' || d == b'\''
        then (elim doubled [ none ↦ none | some (v, r) ↦ some (d ∷ v, r) ])
        else none)
    else if c == b'\''
    then (if d == b'\''
        then (elim doubled [ none ↦ none | some (v, r) ↦ some (d ∷ v, r) ])
        else some ([], d ∷ cs))
    else elim single [ none ↦ none | some (v, r) ↦ some (c ∷ v, r) ]

unfoldable pub read_literal : Text → Option (Text × Text)
unfolding read_literal_rest
read_literal [] = none
read_literal (c ∷ cs) = if c == b'\'' then read_literal_rest cs else none

read_identifier_rest : Text → Option (Text × Text)
read_identifier_rest [] = none
read_identifier_rest (c ∷ []) = if c == b'`' then some ([], []) else none
read_identifier_rest (c ∷ d ∷ cs) =
    let doubled = read_identifier_rest cs in
    let single = read_identifier_rest (d ∷ cs) in
    if c == b'`'
    then (if d == b'`'
        then (elim doubled [ none ↦ none | some (v, r) ↦ some (d ∷ v, r) ])
        else some ([], d ∷ cs))
    else elim single [ none ↦ none | some (v, r) ↦ some (c ∷ v, r) ]

unfoldable pub read_identifier : Text → Option (Text × Text)
unfolding read_identifier_rest
read_identifier [] = none
read_identifier (c ∷ cs) = if c == b'`' then read_identifier_rest cs else none

-- The text does not go on with this character.
abbrev pub not_next : ℕ → Text → Bool
not_next c [] = true
not_next c (d ∷ cs) = not (d == c)

-- What follows a value is never empty, since the quote closes it.
read_literal_rest-cons :
    (c d : ℕ) (text value rest : Text)
    → (c == b'\\') ≡ false
    → (c == b'\'') ≡ false
    → read_literal_rest (d ∷ text) ≡ some (value, rest)
    → read_literal_rest (c ∷ d ∷ text) ≡ some (c ∷ value, rest)
unfolding read_literal_rest
read_literal_rest-cons c d text value rest h k e = rw (h, k, e) refl

head_of : (value rest : Text) → (d : ℕ) × (more : Text) × (literal_rest value ++ rest ≡ d ∷ more)
unfolding literal_rest
head_of [] rest = (b'\'', rest, refl)
head_of (c ∷ cs) rest = elim (Bool-cases (c == b'\\')) [
  | inl slash ↦ (b'\\', b'\\' ∷ (literal_rest cs ++ rest), rw slash refl)
  | inr other ↦ (elim (Bool-cases (c == b'\'')) [
    | inl quote ↦ (b'\'', b'\'' ∷ (literal_rest cs ++ rest), rw (other, quote) refl)
    | inr plain ↦ (c, literal_rest cs ++ rest, rw (other, plain) refl)
  ])
]

read_literal_rest-literal_rest :
    (value rest : Text)
    → not_next b'\'' rest ≡ true
    → read_literal_rest (literal_rest value ++ rest) ≡ some (value, rest)
unfolding read_literal_rest literal_rest
read_literal_rest-literal_rest [] [] h = refl
read_literal_rest-literal_rest [] (d ∷ rest) h =
    let other : (d == b'\'') ≡ false = ground arith in rw other refl
read_literal_rest-literal_rest (c ∷ cs) rest h =
    let ih = read_literal_rest-literal_rest cs rest h in
    elim (Bool-cases (c == b'\\')) [
      | inl slash ↦ (let eq : c ≡ b'\\' = ground arith in rw (slash, ih) (rw eq refl))
      | inr other ↦ (elim (Bool-cases (c == b'\'')) [
        | inl quote ↦ (let eq : c ≡ b'\'' = ground arith in rw (other, quote, ih) (rw eq refl))
        | inr plain ↦
            (let next = head_of cs rest in
              rw (other, plain)
                (ap (λ (t : Text). read_literal_rest (c ∷ t)) next.2
                  ∙ read_literal_rest-cons c next.0 next.1 cs rest other plain
                      (ap read_literal_rest (sym next.2) ∙ ih)))
      ])
    ]

-- A server that reads a literal reads the value back, whatever characters it holds, and reads what stands
-- behind it as SQL again, as long as no quote follows at once.
pub read_literal-literal :
    (value rest : Text)
    → not_next b'\'' rest ≡ true
    → read_literal (literal value ++ rest) ≡ some (value, rest)
unfolding read_literal literal
read_literal-literal value rest h = read_literal_rest-literal_rest value rest h

read_identifier_rest-cons :
    (c d : ℕ) (text value rest : Text)
    → (c == b'`') ≡ false
    → read_identifier_rest (d ∷ text) ≡ some (value, rest)
    → read_identifier_rest (c ∷ d ∷ text) ≡ some (c ∷ value, rest)
unfolding read_identifier_rest
read_identifier_rest-cons c d text value rest h e = rw (h, e) refl

identifier_head :
    (value rest : Text) → (d : ℕ) × (more : Text) × (identifier_rest value ++ rest ≡ d ∷ more)
unfolding identifier_rest
identifier_head [] rest = (b'`', rest, refl)
identifier_head (c ∷ cs) rest = elim (Bool-cases (c == b'`')) [
  | inl quote ↦ (b'`', b'`' ∷ (identifier_rest cs ++ rest), rw quote refl)
  | inr plain ↦ (c, identifier_rest cs ++ rest, rw plain refl)
]

read_identifier_rest-identifier_rest :
    (value rest : Text)
    → not_next b'`' rest ≡ true
    → read_identifier_rest (identifier_rest value ++ rest) ≡ some (value, rest)
unfolding read_identifier_rest identifier_rest
read_identifier_rest-identifier_rest [] [] h = refl
read_identifier_rest-identifier_rest [] (d ∷ rest) h =
    let other : (d == b'`') ≡ false = ground arith in rw other refl
read_identifier_rest-identifier_rest (c ∷ cs) rest h =
    let ih = read_identifier_rest-identifier_rest cs rest h in
    elim (Bool-cases (c == b'`')) [
      | inl quote ↦ (let eq : c ≡ b'`' = ground arith in rw (quote, ih) (rw eq refl))
      | inr plain ↦
          (let next = identifier_head cs rest in
            rw plain (
              ap (λ (t : Text). read_identifier_rest (c ∷ t)) next.2
              ∙ read_identifier_rest-cons c next.0 next.1 cs rest plain
                  (ap read_identifier_rest (sym next.2) ∙ ih)))
    ]

read_identifier-identifier :
    (value rest : Text)
    → not_next b'`' rest ≡ true
    → read_identifier (identifier value ++ rest) ≡ some (value, rest)
unfolding read_identifier identifier
read_identifier-identifier value rest h = read_identifier_rest-identifier_rest value rest h

-- After the first name: its table, or with a dot the table behind it.
read_table : Text → Text → Option ((Option Text × Text) × Text)
read_table first [] = some ((none, first), [])
read_table first (d ∷ ds) =
    if d == b'.'
    then (elim (read_identifier ds) [
      | none ↦ none
      | some (table, rest) ↦ some ((some first, table), rest)
    ])
    else some ((none, first), d ∷ ds)

-- What a server reads of `table` or `schema`.`table`: ((the schema or none, the table), the rest).
unfoldable pub read_quoted : Text → Option ((Option Text × Text) × Text)
unfolding read_table
read_quoted text = elim (read_identifier text) [
  | none ↦ none
  | some (first, after) ↦ read_table first after
]

read_quoted-table :
    (table rest : Text)
    → not_next b'`' rest ≡ true
    → not_next b'.' rest ≡ true
    → read_quoted (identifier table ++ rest) ≡ some ((none, table), rest)
unfolding read_quoted read_table
read_quoted-table table rest h k =
    rw (read_quoted, read_identifier-identifier table rest h) (alone rest k)
  where
    alone :
        (after : Text)
        → not_next b'.' after ≡ true
        → read_table table after ≡ some ((none, table), after)
    alone [] e = refl
    alone (d ∷ after) e = let other : (d == b'.') ≡ false = ground arith in rw other refl

read_quoted-schema :
    (schema table rest : Text)
    → not_next b'`' rest ≡ true
    → read_quoted (identifier schema ++ (b'.' ∷ (identifier table ++ rest)))
      ≡ some ((some schema, table), rest)
unfolding read_quoted read_table
read_quoted-schema schema table rest h =
    rw (read_quoted, read_identifier-identifier schema (b'.' ∷ (identifier table ++ rest)) refl)
      (rw (read_identifier-identifier table rest h) refl)

-- The SQL identifier of a table's name is read back as exactly the schema and the table that split_name
-- finds in the name, whatever characters it holds, as long as no backquote or dot follows at once.
pub read_quoted-quoted :
    (name rest : Text)
    → not_next b'`' rest ≡ true
    → not_next b'.' rest ≡ true
    → read_quoted (quoted name ++ rest) ≡ some (split_name name, rest)
unfolding quoted
read_quoted-quoted name rest h k = go (split_name name).0 (split_name name).1
  where
    go :
        (schema : Option Text) (table : Text)
        → read_quoted (
            ((elim schema [ none ↦ [] | some s ↦ identifier s ++ codes "." ]) ++ identifier table)
            ++ rest)
          ≡ some ((schema, table), rest)
    go none table = read_quoted-table table rest h k
    go (some schema) table =
        ap read_quoted (
          append_assoc (identifier schema ++ codes ".") (identifier table) rest
          ∙ append_assoc (identifier schema) (codes ".") (identifier table ++ rest))
        ∙ read_quoted-schema schema table rest h

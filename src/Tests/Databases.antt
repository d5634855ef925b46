-- ===== src/Tests/Databases.antt =====
-- Three schemas and two rows of a registry.
use docker_development_envir.Common.{
  inl, inr, ◌⊎◌, true, false, nat_eq, list_eq, List, [], ◌∷◌, ◌++◌, some, Text, ◌≡◌, refl, ok,
  codes, map, contains, all,
}
use docker_development_envir.Settings.{Values}
use docker_development_envir.Database.{literal, split_name, quoted}
use docker_development_envir.Database.Quoted.{
  read_literal, read_literal-literal, read_quoted, read_quoted-quoted,
}
use docker_development_envir.Database.Schemas.{is_main, extra_schemas, test_schemas}
use docker_development_envir.Database.Schemas.Reached.{Reaches, Reaches-test_schemas}
use docker_development_envir.Database.Registry.{has_mark, Rule, parse_registry, rule_line}
use docker_development_envir.Database.Registry.Written.{is_row, parse_registry-rule_line}

abbrev odd_value : Text
odd_value = codes "a' OR \\ 1"

read_literal-literal_example :
    read_literal (literal odd_value ++ codes ", 'b'") ≡ some (odd_value, codes ", 'b'")
read_literal-literal_example = read_literal-literal odd_value (codes ", 'b'") refl

abbrev archived : Text
archived = codes "archive.a`b"

read_quoted-quoted_example :
    read_quoted (quoted archived ++ codes " WHERE 1") ≡ some (split_name archived, codes " WHERE 1")
read_quoted-quoted_example = read_quoted-quoted archived (codes " WHERE 1") refl refl

split_archived : split_name archived ≡ (some (codes "archive"), codes "a`b")
unfolding split_name
split_archived = refl

abbrev schemas : Values
schemas =
    (codes "DATABASE_NAME", codes "shop")
    ∷ (codes "DATABASE_EXTRA_SCHEMAS", codes "archive stats")
    ∷ (codes "DATABASE_TEST_SCHEMAS", codes "shop_test a*_test")
    ∷ []

schemas_extra : extra_schemas schemas ≡ ok (codes "archive" ∷ codes "stats" ∷ [])
unfolding extra_schemas
schemas_extra = refl

schemas_test : test_schemas schemas ≡ ok (codes "shop_test" ∷ codes "a*_test" ∷ [])
unfolding test_schemas
schemas_test = refl

suffix_found : Reaches (codes "_test") (codes "_test")
suffix_found = (
  codes "_",
  codes "test",
  inr refl,
  refl,
  (
    codes "t",
    codes "est",
    inr refl,
    refl,
    (
      codes "e",
      codes "st",
      inr refl,
      refl,
      (codes "s", codes "t", inr refl, refl, (codes "t", [], inr refl, refl, refl)),
    ),
  ),
)

entry_found : Reaches (codes "a*_test") (codes "a_1_test")
entry_found = (
  codes "a",
  codes "_1_test",
  inr refl,
  refl,
  (codes "_1", codes "_test", inl refl, refl, suffix_found),
)

Reaches-test_schemas_example :
    ((before : Text) × (codes "a_1_test" ≡ before ++ codes "_test"))
    × ((contains b'*' (codes "a*_test") ≡ true)
        ⊎ ((is_main schemas (codes "a_1_test") ≡ false)
            × (contains (codes "a_1_test") (codes "archive" ∷ codes "stats" ∷ []) ≡ false)))
Reaches-test_schemas_example =
    Reaches-test_schemas schemas (codes "a*_test") (codes "a_1_test") schemas_extra schemas_test
      refl entry_found

abbrev rows : List Rule
rows =
    record {
      table = codes "ps_orders";
      group = codes "orders";
      base = codes "faker";
      live = codes "import";
    }
    ∷ record {
      table = codes "tmp_*";
      group = codes "review";
      base = codes "empty";
      live = codes "-";
    }
    ∷ []

rows-is_row : all is_row rows ≡ true
unfolding is_row has_mark
rows-is_row = refl

parse_registry-rule_line_example :
    parse_registry (some (codes "ps_")) (map rule_line rows) ≡ ok rows
parse_registry-rule_line_example = parse_registry-rule_line (some (codes "ps_")) rows rows-is_row

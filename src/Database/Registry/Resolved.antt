-- ===== src/Database/Registry/Resolved.antt =====
-- resolve: a person classifies the tables that the registry does not know.
use docker_development_envir.Common.{
  Bool, ◌&&◌, ◌||◌, ◌==◌, nat_eq, list_eq, List, [], ◌∷◌, ◌++◌, Text, Result, ok, err, codes, any,
  contains, is_empty, has_prefix, length, drop, ◌-◌, leb, if◌then◌else◌,
}
use docker_development_envir.Common.Results.{◌>>=◌}
use docker_development_envir.Settings.Setup.{words}
use docker_development_envir.Database.Registry.{
  RegistryError, bad_edit, unclassified, Rule, base_rules, live_rules, unknown_tables,
}

-- `re.search` of a plain text, and of one at the end
unfoldable pub has_infix : Text → Text → Bool
has_infix part [] = is_empty part
has_infix part (c ∷ cs) = has_prefix part (c ∷ cs) || has_infix part cs

has_suffix : Text → Text → Bool
has_suffix part text =
    leb (length part) (length text) && drop (length text - length part) text == part

-- (group, base, live) of a table that the registry does not know
unfoldable pub guess : Text → List Text → Text × Text × Text
unfolding has_infix has_suffix
guess table columns =
    if any (λ p. has_prefix p table) (codes "tmp_" ∷ codes "zz_" ∷ [])
      || any (λ p. has_infix p table) (codes "_bak_" ∷ codes "_backup" ∷ [])
      || any (λ p. has_suffix p table) (codes "_old" ∷ codes "_copy" ∷ [])
    then (codes "review", codes "empty", codes "skip")
    else if any (λ p. has_infix p table)
          (codes "cache" ∷ codes "session" ∷ codes "api_response" ∷ [])
        || any (λ p. has_suffix p table)
            (codes "_log" ∷ codes "_logs" ∷ codes "_stat" ∷ codes "_stats" ∷ codes "_index" ∷ [])
    then (codes "cache", codes "empty", codes "skip")
    else if contains (codes "id_order") columns || contains (codes "id_cart") columns
    then (codes "orders", codes "faker", codes "import")
    else if contains (codes "id_customer") columns || contains (codes "email") columns
    then (codes "customers", codes "faker", codes "import")
    else if contains (codes "id_product") columns
    then (codes "catalog", codes "slice", codes "import")
    else (codes "config", codes "full", codes "import")

-- The answers of the person: to the question about a table, stripped and in lower case, and an edit's line.
module _ (columns : Text → List Text) (ask edit : Text → Text) where
  -- The row that the answer for one table gives, none where it is left for later.
  unfoldable pub answered : Text → Result RegistryError (List Rule)
  unfolding guess words
  answered table =
      let (group, base, live) = guess table (columns table) in
      let answer = ask table in
      if answer == codes "i" || is_empty answer
      then ok (record { table = table; group = group; base = base; live = live } ∷ [])
      else if answer == codes "e"
      then (elim (words (edit table)) [
        | [] ↦ err bad_edit
        | g ∷ more ↦ elim more [
          | [] ↦ err bad_edit
          | b ∷ last ↦ elim last [
            | [] ↦ err bad_edit
            | l ∷ others ↦
                if is_empty others && contains b base_rules && contains l live_rules
                then ok (record { table = table; group = g; base = b; live = l } ∷ [])
                else err bad_edit
          ]
        ]
      ])
      else if answer == codes "d"
      then ok (
          record { table = table; group = codes "drop"; base = codes "drop"; live = codes "-" }
          ∷ [])
      else ok []

  unfoldable pub answers : List Text → Result RegistryError (List Rule)
  unfolding answered
  answers [] = ok []
  answers (table ∷ tables) = answered table >>= λ rows. answers tables >>= λ more. ok (rows ++ more)

  -- resolve: the rows to append; without a terminal an unknown table is an error.
  unfoldable pub resolve : Bool → List Rule → List Text → Result RegistryError (List Rule)
  unfolding unknown_tables answers
  resolve interactive rules tables =
      let unknown = unknown_tables rules tables in
      let rows = answers unknown in
      if is_empty unknown then ok [] else if interactive then rows else err (unclassified unknown)

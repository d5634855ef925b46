-- ===== src/Migrations/Files.antt =====
-- migration_files: the migration files of a project in apply order. A directory is listed in the order of its names.
use docker_development_envir.Common.{
  ℕ, suc, Bool, false, not, ◌&&◌, ◌||◌, ◌==◌, nat_eq, list_eq, List, [], ◌∷◌, ◌++◌, Option, none,
  some, Text, Result, ok, err, codes, all, take, drop, length, leb, ltb, contains, is_digit,
  is_lower, is_empty, if◌then◌else◌, ◌-◌, map,
}
use docker_development_envir.Common.Sort.{text_ltb}

-- A file of a directory: its name, and whether it is a symbolic link.
pub record File : Type 0 where
  pub name : Text
  pub link : Bool

-- An item of the migrations directory; a folder comes with its *.sql files.
pub data Item : Type 0 where
  symlink : Text → Item
  folder : Text → List File → Item
  file : Text → Item

pub data FileError : Type 0 where
  is_symlink bad_name twice : Text → FileError
  main_folders : List Text → FileError

-- A found file: its schema (none for the main database), its name, and whether it is a link.
pub record Found : Type 0 where
  pub schema : Option Text
  pub name : Text
  pub link : Bool

ends_in : Text → Text → Bool
ends_in suffix text = drop (length text - length suffix) text == suffix

-- NAME, `^\d{14}-[a-z0-9-]+\.sql$`
unfoldable pub is_migration_name : Text → Bool
unfolding ends_in
is_migration_name name =
    let stem = take (length name - 4) name in
    let rest = drop 15 stem in
    leb 20 (length name)
    && ends_in (codes ".sql") name
    && all is_digit (take 14 name)
    && take 1 (drop 14 name) == b'-' ∷ []
    && not (is_empty rest)
    && all (λ c. is_lower c || is_digit c || c == b'-') rest

-- The loop over the directory: (found, main folders).
unfoldable pub find_files : List Text → List Item → Result FileError (List Found × List Text)
unfolding ends_in
find_files extras [] = ok ([], [])
find_files extras (symlink name ∷ items) = err (is_symlink name)
find_files extras (folder name files ∷ items) = elim (find_files extras items) [
  | err e ↦ err e
  | ok (found, mains) ↦
      (let extra = contains name extras in
        ok (
          map
                (λ (f : File). record {
                  schema = if extra then some name else none;
                  name = f.name;
                  link = f.link;
                })
                files
              ++ found,
          if not (is_empty files) && not extra then name ∷ mains else mains,
        ))
]
find_files extras (file name ∷ items) = elim (find_files extras items) [
  | err e ↦ err e
  | ok (found, mains) ↦
      if ends_in (codes ".sql") name
      then ok (record { schema = none; name = name; link = false } ∷ found, mains)
      else ok (found, mains)
]

-- The identity of a found file.
unfoldable pub identity_of : Found → Text
identity_of f = elim f.schema [ none ↦ f.name | some schema ↦ schema ++ b'/' ∷ f.name ]

-- The loop that checks the names; `seen` are the identities before.
unfoldable pub check_names : List Text → List Found → Result FileError (List Found)
unfolding is_migration_name identity_of
check_names seen [] = ok []
check_names seen (f ∷ fs) =
    if f.link || not (is_migration_name f.name)
    then err (bad_name f.name)
    else if contains (identity_of f) seen
    then err (twice f.name)
    else elim (check_names (identity_of f ∷ seen) fs) [ err e ↦ err e | ok rest ↦ ok (f ∷ rest) ]

-- `order`: the main database first, then the extra schemas in their order.
index_of : Text → List Text → ℕ
index_of name [] = 0
index_of name (x ∷ xs) = let rest = suc (index_of name xs) in if x == name then 0 else rest

rank : List Text → Found → ℕ
unfolding index_of
rank extras f = elim f.schema [ none ↦ 0 | some schema ↦ suc (index_of schema extras) ]

-- By the file's time, the schema and the name.
is_before : List Text → Found → Found → Bool
unfolding rank
is_before extras a b =
    let x = take 14 a.name in
    let y = take 14 b.name in
    text_ltb x y
    || (x == y
        && (ltb (rank extras a) (rank extras b)
            || (rank extras a == rank extras b && text_ltb a.name b.name)))

insert_file : List Text → Found → List Found → List Found
unfolding is_before
insert_file extras f [] = f ∷ []
insert_file extras f (g ∷ gs) =
    let rest = insert_file extras f gs in if is_before extras g f then g ∷ rest else f ∷ g ∷ gs

sorted_files : List Text → List Found → List Found
unfolding insert_file
sorted_files extras [] = []
sorted_files extras (f ∷ fs) = insert_file extras f (sorted_files extras fs)

unfoldable pub migration_files : List Text → List Item → Result FileError (List Found)
unfolding find_files check_names sorted_files
migration_files extras items = elim (find_files extras items) [
  | err e ↦ err e
  | ok (found, mains) ↦
      if ltb 1 (length mains)
      then err (main_folders mains)
      else elim (check_names [] found) [ err e ↦ err e | ok files ↦ ok (sorted_files extras files) ]
]

-- ===== src/Migrations/Drafts/Folder.antt =====
-- write_draft: a draft goes to its folder of migrations, and never over a file that somebody edited.
use docker_development_envir.Common.{
  ℕ, Bool, true, false, not, ◌&&◌, ◌||◌, ◌==◌, nat_eq, list_eq, option_eq, List, [], ◌∷◌, Option,
  none, some, Text, Result, ok, err, codes, all, take, drop, length, contains, is_empty, is_digit,
  filter_by, get, put, last?, has_prefix, leb, if◌then◌else◌,
}
use docker_development_envir.Common.Glob.{fnmatch}
use docker_development_envir.Common.Sort.{sorted_set}
use docker_development_envir.Database.Registry.Resolved.{has_infix}
use docker_development_envir.Migrations.Drafts.{NamedLines, names}

abbrev pub draft_marker : Text
draft_marker = codes "-- Schema change: "

abbrev pub checksum_mark : Text
checksum_mark = codes "-- Draft checksum: "

-- The text up to its first line feed, as `.*$` reads it.
unfoldable pub first_line : Text → Text
first_line [] = []
first_line (c ∷ cs) = let rest = first_line cs in if c == 10 then [] else c ∷ rest

-- `re.search(f'^{start}', text, re.M)`: the text from the first line on that begins so. The Boolean says
-- whether a line begins here.
unfoldable pub line_from : Text → Bool → Text → Option Text
line_from start begins [] = none
line_from start begins (c ∷ cs) =
    let rest = line_from start (c == 10) cs in
    if begins && has_prefix start (c ∷ cs) then some (c ∷ cs) else rest

unfoldable pub is_hex : ℕ → Bool
is_hex c = is_digit c || (leb b'a' c && leb c b'f')

-- Behind the word of a checksum line: (64 hexadecimal digits, what follows the line).
unfoldable pub digits_of : Text → Option (Text × Text)
unfolding is_hex
digits_of text =
    if length (take 64 text) == 64 && all is_hex (take 64 text) && take 1 (drop 64 text) == 10 ∷ []
    then some (take 64 text, drop 65 text)
    else none

-- The first whole checksum line: (its digits, what follows it).
unfoldable pub checksum_line : Bool → Text → Option (Text × Text)
unfolding digits_of
checksum_line begins [] = none
checksum_line begins (c ∷ cs) =
    let rest = checksum_line (c == 10) cs in
    let here =
      if begins && has_prefix checksum_mark (c ∷ cs)
      then digits_of (drop (length checksum_mark) (c ∷ cs))
      else none in
    elim here [ none ↦ rest | some found ↦ some found ]

-- split_header
unfoldable pub split_header : Text → Text
unfolding line_from
split_header text = elim (line_from checksum_mark true text) [ none ↦ text | some rest ↦ rest ]

pub data FolderError : Type 0 where
  no_marker is_link : FolderError

-- A directory of migrations: its files, and whether it or a file is a symbolic link.
pub record Folder : Type 0 where
  pub files : NamedLines
  pub link : Bool
  pub links : List Text

-- new_migrations: the names of the *.sql files that the last commit does not have.
unfoldable pub new_migrations : List Text → NamedLines → List Text
new_migrations committed files = sorted_set (
    filter_by (λ name. fnmatch name (codes "*.sql") && not (contains name committed)) (names files))

abbrev pub text_of : Text → NamedLines → Text
text_of name files = elim (get name files) [ none ↦ [] | some text ↦ text ]

-- The first pending file with the marker.
unfoldable pub marked : Text → NamedLines → List Text → Option Text
unfolding has_infix
marked line files [] = none
marked line files (name ∷ pending) =
    let rest = marked line files pending in
    if has_infix line (text_of name files) then some name else rest

abbrev pub with_file : Folder → Text → Text → Folder
with_file folder name text = record folder { files = put name text folder.files }

-- Another change: over the last unedited draft, or to a new file.
unfoldable pub placed : Folder → Text → Text → Result FolderError (Option Text × Folder)
placed folder target text =
    if contains target folder.links || folder.link
    then err is_link
    else ok (some target, with_file folder target text)

-- `digest` is the SHA-256 of a text, in hexadecimal digits.
module _ (digest : Text → Text) where
  -- untouched_draft
  unfoldable pub untouched_draft : Text → Bool
  unfolding checksum_line
  untouched_draft text = elim (checksum_line true text) [
    | none ↦ false
    | some (digits, rest) ↦ digest rest == digits
  ]

  -- The same change: an unedited draft with another body is written again.
  unfoldable pub refreshed : Folder → Text → Text → Folder
  unfolding untouched_draft split_header
  refreshed folder name text =
      let current = text_of name folder.files in
      if untouched_draft current && not (split_header current == split_header text)
      then with_file folder name text
      else folder

  -- write_draft: the path, none where somebody edited every pending file, and the folder after it. `fresh` is the
  -- name with the time now.
  unfoldable pub write_draft :
      List Text → Text → Folder → Text → Result FolderError (Option Text × Folder)
  unfolding line_from first_line untouched_draft new_migrations marked refreshed placed
  write_draft committed fresh folder text =
      let pending = new_migrations committed folder.files in
      elim (line_from draft_marker true text) [
        | none ↦ err no_marker
        | some rest ↦ elim (marked (first_line rest) folder.files pending) [
          | some name ↦ ok (some name, refreshed folder name text)
          | none ↦
              (let drafts =
                  filter_by (λ name. untouched_draft (text_of name folder.files)) pending in
                let new =
                  if is_empty pending then placed folder fresh text else ok (none, folder) in
                elim (last? drafts) [ some name ↦ placed folder name text | none ↦ new ])
        ]
      ]

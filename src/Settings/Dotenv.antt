-- ===== src/Settings/Dotenv.antt =====
-- parse_dotenv: KEY=value lines, quoted values over several lines, comments.
use docker_development_envir.Common.{
  ℕ, Bool, false, not, ◌&&◌, ◌||◌, ◌==◌, nat_eq, list_eq, List, [], ◌∷◌, ◌++◌, Option, none, some,
  Text, Result, ok, err, codes, put, is_digit, is_upper, is_lower, is_empty, has_prefix, has_char,
  drop, leb, if◌then◌else◌,
}
use docker_development_envir.Settings.{Values}

pub data DotenvError : Type 0 where
  not_an_entry : DotenvError
  unclosed expands : Text → DotenvError

-- Whitespace, on ASCII.
abbrev pub is_space : ℕ → Bool
is_space c = c == 32 || (leb 9 c && leb c 13) || (leb 28 c && leb c 31)

abbrev left_trimmed : Text → Text
left_trimmed [] = []
left_trimmed (c ∷ cs) = let rest = left_trimmed cs in if is_space c then rest else c ∷ cs

abbrev pub right_trimmed : Text → Text
right_trimmed [] = []
right_trimmed (c ∷ cs) =
    let rest = right_trimmed cs in
    if is_space c then (elim rest [ [] ↦ [] | x ∷ xs ↦ c ∷ x ∷ xs ]) else c ∷ rest

-- `text.strip()`
abbrev pub trimmed : Text → Text
trimmed text = right_trimmed (left_trimmed text)

is_blank : ℕ → Bool
is_blank c = c == 32 || c == 9

without_blanks : Text → Text
unfolding is_blank
without_blanks [] = []
without_blanks (c ∷ cs) = let rest = without_blanks cs in if is_blank c then rest else c ∷ cs

is_key_start : ℕ → Bool
is_key_start c = is_upper c || is_lower c || c == b'_'

-- The longest run of name characters, and the text behind it.
key_part : Text → Text × Text
unfolding is_key_start
key_part [] = ([], [])
key_part (c ∷ cs) =
    let (key, rest) = key_part cs in
    if is_key_start c || is_digit c then (c ∷ key, rest) else ([], c ∷ cs)

-- `([A-Za-z_][A-Za-z0-9_]*)[ \t]*[=:][ \t]*`: the key and what follows.
plain_entry : Text → Option (Text × Text)
unfolding key_part is_key_start without_blanks
plain_entry line =
    let (key, rest) = key_part line in
    elim key [
      | [] ↦ none
      | c ∷ cs ↦ if not (is_key_start c) then none else elim (without_blanks rest) [
        | [] ↦ none
        | mark ∷ raw ↦
            if mark == b'=' || mark == b':' then some (c ∷ cs, without_blanks raw) else none
      ]
    ]

-- ENTRY, with its optional `export`
unfoldable pub entry_of : Text → Option (Text × Text)
unfolding plain_entry without_blanks is_blank
entry_of line =
    let rest = drop 6 line in
    let exported =
      if has_prefix (codes "export") line && (elim rest [ [] ↦ false | c ∷ cs ↦ is_blank c ])
      then plain_entry (without_blanks rest)
      else none in
    elim exported [ none ↦ plain_entry line | some found ↦ some found ]

-- _closing, with the text before the closing quote instead of its index
closed_single : Text → Option Text
closed_single [] = none
closed_single (c ∷ cs) =
    let rest = closed_single cs in
    if c == 39 then some [] else elim rest [ none ↦ none | some value ↦ some (c ∷ value) ]

closed_double : Text → Option Text
closed_double [] = none
closed_double (c ∷ []) = if c == b'"' then some [] else none
closed_double (c ∷ d ∷ cs) =
    let escaped = closed_double cs in
    let rest = closed_double (d ∷ cs) in
    if c == 92
    then (elim escaped [ none ↦ none | some value ↦ some (c ∷ d ∷ value) ])
    else if c == b'"'
    then some []
    else elim rest [ none ↦ none | some value ↦ some (c ∷ value) ]

unfoldable pub closing : ℕ → Text → Option Text
unfolding closed_single closed_double
closing quote text = if quote == 39 then closed_single text else closed_double text

-- ESCAPES
escape : ℕ → ℕ
escape c = if c == b'n' then 10 else if c == b't' then 9 else if c == b'r' then 13 else c

unescaped : Text → Text
unfolding escape
unescaped [] = []
unescaped (c ∷ []) = c ∷ []
unescaped (c ∷ d ∷ cs) =
    let after = unescaped cs in
    let rest = unescaped (d ∷ cs) in if c == 92 then escape d ∷ after else c ∷ rest

-- `re.split(r'\s#', raw, maxsplit=1)[0]`
before_comment : Text → Text
before_comment [] = []
before_comment (c ∷ []) = c ∷ []
before_comment (c ∷ d ∷ cs) =
    let rest = before_comment (d ∷ cs) in if is_space c && d == b'#' then [] else c ∷ rest

-- An unquoted value.
unfoldable pub plain_value : Text → Text
unfolding before_comment
plain_value raw = if has_prefix (b'#' ∷ []) raw then [] else trimmed (before_comment raw)

-- A quoted value that is still open: its key, its quote and its text so far.
pub record Open : Type 0 where
  pub key : Text
  pub quote : ℕ
  pub body : Text

-- `strict` refuses $ outside single quotes.
stored : Bool → Text → ℕ → Text → Values → Result DotenvError Values
stored strict key quote value values =
    if strict && not (quote == 39) && has_char b'$' value
    then err (expands key)
    else ok (put key value values)

-- A quoted value: complete, or open at the line's end.
quoted_value : Bool → Open → Values → Result DotenvError (Option Open × Values)
unfolding stored unescaped
quoted_value strict open_ values = elim (closing open_.quote open_.body) [
  | none ↦ ok (some open_, values)
  | some text ↦
      elim (stored strict open_.key open_.quote
        (if open_.quote == b'"' then unescaped text else text) values) [
          | err e ↦ err e
          | ok next ↦ ok (none, next)
        ]
]

-- One line outside a quoted value.
unfoldable pub parse_line : Bool → Text → Values → Result DotenvError (Option Open × Values)
unfolding entry_of quoted_value plain_value stored
parse_line strict line values =
    let text = left_trimmed line in
    if is_empty (trimmed text) || has_prefix (b'#' ∷ []) text
    then ok (none, values)
    else elim (entry_of text) [
      | none ↦ err not_an_entry
      | some (key, raw) ↦
          if has_prefix (39 ∷ []) raw || has_prefix (b'"' ∷ []) raw
          then quoted_value strict
              (record {
                key = key;
                quote = if has_prefix (39 ∷ []) raw then 39 else b'"';
                body = drop 1 raw;
              })
              values
          else elim (stored strict key 0 (plain_value raw) values) [
            | err e ↦ err e
            | ok next ↦ ok (none, next)
          ]
    ]

-- The loop over the lines; an open value takes the next line in.
unfoldable pub parse_lines : Bool → Option Open → Values → List Text → Result DotenvError Values
unfolding parse_line quoted_value
parse_lines strict none values [] = ok values
parse_lines strict (some open_) values [] = err (unclosed open_.key)
parse_lines strict none values (line ∷ lines) = elim (parse_line strict line values) [
  | err e ↦ err e
  | ok (next, found) ↦ parse_lines strict next found lines
]
parse_lines strict (some open_) values (line ∷ lines) =
    elim (quoted_value strict (record open_ { body = open_.body ++ 10 ∷ line }) values) [
      | err e ↦ err e
      | ok (next, found) ↦ parse_lines strict next found lines
    ]

unfoldable pub parse_dotenv : Bool → List Text → Result DotenvError Values
unfolding parse_lines
parse_dotenv strict lines = parse_lines strict none [] lines

-- ===== src/Common/Texts.antt =====
-- Text that the program walks is a list of code points; texts that it only compares are `String`s.
use Prim.Native.Char.{code}
use Prim.Native.Nat.{ℕ, zero, suc, ◌/◌, ◌%◌}
use Prim.Native.String.{String, slice, ◌++◌ as ◌<>◌}
use mathlib.Core.Bool.{Bool, true, false, not, ◌&&◌, ◌||◌}
use mathlib.Core.List.{List, [], ◌∷◌}
use mathlib.Core.Option.{Option, none, some}
use docker_development_envir.Common.Tests.{leb, ltb, if◌then◌else◌}
use mathlib.Core.Logic.{◌↔◌}
use mathlib.Core.Path.{◌≡◌}
use docker_development_envir.Common.Equal.{◌==◌, nat_eq, string_eq, list_eq, list_beq_iff}

abbrev pub Text : Type 0
Text = List ℕ

abbrev pub codes : String → Text
codes String.[] = []
codes (String.◌∷◌ c s) = code c ∷ codes s

abbrev pub is_digit : ℕ → Bool
is_digit c = leb b'0' c && leb c b'9'

abbrev pub is_lower : ℕ → Bool
is_lower c = leb b'a' c && leb c b'z'

abbrev pub is_upper : ℕ → Bool
is_upper c = leb b'A' c && leb c b'Z'

-- `not text` on a text that may be missing
abbrev pub truthy : Option String → Bool
truthy none = false
truthy (some s) = not (s == "")

-- `value or default`
abbrev pub or_default : Option String → String → String
or_default none d = d
or_default (some s) d = if s == "" then d else s

-- The parts of a formatted text, put together.
abbrev pub concat : List String → String
concat [] = ""
concat (x ∷ xs) = ◌<>◌ x (concat xs)

-- `separator.join(parts)`
abbrev pub join : String → List String → String
join separator [] = ""
join separator (x ∷ []) = x
join separator (x ∷ y ∷ xs) = ◌<>◌ x (◌<>◌ separator (join separator (y ∷ xs)))

-- `commit[:12]`; a commit is ASCII
abbrev pub short : String → String
short commit = slice commit 0 12

digit_text : ℕ → String
digit_text n =
    if n == 0
    then "0"
    else if n == 1
    then "1"
    else if n == 2
    then "2"
    else if n == 3
    then "3"
    else if n == 4
    then "4"
    else if n == 5
    then "5"
    else if n == 6
    then "6"
    else if n == 7
    then "7"
    else if n == 8
    then "8"
    else "9"

-- `str(n)`: as many rounds as `n` has digits at most.
decimal_onto : ℕ → ℕ → String → String
decimal_onto zero n rest = rest
decimal_onto (suc fuel) n rest =
    let more = decimal_onto fuel (n / 10) (◌<>◌ (digit_text (n % 10)) rest) in
    if ltb n 10 then ◌<>◌ (digit_text n) rest else more

unfoldable pub decimal : ℕ → String
unfolding decimal_onto digit_text
decimal n = decimal_onto (suc n) n ""

pub text_iff : (a b : Text) → ((a == b) ≡ true) ↔ (a ≡ b)
text_iff a b = list_beq_iff a b

-- `text.lstrip(c)`, `text.rstrip(c)` for one character
abbrev pub strip_left : ℕ → Text → Text
strip_left d [] = []
strip_left d (c ∷ cs) = let rest = strip_left d cs in if c == d then rest else c ∷ cs

abbrev pub strip_right : ℕ → Text → Text
strip_right d [] = []
strip_right d (c ∷ cs) =
    let rest = strip_right d cs in
    if c == d then (elim rest [ [] ↦ [] | x ∷ xs ↦ c ∷ x ∷ xs ]) else c ∷ rest

-- `text.startswith(prefix)`, the prefix first
abbrev pub has_prefix : Text → Text → Bool
has_prefix [] s = true
has_prefix (p ∷ ps) [] = false
has_prefix (p ∷ ps) (c ∷ cs) = p == c && has_prefix ps cs

abbrev pub has_char : ℕ → Text → Bool
has_char d [] = false
has_char d (c ∷ cs) = c == d || has_char d cs

-- `text.split(c)`: one part more than there are separators
abbrev pub split_on : ℕ → Text → List Text
split_on d [] = [] ∷ []
split_on d (c ∷ cs) = elim (split_on d cs) [
  | [] ↦ [] ∷ []
  | part ∷ parts ↦ if c == d then [] ∷ part ∷ parts else (c ∷ part) ∷ parts
]

-- `text.splitlines()`, of line feeds
abbrev pub split_lines : Text → List Text
split_lines [] = []
split_lines (c ∷ cs) =
    let rest = split_lines cs in
    if c == 10
    then [] ∷ rest
    else elim rest [ [] ↦ (c ∷ []) ∷ [] | line ∷ lines ↦ (c ∷ line) ∷ lines ]

abbrev pub final_char : Text → Option ℕ
final_char [] = none
final_char (c ∷ []) = some c
final_char (c ∷ d ∷ cs) = final_char (d ∷ cs)

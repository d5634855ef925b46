-- ===== src/Common/Glob.antt =====
-- Python's `fnmatch.fnmatchcase` (POSIX: `fnmatch` is the same): `*`, `?` and `[...]`, over the
-- whole name; `*` crosses `/`.
use Prim.Native.Nat.{ℕ, zero, suc}
use mathlib.Core.Bool.{Bool, true, false, not, ◌&&◌, ◌||◌}
use mathlib.Core.List.{List, [], ◌∷◌, ◌++◌}
use mathlib.Core.Option.{Option, none, some}
use docker_development_envir.Common.Tests.{leb, if◌then◌else◌}
use docker_development_envir.Common.Equal.{◌==◌, nat_eq}
use docker_development_envir.Common.Lists.{length, any}
use docker_development_envir.Common.Texts.{Text}

pub data Token : Type 0 where
  many one : Token
  exactly : ℕ → Token
  -- negated or not, and the ranges of the brackets
  member : Bool → List (ℕ × ℕ) → Token

-- The text up to the closing bracket and what follows it; a `]` that stands first is a member.
unfoldable pub closing : Text → Text → Option (Text × Text)
closing seen [] = none
closing seen (c ∷ cs) =
    let more = closing (seen ++ c ∷ []) cs in
    if c == b']' && not (leb (length seen) 0) then some (seen, cs) else more

ranges_fuel : ℕ → Text → List (ℕ × ℕ)
ranges_fuel zero s = []
ranges_fuel (suc f) [] = []
ranges_fuel (suc f) (x ∷ []) = (x, x) ∷ []
ranges_fuel (suc f) (x ∷ d ∷ []) = (x, x) ∷ ranges_fuel f (d ∷ [])
ranges_fuel (suc f) (x ∷ d ∷ y ∷ r) =
    let span = ranges_fuel f r in
    let single = ranges_fuel f (d ∷ y ∷ r) in if d == b'-' then (x, y) ∷ span else (x, x) ∷ single

-- `a-z` is a range, a `-` at either end stands for itself.
abbrev ranges : Text → List (ℕ × ℕ)
ranges s = ranges_fuel (suc (length s)) s

-- A leading `!` negates, and is not part of the search for the closing bracket.
bracket : Text → Option (Token × Text)
bracket [] = none
bracket (c ∷ cs) =
    if c == b'!'
    then elim (closing [] cs) [ none ↦ none | some (s, rest) ↦ some (member true (ranges s), rest) ]
    else elim (closing [] (c ∷ cs)) [
      | none ↦ none
      | some (s, rest) ↦ some (member false (ranges s), rest)
    ]

-- Each round takes at least one character: the length is fuel enough.
tokens_fuel : ℕ → Text → List Token
tokens_fuel zero p = []
tokens_fuel (suc f) [] = []
tokens_fuel (suc f) (c ∷ cs) =
    let rest = tokens_fuel f cs in
    let inside : List Token = elim (bracket cs) [
      | none ↦ exactly c ∷ rest
      | some (t, after) ↦ t ∷ tokens_fuel f after
    ] in
    if c == b'*'
    then many ∷ rest
    else if c == b'?'
    then one ∷ rest
    else if c == b'['
    then inside
    else exactly c ∷ rest

unfoldable pub tokens : Text → List Token
unfolding tokens_fuel bracket closing ranges_fuel
tokens p = tokens_fuel (length p) p

unfoldable pub accepts : Token → ℕ → Bool
accepts many c = false
accepts one c = true
accepts (exactly d) c = d == c
accepts (member negated rs) c =
    let found = any (λ (r : ℕ × ℕ). leb r.0 c && leb c r.1) rs in
    if negated then not found else found

-- Some suffix satisfies the test.
unfoldable pub some_suffix : (Text → Bool) → Text → Bool
some_suffix k [] = k []
some_suffix k (c ∷ cs) = k (c ∷ cs) || some_suffix k cs

unfoldable pub take_one : Token → (Text → Bool) → Text → Bool
unfolding accepts
take_one t k [] = false
take_one t k (c ∷ cs) = accepts t c && k cs

unfoldable pub matches : List Token → Text → Bool
unfolding some_suffix take_one
matches [] [] = true
matches [] (c ∷ cs) = false
matches (many ∷ ts) s = some_suffix (matches ts) s
matches (one ∷ ts) s = take_one one (matches ts) s
matches (exactly d ∷ ts) s = take_one (exactly d) (matches ts) s
matches (member b rs ∷ ts) s = take_one (member b rs) (matches ts) s

unfoldable pub fnmatch : Text → Text → Bool
unfolding tokens matches
fnmatch name pattern = matches (tokens pattern) name

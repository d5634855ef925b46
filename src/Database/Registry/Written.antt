-- ===== src/Database/Registry/Written.antt =====
-- The lines that resolve appends to the registry are read back as the rows that they were written from.
use docker_development_envir.Common.{
  ℕ, zero, suc, Bool, true, false, not, ◌&&◌, ◌||◌, ◌==◌, nat_eq, list_eq, List, [], ◌∷◌, ◌++◌,
  Option, none, some, Text, ok, ◌≡◌, refl, ◌∙◌, ap, all, contains, has_char, map, Bool-cases,
  &&-eq-true, inl, inr, arith,
}
use docker_development_envir.Settings.Setup.{words}
use docker_development_envir.Domains.Words.{is_word, words-first, words-single, words-blank}
use docker_development_envir.Database.Registry.{
  Rule, base_rules, live_rules, before_hash, has_mark, expand_prefix, parse_fields, parse_registry,
  padded, rule_line,
}

blanks : ℕ → Text
blanks zero = []
blanks (suc n) = b' ' ∷ blanks n

words-blanks : (n : ℕ) (text : Text) → words (blanks n ++ text) ≡ words text
unfolding blanks
words-blanks zero text = refl
words-blanks (suc n) text = words-blank (blanks n ++ text) ∙ words-blanks n text

padded-blanks :
    (n : ℕ) (text rest : Text)
    → (m : ℕ) × (padded n text ++ b' ' ∷ rest ≡ text ++ b' ' ∷ (blanks m ++ rest))
unfolding padded blanks
padded-blanks zero text rest = (0, refl)
padded-blanks (suc n) [] rest =
    let more = padded-blanks n [] rest in (suc more.0, ap (◌∷◌ b' ') more.1)
padded-blanks (suc n) (c ∷ cs) rest =
    let more = padded-blanks n cs rest in (more.0, ap (◌∷◌ c) more.1)

words-padded :
    (n : ℕ) (text rest : Text)
    → is_word text ≡ true
    → words (padded n text ++ b' ' ∷ rest) ≡ text ∷ words rest
words-padded n text rest h =
    let more = padded-blanks n text rest in
    ap words more.1
    ∙ words-first text (blanks more.0 ++ rest) h
    ∙ ap (◌∷◌ text) (words-blanks more.0 rest)

-- A field that can stand in a line.
abbrev pub is_field : Text → Bool
is_field text = is_word text && not (has_char b'#' text)

-- A row that can be read back.
unfoldable pub is_row : Rule → Bool
is_row rule =
    is_field rule.table
    && (is_field rule.group
        && (is_field rule.base
            && (is_field rule.live
                && (not (has_mark rule.table)
                    && (contains rule.base base_rules && contains rule.live live_rules)))))

abbrev Plain : Text → Type 0
Plain text = (is_word text ≡ true) × (has_char b'#' text ≡ false)

Plain-field : (text : Text) → is_field text ≡ true → Plain text
Plain-field text h =
    let both = &&-eq-true (is_word text) (not (has_char b'#' text)) h in
    (both.0, not-true (has_char b'#' text) both.1)
  where
    not-true : (b : Bool) → not b ≡ true → b ≡ false
    not-true true k = absurd (cc)
    not-true false k = refl

record Readable (rule : Rule) : Type 0 where
  table : Plain rule.table
  group : Plain rule.group
  base : Plain rule.base
  live : Plain rule.live
  unmarked : not (has_mark rule.table) ≡ true
  known : (contains rule.base base_rules && contains rule.live live_rules) ≡ true

Readable-is_row : (rule : Rule) → is_row rule ≡ true → Readable rule
unfolding is_row
Readable-is_row rule h =
    let a = &&-eq-true (is_field rule.table) _ h in
    let b = &&-eq-true (is_field rule.group) _ a.1 in
    let c = &&-eq-true (is_field rule.base) _ b.1 in
    let d = &&-eq-true (is_field rule.live) _ c.1 in
    let e = &&-eq-true (not (has_mark rule.table)) _ d.1 in
    record {
      table = Plain-field rule.table a.0;
      group = Plain-field rule.group b.0;
      base = Plain-field rule.base c.0;
      live = Plain-field rule.live d.0;
      unmarked = e.0;
      known = e.1;
    }

before_hash-plain : (text : Text) → has_char b'#' text ≡ false → before_hash text ≡ text
unfolding before_hash
before_hash-plain [] h = refl
before_hash-plain (c ∷ cs) h =
    let other : (c == b'#') ≡ false = ground arith in
    rw other (ap (◌∷◌ c) (before_hash-plain cs (ground arith)))

has_char-append : (d : ℕ) (xs ys : Text) → has_char d (xs ++ ys) ≡ (has_char d xs || has_char d ys)
has_char-append d [] ys = refl
has_char-append d (x ∷ xs) ys = ground (arith, has_char-append d xs ys)

has_char-padded : (n : ℕ) (text : Text) → has_char b'#' (padded n text) ≡ has_char b'#' text
unfolding padded
has_char-padded zero text = refl
has_char-padded (suc n) [] = has_char-padded n []
has_char-padded (suc n) (c ∷ cs) = ap (λ b. c == b'#' || b) (has_char-padded n cs)

plain_part :
    (n : ℕ) (text rest : Text)
    → has_char b'#' text ≡ false
    → has_char b'#' rest ≡ false
    → has_char b'#' (padded n text ++ (b' ' ∷ rest)) ≡ false
plain_part n text rest h k =
    has_char-append b'#' (padded n text) (b' ' ∷ rest) ∙ rw (has_char-padded n text, h, k) refl

plain_line : (rule : Rule) → Readable rule → has_char b'#' (rule_line rule) ≡ false
unfolding rule_line
plain_line rule row = plain_part 48 rule.table _ row.table.1 (
    plain_part 12 rule.group _ row.group.1 (plain_part 6 rule.base rule.live row.base.1 row.live.1))

words-rule_line :
    (rule : Rule)
    → Readable rule
    → words (rule_line rule) ≡ rule.table ∷ rule.group ∷ rule.base ∷ rule.live ∷ []
unfolding rule_line
words-rule_line rule row =
    words-padded 48 rule.table _ row.table.0
    ∙ ap (◌∷◌ rule.table) (
        words-padded 12 rule.group _ row.group.0
        ∙ ap (◌∷◌ rule.group) (
            words-padded 6 rule.base rule.live row.base.0
            ∙ ap (◌∷◌ rule.base) (words-single rule.live row.live.0)))

expand_prefix-unmarked :
    (prefix : Option Text) (table : Text)
    → not (has_mark table) ≡ true
    → expand_prefix prefix table ≡ ok table
unfolding expand_prefix
expand_prefix-unmarked prefix table h = elim (Bool-cases (has_mark table)) [
  | inl marked ↦ (let no : not true ≡ true = rw marked at h in absurd (cc))
  | inr plain ↦ unmarked prefix plain
]
  where
    unmarked : (p : Option Text) → has_mark table ≡ false → expand_prefix p table ≡ ok table
    unmarked none k = rw k refl
    unmarked (some t) k = rw k refl

parse_fields-row :
    (prefix : Option Text) (raw : Text) (rule : Rule)
    → Readable rule
    → parse_fields prefix raw (rule.table ∷ rule.group ∷ rule.base ∷ rule.live ∷ []) ≡ ok rule
unfolding parse_fields
parse_fields-row prefix raw rule row =
    rw (row.known, expand_prefix-unmarked prefix rule.table row.unmarked) refl

-- The registry reads the lines that resolve appends as exactly the rows that were written, whatever the
-- prefix of the project's tables, as long as no field is empty or holds a blank or a #, no table name holds
-- {p}, and the rules are known ones.
pub parse_registry-rule_line :
    (prefix : Option Text) (rows : List Rule)
    → all is_row rows ≡ true
    → parse_registry prefix (map rule_line rows) ≡ ok rows
unfolding parse_registry
parse_registry-rule_line prefix [] h = refl
parse_registry-rule_line prefix (rule ∷ rows) h =
    let both = &&-eq-true (is_row rule) (all is_row rows) h in
    let row = Readable-is_row rule both.0 in
    rw
      (
        before_hash-plain (rule_line rule) (plain_line rule row),
        words-rule_line rule row,
        parse_fields-row prefix (rule_line rule) rule row,
        parse_registry-rule_line prefix rows both.1,
      )
      refl

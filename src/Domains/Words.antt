-- ===== src/Domains/Words.antt =====
-- `' '.join` and `split`: words that hold no blank are split as they were joined.
use docker_development_envir.Common.{
  ℕ, Bool, true, false, not, ◌&&◌, ◌||◌, ◌==◌, nat_eq, list_eq, List, [], ◌∷◌, ◌++◌, Text, ◌≡◌,
  refl, sym, ◌∙◌, ap, all, filter_by, is_empty, split_on, map, if◌then◌else◌, Bool-cases, inl, inr,
  arith,
}
use docker_development_envir.Settings.Dotenv.{is_space}
use docker_development_envir.Settings.Setup.{words}
use docker_development_envir.Domains.{spaced}

-- Text without blanks, and some of it.
abbrev pub is_word : Text → Bool
is_word word = not (is_empty word) && all (λ c. not (is_space c)) word

abbrev blanked : ℕ → ℕ
blanked c = if is_space c then 32 else c

-- A character that is no blank joins the first part.
split_on-plain :
    (c : ℕ) (text part : Text) (parts : List Text)
    → is_space c ≡ false
    → split_on 32 text ≡ part ∷ parts
    → split_on 32 (blanked c ∷ text) ≡ (c ∷ part) ∷ parts
split_on-plain c text part parts plain h =
    let other : (c == 32) ≡ false = ground arith in rw (h, plain, other) refl

pub split_on-parts :
    (d : ℕ) (text : Text) → (part : Text) × (parts : List Text) × (split_on d text ≡ part ∷ parts)
split_on-parts d [] = ([], [], refl)
split_on-parts d (c ∷ cs) =
    let rest = split_on-parts d cs in
    elim (Bool-cases (c == d)) [
      | inl blank ↦ ([], rest.0 ∷ rest.1, rw (rest.2, blank) refl)
      | inr plain ↦ (c ∷ rest.0, rest.1, rw (rest.2, plain) refl)
    ]

split_on-blank : (text : Text) → split_on 32 (32 ∷ text) ≡ [] ∷ split_on 32 text
split_on-blank text = let parts = split_on-parts 32 text in rw parts.2 refl

abbrev plain : Text → Bool
plain = all (λ c. not (is_space c))

split_on-last : (xs : Text) → plain xs ≡ true → split_on 32 (map blanked xs) ≡ xs ∷ []
split_on-last [] h = refl
split_on-last (c ∷ cs) h =
    split_on-plain c (map blanked cs) cs [] (ground arith) (split_on-last cs (ground arith))

split_on-first :
    (xs rest : Text)
    → plain xs ≡ true
    → split_on 32 (map blanked (xs ++ 32 ∷ rest)) ≡ xs ∷ split_on 32 (map blanked rest)
split_on-first [] rest h = split_on-blank (map blanked rest)
split_on-first (c ∷ cs) rest h =
    split_on-plain c (map blanked (cs ++ 32 ∷ rest)) cs (split_on 32 (map blanked rest))
      (ground arith) (split_on-first cs rest (ground arith))

pub words-single : (x : Text) → is_word x ≡ true → words x ≡ x ∷ []
unfolding words
words-single x h =
    rw (split_on-last x (ground arith))
      (let full : is_empty x ≡ false = ground arith in rw full refl)

pub words-first : (x rest : Text) → is_word x ≡ true → words (x ++ 32 ∷ rest) ≡ x ∷ words rest
unfolding words
words-first x rest h =
    rw (split_on-first x rest (ground arith))
      (let full : is_empty x ≡ false = ground arith in rw full refl)

pub words-blank : (text : Text) → words (32 ∷ text) ≡ words text
unfolding words
words-blank text = ap (filter_by (λ word. not (is_empty word))) (split_on-blank (map blanked text))

words_empty : words [] ≡ []
unfolding words
words_empty = refl

-- What is joined from words splits into them.
pub words-spaced : (xs : List Text) → all is_word xs ≡ true → words (spaced xs) ≡ xs
unfolding spaced
words-spaced [] h = words_empty
words-spaced (x ∷ []) h = words-single x (ground arith)
words-spaced (x ∷ y ∷ xs) h =
    words-first x (spaced (y ∷ xs)) (ground arith)
    ∙ ap (◌∷◌ x) (words-spaced (y ∷ xs) (ground arith))

abbrev unblank : Text → Bool
unblank = all (λ c. not (is_space c) || c == 32)

-- The parts between blanks hold none.
split_on-plain_parts : (text : Text) → all plain (split_on 32 (map blanked text)) ≡ true
split_on-plain_parts [] = refl
split_on-plain_parts (c ∷ cs) =
    let rest = split_on-parts 32 (map blanked cs) in
    let fine : all plain (rest.0 ∷ rest.1) ≡ true =
      ap (all plain) (sym rest.2) ∙ split_on-plain_parts cs in
    elim (Bool-cases (is_space c)) [
      | inl blank ↦
          (let is_blank : blanked c ≡ 32 = ground arith in
            ap (all plain) (
              ap (λ k. split_on 32 (k ∷ map blanked cs)) is_blank ∙ split_on-blank (map blanked cs))
            ∙ split_on-plain_parts cs)
      | inr other ↦
          ap (all plain) (split_on-plain c (map blanked cs) rest.0 rest.1 other rest.2)
          ∙ ground arith
    ]

filter_by-is_word :
    (parts : List Text)
    → all plain parts ≡ true
    → all is_word (filter_by (λ part. not (is_empty part)) parts) ≡ true
filter_by-is_word [] h = refl
filter_by-is_word (part ∷ parts) h = elim (Bool-cases (is_empty part)) [
  | inl empty ↦ rw empty (filter_by-is_word parts (ground arith))
  | inr full ↦ rw full (
      let first : is_word part ≡ true = ground arith in
      let rest = filter_by-is_word parts (ground arith) in ground arith)
]

pub is_word-words : (text : Text) → all is_word (words text) ≡ true
unfolding words
is_word-words text = filter_by-is_word (split_on 32 (map blanked text)) (split_on-plain_parts text)

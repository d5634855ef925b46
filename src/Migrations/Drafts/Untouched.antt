-- ===== src/Migrations/Drafts/Untouched.antt =====
-- A draft as it was written counts as unedited.
use docker_development_envir.Common.{
  ℕ, suc, Bool, true, false, ◌&&◌, ◌==◌, nat_eq, list_eq, [], ◌∷◌, ◌++◌, some, Text, ok, codes, ◌≡◌,
  refl, sym, ◌∙◌, ap, subst, all, take, drop, length, has_char, Bool-cases, &&-eq-true, inl, inr,
  arith, beq_self,
}
use docker_development_envir.Common.Results.{>>=-ok, ok-injective}
use docker_development_envir.Migrations.Drafts.{NamedLines, DraftError}
use docker_development_envir.Migrations.Drafts.Written.{line_end}
use docker_development_envir.Migrations.Drafts.Draft.{changes, blocks_text, draft_text}
use docker_development_envir.Migrations.Drafts.Folder.{
  draft_marker, is_hex, digits_of, checksum_line, untouched_draft,
}

-- What hashlib gives: 64 hexadecimal digits.
abbrev pub is_digest : Text → Bool
is_digest text = all is_hex text && length text == 64

take-length : (xs ys : Text) → take (length xs) (xs ++ ys) ≡ xs
take-length [] ys = refl
take-length (x ∷ xs) ys = ap (◌∷◌ x) (take-length xs ys)

drop-length : (xs ys : Text) → drop (length xs) (xs ++ ys) ≡ ys
drop-length [] ys = refl
drop-length (x ∷ xs) ys = drop-length xs ys

drop-suc : (xs : Text) (c : ℕ) (ys : Text) → drop (suc (length xs)) (xs ++ c ∷ ys) ≡ ys
drop-suc [] c ys = refl
drop-suc (x ∷ xs) c ys = drop-suc xs c ys

digits_of-digest :
    (digits rest : Text)
    → is_digest digits ≡ true
    → digits_of (digits ++ 10 ∷ rest) ≡ some (digits, rest)
unfolding digits_of
digits_of-digest digits rest h =
    let both = &&-eq-true (all is_hex digits) (length digits == 64) h in
    let size : length digits ≡ 64 = ground arith in
    let taken =
      subst (λ n. take n (digits ++ 10 ∷ rest) ≡ digits) size (take-length digits (10 ∷ rest)) in
    let left =
      subst (λ n. drop n (digits ++ 10 ∷ rest) ≡ 10 ∷ rest) size (drop-length digits (10 ∷ rest)) in
    let after =
      subst (λ n. drop (suc n) (digits ++ 10 ∷ rest) ≡ rest) size (drop-suc digits 10 rest) in
    rw (taken, left, after, both.0, both.1) refl

is_hex-line : (text : Text) → all is_hex text ≡ true → has_char 10 text ≡ false
unfolding is_hex
is_hex-line [] h = refl
is_hex-line (c ∷ cs) h =
    let both = &&-eq-true (is_hex c) (all is_hex cs) h in
    let other : (c == 10) ≡ false = elim (Bool-cases (c == 10)) [
      | inr plain ↦ plain
      | inl feed ↦
          (let eq : c ≡ 10 = ground arith in
            let no : is_hex 10 ≡ true = ap is_hex (sym eq) ∙ both.0 in absurd (cc))
    ] in
    rw (other, is_hex-line cs both.1) refl

checksum_line-skip :
    (line rest : Text)
    → has_char 10 line ≡ false
    → checksum_line false (line ++ 10 ∷ rest) ≡ checksum_line true rest
unfolding checksum_line
checksum_line-skip [] rest h = refl
checksum_line-skip (c ∷ cs) rest h =
    let other : (c == 10) ≡ false = ground arith in
    rw other (checksum_line-skip cs rest (ground arith))

checksum_line-body :
    (digits body : Text)
    → is_digest digits ≡ true
    → checksum_line true (codes "-- Draft checksum: " ++ (digits ++ (line_end ++ body)))
      ≡ some (digits, body)
unfolding checksum_line
checksum_line-body digits body h = rw (digits_of-digest digits body h, checksum_line) refl

checksum_line-draft :
    (fingerprint digits body : Text)
    → all is_hex fingerprint ≡ true
    → is_digest digits ≡ true
    → checksum_line true (
        codes "-- Schema change: "
        ++ (fingerprint
            ++ (line_end ++ (codes "-- Draft checksum: " ++ (digits ++ (line_end ++ body))))))
      ≡ some (digits, body)
unfolding checksum_line
checksum_line-draft fingerprint digits body h k =
    checksum_line-skip (drop 1 draft_marker ++ fingerprint) _ (is_hex-line fingerprint h)
    ∙ checksum_line-body digits body k

untouched_draft-header :
    (digest : Text → Text) (fingerprint body : Text)
    → all is_hex fingerprint ≡ true
    → is_digest (digest body) ≡ true
    → untouched_draft digest (
        codes "-- Schema change: "
        ++ (fingerprint
            ++ (line_end ++ (codes "-- Draft checksum: " ++ (digest body ++ (line_end ++ body))))))
      ≡ true
unfolding untouched_draft
untouched_draft-header digest fingerprint body h k =
    rw (checksum_line-draft fingerprint (digest body) body h k, untouched_draft)
      (beq_self (digest body))

-- A migration that draft_text writes counts as one that nobody has edited, whatever the two sets of tables, as
-- SHA-256 gives 64 hexadecimal digits.
pub untouched_draft-draft_text :
    (digest : Text → Text) (fingerprint : NamedLines → NamedLines → Text)
    (before after : NamedLines) {text : Text}
    → ((body : Text) → is_digest (digest body) ≡ true)
    → ((old new : NamedLines) → is_digest (fingerprint old new) ≡ true)
    → draft_text digest fingerprint before after ≡ ok text
    → untouched_draft digest text ≡ true
unfolding draft_text untouched_draft
untouched_draft-draft_text digest fingerprint before after {text} good sound h =
    let forward = >>=-ok (changes before after false) _ h in
    let back = >>=-ok (changes after before true) _ forward.2 in
    let body : Text =
      blocks_text forward.0
      ++ (line_end ++ (codes "-- Rollback:" ++ (line_end ++ blocks_text back.0))) in
    let hex = &&-eq-true (all is_hex (fingerprint before after)) _ (sound before after) in
    subst (λ (t : Text). untouched_draft digest t ≡ true) (ok-injective {E = DraftError} back.2)
      (untouched_draft-header digest (fingerprint before after) body hex.0 (good body))

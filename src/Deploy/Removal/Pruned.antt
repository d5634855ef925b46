-- ===== src/Deploy/Removal/Pruned.antt =====
-- Which releases prune_releases leaves on the deploying machine.
use docker_development_envir.Common.{
  ℕ, Bool, true, false, not, ◌&&◌, ◌==◌, nat_eq, string_eq, List, [], ◌∷◌, ◌++◌, Option, none, some,
  String, ◌≡◌, refl, sym, ◌∙◌, ap, contains, filter_by, last?, length, drop, short, if◌then◌else◌,
  Bool-cases, inl, inr, arith, beq_self,
}
use mathlib.Core.Option.{none-ne-some}
use docker_development_envir.Common.Members.{contains-append, contains-filter_by}
use docker_development_envir.Attempts.{Entry, is_failed}
use docker_development_envir.Deploy.History.{rollback_entry, reversed}
use docker_development_envir.Deploy.History.Laws.{is_target, rollback_entry-concat}
use docker_development_envir.Deploy.Removal.{distinct_releases, keep_releases, pruned}

-- The first entry that passes a test.
first_of : (Entry → Bool) → List Entry → Option Entry
first_of p [] = none
first_of p (x ∷ xs) = let rest = first_of p xs in if p x then some x else rest

first_of-here :
    (p : Entry → Bool) (x : Entry) (xs : List Entry) → p x ≡ true → first_of p (x ∷ xs) ≡ some x
unfolding first_of
first_of-here p x xs h = rw h refl

first_of-there :
    (p : Entry → Bool) (x : Entry) (xs : List Entry)
    → p x ≡ false
    → first_of p (x ∷ xs) ≡ first_of p xs
unfolding first_of
first_of-there p x xs h = rw h refl

abbrev or_else : Option Entry → Option Entry → Option Entry
or_else none other = other
or_else (some e) other = some e

first_of-concat :
    (p : Entry → Bool) (xs : List Entry) (x : Entry)
    → first_of p (xs ++ x ∷ []) ≡ or_else (first_of p xs) (if p x then some x else none)
unfolding first_of
first_of-concat p [] x = refl
first_of-concat p (y ∷ xs) x = elim (Bool-cases (p y)) [
  | inl h ↦ rw h refl
  | inr h ↦ rw h (first_of-concat p xs x)
]

last?-some : (x : Entry) (xs : List Entry) → (e : Entry) × (last? (x ∷ xs) ≡ some e)
last?-some x [] = (x, refl)
last?-some x (y ∷ xs) = last?-some y xs

or_else-none : (o : Option Entry) → or_else o none ≡ o
or_else-none none = refl
or_else-none (some e) = refl

last?-cons : (x : Entry) (xs : List Entry) → last? (x ∷ xs) ≡ or_else (last? xs) (some x)
last?-cons x [] = refl
last?-cons x (y ∷ []) = refl
last?-cons x (y ∷ z ∷ xs) = rw (last?-some z xs).1 refl

first_of-reversed :
    (p : Entry → Bool) (xs : List Entry) → first_of p (reversed xs) ≡ last? (filter_by p xs)
unfolding first_of
first_of-reversed p [] = refl
first_of-reversed p (x ∷ xs) = elim (Bool-cases (p x)) [
  | inl h ↦ rw h (
      first_of-concat p (reversed xs) x
      ∙ rw h (
          ap (λ o. or_else o (some x)) (first_of-reversed p xs)
          ∙ sym (last?-cons x (filter_by p xs))))
  | inr h ↦ rw h (
      first_of-concat p (reversed xs) x
      ∙ rw h (or_else-none (first_of p (reversed xs)) ∙ first_of-reversed p xs))
]

reversed-concat : (xs : List Entry) (x : Entry) → reversed (xs ++ x ∷ []) ≡ x ∷ reversed xs
reversed-concat [] x = refl
reversed-concat (y ∷ xs) x = ap (λ l. l ++ y ∷ []) (reversed-concat xs x)

abbrev next_seen : List String → Entry → List String
next_seen seen e =
    if not (is_failed e) && not (contains (short e.commit) seen)
    then seen ++ short e.commit ∷ []
    else seen

contains-if :
    (b : Bool) (xs ys : List String) (a : String)
    → contains a xs ≡ true
    → contains a ys ≡ true
    → contains a (if b then xs else ys) ≡ true
contains-if true xs ys a h k = h
contains-if false xs ys a h k = k

contains-next_seen :
    (seen : List String) (e : Entry) (a : String)
    → contains a seen ≡ true
    → contains a (next_seen seen e) ≡ true
contains-next_seen seen e a h =
    contains-if (not (is_failed e) && not (contains (short e.commit) seen)) _ _ a
      (contains-append a seen (short e.commit ∷ []) ∙ rw h refl) h

-- What is found stays found.
contains-distinct_releases :
    (n : ℕ) (seen : List String) (es : List Entry) (a : String)
    → contains a seen ≡ true
    → contains a (distinct_releases n seen es) ≡ true
unfolding distinct_releases
contains-distinct_releases n seen [] a h = h
contains-distinct_releases n seen (e ∷ es) a h =
    let k = contains-next_seen seen e a h in
    contains-if (length (next_seen seen e) == n) (next_seen seen e) _ a k
      (contains-distinct_releases n (next_seen seen e) es a k)

-- Before the rollback target no release but the last entry's was found.
seen_of : Bool → String → List String
seen_of false name = []
seen_of true name = name ∷ []

module _ (final : Entry) where
  abbrev found : Bool → List String
  found b = seen_of b (short final.commit)

  -- The target itself is found.
  found-target :
      (b : Bool) (e : Entry)
      → is_failed e ≡ false
      → contains (short e.commit) (next_seen (found b) e) ≡ true
  found-target b e h = elim (Bool-cases (contains (short e.commit) (found b))) [
    | inl k ↦ rw (h, k) k
    | inr k ↦
        rw (h, k)
          (contains-append (short e.commit) (found b) (short e.commit ∷ [])
            ∙ rw (k, beq_self (short e.commit)) refl)
  ]

  again :
      (b : Bool) (e : Entry)
      → is_failed e ≡ false
      → e.commit ≡ final.commit
      → (c : Bool) × (next_seen (found b) e ≡ found c)
  unfolding seen_of
  again false e k same = (true, rw k (ap (λ (c : String). short c ∷ []) same))
  again true e k same =
      (true, rw (k, ap (λ (c : String). short c) same, beq_self (short final.commit)) refl)

  -- An entry that is no target changes nothing but that the last entry's release is found.
  next_found :
      (b : Bool) (e : Entry)
      → is_target final e ≡ false
      → (c : Bool) × (next_seen (found b) e ≡ found c)
  next_found b e h = elim (Bool-cases (is_failed e)) [
    | inl k ↦ (b, rw k refl)
    | inr k ↦ again b e k ((string_eq.beq_iff e.commit final.commit).0 (ground arith))
  ]

  open_found : (c : Bool) → (length (found c) == 3) ≡ false
  unfolding seen_of
  open_found false = refl
  open_found true = refl

  target_found :
      (b : Bool) (es : List Entry) (target : Entry)
      → first_of (is_target final) es ≡ some target
      → contains (short target.commit) (distinct_releases 3 (found b) es) ≡ true
  unfolding distinct_releases first_of
  target_found b [] target h = absurd (none-ne-some target h)
  target_found b (e ∷ es) target h = elim (Bool-cases (is_target final e)) [
    | inl k ↦
        (let both : some e ≡ some target = sym (first_of-here (is_target final) e es k) ∙ h in
          let same : e ≡ target = cc in
          let kept : contains (short e.commit) (next_seen (found b) e) ≡ true =
            found-target b e (ground arith) in
          rw (← same) (
            contains-if (length (next_seen (found b) e) == 3) _ _ (short e.commit) kept
              (contains-distinct_releases 3 (next_seen (found b) e) es (short e.commit) kept)))
    | inr k ↦
        (let next = next_found b e k in
          let later : first_of (is_target final) es ≡ some target =
            sym (first_of-there (is_target final) e es k) ∙ h in
          rw (next.1, open_found next.0) (target_found next.0 es target later))
  ]

filter_by-unused :
    (used held names : List String) (keep name : String)
    → contains name used ≡ true
    → contains name (filter_by (λ n. not (contains n ((keep ∷ used) ++ held))) names) ≡ false
filter_by-unused used held names keep name h =
    contains-filter_by (λ n. not (contains n ((keep ∷ used) ++ held))) name names
    ∙ (let all = contains-append name (keep ∷ used) held in ground arith)

-- prune_releases keeps the release that a rollback returns to: when a history that ends in the entry
-- `e` has a rollback target, the first 12 digits of the target's commit are not among the names that
-- prune_releases removes, whichever release is being deployed and whatever folders there are.
pub pruned-rollback_entry :
    (entries : List Entry) (e target : Entry) (keep : String) (releases : List String)
    → rollback_entry (entries ++ e ∷ []) ≡ some target
    → contains (short target.commit) (pruned (entries ++ e ∷ []) keep releases) ≡ false
unfolding pruned seen_of
pruned-rollback_entry entries e target keep releases h =
    let no_target : is_target e e ≡ false = (let same = beq_self e.commit in ground arith) in
    let first =
      first_of-there (is_target e) e (reversed entries) no_target
      ∙ first_of-reversed (is_target e) entries
      ∙ sym (rollback_entry-concat entries e)
      ∙ h in
    let kept = target_found e false (e ∷ reversed entries) target first in
    rw (reversed-concat entries e)
      (filter_by-unused _ _ (drop keep_releases releases) keep (short target.commit) kept)

-- ===== src/Common/Members.antt =====
-- Membership by recursion, and the lemmas on the last item that passes a test.
use mathlib.Core.Bool.{Bool, true, false, ◌&&◌, ◌||◌, and-false as and_false}
use mathlib.Core.List.{map, List, [], ◌∷◌, ◌++◌, append-nil}
use mathlib.Core.Logic.{◌⊎◌, inl, inr}
use mathlib.Core.Option.{none, some}
use mathlib.Core.Path.{◌≡◌, refl, ap, ◌∙◌}
use native.Mathlib.Omega.{arith}
use docker_development_envir.Common.Tests.{Bool-cases}
use docker_development_envir.Common.Equal.{Eq, ◌==◌, beq_self}
use docker_development_envir.Common.Lists.{get, all, contains, filter_by, last?, init, last?-concat}

-- `a in items`, as a type
abbrev pub In : {A : Type 0} → A → List A → Type 0
In a [] = ⊥
In a (x ∷ xs) = (x ≡ a) ⊎ In a xs

module _ {A : Type 0} where
  pub last?-In : (xs : List A) {a : A} → last? xs ≡ some a → In a xs
  last?-In [] h = absurd (cc)
  last?-In (x ∷ []) h = inl (cc)
  last?-In (x ∷ y ∷ xs) h = inr (last?-In (y ∷ xs) h)

  pub last?-init : (xs : List A) {a : A} → last? xs ≡ some a → xs ≡ init xs ++ a ∷ []
  last?-init [] h = cc
  last?-init (x ∷ []) h = cc
  last?-init (x ∷ y ∷ xs) h = ap (◌∷◌ x) (last?-init (y ∷ xs) h)

module _ {A : Type 0} (p : A → Bool) where
  pub filter_by-In : (xs : List A) {a : A} → In a (filter_by p xs) → (p a ≡ true) × In a xs
  filter_by-In [] m = absurd m
  filter_by-In (x ∷ xs) {a} m = elim (Bool-cases (p x)) [
    | inl h ↦ (elim (rw h at m) [
      | inl e ↦ (rw (← e) h, inl e)
      | inr r ↦ (let q = filter_by-In xs r in (q.0, inr q.1))
    ])
    | inr h ↦ (let q = filter_by-In xs (rw h at m) in (q.0, inr q.1))
  ]

  pub In-filter_by : (xs : List A) {a : A} → p a ≡ true → In a xs → In a (filter_by p xs)
  In-filter_by [] h m = m
  In-filter_by (x ∷ xs) {a} h (inl e) = rw e (rw h (inl refl))
  In-filter_by (x ∷ xs) {a} h (inr m) = elim (Bool-cases (p x)) [
    | inl k ↦ rw k (inr (In-filter_by xs h m))
    | inr k ↦ rw k (In-filter_by xs h m)
  ]

  pub filter_by-concat :
      (xs : List A) (a : A) → filter_by p (xs ++ a ∷ []) ≡ filter_by p xs ++ filter_by p (a ∷ [])
  filter_by-concat [] a = refl
  filter_by-concat (x ∷ xs) a = elim (Bool-cases (p x)) [
    | inl h ↦ rw h (ap (◌∷◌ x) (filter_by-concat xs a))
    | inr h ↦ rw h (filter_by-concat xs a)
  ]

  pub last_kept : (xs : List A) (a : A) → p a ≡ true → last? (filter_by p (xs ++ a ∷ [])) ≡ some a
  last_kept xs a h = rw filter_by-concat (rw h (last?-concat (filter_by p xs) a))

  pub last_dropped :
      (xs : List A) (a : A)
      → p a ≡ false
      → last? (filter_by p (xs ++ a ∷ [])) ≡ last? (filter_by p xs)
  last_dropped xs a h = rw filter_by-concat (rw h (rw append-nil))

module _ {A : Type 0} (p q : A → Bool) where
  filter_by_twice : (xs : List A) → filter_by (λ x. p x && q x) xs ≡ filter_by q (filter_by p xs)
  filter_by_twice [] = refl
  filter_by_twice (x ∷ xs) = elim (Bool-cases (p x)) [
    | inl h ↦ rw h (rw (filter_by_twice xs))
    | inr h ↦ rw h (filter_by_twice xs)
  ]

  -- The last item that passes one test is the last that passes two, if it passes the second.
  pub last_both :
      (xs : List A) (a : A)
      → last? (filter_by p xs) ≡ some a
      → q a ≡ true
      → last? (filter_by (λ x. p x && q x) xs) ≡ some a
  last_both xs a h k =
      rw filter_by_twice
        (rw (last?-init (filter_by p xs) h) (last_kept q (init (filter_by p xs)) a k))

module _ {A : Type 0} ⦃e : Eq A⦄ where
  pub contains-append :
      (a : A) (xs ys : List A) → contains a (xs ++ ys) ≡ (contains a xs || contains a ys)
  contains-append a [] ys = refl
  contains-append a (x ∷ xs) ys = ground (arith, contains-append a xs ys)

  pub get-absent :
      {V : Type 0} (key : A) (m : List (A × V))
      → contains key (map (λ (entry : A × V). entry.0) m) ≡ false
      → get key m ≡ none
  get-absent key [] h = refl
  get-absent key ((first, value) ∷ m) h =
      let other : (first == key) ≡ false = ground arith in
      rw other (get-absent key m (ground arith))

  pub contains-get :
      {V : Type 0} (key : A) (m : List (A × V))
      → contains key (map (λ (entry : A × V). entry.0) m) ≡ true
      → (value : V) × (get key m ≡ some value)
  contains-get key [] h = absurd (cc)
  contains-get key ((first, value) ∷ m) h = elim (Bool-cases (first == key)) [
    | inl same ↦ (value, rw same refl)
    | inr other ↦ (let rest = contains-get key m (rw other at h) in (rest.0, rw other rest.1))
  ]

  -- Where an image stands, it is the image of an item.
  pub contains-map :
      {B : Type 0} (f : B → A) (a : A) (xs : List B)
      → contains a (map f xs) ≡ true
      → (x : B) × In x xs × (f x ≡ a)
  contains-map f a [] h = absurd (cc)
  contains-map f a (x ∷ xs) h = elim (Bool-cases (f x == a)) [
    | inl same ↦ (x, inl refl, (e.beq_iff (f x) a).0 same)
    | inr other ↦ (let rest = contains-map f a xs (rw other at h) in (rest.0, inr rest.1, rest.2))
  ]

  pub contains-In : (a : A) (xs : List A) → In a xs → contains a xs ≡ true
  contains-In a [] here = elim here [ ]
  contains-In a (x ∷ xs) (inl here) = rw (here, beq_self a) refl
  contains-In a (x ∷ xs) (inr there) = rw (contains-In a xs there) (or_true (x == a))
    where
      or_true : (b : Bool) → (b || true) ≡ true
      or_true true = refl
      or_true false = refl

  pub all-contains :
      (p : A → Bool) (a : A) (xs : List A) → all p xs ≡ true → contains a xs ≡ true → p a ≡ true
  all-contains p a [] h k = absurd (cc)
  all-contains p a (x ∷ xs) h k = elim (Bool-cases (x == a)) [
    | inl same ↦ (let eq : x ≡ a = (e.beq_iff x a).0 same in rw (← eq) (ground arith))
    | inr other ↦ all-contains p a xs (ground arith) (ground arith)
  ]

  pub contains-filter_by :
      (p : A → Bool) (a : A) (xs : List A) → contains a (filter_by p xs) ≡ (contains a xs && p a)
  contains-filter_by p a [] = refl
  contains-filter_by p a (x ∷ xs) = elim (Bool-cases (x == a)) [
    | inl same ↦
        (let eq : x ≡ a = (e.beq_iff x a).0 same in
          rw (← eq) (elim (Bool-cases (p x)) [
            | inl h ↦ rw (h, beq_self x)
            | inr h ↦
                rw (h, beq_self x) (contains-filter_by p x xs ∙ rw h (and_false (contains x xs)))
          ]))
    | inr other ↦ (elim (Bool-cases (p x)) [
      | inl h ↦ rw (h, other) (contains-filter_by p a xs)
      | inr h ↦ rw (h, other) (contains-filter_by p a xs)
    ])
  ]

-- ===== src/Common/Lists.antt =====
-- Lists measured by native numbers, Python's list operations, and association lists for `dict`.
use Prim.Native.Nat.{ℕ, zero, suc, ◌+◌}
use mathlib.Core.Path.{◌≡◌, refl, ap}
use mathlib.Core.Bool.{Bool, true, false, not, ◌&&◌, ◌||◌}
use mathlib.Core.List.{List, [], ◌∷◌, ◌++◌}
use mathlib.Core.Option.{Option, none, some}
use native.Mathlib.Omega.{arith}
use docker_development_envir.Common.Tests.{if◌then◌else◌}
use docker_development_envir.Common.Equal.{Eq, ◌==◌}

module _ {ℓ} {A : Type ℓ} where
  abbrev pub length : List A → ℕ
  length [] = 0
  length (x ∷ xs) = suc (length xs)

  abbrev pub take : ℕ → List A → List A
  take zero xs = []
  take (suc n) [] = []
  take (suc n) (x ∷ xs) = x ∷ take n xs

  abbrev pub drop : ℕ → List A → List A
  drop zero xs = xs
  drop (suc n) [] = []
  drop (suc n) (x ∷ xs) = drop n xs

  -- `items[-1]`
  abbrev pub last? : List A → Option A
  last? [] = none
  last? (x ∷ []) = some x
  last? (x ∷ y ∷ xs) = last? (y ∷ xs)

  -- `items[:-1]`
  abbrev pub init : List A → List A
  init [] = []
  init (x ∷ []) = []
  init (x ∷ y ∷ xs) = x ∷ init (y ∷ xs)

  -- `[item for item in items if test(item)]`
  abbrev pub filter_by : (A → Bool) → List A → List A
  filter_by p [] = []
  filter_by p (x ∷ xs) = let rest = filter_by p xs in if p x then x ∷ rest else rest

  abbrev pub any : (A → Bool) → List A → Bool
  any p [] = false
  any p (x ∷ xs) = p x || any p xs

  abbrev pub all : (A → Bool) → List A → Bool
  all p [] = true
  all p (x ∷ xs) = p x && all p xs

  abbrev pub is_empty : List A → Bool
  is_empty [] = true
  is_empty (x ∷ xs) = false

  pub length-append : (xs ys : List A) → length (xs ++ ys) ≡ length xs + length ys
  length-append [] ys = omega arith
  length-append (x ∷ xs) ys = omega (arith, length-append xs ys)

  pub last?-concat : (xs : List A) (x : A) → last? (xs ++ x ∷ []) ≡ some x
  last?-concat [] x = refl
  last?-concat (y ∷ []) x = refl
  last?-concat (y ∷ z ∷ xs) x = last?-concat (z ∷ xs) x

  pub init-concat : (xs : List A) (x : A) → init (xs ++ x ∷ []) ≡ xs
  init-concat [] x = refl
  init-concat (y ∷ []) x = refl
  init-concat (y ∷ z ∷ xs) x = ap (◌∷◌ y) (init-concat (z ∷ xs) x)

module _ {ℓ} {A : Type ℓ} ⦃e : Eq A⦄ where
  -- `a in items`
  abbrev pub contains : A → List A → Bool
  contains a [] = false
  contains a (x ∷ xs) = x == a || contains a xs

  -- `dict.fromkeys(items)`: each item once, where it first stands
  abbrev pub dedup_onto : List A → List A → List A
  dedup_onto seen [] = []
  dedup_onto seen (x ∷ xs) =
      let fresh = dedup_onto (x ∷ seen) xs in
      let again = dedup_onto seen xs in if contains x seen then again else x ∷ fresh

  abbrev pub dedup : List A → List A
  dedup = dedup_onto []

  -- No item stands twice.
  abbrev pub is_distinct : List A → Bool
  is_distinct [] = true
  is_distinct (x ∷ xs) = not (contains x xs) && is_distinct xs

-- A `dict` as an association list in insertion order.
module _ {ℓ κ} {K : Type ℓ} ⦃e : Eq K⦄ {V : Type κ} where
  abbrev pub get : K → List (K × V) → Option V
  get key [] = none
  get key ((first, value) ∷ rest) = if first == key then some value else get key rest

  -- `d[k] = v`: in place if the key is there, else at the end
  abbrev pub put : K → V → List (K × V) → List (K × V)
  put key v [] = (key, v) ∷ []
  put key v ((first, old) ∷ rest) =
      if first == key then (first, v) ∷ rest else (first, old) ∷ put key v rest

  pub get-put :
      (k j : K) (v : V) (m : List (K × V))
      → get j (put k v m) ≡ (if k == j then some v else get j m)
  get-put k j v [] = refl
  get-put k j v ((i, w) ∷ m) =
      ground (arith, e.beq_iff k j, e.beq_iff i k, e.beq_iff i j, get-put k j v m)

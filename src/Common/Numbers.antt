-- ===== src/Common/Numbers.antt =====
-- Decimal numbers in texts: `int(text)` and `str(number)`.
use Prim.Native.Nat.{ℕ, zero, suc, ◌+◌, ◌-◌, ◌*◌, ◌/◌, ◌%◌, ◌<◌}
use mathlib.Core.Bool.{Bool, true, false, not, ◌&&◌}
use mathlib.Core.List.{[], ◌∷◌, ◌++◌}
use mathlib.Core.Path.{◌≡◌, refl, ◌∙◌}
use mathlib.Core.Logic.{inl, inr}
use native.Mathlib.Omega.{arith}
use docker_development_envir.Common.Tests.{leb, ltb, if◌then◌else◌, Bool-cases}
use docker_development_envir.Common.Equal.{nat_eq}
use docker_development_envir.Common.Lists.{all, is_empty}
use docker_development_envir.Common.Texts.{Text, is_digit}

unfoldable pub number_of : ℕ → Text → ℕ
number_of n [] = n
number_of n (c ∷ cs) = number_of (n * 10 + (c - 48)) cs

-- `re.fullmatch(r'\d+', text)`, on ASCII
abbrev pub is_number : Text → Bool
is_number text = not (is_empty text) && all is_digit text

-- `re.fullmatch(r'[1-9]\d*', text)`, on ASCII
abbrev pub is_positive : Text → Bool
is_positive [] = false
is_positive (c ∷ cs) = leb b'1' c && leb c b'9' && all is_digit cs

-- The first argument is more than the number has digits.
digits_with : ℕ → ℕ → Text
digits_with zero n = []
digits_with (suc f) n =
    let more = digits_with f (n / 10) ++ (48 + n % 10) ∷ [] in
    if ltb n 10 then (48 + n) ∷ [] else more

-- `str(n)`
unfoldable pub digits : ℕ → Text
unfolding digits_with
digits n = digits_with (suc n) n

number_of-concat :
    (n : ℕ) (cs : Text) (c : ℕ) → number_of n (cs ++ c ∷ []) ≡ number_of n cs * 10 + (c - 48)
unfolding number_of
number_of-concat n [] c = refl
number_of-concat n (d ∷ cs) c = number_of-concat (n * 10 + (d - 48)) cs c

number_of-digits_with : (f n : ℕ) → n < f → number_of 0 (digits_with f n) ≡ n
unfolding digits_with number_of
number_of-digits_with zero n h = absurd (omega arith)
number_of-digits_with (suc f) n h = elim (Bool-cases (ltb n 10)) [
  | inl small ↦ rw small (omega arith)
  | inr large ↦ rw large (
      number_of-concat 0 (digits_with f (n / 10)) (48 + n % 10)
      ∙ ground (arith, number_of-digits_with f (n / 10)))
]

pub number_of-digits : (n : ℕ) → number_of 0 (digits n) ≡ n
unfolding digits
number_of-digits n = number_of-digits_with (suc n) n (omega arith)

all-append : (p : ℕ → Bool) (xs ys : Text) → all p (xs ++ ys) ≡ (all p xs && all p ys)
all-append p [] ys = refl
all-append p (x ∷ xs) ys = ground (arith, all-append p xs ys)

is_digit-digits_with : (f n : ℕ) → all is_digit (digits_with f n) ≡ true
unfolding digits_with
is_digit-digits_with zero n = refl
is_digit-digits_with (suc f) n = elim (Bool-cases (ltb n 10)) [
  | inl small ↦ rw small (ground arith)
  | inr large ↦ rw large (
      all-append is_digit (digits_with f (n / 10)) ((48 + n % 10) ∷ [])
      ∙ ground (arith, is_digit-digits_with f (n / 10)))
]

is_empty-concat : (cs : Text) (c : ℕ) → is_empty (cs ++ c ∷ []) ≡ false
is_empty-concat [] c = refl
is_empty-concat (d ∷ cs) c = refl

pub is_number-digits : (n : ℕ) → is_number (digits n) ≡ true
unfolding digits digits_with
is_number-digits n = elim (Bool-cases (ltb n 10)) [
  | inl small ↦ rw small (ground arith)
  | inr large ↦
      rw (large, is_empty-concat (digits_with n (n / 10)) (48 + n % 10))
        (all-append is_digit (digits_with n (n / 10)) ((48 + n % 10) ∷ [])
          ∙ ground (arith, is_digit-digits_with n (n / 10)))
]

-- ===== src/Common/Sort.antt =====
-- `sorted` on a set of texts: in the order of the code points, each once.
use mathlib.Core.Path.{◌≡◌, refl}
use mathlib.Core.Bool.{Bool, true, false, ◌&&◌, ◌||◌}
use mathlib.Core.List.{List, [], ◌∷◌}
use native.Mathlib.Omega.{arith}
use docker_development_envir.Common.Tests.{ltb, if◌then◌else◌}
use docker_development_envir.Common.Equal.{◌==◌, nat_eq, list_eq}
use docker_development_envir.Common.Lists.{contains}
use docker_development_envir.Common.Texts.{Text, text_iff}

pub text_ltb : Text → Text → Bool
text_ltb [] [] = false
text_ltb [] (y ∷ ys) = true
text_ltb (x ∷ xs) [] = false
text_ltb (x ∷ xs) (y ∷ ys) = ltb x y || (x == y && text_ltb xs ys)

unfoldable pub insert_text : Text → List Text → List Text
unfolding text_ltb
insert_text a [] = a ∷ []
insert_text a (x ∷ xs) =
    if a == x then x ∷ xs else if text_ltb a x then a ∷ x ∷ xs else x ∷ insert_text a xs

-- `sorted(set(names))`
unfoldable pub sorted_set : List Text → List Text
unfolding insert_text
sorted_set [] = []
sorted_set (x ∷ xs) = insert_text x (sorted_set xs)

pub contains-insert_text :
    (a b : Text) (xs : List Text) → contains b (insert_text a xs) ≡ (a == b || contains b xs)
unfolding insert_text
contains-insert_text a b [] = refl
contains-insert_text a b (x ∷ xs) =
    ground (arith, contains-insert_text a b xs, text_iff a x, text_iff a b, text_iff x b)

pub contains-sorted_set : (a : Text) (xs : List Text) → contains a (sorted_set xs) ≡ contains a xs
unfolding sorted_set
contains-sorted_set a [] = refl
contains-sorted_set a (x ∷ xs) =
    ground (arith, contains-insert_text x a (sorted_set xs), contains-sorted_set a xs)

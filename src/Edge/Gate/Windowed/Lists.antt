-- ===== src/Edge/Gate/Windowed/Lists.antt =====
-- The lemmas on lists of which the window of the gate has need.
use oven_multiskill_runtime.Common.{
  ℕ, zero, suc, Bool, true, ◌≡◌, refl, ap, List, [], ◌∷◌, ◌++◌, map, all, length, drop, arith,
}
use oven_multiskill_runtime.Edge.Validation.{first}

pub first-drop : {A : Type 0} (n : ℕ) (xs : List A) → first n xs ++ drop n xs ≡ xs
first-drop zero xs = refl
first-drop (suc n) [] = refl
first-drop (suc n) (x ∷ xs) = ap (λ l. x ∷ l) (first-drop n xs)

pub map-append :
    {A B : Type 0} (f : A → B) (xs ys : List A) → map f (xs ++ ys) ≡ map f xs ++ map f ys
map-append f [] ys = refl
map-append f (x ∷ xs) ys = ap (λ l. f x ∷ l) (map-append f xs ys)

pub map-drop :
    {A B : Type 0} (f : A → B) (n : ℕ) (xs : List A) → map f (drop n xs) ≡ drop n (map f xs)
map-drop f zero xs = refl
map-drop f (suc n) [] = refl
map-drop f (suc n) (x ∷ xs) = map-drop f n xs

pub length-map : {A B : Type 0} (f : A → B) (xs : List A) → length (map f xs) ≡ length xs
length-map f [] = refl
length-map f (x ∷ xs) = ap suc (length-map f xs)

pub all-drop :
    {A : Type 0} (p : A → Bool) (n : ℕ) (xs : List A) → all p xs ≡ true → all p (drop n xs) ≡ true
all-drop p zero xs h = h
all-drop p (suc n) [] h = h
all-drop p (suc n) (x ∷ xs) h = all-drop p n xs (ground arith)

pub all-append :
    {A : Type 0} (p : A → Bool) (xs : List A) (y : A)
    → all p xs ≡ true
    → p y ≡ true
    → all p (xs ++ y ∷ []) ≡ true
all-append p [] y h k = ground arith
all-append p (x ∷ xs) y h k = ground (arith, all-append p xs y)

-- ===== src/Edge/Checker/Best.antt =====
-- The class that the checker predicts.
use oven_multiskill_runtime.Common.{
  ℕ, suc, ◌+◌, ◌≤◌, ◌⊎◌, inl, inr, ◌≡◌, refl, ltb, some, List, [], ◌∷◌, get_elem?, All, Bool, true,
  false, if◌then◌else◌, sym, subst, ap, ok, arith,
}
use oven_multiskill_runtime.Edge.Checker.{best_of, argmax}

-- The score is at that index and no score is larger.
abbrev pub IsBest : List ℕ → ℕ → ℕ → Type 0
IsBest xs index score = (get_elem? xs index ≡ some score) × All (λ x. x ≤ score) xs

-- What the loop gives, from the best score so far: that one, or a later one.
abbrev IsLater : ℕ → ℕ → ℕ → List ℕ → ℕ × ℕ → Type 0
IsLater index best score xs (b, s) =
    (score ≤ s)
    × All (λ x. x ≤ s) xs
    × (((b ≡ best) × (s ≡ score)) ⊎ ((j : ℕ) × (b ≡ index + j) × (get_elem? xs j ≡ some s)))

next-IsLater :
    (index best score x : ℕ) (xs : List ℕ) (p : ℕ × ℕ) (c : Bool)
    → ltb score x ≡ c
    → IsLater (suc index) (if c then index else best) (if c then x else score) xs p
    → IsLater index best score (x ∷ xs) p
next-IsLater index best score x xs (b, s) true e r = (
  ground (arith, r.0),
  (r.0, r.1),
  elim r.2 [
    | inl h ↦ inr (0, omega (arith, h.0), ap some (sym h.1))
    | inr (j, h, k) ↦ inr (suc j, omega (arith, h), k)
  ],
)
next-IsLater index best score x xs (b, s) false e r = (
  r.0,
  (ground (arith, r.0), r.1),
  elim r.2 [ inl h ↦ inl h | inr (j, h, k) ↦ inr (suc j, omega (arith, h), k) ],
)

best_of-IsLater :
    (index best score : ℕ) (xs : List ℕ) → IsLater index best score xs (best_of index best score xs)
best_of-IsLater index best score [] = (omega arith, tt, inl (refl, refl))
best_of-IsLater index best score (x ∷ xs) =
    next-IsLater index best score x xs _ (ltb score x) refl (
      best_of-IsLater (suc index) (if ltb score x then index else best)
        (if ltb score x then x else score) xs)

at_suc : {b j : ℕ} → b ≡ 1 + j → b ≡ suc j
at_suc h = omega (arith, h)

IsLater-IsBest : (x : ℕ) (xs : List ℕ) (p : ℕ × ℕ) → IsLater 1 0 x xs p → IsBest (x ∷ xs) p.0 p.1
IsLater-IsBest x xs (b, s) r = elim r.2 [
  | inl h ↦ (ground (arith, h), (r.0, r.1))
  | inr (j, h, k) ↦ (subst (λ i. get_elem? (x ∷ xs) i ≡ some s) (sym (at_suc h)) k, (r.0, r.1))
]

-- The pair that `argmax` gives has one of the scores, at its index, and it is the largest.
pub argmax-IsBest : (xs : List ℕ) (p : ℕ × ℕ) → argmax xs ≡ ok p → IsBest xs p.0 p.1
argmax-IsBest [] p h = absurd (cc h)
argmax-IsBest (x ∷ xs) p h =
    IsLater-IsBest x xs p (subst (IsLater 1 0 x xs) (ground (arith, h)) (best_of-IsLater 1 0 x xs))

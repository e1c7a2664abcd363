-- ===== src/Edge/Validation/Bounds.antt =====
-- What passes the edge's validators.
use oven_multiskill_runtime.Common.{
  ℕ, zero, suc, ◌+◌, ◌≤◌, ◌<◌, true, ◌≡◌, ◌≢◌, ◌↔◌, ◌⊎◌, ap, sym, subst, Option, none, some, List,
  [], ◌∷◌, map, all, length, ℤ, pos, negsuc, refl, ok, arith,
}
use oven_multiskill_runtime.Value.{Fields, mapping}
use oven_multiskill_runtime.Edge.Contracts.{Observation}
use oven_multiskill_runtime.Edge.Validation.{
  ObservationValidator, ActionValidator, NdArray, abs, np_abs, at_most, first, within, project,
  accepts_shape, validate_observation, validate_actions,
}

abbrev pub AllRows : (List ℤ → Type 0) → List (List ℤ) → Type 0
AllRows P [] = Unit
AllRows P (x ∷ xs) = P x × AllRows P xs

-- The least value of a dtype of signed integers.
abbrev pub IsLowest : Option ℕ → ℤ → Type 0
IsLowest lowest (pos n) = ⊥
IsLowest lowest (negsuc n) = lowest ≡ some (suc n)

-- Every element of a row is within the limit, or the least value of the dtype.
abbrev pub RowWithin : Option ℕ → ℕ → List ℤ → Type 0
RowWithin lowest limit [] = Unit
RowWithin lowest limit (x ∷ xs) = ((abs x ≤ limit) ⊎ IsLowest lowest x) × RowWithin lowest limit xs

-- A matrix of `rows` rows of `columns` elements.
abbrev pub HasShape : ℕ → ℕ → List (List ℤ) → Type 0
HasShape rows columns xs = (length xs ≡ rows) × AllRows (λ r. length r ≡ columns) xs

-- What NumPy guarantees of a matrix: its rows are those that its shape tells.
abbrev pub IsMatrix : NdArray → Type 0
IsMatrix a = (rows columns : ℕ) → a.shape ≡ rows ∷ columns ∷ [] → HasShape rows columns a.rows

at_most-np_abs :
    (lowest : Option ℕ) (limit : ℕ) (x : ℤ)
    → at_most limit (np_abs lowest x) ≡ true
    → (abs x ≤ limit) ⊎ IsLowest lowest x
at_most-np_abs lowest limit (pos n) h = ground arith
at_most-np_abs none limit (negsuc n) h = ground arith
at_most-np_abs (some l) limit (negsuc n) h = ground arith

row_within :
    (lowest : Option ℕ) (limit : ℕ) (xs : List ℤ)
    → all (λ x. at_most limit (np_abs lowest x)) xs ≡ true
    → RowWithin lowest limit xs
row_within lowest limit [] h = tt
row_within lowest limit (x ∷ xs) h =
    (at_most-np_abs lowest limit x (ground arith), row_within lowest limit xs (ground arith))

within-AllRows :
    (lowest : Option ℕ) (limit : ℕ) (xs : List (List ℤ))
    → within lowest limit xs ≡ true
    → AllRows (RowWithin lowest limit) xs
within-AllRows lowest limit [] h = tt
within-AllRows lowest limit (x ∷ xs) h =
    (row_within lowest limit x (ground arith), within-AllRows lowest limit xs (ground arith))

length-first : (n : ℕ) (xs : List ℤ) → n ≤ length xs → length (first n xs) ≡ n
length-first zero xs h = refl
length-first (suc n) [] h = omega arith
length-first (suc n) (x ∷ xs) h = ap suc (length-first n xs (omega arith))

map-first-HasShape :
    (n columns : ℕ) (xs : List (List ℤ))
    → n ≤ columns
    → AllRows (λ r. length r ≡ columns) xs
    → HasShape (length xs) n (map (first n) xs)
map-first-HasShape n columns [] h w = (refl, tt)
map-first-HasShape n columns (x ∷ xs) h w =
    let rest = map-first-HasShape n columns xs h w.1 in
    (ap suc rest.0, (length-first n x (ground arith), rest.1))

project-HasShape :
    (v : ActionValidator) (shape : List ℕ) (xs : List (List ℤ))
    → ((rows columns : ℕ) → shape ≡ rows ∷ columns ∷ [] → HasShape rows columns xs)
    → accepts_shape v shape ≡ true
    → HasShape v.chunk_rows v.action_dimension (map (first v.action_dimension) xs)
project-HasShape v (rows ∷ columns ∷ []) xs m h =
    let whole = m rows columns refl in
    let cut = map-first-HasShape v.action_dimension columns xs (ground arith) whole.1 in
    (ground arith, cut.1)
project-HasShape v [] xs m h = ground arith
project-HasShape v (x ∷ []) xs m h = ground arith
project-HasShape v (x ∷ y ∷ z ∷ r) xs m h = ground arith

validate_actions_tests :
    (v : ActionValidator) (a : NdArray) (rows : List (List ℤ))
    → validate_actions v a ≡ ok rows
    → (accepts_shape v a.shape ≡ true)
      × (within a.lowest v.max_absolute_value (project v a) ≡ true)
      × (a.all_finite ≡ true)
      × (rows ≡ project v a)
unfolding validate_actions
validate_actions_tests v a rows h = ground arith

-- When the rows of an array are those that its shape tells, a chunk that passes was a finite matrix
-- of the configured number of rows, and the rows that go on to the robot are as many, each with
-- exactly the configured number of joints. Each value of them is within the absolute limit, or it
-- is the least value of the array's dtype of signed integers, which passes whatever the limit.
pub validate_actions_ok :
    (v : ActionValidator) (a : NdArray) (rows : List (List ℤ))
    → IsMatrix a
    → validate_actions v a ≡ ok rows
    → HasShape v.chunk_rows v.action_dimension rows
      × AllRows (RowWithin a.lowest v.max_absolute_value) rows
      × (a.all_finite ≡ true)
validate_actions_ok v a rows m h =
    let t = validate_actions_tests v a rows h in
    subst
      (λ x.
        HasShape v.chunk_rows v.action_dimension x
        × AllRows (RowWithin a.lowest v.max_absolute_value) x
        × (a.all_finite ≡ true))
      (sym t.3)
      (
        project-HasShape v a.shape a.rows m t.0,
        within-AllRows a.lowest v.max_absolute_value (project v a) t.1,
        t.2,
      )

-- An observation passes exactly when the freshness window is positive, its payload is a mapping
-- with a field, it was not captured later than now, and it is not older than the window; its
-- payload is what comes back.
pub validate_observation_iff :
    (v : ObservationValidator) (now : ℕ) (o : Observation) (payload : Fields)
    → (validate_observation v now o ≡ ok payload) ↔ (
        (o.payload ≡ mapping payload)
        × (payload ≢ Fields.end)
        × (0 < v.max_age_ns)
        × (o.captured_at_monotonic_ns ≤ now)
        × (now ≤ o.captured_at_monotonic_ns + v.max_age_ns))
unfolding validate_observation
validate_observation_iff v now o payload = (λ h. ground arith, λ h. ground arith)

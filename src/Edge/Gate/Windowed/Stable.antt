-- ===== src/Edge/Gate/Windowed/Stable.antt =====
-- What the windowed gate has read when it passes.
use oven_multiskill_runtime.Common.{
  ℕ, suc, ◌+◌, ◌-◌, ◌≤◌, true, false, ◌≡◌, refl, sym, ap, ◌∙◌, subst, List, [], ◌∷◌, ◌++◌,
  append_assoc, map, all, length, length-append, length-drop, drop, ltb, leb, ◌&&◌, ℤ, ok, inl, inr,
  Bool-cases, arith,
}
use oven_multiskill_runtime.Edge.Contracts.{GateResult, Extent, infinite}
use oven_multiskill_runtime.Edge.Gate.{distance}
use oven_multiskill_runtime.Edge.Validation.{first}
use oven_multiskill_runtime.Edge.Gate.Windowed.Lists.{
  first-drop, map-append, map-drop, length-map, all-drop, all-append,
}
use oven_multiskill_runtime.Edge.Gate.Windowed.{
  WindowedJointGate, Reading, distances, window_error, window_spread, each_le, within_target, slide,
  Round, passes, goes, stable, judge, is_proper, round, rounds, readings, evaluate,
}

abbrev pub position : Reading → List ℤ
position r = r.0

-- Each joint is within its tolerance of the target.
abbrev pub IsClose : List ℤ → List ℕ → List ℤ → Type 0
IsClose (t ∷ ts) (d ∷ ds) (x ∷ xs) = (distance x t ≤ d) × IsClose ts ds xs
IsClose _ _ _ = Unit

abbrev pub AreClose : List ℤ → List ℕ → List (List ℤ) → Type 0
AreClose target tolerance [] = Unit
AreClose target tolerance (s ∷ rest) = IsClose target tolerance s × AreClose target tolerance rest

each_le-IsClose :
    (target : List ℤ) (tolerance : List ℕ) (sample : List ℤ)
    → each_le (distances sample target) tolerance ≡ true
    → IsClose target tolerance sample
each_le-IsClose [] ds xs h = tt
each_le-IsClose (t ∷ ts) [] xs h = tt
each_le-IsClose (t ∷ ts) (d ∷ ds) [] h = tt
each_le-IsClose (t ∷ ts) (d ∷ ds) (x ∷ xs) h = ground (arith, each_le-IsClose ts ds xs)

within_target-AreClose :
    (target : List ℤ) (tolerance : List ℕ) (window : List (List ℤ))
    → within_target target tolerance window ≡ true
    → AreClose target tolerance window
within_target-AreClose target tolerance [] h = tt
within_target-AreClose target tolerance (s ∷ rest) h =
    ground (arith, each_le-IsClose target tolerance s, within_target-AreClose target tolerance rest)

slide_full :
    (required : ℕ) (window : List (List ℤ)) (sample : List ℤ)
    → ltb (length (slide required window sample)) required ≡ false
    → length (slide required window sample) ≡ required
slide_full required window sample f =
    let more = window ++ sample ∷ [] in ground (arith, f, length-drop (length more - required) more)

module _ (gate : WindowedJointGate) where
  -- The window of the loop: the readings just before those that are left.
  record At (whole rest : List Reading) (index : ℕ) (window : List (List ℤ)) : Type 0 where
    before : List Reading
    held : List Reading
    split : whole ≡ before ++ (held ++ rest)
    number : suc (length before + length held) ≡ index
    window_held : window ≡ map position held
    proper : all (is_proper gate) held ≡ true

  clear-At :
      (whole rest : List Reading) (r : Reading) (index : ℕ) (window : List (List ℤ))
      → At whole (r ∷ rest) index window
      → At whole rest (suc index) []
  clear-At whole rest r index window a = record {
    before = a.before ++ (a.held ++ r ∷ []);
    held = [];
    split =
        a.split
        ∙ cc (append_assoc a.before (a.held ++ r ∷ []) rest, append_assoc a.held (r ∷ []) rest);
    number =
        omega (
          arith,
          a.number,
          length-append a.before (a.held ++ r ∷ []),
          length-append a.held (r ∷ []),
        );
    window_held = refl;
    proper = refl;
  }

  slide-At :
      (whole rest : List Reading) (r : Reading) (index : ℕ) (window : List (List ℤ))
      → is_proper gate r ≡ true
      → At whole (r ∷ rest) index window
      → At whole rest (suc index) (slide gate.required_samples window r.0)
  slide-At whole rest r index window p a =
      let more = a.held ++ r ∷ [] in
      let n = length more - gate.required_samples in
      record {
        before = a.before ++ first n more;
        held = drop n more;
        split =
            a.split
            ∙ cc (
              append_assoc a.before (first n more) (drop n more ++ rest),
              append_assoc (first n more) (drop n more) rest,
              first-drop n more,
              append_assoc a.held (r ∷ []) rest,
            );
        number = omega (
          arith,
          a.number,
          ap length (first-drop n more),
          length-append (first n more) (drop n more),
          length-append a.before (first n more),
          length-append a.held (r ∷ []),
        );
        window_held =
            ap (λ w. drop (length w - gate.required_samples) w)
              (ap (λ w. w ++ r.0 ∷ []) a.window_held ∙ sym (map-append position a.held (r ∷ [])))
            ∙ ap (λ k. drop (k - gate.required_samples) (map position more))
                (length-map position more)
            ∙ sym (map-drop position n more);
        proper = all-drop (is_proper gate) n more (all-append (is_proper gate) a.held r a.proper p);
      }

  -- What the gate has read when it passes: the readings of its window follow one another, the last
  -- of them is the one that the result counts to, and they are as many as it requires; all are
  -- finite and have the target's joints; they are near the target, and near one another.
  pub record IsStable (whole : List Reading) (r : GateResult) : Type 0 where
    pub before : List Reading
    pub window : List Reading
    pub rest : List Reading
    pub split : whole ≡ before ++ (window ++ rest)
    pub number : length before + length window ≡ r.samples
    pub full : length window ≡ gate.required_samples
    pub proper : all (is_proper gate) window ≡ true
    pub close : AreClose gate.target gate.tolerance (map position window)
    pub quiet : window_spread (map position window) ≤ gate.max_spread

  -- A round that passes, and one that goes on.
  abbrev Follows : List Reading → List Reading → ℕ → Round → Type 0
  Follows whole rest index (passes result) = IsStable whole result
  Follows whole rest index (goes window error spread) = At whole rest (suc index) window

  stable-IsStable :
      (whole rest : List Reading) (index : ℕ) (window : List (List ℤ))
      → At whole rest (suc index) window
      → length window ≡ gate.required_samples
      → (within_target gate.target gate.tolerance window
          && leb (window_spread window) gate.max_spread)
        ≡ true
      → IsStable whole (stable index (window_error gate.target window) (window_spread window))
  stable-IsStable whole rest index window a n t = record {
    before = a.before;
    window = a.held;
    rest = rest;
    split = a.split;
    number = omega (arith, a.number);
    full = sym (length-map position a.held) ∙ ap length (sym a.window_held) ∙ n;
    proper = a.proper;
    close =
        subst (AreClose gate.target gate.tolerance) a.window_held
          (within_target-AreClose gate.target gate.tolerance window (ground (arith, t)));
    quiet = subst (λ w. window_spread w ≤ gate.max_spread) a.window_held (ground (arith, t));
  }

  judge-Follows :
      (whole rest : List Reading) (index : ℕ) (window : List (List ℤ))
      → At whole rest (suc index) window
      → length window ≡ gate.required_samples
      → Follows whole rest index (judge gate index window)
  judge-Follows whole rest index window a n =
      elim (Bool-cases (
        within_target gate.target gate.tolerance window
        && leb (window_spread window) gate.max_spread)) [
          | inl t ↦ rw t (stable-IsStable whole rest index window a n t)
          | inr f ↦ rw f a
        ]

  round-Follows :
      (whole rest : List Reading) (r : Reading) (index : ℕ) (window : List (List ℤ))
      (error spread : Extent)
      → At whole (r ∷ rest) index window
      → Follows whole rest index (round gate index r window error spread)
  unfolding round
  round-Follows whole rest r index window error spread a = elim (Bool-cases (is_proper gate r)) [
    | inr f ↦ rw f (clear-At whole rest r index window a)
    | inl p ↦ rw p (
        let next = slide gate.required_samples window r.0 in
        let at = slide-At whole rest r index window p a in
        elim (Bool-cases (ltb (length next) gate.required_samples)) [
          | inl t ↦ rw t at
          | inr f ↦ rw f (
              judge-Follows whole rest index next at
                (slide_full gate.required_samples window r.0 f))
        ])
  ]

  -- A loop that is stable after any further window is stable after the round.
  after_round :
      (whole rest : List Reading) (index : ℕ) (next : List (List ℤ) → Extent → Extent → GateResult)
      (x : Round)
      → ((w : List (List ℤ))
          → (e s : Extent) → At whole rest (suc index) w
          → (next w e s).passed ≡ true
          → IsStable whole (next w e s))
      → Follows whole rest index x
      → (elim x as (λ _. GateResult) [ passes result ↦ result | goes w e s ↦ next w e s ]).passed
        ≡ true
      → IsStable whole
          (elim x as (λ _. GateResult) [ passes result ↦ result | goes w e s ↦ next w e s ])
  after_round whole rest index next (passes result) ih f k = f
  after_round whole rest index next (goes w e s) ih f k = ih w e s f k

  rounds-IsStable :
      (whole left : List Reading) (index : ℕ) (window : List (List ℤ)) (error spread : Extent)
      → At whole left index window
      → (rounds gate index left window error spread).passed ≡ true
      → IsStable whole (rounds gate index left window error spread)
  unfolding rounds
  rounds-IsStable whole [] index window error spread a h = absurd (ground arith)
  rounds-IsStable whole (r ∷ rest) index window error spread a h =
      after_round whole rest index (rounds gate (suc index) rest)
        (round gate index r window error spread)
        (λ w e s b k. rounds-IsStable whole rest (suc index) w e s b k)
        (round-Follows whole rest r index window error spread a) h

evaluate_lem :
    (gate : WindowedJointGate) (sample_joints : ℕ → Reading) (r : GateResult)
    → evaluate gate sample_joints ≡ ok r
    → rounds gate 1 (readings sample_joints gate.max_samples 1) [] infinite infinite ≡ r
unfolding evaluate
evaluate_lem gate sample_joints r h = ground arith

-- When the gate passes, some of its readings that follow one another make a window: the last of
-- them is the one that the result counts to, and they are as many as it requires; all are finite
-- and have the target's joints; each joint of each is within its tolerance of the target, and the
-- window's spread is within the limit.
pub evaluate-IsStable :
    (gate : WindowedJointGate) (sample_joints : ℕ → Reading) (r : GateResult)
    → evaluate gate sample_joints ≡ ok r
    → r.passed ≡ true
    → IsStable gate (readings sample_joints gate.max_samples 1) r
evaluate-IsStable gate sample_joints r h p =
    let e = evaluate_lem gate sample_joints r h in
    let whole = readings sample_joints gate.max_samples 1 in
    subst (IsStable gate whole) e (
      rounds-IsStable gate whole whole 1 [] infinite infinite
        (record {
          before = [];
          held = [];
          split = refl;
          number = refl;
          window_held = refl;
          proper = refl;
        })
        (subst (λ t. t.passed ≡ true) (sym e) p))

-- ===== src/Common/Ends.antt =====
-- What a method ensures when it returns, and what it keeps however it ends.
use mathlib.Core.Path.{◌≡◌, refl}
use oven_multiskill_runtime.Common.Outcome.{Result, ok, err, Action, ◌>>=◌}

-- Of a method that returns, its value and the state it leaves.
abbrev pub Post : {S A : Type 0} → (A → S → Type 0) → Result A × S → Type 0
Post P (ok a, s) = P a s
Post P (err e, s) = Unit

module _ {S A : Type 0} where
  pub weaken-Post :
      (P Q : A → S → Type 0) (p : Result A × S)
      → Post P p
      → ((a : A) → (s : S) → P a s → Q a s)
      → Post Q p
  weaken-Post P Q (ok a, s) h k = k a s h
  weaken-Post P Q (err e, s) h k = tt

  ends : (p : Result A × S) → Post (λ a s'. p ≡ (ok a, s')) p
  ends (ok a, s) = refl
  ends (err e, s) = tt

module _ {S A B : Type 0} where
  after :
      (P : A → S → Type 0) (Q : B → S → Type 0) (f : A → Action S B) (p : Result A × S)
      → Post P p
      → ((a : A) → (s : S) → P a s → Post Q (f a s))
      → Post Q (◌>>=◌ (λ (s : S). p) f p.1)
  after P Q f (ok a, s) h k = k a s h
  after P Q f (err e, s) h k = tt

  -- A method whose value and state are known to satisfy P, and what follows it.
  pub bind-Post :
      (P : A → S → Type 0) (Q : B → S → Type 0) (m : Action S A) (f : A → Action S B) (s : S)
      → Post P (m s)
      → ((a : A) → (s' : S) → P a s' → Post Q (f a s'))
      → Post Q ((m >>= f) s)
  bind-Post P Q m f s h k = after P Q f (m s) h k

  -- A method of which only the call is known.
  pub call-Post :
      (Q : B → S → Type 0) (m : Action S A) (f : A → Action S B) (s : S)
      → ((a : A) → (s' : S) → m s ≡ (ok a, s') → Post Q (f a s'))
      → Post Q ((m >>= f) s)
  call-Post Q m f s k = after (λ a s'. m s ≡ (ok a, s')) Q f (m s) (ends (m s)) k

-- However the method ends, the invariant still holds.
abbrev pub Preserves : {S A : Type 0} → (S → Type 0) → Action S A → Type 0
Preserves {S} I m = (s : S) → I s → I (m s).1

module _ {S A B : Type 0} where
  bound :
      (I : S → Type 0) (f : A → Action S B) (p : Result A × S)
      → ((a : A) → Preserves I (f a))
      → I p.1
      → I (◌>>=◌ (λ (s : S). p) f p.1).1
  bound I f (ok a, s) k h = k a s h
  bound I f (err e, s) k h = h

  pub bind-Preserves :
      (I : S → Type 0) (m : Action S A) (f : A → Action S B)
      → Preserves I m
      → ((a : A) → Preserves I (f a))
      → Preserves I (m >>= f)
  bind-Preserves I m f h k s i = bound I f (m s) k (h s i)

  guarded :
      (I J : S → Type 0) (f : A → Action S B) (p : Result A × S)
      → I p.1
      → Post (λ _ s. J s) p
      → ((a : A) → Preserves J (f a))
      → ((s : S) → J s → I s)
      → I (◌>>=◌ (λ (s : S). p) f p.1).1
  guarded I J f (ok a, s) h j k w = w (f a s).1 (k a s j)
  guarded I J f (err e, s) h j k w = h

  -- A method that ensures the stronger invariant J, followed by one that keeps J.
  pub guard-Preserves :
      (I J : S → Type 0) (m : Action S A) (f : A → Action S B) (s : S)
      → I (m s).1
      → Post (λ _ t. J t) (m s)
      → ((a : A) → Preserves J (f a))
      → ((t : S) → J t → I t)
      → I ((m >>= f) s).1
  guard-Preserves I J m f s h j k w = guarded I J f (m s) h j k w

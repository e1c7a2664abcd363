-- ===== src/Edge/Checker/Verified.antt =====
-- A check that passes rests on a model whose file had the configured digest, on a fresh image and on
-- the prediction of the configured class.
use oven_multiskill_runtime.Common.{
  ℕ, ◌≤◌, ◌-◌, String, true, ◌≡◌, ◌≢◌, refl, sym, ◌>>=◌, subst, none, some, List, [], ◌∷◌, inl, inr,
  Option-cases, Result, ok, err, Any, All, All-self, All-map, get_elem?, arith, eq_iff,
}
use oven_multiskill_runtime.Edge.Contracts.{CheckerResult}
use oven_multiskill_runtime.Edge.RosConfig.{CheckerSpec, lookup}
use oven_multiskill_runtime.Edge.Checker.{
  Rgb, TorchResnetChecker, Files, argmax, clear, decide, prepare, evaluate, close, start,
}
use oven_multiskill_runtime.Edge.Checker.Best.{IsBest, argmax-IsBest}
use oven_multiskill_runtime.Edge.Checker.Opened.{
  Reads, IsVerified, prepare_kept, prepare_active, prepare-IsVerified, decide_kept, active-Reads,
}

-- A call of the checker, with the files as they are during it.
pub data CheckerCall (Model : Type 0) : Type 0 where
  evaluates : Files Model → Result (Rgb × ℕ) → (now : ℕ) → (skill : String) → CheckerCall Model
  closes : CheckerCall Model

-- The files as the calls find them.
abbrev pub files_of : {Model : Type 0} → List (CheckerCall Model) → List (Files Model)
files_of [] = []
files_of (evaluates f capture now skill ∷ rest) = f ∷ files_of rest
files_of (closes ∷ rest) = files_of rest

module _ {Model : Type 0} (infer : Model → Rgb → List ℕ) where
  -- Why a result passed.
  pub record Passes (seen : List (Files Model)) (skill : String) (t : TorchResnetChecker Model)
      (rgb : Rgb) (captured_at now : ℕ) (r : CheckerResult) : Type 0 where
    pub spec : CheckerSpec
    pub model : Model
    pub classes : List String
    pub index : ℕ
    pub configured : lookup skill t.specs ≡ some spec
    pub was_read : Any (Reads spec model classes) seen
    pub best : IsBest (infer model rgb) index r.score
    pub predicted : get_elem? classes index ≡ some spec.success_class
    pub asset : r.asset_id ≡ spec.model_sha256
    pub not_early : captured_at ≤ now
    pub fresh : now - captured_at ≤ t.max_image_age
    pub certain : spec.threshold ≤ r.score

  module _ (files : Files Model) where
    -- What a decision that passed rests on.
    record Decides (spec : CheckerSpec) (rgb : Rgb) (captured_at now : ℕ)
        (t : TorchResnetChecker Model) (r : CheckerResult) : Type 0 where
      model : Model
      index : ℕ
      active : t.active_model ≡ some model
      best : IsBest (infer model rgb) index r.score
      predicted : get_elem? t.classes index ≡ some spec.success_class
      asset : r.asset_id ≡ spec.model_sha256
      not_early : captured_at ≤ now
      fresh : now - captured_at ≤ t.max_image_age
      certain : spec.threshold ≤ r.score

    decide_best :
        (spec : CheckerSpec) (rgb : Rgb) (captured_at now : ℕ) (t : TorchResnetChecker Model)
        (r : CheckerResult) (m : Model) (a : Result (ℕ × ℕ))
        → t.active_model ≡ some m
        → argmax (infer m rgb) ≡ a
        → (decide files infer spec (ok (rgb, captured_at)) now t).0 ≡ ok r
        → r.passed ≡ true
        → Decides spec rgb captured_at now t r
    unfolding decide
    decide_best spec rgb captured_at now t r m (err x) e k h p = absurd (ground arith)
    decide_best spec rgb captured_at now t r m (ok (index, score)) e k h p = record {
      model = m;
      index = index;
      active = e;
      best =
          subst (IsBest (infer m rgb) index) (ground arith)
            (argmax-IsBest (infer m rgb) (index, score) k);
      predicted = grind (arith, eq_iff);
      asset = ground arith;
      not_early = ground arith;
      fresh = ground arith;
      certain = ground arith;
    }

    decide_lem :
        (spec : CheckerSpec) (rgb : Rgb) (captured_at now : ℕ) (t : TorchResnetChecker Model)
        (r : CheckerResult)
        → (decide files infer spec (ok (rgb, captured_at)) now t).0 ≡ ok r
        → r.passed ≡ true
        → Decides spec rgb captured_at now t r
    unfolding decide
    decide_lem spec rgb captured_at now t r h p = elim (Option-cases t.active_model) [
      | inl e ↦ absurd (ground arith)
      | inr (m, e) ↦ decide_best spec rgb captured_at now t r m (argmax (infer m rgb)) e refl h p
    ]

    decided :
        (seen : List (Files Model)) (skill : String) (spec : CheckerSpec)
        (t : TorchResnetChecker Model) (rgb : Rgb) (captured_at now : ℕ) (r : CheckerResult)
        (p : Result (Unit {0}) × TorchResnetChecker Model)
        → lookup skill t.specs ≡ some spec
        → IsVerified seen p.1
        → (p.0 ≡ ok tt → p.1.active_skill ≡ some skill)
        → (p.1.specs ≡ t.specs) × (p.1.max_image_age ≡ t.max_image_age)
        → (◌>>=◌
            (λ (s : TorchResnetChecker Model). p)
            (λ _. decide files infer spec (ok (rgb, captured_at)) now)
            t).0
          ≡ ok r
        → r.passed ≡ true
        → Passes seen skill t rgb captured_at now r
    decided seen skill spec t rgb captured_at now r (err x, s) e v a kept h k = absurd (cc h)
    decided seen skill spec t rgb captured_at now r (ok u, s) e v a kept h k =
        let d = decide_lem spec rgb captured_at now s r h k in
        record {
          spec = spec;
          model = d.model;
          classes = s.classes;
          index = d.index;
          configured = e;
          was_read =
              active-Reads seen s skill spec d.model v (a refl) d.active (ground (arith, kept, e));
          best = d.best;
          predicted = d.predicted;
          asset = d.asset;
          not_early = d.not_early;
          fresh = subst (λ n. now - captured_at ≤ n) kept.1 d.fresh;
          certain = d.certain;
        }

    after_prepare :
        (seen : List (Files Model)) (spec : CheckerSpec) (capture : Result (Rgb × ℕ)) (now : ℕ)
        (t : TorchResnetChecker Model) (p : Result (Unit {0}) × TorchResnetChecker Model)
        → IsVerified seen p.1
        → IsVerified seen
            (◌>>=◌
              (λ (s : TorchResnetChecker Model). p)
              (λ _. decide files infer spec capture now)
              t).1
    after_prepare seen spec capture now t (ok u, s) v =
        subst (IsVerified seen) (sym (decide_kept files infer spec capture now s)) v
    after_prepare seen spec capture now t (err x, s) v = v

    evaluate_lem :
        (seen : List (Files Model)) (skill : String) (spec : CheckerSpec)
        (t : TorchResnetChecker Model) (rgb : Rgb) (captured_at now : ℕ) (r : CheckerResult)
        → Any (λ f. f ≡ files) seen
        → lookup skill t.specs ≡ some spec
        → IsVerified seen t
        → (evaluate files infer (ok (rgb, captured_at)) now skill t).0 ≡ ok r
        → r.passed ≡ true
        → Passes seen skill t rgb captured_at now r
    unfolding evaluate
    evaluate_lem seen skill spec t rgb captured_at now r i e v h k =
        decided seen skill spec t rgb captured_at now r (prepare files infer skill spec t) e
          (prepare-IsVerified files infer seen i skill spec t e v)
          (prepare_active files infer skill spec t) (prepare_kept files infer skill spec t)
          (rw e at h) k

    unknown_lem :
        (skill : String) (t : TorchResnetChecker Model) (rgb : Rgb) (captured_at now : ℕ)
        (r : CheckerResult)
        → lookup skill t.specs ≡ none
        → (evaluate files infer (ok (rgb, captured_at)) now skill t).0 ≢ ok r
    unfolding evaluate
    unknown_lem skill t rgb captured_at now r e h = absurd (ground arith)

    -- However an evaluation ends, the active model is still verified.
    evaluate-IsVerified :
        (seen : List (Files Model)) (capture : Result (Rgb × ℕ)) (now : ℕ) (skill : String)
        (t : TorchResnetChecker Model)
        → Any (λ f. f ≡ files) seen
        → IsVerified seen t
        → IsVerified seen (evaluate files infer capture now skill t).1
    unfolding evaluate
    evaluate-IsVerified seen capture now skill t i v = elim (Option-cases (lookup skill t.specs)) [
      | inl e ↦ rw e v
      | inr (spec, e) ↦ rw e (
          after_prepare seen spec capture now t (prepare files infer skill spec t)
            (prepare-IsVerified files infer seen i skill spec t e v))
    ]

  -- The state after calls in any order.
  unfoldable pub after_calls :
      List (CheckerCall Model) → TorchResnetChecker Model → TorchResnetChecker Model
  unfolding close
  after_calls [] t = t
  after_calls (evaluates files capture now skill ∷ rest) t =
      after_calls rest (evaluate files infer capture now skill t).1
  after_calls (closes ∷ rest) t = after_calls rest (close t).1

  after_calls-IsVerified :
      (seen : List (Files Model)) (calls : List (CheckerCall Model)) (t : TorchResnetChecker Model)
      → All (λ f. Any (λ g. g ≡ f) seen) (files_of calls)
      → IsVerified seen t
      → IsVerified seen (after_calls calls t)
  unfolding after_calls
  after_calls-IsVerified seen [] t i v = v
  after_calls-IsVerified seen (evaluates f capture now skill ∷ rest) t i v =
      after_calls-IsVerified seen rest (evaluate f infer capture now skill t).1 i.1
        (evaluate-IsVerified f seen capture now skill t i.0 v)
  after_calls-IsVerified seen (closes ∷ rest) t i v =
      after_calls-IsVerified seen rest (clear t) i tt

-- After any calls of a new checker, each with the files as they are during it, a check that passes
-- is of a skill with a spec, and rests on a model and classes that were built from the file at the
-- spec's path when, during one of the calls or this check, that file had the spec's digest, which
-- is the asset that the result names. The largest of the model's scores for the image is the score
-- of the result and stands at the index of the spec's success class; it reaches the spec's
-- threshold; and the image was captured before the check, no longer before than permitted.
pub evaluate-Passes :
    {Model : Type 0} (infer : Model → Rgb → List ℕ) (specs : List (String × CheckerSpec))
    (max_image_age : ℕ) (calls : List (CheckerCall Model)) (files : Files Model) (skill : String)
    (rgb : Rgb) (captured_at now : ℕ) (r : CheckerResult)
    → (evaluate files infer
        (ok (rgb, captured_at))
        now
        skill
        (after_calls infer calls (start specs max_image_age))).0
      ≡ ok r
    → r.passed ≡ true
    → Passes infer
        (files ∷ files_of calls)
        skill
        (after_calls infer calls (start specs max_image_age))
        rgb
        captured_at
        now
        r
evaluate-Passes infer specs max_image_age calls files skill rgb captured_at now r h k =
    let t = after_calls infer calls (start specs max_image_age) in
    let seen = files ∷ files_of calls in
    let v =
      after_calls-IsVerified infer seen calls (start specs max_image_age)
        (All-map _ _ (files_of calls) (λ f i. inr i) (All-self (files_of calls))) tt in
    elim (Option-cases (lookup skill t.specs)) [
      | inl e ↦ absurd (unknown_lem infer files skill t rgb captured_at now r e h)
      | inr (spec, e) ↦
          evaluate_lem infer files seen skill spec t rgb captured_at now r (inl refl) e v h k
    ]

-- ===== src/Edge/Checker/Opened.antt =====
-- What is known of the model that the checker has opened.
use oven_multiskill_runtime.Common.{
  ℕ, String, true, ◌≡◌, refl, sym, modify, ◌>>=◌, subst, Option, none, some, List, eq_iff,
  holds_text, holds_text_lem, is_some, ◌&&◌, inl, inr, Bool-cases, Any, Any-of, Result, ok, err,
  arith,
}
use oven_multiskill_runtime.Config.{Parts}
use oven_multiskill_runtime.Edge.RosConfig.{CheckerSpec, lookup}
use oven_multiskill_runtime.Edge.Checker.{
  Rgb, Checkpoint, TorchResnetChecker, Files, install, decide, open_model, load_model, prepare,
}

module _ {Model : Type 0} where
  -- The model and its classes were built from that checkpoint.
  abbrev Builds : Files Model → Parts → Model → List String → Result Checkpoint → Type 0
  Builds f path m classes (ok c) = (c.classes ≡ some classes) × (f.build path c classes ≡ ok m)
  Builds f path m classes (err e) = ⊥

  abbrev ReadsAt : Files Model → CheckerSpec → Model → List String → Result Parts → Type 0
  ReadsAt f spec m classes (ok path) =
      (f.is_file path ≡ true)
      × (f.sha256 path ≡ ok spec.model_sha256)
      × Builds f path m classes (f.load path)
  ReadsAt f spec m classes (err e) = ⊥

  -- With the files as they were then, the file at the spec's path had the spec's digest, and the
  -- model and its classes were built from it.
  abbrev pub Reads : CheckerSpec → Model → List String → Files Model → Type 0
  Reads spec m classes f = ReadsAt f spec m classes (f.resolve spec.model_relative_path)

module _ {Model : Type 0} (seen : List (Files Model)) where
  abbrev Verifies :
      List (String × CheckerSpec) → Option String → Option Model → List String → Type 0
  Verifies specs skill none classes = Unit
  Verifies specs none (some m) classes = ⊥
  Verifies specs (some k) (some m) classes =
      (spec : CheckerSpec) × (lookup k specs ≡ some spec) × Any (Reads spec m classes) seen

  -- The active model, if there is one, was read from the asset of the active skill, with the files
  -- as one of the calls found them.
  abbrev pub IsVerified : TorchResnetChecker Model → Type 0
  IsVerified t = Verifies t.specs t.active_skill t.active_model t.classes

module _ {Model : Type 0} (files : Files Model) (infer : Model → Rgb → List ℕ) where
  open_model-Reads :
      (spec : CheckerSpec) (t : TorchResnetChecker Model) (m : Model) (classes : List String)
      → (open_model files infer spec t).0 ≡ ok (m, classes)
      → Reads spec m classes files
  unfolding open_model
  open_model-Reads spec t m classes h = grind (arith, eq_iff)

  open_model_kept :
      (spec : CheckerSpec) (t : TorchResnetChecker Model) → (open_model files infer spec t).1 ≡ t
  unfolding open_model
  open_model_kept spec t = ground arith

  module _ (seen : List (Files Model)) (is_seen : Any (λ f. f ≡ files) seen) where
    installed :
        (skill : String) (spec : CheckerSpec) (t : TorchResnetChecker Model)
        (p : Result (Model × List String) × TorchResnetChecker Model)
        → lookup skill t.specs ≡ some spec
        → IsVerified seen t
        → p.1 ≡ t
        → ((m : Model)
            → (classes : List String) → p.0 ≡ ok (m, classes)
            → Reads spec m classes files)
        → IsVerified seen
            (◌>>=◌
              (λ (s : TorchResnetChecker Model). p)
              (λ o. modify (install files infer skill o))
              t).1
    installed skill spec t (ok (m, classes), s) h v e k = (
      spec,
      subst (λ u. lookup skill u.specs ≡ some spec) (sym e) h,
      Any-of (Reads spec m classes) files seen is_seen (k m classes refl),
    )
    installed skill spec t (err x, s) h v e k = subst (IsVerified seen) (sym e) v

    load_model-IsVerified :
        (skill : String) (spec : CheckerSpec) (t : TorchResnetChecker Model)
        → lookup skill t.specs ≡ some spec
        → IsVerified seen t
        → IsVerified seen (load_model files infer skill spec t).1
    unfolding load_model
    load_model-IsVerified skill spec t h v =
        installed skill spec t (open_model files infer spec t) h v (open_model_kept spec t)
          (λ m classes e. open_model-Reads spec t m classes e)

    pub prepare-IsVerified :
        (skill : String) (spec : CheckerSpec) (t : TorchResnetChecker Model)
        → lookup skill t.specs ≡ some spec
        → IsVerified seen t
        → IsVerified seen (prepare files infer skill spec t).1
    unfolding prepare
    prepare-IsVerified skill spec t e v =
        elim (Bool-cases (holds_text t.active_skill skill && is_some t.active_model)) [
          | inl b ↦ rw b v
          | inr b ↦ rw b (load_model-IsVerified skill spec t e v)
        ]

  pub decide_kept :
      (spec : CheckerSpec) (capture : Result (Rgb × ℕ)) (now : ℕ) (t : TorchResnetChecker Model)
      → (decide files infer spec capture now t).1 ≡ t
  unfolding decide
  decide_kept spec capture now t = ground arith

  -- A preparation keeps the specs and the age limit.
  pub prepare_kept :
      (skill : String) (spec : CheckerSpec) (t : TorchResnetChecker Model)
      → ((prepare files infer skill spec t).1.specs ≡ t.specs)
        × ((prepare files infer skill spec t).1.max_image_age ≡ t.max_image_age)
  unfolding prepare load_model
  prepare_kept skill spec t = ground (arith, open_model_kept spec t)

  -- A preparation that returns leaves the skill active.
  pub prepare_active :
      (skill : String) (spec : CheckerSpec) (t : TorchResnetChecker Model)
      → (prepare files infer skill spec t).0 ≡ ok tt
      → (prepare files infer skill spec t).1.active_skill ≡ some skill
  unfolding prepare load_model
  prepare_active skill spec t h = ground (arith, holds_text_lem t.active_skill skill)

module _ {Model : Type 0} (seen : List (Files Model)) (classes : List String) where
  abbrev ReadFor : Option CheckerSpec → Option Model → Type 0
  ReadFor (some spec) (some m) = Any (Reads spec m classes) seen
  ReadFor _ _ = Unit

  ReadFor-some :
      (o : Option CheckerSpec) (n : Option Model) (spec : CheckerSpec) (m : Model)
      → o ≡ some spec
      → n ≡ some m
      → ReadFor o n
      → Any (Reads spec m classes) seen
  ReadFor-some o n spec m e k r = subst (ReadFor (some spec)) k (subst (λ x. ReadFor x n) e r)

-- The spec of the active skill is the one that the active model was read for.
pub active-Reads :
    {Model : Type 0} (seen : List (Files Model)) (t : TorchResnetChecker Model) (skill : String)
    (spec : CheckerSpec) (m : Model)
    → IsVerified seen t
    → t.active_skill ≡ some skill
    → t.active_model ≡ some m
    → lookup skill t.specs ≡ some spec
    → Any (Reads spec m t.classes) seen
active-Reads {Model = Model} seen t skill spec m v a b e = go t.active_skill t.active_model v a b
  where
    go :
        (active : Option String) (model : Option Model)
        → Verifies seen t.specs active model t.classes
        → active ≡ some skill
        → model ≡ some m
        → Any (Reads spec m t.classes) seen
    go none model v a b = absurd (cc a)
    go (some k) none v a b = absurd (cc b)
    go (some k) (some n) v a b =
        let same : some v.0 ≡ some spec = cc (v.1, e, a) in
        ReadFor-some seen t.classes (some v.0) (some n) spec m same b v.2

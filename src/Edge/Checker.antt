-- ===== src/Edge/Checker.antt =====
-- src/oven_runtime/edge/checker.py: `TorchResnetChecker`. PyTorch, the files and the digest of a
-- file are parameters: a model is what `build` makes of a checkpoint, and `infer` gives its scores
-- for an image, as whole numbers of a fixed small unit. Times are nanoseconds.
pub mod Opened
pub mod Best
pub mod Verified
mod Tests
use Prim.Native.String.{◌++◌ as join}
use oven_multiskill_runtime.Common.{
  ℕ, suc, ◌-◌, String, Bool, Option, none, some, List, [], ◌∷◌, any, get_elem?, str_eq, holds_text,
  leb, ltb, ◌==◌, not, ◌&&◌, ◌||◌, is_some, faulted, interrupt, other, Result, ok, err, Action,
  pure, lift, gets, modify, raise_if, ◌>>=◌, ◌>>◌, if◌then◌else◌,
}
use oven_multiskill_runtime.Errors.{fault, checker_failed, observation_stale}
use oven_multiskill_runtime.Config.{Parts}
use oven_multiskill_runtime.Edge.Contracts.{CheckerResult}
use oven_multiskill_runtime.Edge.RosConfig.{CheckerSpec, lookup}

-- What the checks read of an image.
pub record Rgb : Type 0 where
  pub ndim : ℕ
  pub channels : ℕ
  pub is_uint8 : Bool

-- What the checks read of a checkpoint: `classes`, or `class_names` without it, if it is a list or
-- tuple of texts, and whether `model_state_dict` is a mapping.
pub record Checkpoint : Type 0 where
  pub is_mapping : Bool
  pub classes : Option (List String)
  pub has_state : Bool

pub record TorchResnetChecker (Model : Type 0) : Type 0 where
  pub specs : List (String × CheckerSpec)
  pub max_image_age : ℕ
  pub active_skill : Option String
  pub active_model : Option Model
  pub classes : List String

-- `__init__`, for specs that were validated.
abbrev pub start : {Model : Type 0} → List (String × CheckerSpec) → ℕ → TorchResnetChecker Model
start specs max_image_age = record {
  specs = specs;
  max_image_age = max_image_age;
  active_skill = none;
  active_model = none;
  classes = [];
}

-- `np.argmax`: the first of the largest.
abbrev pub best_of : ℕ → ℕ → ℕ → List ℕ → ℕ × ℕ
best_of index best score [] = (best, score)
best_of index best score (x ∷ rest) =
    best_of (suc index) (if ltb score x then index else best) (if ltb score x then x else score)
      rest

abbrev pub argmax : List ℕ → Result (ℕ × ℕ)
argmax [] = err other
argmax (x ∷ rest) = ok (best_of 1 0 x rest)

abbrev item : {A : Type 0} → Option A → Result A
item none = err other
item (some v) = ok v

abbrev is_classes : Option (List String) → Result (List String)
is_classes (some (c ∷ rest)) = ok (c ∷ rest)
is_classes _ = err (faulted (fault checker_failed "checker checkpoint classes are invalid"))

-- `torch.load` in its `try`.
abbrev loaded : Result Checkpoint → Result Checkpoint
loaded (ok c) = ok c
loaded (err interrupt) = err interrupt
loaded (err e) = err (faulted (fault checker_failed "checker checkpoint cannot be loaded safely"))

pub record Files (Model : Type 0) : Type 0 where
  pub resolve : String → Result Parts
  pub is_file : Parts → Bool
  pub sha256 : Parts → Result String
  pub load : Parts → Result Checkpoint
  pub build : Parts → Checkpoint → List String → Result Model

abbrev pub clear : {Model : Type 0} → TorchResnetChecker Model → TorchResnetChecker Model
clear t = record t { active_model = none; active_skill = none; classes = [] }

unfoldable pub close : {Model : Type 0} → Action (TorchResnetChecker Model) (Unit {0})
close = modify clear

-- The files are an argument of each operation: they may be others at the next call.
module _ {Model : Type 0} (files : Files Model) (infer : Model → Rgb → List ℕ) where
  abbrev Method : Type 0 → Type 0
  Method A = Action (TorchResnetChecker Model) A

  -- The part of `_prepare` that reads the asset: the model and its classes.
  unfoldable pub open_model : CheckerSpec → Method (Model × List String)
  open_model spec = do
    path ← lift (files.resolve spec.model_relative_path)
    raise_if (not (files.is_file path)) (fault checker_failed "checker model asset is missing")
    digest ← lift (files.sha256 path)
    raise_if (not (str_eq digest spec.model_sha256))
        (fault checker_failed "checker model asset hash does not match its manifest")
    checkpoint ← lift (loaded (files.load path))
    raise_if (not checkpoint.is_mapping)
        (fault checker_failed "checker checkpoint is not a mapping")
    classes ← lift (is_classes checkpoint.classes)
    raise_if (not (any (str_eq spec.success_class) classes) || not checkpoint.has_state)
        (fault checker_failed "checker checkpoint contract does not match its profile")
    model ← lift (files.build path checkpoint classes)
    pure (model, classes)

  abbrev pub install :
      String → Model × List String → TorchResnetChecker Model → TorchResnetChecker Model
  install skill (model, classes) t = record (clear t) {
    active_skill = some skill;
    active_model = some model;
    classes = classes;
  }

  -- `_prepare`, for a skill whose model is not the active one.
  unfoldable pub load_model : String → CheckerSpec → Method (Unit {0})
  unfolding open_model
  load_model skill spec = do opened ← open_model spec; modify (install skill opened)

  unfoldable pub prepare : String → CheckerSpec → Method (Unit {0})
  unfolding load_model
  prepare skill spec = do
    t ← gets (λ t. t)
    if holds_text t.active_skill skill && is_some t.active_model
        then pure tt
        else load_model skill spec

  abbrev is_stale : ℕ → ℕ → ℕ → Bool
  is_stale age now captured_at = ltb now captured_at || ltb age (now - captured_at)

  abbrev spec_of : Option CheckerSpec → Result CheckerSpec
  spec_of none =
      err (faulted (fault checker_failed "checker is not configured for the requested skill"))
  spec_of (some s) = ok s

  abbrev result_of : CheckerSpec → String → ℕ → CheckerResult
  result_of spec predicted confidence = record {
    passed = str_eq predicted spec.success_class && leb spec.threshold confidence;
    score = confidence;
    threshold = spec.threshold;
    asset_id = spec.model_sha256;
    reason = join "predicted:" predicted;
  }

  -- What `evaluate` reads and decides once the model is active.
  unfoldable pub decide : CheckerSpec → Result (Rgb × ℕ) → ℕ → Method CheckerResult
  decide spec capture now = do
    (rgb, captured_at) ← lift capture
    t ← gets (λ t. t)
    raise_if (is_stale t.max_image_age now captured_at)
        (fault observation_stale "checker front image is stale")
    raise_if (not (rgb.ndim == 3) || not (rgb.channels == 3) || not rgb.is_uint8)
        (fault checker_failed "checker input must be an RGB uint8 image")
    model ← lift (item t.active_model)
    (index, confidence) ← lift (argmax (infer model rgb))
    predicted ← lift (item (get_elem? t.classes index))
    pure (result_of spec predicted confidence)

  -- `evaluate`: `capture` is what `capture_front_rgb` returns, with the time that is read after it.
  unfoldable pub evaluate : Result (Rgb × ℕ) → ℕ → String → Method CheckerResult
  unfolding prepare decide
  evaluate capture now skill = do
    t ← gets (λ t. t)
    spec ← lift (spec_of (lookup skill t.specs))
    prepare skill spec
    decide spec capture now

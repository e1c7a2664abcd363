-- ===== src/Edge/Checker/Tests.antt =====
-- The checker at one skill, with a model whose scores are its own.
use oven_multiskill_runtime.Common.{ℕ, String, true, ◌≡◌, some, List, [], ◌∷◌, ok, refl}
use oven_multiskill_runtime.Edge.Contracts.{CheckerResult}
use oven_multiskill_runtime.Edge.RosConfig.{CheckerSpec}
use oven_multiskill_runtime.Edge.Checker.{
  Rgb, Files, start, open_model, load_model, prepare, decide, evaluate,
}
use oven_multiskill_runtime.Edge.Checker.Verified.{
  CheckerCall, evaluates, closes, Passes, after_calls, evaluate-Passes,
}

abbrev spec : CheckerSpec
spec = record {
  model_relative_path = "door.pt";
  model_sha256 = "0123456789abcdef0123456789abcdef0123456789abcdef0123456789abcdef";
  success_class = "open";
  threshold = 800;
  preprocessing = "resize";
}

abbrev files : Files (List ℕ)
files = record {
  resolve = λ path. ok (path ∷ []);
  is_file = λ path. true;
  sha256 = λ path. ok spec.model_sha256;
  load = λ path.
      ok (record { is_mapping = true; classes = some ("closed" ∷ "open" ∷ []); has_state = true });
  build = λ path checkpoint classes. ok (100 ∷ 900 ∷ []);
}

abbrev scores : List ℕ → Rgb → List ℕ
scores model rgb = model

abbrev image : Rgb
image = record { ndim = 3; channels = 3; is_uint8 = true }

abbrev specs : List (String × CheckerSpec)
specs = ("open_door", spec) ∷ []

abbrev calls : List (CheckerCall (List ℕ))
calls =
    evaluates files (ok (image, 5)) 200 "open_door"
    ∷ closes
    ∷ evaluates files (ok (image, 5)) 200 "open_door"
    ∷ []

-- The file that is there later is another one.
abbrev later_files : Files (List ℕ)
later_files = record files { sha256 = λ path. ok "another" }

abbrev result : CheckerResult
result = record {
  passed = true;
  score = 900;
  threshold = 800;
  asset_id = spec.model_sha256;
  reason = "predicted:open";
}

door_open :
    (evaluate later_files scores
      (ok (image, 90))
      100
      "open_door"
      (after_calls scores calls (start specs 50))).0
    ≡ ok result
unfolding after_calls evaluate prepare load_model open_model decide
door_open = refl

evaluate-Passes_example :
    Passes scores
      (later_files ∷ files ∷ files ∷ [])
      "open_door"
      (after_calls scores calls (start specs 50))
      image
      90
      100
      result
evaluate-Passes_example =
    evaluate-Passes scores specs 50 calls later_files "open_door" image 90 100 result door_open refl

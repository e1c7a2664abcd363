-- ===== src/Config.antt =====
-- src/oven_runtime/common/config.py: the roots, and paths below a root. What `pathlib` makes of a
-- text is a parameter; a resolved path is its parts.
use oven_multiskill_runtime.Common.{
  String, Bool, true, false, Option, none, some, List, [], ◌∷◌, str_eq, ◌&&◌, Result, ok, err,
  faulted, if◌then◌else◌,
}
use oven_multiskill_runtime.Errors.{fault, config_invalid, path_outside_root}

abbrev pub Parts : Type 0
Parts = List String

pub record RuntimeRoots : Type 0 where
  pub checkpoint : Parts
  pub asset : Parts
  pub runtime : Parts
  pub openpi : Parts

module _ (is_blank : String → Bool) (resolve : String → Result Parts) where
  -- A variable that is not set, or is blank, is missing.
  abbrev value_of : Option String → Option String
  value_of none = none
  value_of (some v) = if is_blank v then none else some v

  abbrev resolved : Option String → Result Parts
  resolved none = err (faulted (fault config_invalid "required root variables are missing"))
  resolved (some v) = resolve v

  abbrev all_set : Option String → Option String → Option String → Option String → Bool
  all_set (some a) (some b) (some c) (some d) = true
  all_set _ _ _ _ = false

  abbrev roots_of :
      Option String → Option String → Option String → Option String → Result RuntimeRoots
  roots_of checkpoint asset runtime openpi =
      if all_set checkpoint asset runtime openpi
      then elim (resolved checkpoint) [
        | err e ↦ err e
        | ok c ↦ elim (resolved asset) [
          | err e ↦ err e
          | ok a ↦ elim (resolved runtime) [
            | err e ↦ err e
            | ok r ↦ elim (resolved openpi) [
              | err e ↦ err e
              | ok o ↦ ok (record { checkpoint = c; asset = a; runtime = r; openpi = o })
            ]
          ]
        ]
      ]
      else err (faulted (fault config_invalid "required root variables are missing"))

  -- `RuntimeRoots.from_environment`
  unfoldable pub from_environment : (String → Option String) → Result RuntimeRoots
  from_environment environment =
      roots_of (value_of (environment "OVEN_CHECKPOINT_ROOT"))
        (value_of (environment "OVEN_ASSET_ROOT")) (value_of (environment "OVEN_RUNTIME_ROOT"))
        (value_of (environment "OVEN_OPENPI_ROOT"))

-- `candidate.relative_to(root)` succeeds.
abbrev pub is_below : Parts → Parts → Bool
is_below [] candidate = true
is_below (r ∷ rest) [] = false
is_below (r ∷ rest) (c ∷ more) = str_eq r c && is_below rest more

-- `join root relative` resolves the root with the relative path below it.
unfoldable pub resolve_under_root :
    (String → Bool) → (Parts → String → Result Parts) → Parts → String → Result Parts
resolve_under_root is_absolute join root relative =
    if is_absolute relative
    then err (faulted (fault config_invalid "configured resource path must be relative"))
    else elim (join root relative) [
      | err e ↦ err e
      | ok candidate ↦
          if is_below root candidate
          then ok candidate
          else err (faulted (fault path_outside_root "configured path escapes its resource root"))
    ]

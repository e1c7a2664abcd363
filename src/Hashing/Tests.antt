-- ===== src/Hashing/Tests.antt =====
-- The hash of two small mappings, with an identity for a digest's place.
use oven_multiskill_runtime.Common.{ℕ, String, ◌≡◌, ◌≢◌, List, [], ◌∷◌, codes, ok, pos}
use oven_multiskill_runtime.Value.{integer}
use oven_multiskill_runtime.Hashing.{Printing, stable_tree_hash}
use oven_multiskill_runtime.Hashing.Collision.{flat, nested, stable_tree_hash_collides}

abbrev printing : Printing
printing = record {
  utf8 = codes;
  decimal = λ n. "7";
  dumps = λ v. ok (55 ∷ []);
  metadata = λ dtype shape. [];
}

abbrev digest : List ℕ → String
digest [] = "empty"
digest (b ∷ bytes) = "digest"

stable_tree_hash_collides_example :
    (stable_tree_hash printing digest (flat (integer (pos 7)))
      ≡ stable_tree_hash printing digest (nested (integer (pos 7))))
    × (flat (integer (pos 7)) ≢ nested (integer (pos 7)))
stable_tree_hash_collides_example = stable_tree_hash_collides printing digest (integer (pos 7))

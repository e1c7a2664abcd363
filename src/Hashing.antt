-- ===== src/Hashing.antt =====
-- src/oven_runtime/common/hashing.py: the bytes that `stable_tree_hash` gives to its digest. What
-- JSON and NumPy print, UTF-8 and the digest itself are parameters. A label or a payload whose
-- length does not fit its field is not represented.
pub mod Collision
mod Tests
use Prim.Native.Nat.{◌/◌, ◌%◌}
use Prim.Native.String.{◌++◌ as join}
use oven_multiskill_runtime.Common.{
  ℕ, zero, suc, String, Bool, true, false, List, [], ◌∷◌, ◌++◌, length, codes, ltb, ◌==◌, ◌&&◌,
  ◌||◌, Result, ok, err, if◌then◌else◌,
}
use oven_multiskill_runtime.Value.{
  Value, Items, Fields, null, boolean, integer, floating, text, binary, array, sequence, mapping,
  nil, cons, end, field,
}

-- `n.to_bytes(width, "big")`
unfoldable pub to_bytes : ℕ → ℕ → List ℕ
to_bytes zero n = []
to_bytes (suc width) n = to_bytes width (n / 256) ++ n % 256 ∷ []

-- The order of texts.
abbrev pub codes_less : List ℕ → List ℕ → Bool
codes_less [] [] = false
codes_less [] (y ∷ ys) = true
codes_less (x ∷ xs) [] = false
codes_less (x ∷ xs) (y ∷ ys) = ltb x y || (x == y && codes_less xs ys)

abbrev pub Entry : Type 0
Entry = String × List ℕ

-- `sorted(item, key=str)`, of the keys with what their values give.
abbrev pub insert_entry : Entry → List Entry → List Entry
insert_entry e [] = e ∷ []
insert_entry e (f ∷ rest) =
    if codes_less (codes f.0) (codes e.0) then f ∷ insert_entry e rest else e ∷ f ∷ rest

abbrev pub sort_entries : List Entry → List Entry
sort_entries [] = []
sort_entries (e ∷ rest) = insert_entry e (sort_entries rest)

abbrev pub concat : List Entry → List ℕ
concat [] = []
concat ((k, bytes) ∷ rest) = bytes ++ concat rest

abbrev count : Items → ℕ
count nil = 0
count (cons v rest) = suc (count rest)

-- What the standard library and NumPy print.
pub record Printing : Type 0 where
  pub utf8 : String → List ℕ
  pub decimal : ℕ → String
  -- `json.dumps` of a scalar, which refuses a float that is not finite.
  pub dumps : Value → Result (List ℕ)
  -- The dictionary of the dtype and the shape.
  pub metadata : String → List ℕ → List ℕ

module _ (p : Printing) where
  -- `_framed`
  unfoldable pub framed : String → List ℕ → List ℕ
  unfolding to_bytes
  framed label payload =
      to_bytes 4 (length (p.utf8 label))
      ++ (p.utf8 label ++ (to_bytes 8 (length payload) ++ payload))

  abbrev scalar : String → String → Value → Result (List ℕ)
  scalar path kind v = elim (p.dumps v) [
    | err e ↦ err e
    | ok printed ↦ ok (framed path (codes "scalar:" ++ (codes kind ++ (codes ":" ++ printed))))
  ]

  abbrev pub collect : Result (List ℕ) → Result (List ℕ) → Result (List ℕ)
  collect (err e) rest = err e
  collect (ok bytes) (err e) = err e
  collect (ok bytes) (ok more) = ok (bytes ++ more)

  abbrev pub collect_entry : String → Result (List ℕ) → Result (List Entry) → Result (List Entry)
  collect_entry key (err e) rest = err e
  collect_entry key (ok bytes) (err e) = err e
  collect_entry key (ok bytes) (ok more) = ok ((key, bytes) ∷ more)

  abbrev pub in_order : Result (List Entry) → Result (List ℕ)
  in_order (err e) = err e
  in_order (ok entries) = ok (concat (sort_entries entries))

  -- `walk`
  unfoldable mutual
    pub walk : Value → String → Result (List ℕ)
    walk (mapping fs) path =
        collect (ok (framed path (codes "mapping"))) (in_order (walk_fields fs path))
    walk (sequence items) path =
        collect (ok (framed path (codes "sequence:" ++ codes (p.decimal (count items)))))
          (walk_items items 0 path)
    walk (binary b) path = ok (framed path (codes "bytes:" ++ b))
    walk null path = scalar path "NoneType" null
    walk (boolean b) path = scalar path "bool" (boolean b)
    walk (integer n) path = scalar path "int" (integer n)
    walk (floating t) path = scalar path "float" (floating t)
    walk (text t) path = scalar path "str" (text t)
    walk (array dtype shape bytes) path =
        ok (framed path (codes "array:" ++ (p.metadata dtype shape ++ (codes ":" ++ bytes))))

    pub walk_items : Items → ℕ → String → Result (List ℕ)
    walk_items nil index path = ok []
    walk_items (cons v rest) index path =
        collect (walk v (join path (join "/" (p.decimal index)))) (walk_items rest (suc index) path)

    pub walk_fields : Fields → String → Result (List Entry)
    walk_fields end path = ok []
    walk_fields (field key v rest) path =
        collect_entry key (walk v (join path (join "/" key))) (walk_fields rest path)

abbrev pub hexdigest : (List ℕ → String) → Result (List ℕ) → Result String
hexdigest digest (err e) = err e
hexdigest digest (ok bytes) = ok (digest bytes)

-- `stable_tree_hash`
unfoldable pub stable_tree_hash : Printing → (List ℕ → String) → Value → Result String
stable_tree_hash p digest v = hexdigest digest (walk p v "root")

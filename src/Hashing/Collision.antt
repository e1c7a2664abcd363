-- ===== src/Hashing/Collision.antt =====
-- Two different values that give the digest the same bytes.
use oven_multiskill_runtime.Common.{
  String, ◌≡◌, ◌≢◌, List, [], ◌++◌, ap, ℕ, codes, append-nil, Result, ok, err, refl, arith,
}
use oven_multiskill_runtime.Value.{Value, end, field, mapping}
use oven_multiskill_runtime.Hashing.{
  Printing, framed, collect, collect_entry, in_order, walk, hexdigest, stable_tree_hash,
}

-- `{"a": {}, "a/b": v}` and `{"a": {"b": v}}`
abbrev pub flat : Value → Value
flat v = mapping (field "a" (mapping end) (field "a/b" v end))

abbrev pub nested : Value → Value
nested v = mapping (field "a" (mapping (field "b" v end)) end)

-- The two mappings after their first frames, by what the value at the end gives.
agree :
    (p : Printing) (r : Result (List ℕ)) (first : List ℕ)
    → in_order p (collect_entry p "a" (ok (first ++ [])) (collect_entry p "a/b" r (ok [])))
      ≡ in_order p (
          collect_entry p "a"
            (collect p (ok first) (in_order p (collect_entry p "b" r (ok []))))
            (ok []))
agree p (err e) first = refl
agree p (ok bytes) first =
    ap (λ l. ok l) (cc (append-nil first, append-nil bytes, append-nil (first ++ bytes)))

walk_collides : (p : Printing) (v : Value) → walk p (flat v) "root" ≡ walk p (nested v) "root"
unfolding walk
walk_collides p v =
    ap (collect p (ok (framed p "root" (codes "mapping"))))
      (agree p (walk p v "root/a/b") (framed p "root/a" (codes "mapping")))

-- `stable_tree_hash` does not tell `{"a": {}, "a/b": v}` from `{"a": {"b": v}}`, whatever v is and
-- whatever the digest: the path of a value does not say where a key ends. The values differ.
pub stable_tree_hash_collides :
    (p : Printing) (digest : List ℕ → String) (v : Value)
    → (stable_tree_hash p digest (flat v) ≡ stable_tree_hash p digest (nested v))
      × (flat v ≢ nested v)
unfolding stable_tree_hash
stable_tree_hash_collides p digest v = (ap (hexdigest digest) (walk_collides p v), ground arith)

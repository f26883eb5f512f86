-- ===== src/Value/DecodeLaws.antt =====
-- How the hooks of json.loads fail.
use simmis.Prelude.{
  not, [], ◌∷◌, ◌++◌, contains, list_eq, nat_eq, Refuses, Refuses-ok, Refuses-raise, Refuses-bind,
  Refuses-require,
}
use simmis.Value.{Value, Items, Dict, fields, keys}
use simmis.Value.Decode.{Raw, RawItems, Pairs, decode, decode_items, decode_pairs, unique_object}

Refuses-unique_object : (result pairs : Dict) → Refuses (unique_object result pairs)
unfolding unique_object
Refuses-unique_object result [] = Refuses-ok result
Refuses-unique_object result ((k, v) ∷ pairs) =
    Refuses-require (not (contains (keys result) k)) _
      λ _. Refuses-unique_object (result ++ (k, v) ∷ []) pairs

mutual
  unfolding decode

  pub Refuses-decode_lem : (raw : Raw) → Refuses (decode raw)
  Refuses-decode_lem Raw.null = Refuses-ok Value.null
  Refuses-decode_lem (Raw.bool b) = Refuses-ok (Value.bool b)
  Refuses-decode_lem (Raw.int n) = Refuses-ok (Value.int n)
  Refuses-decode_lem (Raw.float x) = Refuses-ok (Value.float x)
  Refuses-decode_lem (Raw.constant c) = Refuses-raise
  Refuses-decode_lem (Raw.str s) = Refuses-ok (Value.str s)
  Refuses-decode_lem (Raw.arr xs) =
      Refuses-bind (decode_items xs) _ (Refuses-decode_items xs) λ vs _. Refuses-ok (Value.arr vs)
  Refuses-decode_lem (Raw.obj ps) =
      Refuses-bind (decode_pairs ps) _ (Refuses-decode_pairs ps) λ pairs _.
        Refuses-bind (unique_object [] pairs) _ (Refuses-unique_object [] pairs)
          λ d _. Refuses-ok (Value.obj (fields d))

  Refuses-decode_items : (xs : RawItems) → Refuses (decode_items xs)
  Refuses-decode_items RawItems.nil = Refuses-ok Items.nil
  Refuses-decode_items (RawItems.cons x xs) =
      Refuses-bind (decode x) _ (Refuses-decode_lem x) λ v _.
        Refuses-bind (decode_items xs) _ (Refuses-decode_items xs)
          λ vs _. Refuses-ok (Items.cons v vs)

  Refuses-decode_pairs : (ps : Pairs) → Refuses (decode_pairs ps)
  Refuses-decode_pairs Pairs.end = Refuses-ok []
  Refuses-decode_pairs (Pairs.pair k x ps) = Refuses-bind (decode x) _ (Refuses-decode_lem x) λ v _.
      Refuses-bind (decode_pairs ps) _ (Refuses-decode_pairs ps)
        λ rest _. Refuses-ok ((k, v) ∷ rest)

pub Refuses-decode : (raw : Raw) → Refuses (decode raw)
Refuses-decode raw = Refuses-decode_lem raw

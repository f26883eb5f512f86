-- ===== src/Value/Decode.antt =====
-- `json.loads(..., object_pairs_hook=_unique_object, parse_constant=_invalid_constant)`: the parser
-- hands over a tree whose objects are lists of pairs, and the hooks turn it into a value.
use simmis.Prelude.{
  ℕ, Bool, not, [], ◌∷◌, ◌++◌, Result, ok, err, ◌>>=◌, ◌>>◌, require, value_error, contains,
  list_eq, nat_eq, ℤ,
}
use simmis.Value.{Value, Items, Text, Dict, fields, keys}

mutual
  pub data Raw : Type 0 where
    null : Raw
    bool : Bool → Raw
    int : ℤ → Raw
    float : ℕ → Raw
    constant : Text → Raw
    str : Text → Raw
    arr : RawItems → Raw
    obj : Pairs → Raw

  pub data RawItems : Type 0 where
    nil : RawItems
    cons : Raw → RawItems → RawItems

  pub data Pairs : Type 0 where
    end : Pairs
    pair : Text → Raw → Pairs → Pairs

-- for key, value in pairs: if key in result: raise ValueError; result[key] = value
unfoldable pub unique_object : Dict → Dict → Result Dict
unfolding keys contains
unique_object result [] = ok result
unique_object result ((k, v) ∷ pairs) = do
  require (not (contains (keys result) k))
  unique_object (result ++ (k, v) ∷ []) pairs

-- Every constant that is not JSON (NaN, Infinity) is refused.
unfoldable pub invalid_constant : Text → Result Value
invalid_constant _ = err value_error

unfoldable mutual
  unfolding unique_object invalid_constant

  pub decode : Raw → Result Value
  decode null = ok Value.null
  decode (bool b) = ok (Value.bool b)
  decode (int n) = ok (Value.int n)
  decode (float x) = ok (Value.float x)
  decode (constant c) = invalid_constant c
  decode (str s) = ok (Value.str s)
  decode (arr xs) = do vs ← decode_items xs; ok (Value.arr vs)
  decode (obj ps) = do
    pairs ← decode_pairs ps
    d ← unique_object [] pairs
    ok (Value.obj (fields d))

  pub decode_items : RawItems → Result Items
  decode_items nil = ok Items.nil
  decode_items (cons x xs) = do v ← decode x; vs ← decode_items xs; ok (Items.cons v vs)

  pub decode_pairs : Pairs → Result Dict
  decode_pairs end = ok []
  decode_pairs (pair k x ps) = do v ← decode x; rest ← decode_pairs ps; ok ((k, v) ∷ rest)

-- ===== src/Value.antt =====
-- The values that the worker scripts exchange as JSON (scripts/worker_inputs.py and its clients):
-- Python's None, bool, int, float, str, list and dict, as `json.loads` builds them.
pub mod Equality
pub mod Decode
pub mod Laws
pub mod DecodeLaws
use Prim.Native.Char.{code}
use simmis.Prelude.{
  list_beq, value_error, ℕ, zero, suc, ◌+◌, ◌≡◌, refl, String, Bool, true, false, ◌&&◌, not, Option,
  none, some, List, [], ◌∷◌, leb, ◌==◌, contains, all, any, length, ℤ, pos, negsuc, Result, ok, err,
  ◌>>=◌, ◌>>◌, require, key_error, type_error, list_eq, nat_eq, int_eq, if◌then◌else◌,
}

-- A str is the list of its code points; a lone surrogate can be one.
abbrev pub Text : Type 0
Text = List ℕ

abbrev pub Bytes : Type 0
Bytes = List ℕ

-- A literal of the source.
abbrev pub text : String → Text
text String.[] = []
text (String.◌∷◌ c s) = code c ∷ text s

-- A float is named by the 64 bits of its representation; only tests of type and of equality reach it.
mutual
  pub data Value : Type 0 where
    null : Value
    bool : Bool → Value
    int : ℤ → Value
    float : ℕ → Value
    str : Text → Value
    arr : Items → Value
    obj : Fields → Value

  pub data Items : Type 0 where
    nil : Items
    cons : Value → Items → Items

  pub data Fields : Type 0 where
    end : Fields
    field : Text → Value → Fields → Fields

-- A dict in insertion order.
abbrev pub Dict : Type 0
Dict = List (Text × Value)

abbrev pub entries : Fields → Dict
entries end = []
entries (field k v fs) = (k, v) ∷ entries fs

abbrev pub fields : Dict → Fields
fields [] = end
fields ((k, v) ∷ d) = field k v (fields d)

abbrev pub dict : Dict → Value
dict d = obj (fields d)

unfoldable pub keys {ℓ} : {V : Type ℓ} → List (Text × V) → List Text
keys [] = []
keys ((k, v) ∷ d) = k ∷ keys d

unfoldable pub lookup {ℓ} : {V : Type ℓ} → Text → List (Text × V) → Option V
lookup k [] = none
lookup k ((j, v) ∷ d) = if k == j then some v else lookup k d

abbrev or_key_error : Option Value → Result Value
or_key_error none = err key_error
or_key_error (some v) = ok v

-- d[k]
unfoldable pub item : Text → Dict → Result Value
unfolding lookup
item k d = or_key_error (lookup k d)

-- value[k] of a value that need not be a dict
unfoldable pub index : Value → Text → Result Value
unfolding item
index (obj fs) k = item k (entries fs)
index _ k = err type_error

-- set(value) == set(names)
unfoldable pub has_exactly : List Text → Dict → Bool
unfolding keys contains all
has_exactly names d = all (contains names) (keys d) && all (contains (keys d)) names

-- `if type(value) is not dict or set(value) != set(names): raise ValueError`, then its fields.
unfoldable pub closed : Value → List Text → Result Dict
unfolding has_exactly
closed (obj fs) names = do require (has_exactly names (entries fs)); ok (entries fs)
closed _ names = err value_error

-- type(value) is int and first <= value <= last
unfoldable pub is_int_in : ℕ → ℕ → Value → Bool
is_int_in first last (int (pos n)) = leb first n && leb n last
is_int_in first last _ = false

unfoldable pub is_int : ℕ → Value → Bool
is_int n (int (pos m)) = m == n
is_int n _ = false

-- isinstance(value, str) and test(value)
unfoldable pub is_str : (Text → Bool) → Value → Bool
is_str test (str s) = test s
is_str test _ = false

-- isinstance(value, str) and first <= len(value) <= last
unfoldable pub is_text : ℕ → ℕ → Value → Bool
unfolding is_str
is_text first last = is_str (λ s. leb first (length s) && leb (length s) last)

-- re.fullmatch of a class of characters, counted
unfoldable pub is_run : (ℕ → Bool) → ℕ → Text → Bool
unfolding all
is_run test n s = length s == n && all test s

-- value in {...}, a set of str: a list or a dict is not hashable
unfoldable pub in_set : List Text → Value → Result Bool
unfolding contains list_beq
in_set names (str s) = ok (contains names s)
in_set names (arr xs) = err type_error
in_set names (obj fs) = err type_error
in_set names _ = ok false

-- ===== src/Value/Laws.antt =====
-- Reading a dict whose key set has been checked.
use simmis.Prelude.{
  ◌++◌, ◌∙◌, sym, ok-injective, ap, require-eq-ok, Refuses-require, list_beq_iff, ◌≡◌, refl, true,
  some, List, [], ◌∷◌, ◌==◌, contains, all, list_eq, nat_eq, ok, Refuses, Refuses-ok, Refuses-raise,
  arith, Bool-cases, inl, inr, and-eq-true,
}
use simmis.Value.{
  has_exactly, end, field, Fields, fields, Text, Dict, Value, obj, entries, keys, lookup, item,
  closed, index,
}

pub all-contains :
    (xs ys : List Text) (k : Text)
    → all (contains ys) xs ≡ true
    → contains xs k ≡ true
    → contains ys k ≡ true
unfolding all contains
all-contains [] ys k h m = cc
all-contains (x ∷ xs) ys k h m = ground (arith, list_beq_iff k x, all-contains xs ys k)

-- A listed key has a value.
pub lookup-of_key :
    (k : Text) (d : Dict) → contains (keys d) k ≡ true → (v : Value) × (lookup k d ≡ some v)
unfolding lookup keys contains
lookup-of_key k [] m = cc
lookup-of_key k ((j, w) ∷ d) m = elim (Bool-cases (k == j)) [
  | inl here ↦ (w, rw here refl)
  | inr later ↦ rw later (lookup-of_key k d (rw later at m))
]

-- What a closed dict is.
pub record IsClosed (v : Value) (names : List Text) (d : Dict) : Type 0 where
  pub is_obj : v ≡ obj (fields d)
  pub exact : has_exactly names d ≡ true

pub fields-entries : (fs : Fields) → fields (entries fs) ≡ fs
fields-entries end = refl
fields-entries (field k v fs) = ap (field k v) (fields-entries fs)

pub closed-IsClosed :
    (v : Value) (names : List Text) {d : Dict} → closed v names ≡ ok d → IsClosed v names d
unfolding closed
closed-IsClosed (obj fs) names {d} h =
    let (t, e) = require-eq-ok (has_exactly names (entries fs)) (ok (entries fs)) h in
    let same : entries fs ≡ d = ok-injective e in
    record { is_obj = ap obj (sym (fields-entries fs) ∙ ap fields same); exact = rw same at t }
closed-IsClosed _ names h = cc

pub has_exactly_complete :
    (names : List Text) (d : Dict)
    → has_exactly names d ≡ true
    → all (contains (keys d)) names ≡ true
unfolding has_exactly
has_exactly_complete names d h =
    (and-eq-true (all (contains names) (keys d)) (all (contains (keys d)) names) h).1

-- A dict with exactly the listed keys has each of them.
pub closed-item :
    (v : Value) (names : List Text) {d : Dict} (k : Text)
    → closed v names ≡ ok d
    → contains names k ≡ true
    → (x : Value) × (item k d ≡ ok x)
unfolding item has_exactly
closed-item v names {d} k h m =
    let c = closed-IsClosed v names h in
    let (x, e) = lookup-of_key k d (
      all-contains names (keys d) k
        (and-eq-true (all (contains names) (keys d)) (all (contains (keys d)) names) c.exact).1
        m) in
    (x, rw e refl)

pub entries-fields : (d : Dict) → entries (fields d) ≡ d
entries-fields [] = refl
entries-fields ((k, v) ∷ d) = ap (λ r. (k, v) ∷ r) (entries-fields d)

pub index-dict : (k : Text) (d : Dict) → index (obj (fields d)) k ≡ item k d
unfolding index
index-dict k d = ap (item k) (entries-fields d)

pub closed-index :
    (v : Value) (names : List Text) {d : Dict} (k : Text)
    → closed v names ≡ ok d
    → index v k ≡ item k d
closed-index v names {d} k h = let c = closed-IsClosed v names h in rw c.is_obj (index-dict k d)

pub Refuses-closed : (v : Value) (names : List Text) → Refuses (closed v names)
unfolding closed
Refuses-closed (obj fs) names =
    Refuses-require (has_exactly names (entries fs)) (ok (entries fs))
      (λ h. Refuses-ok (entries fs))
Refuses-closed _ names = Refuses-raise

-- After the key set has been checked, reading a listed key does not fail.
pub Refuses-item :
    (v : Value) (names : List Text) {d : Dict} (k : Text)
    → closed v names ≡ ok d
    → contains names k ≡ true
    → Refuses (item k d)
Refuses-item v names k h m = let (x, e) = closed-item v names k h m in rw e (Refuses-ok x)

pub Refuses-item_of_exact :
    (names : List Text) (d : Dict) (k : Text)
    → has_exactly names d ≡ true
    → contains names k ≡ true
    → Refuses (item k d)
unfolding item
Refuses-item_of_exact names d k h m =
    let (x, e) =
      lookup-of_key k d (all-contains names (keys d) k (has_exactly_complete names d h) m) in
    rw e (Refuses-ok x)

pub contains-append_left :
    (xs ys : List Text) (k : Text) → contains xs k ≡ true → contains (xs ++ ys) k ≡ true
unfolding contains
contains-append_left [] ys k h = cc
contains-append_left (x ∷ xs) ys k h = ground (arith, contains-append_left xs ys k)

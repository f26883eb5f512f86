-- ===== src/Value/Equality.antt =====
-- Python's `==` on these values: numbers compare by value across bool, int and float, and dicts
-- without regard to order. What a float equals is the machine's to say.
use simmis.Prelude.{
  ℕ, Bool, true, false, ◌&&◌, none, some, length, ℤ, pos, ◌==◌, int_eq, nat_eq, list_eq,
}
use simmis.Value.{
  Value, null, bool, int, float, str, arr, obj, Items, nil, cons, Fields, end, field, entries,
  lookup,
}

pub record Floats : Type 0 where
  pub same : ℕ → ℕ → Bool
  pub same_int : ℕ → ℤ → Bool

abbrev bit : Bool → ℤ
bit true = pos 1
bit false = pos 0

module _ (m : Floats) where
  abbrev scalar_eq : Value → Value → Bool
  scalar_eq null null = true
  scalar_eq (bool a) (bool b) = bit a == bit b
  scalar_eq (bool a) (int b) = bit a == b
  scalar_eq (bool a) (float b) = m.same_int b (bit a)
  scalar_eq (int a) (bool b) = a == bit b
  scalar_eq (int a) (int b) = a == b
  scalar_eq (int a) (float b) = m.same_int b a
  scalar_eq (float a) (bool b) = m.same_int a (bit b)
  scalar_eq (float a) (int b) = m.same_int a b
  scalar_eq (float a) (float b) = m.same a b
  scalar_eq (str a) (str b) = a == b
  scalar_eq _ _ = false

  unfoldable mutual
    unfolding lookup

    pub value_eq : Value → Value → Bool
    value_eq (arr xs) w = elim w [ arr ys ↦ items_eq xs ys | _ ↦ false ]
    value_eq (obj fs) w = elim w [
      | obj gs ↦ (length (entries fs) == length (entries gs)) && fields_eq fs gs
      | _ ↦ false
    ]
    value_eq null w = scalar_eq null w
    value_eq (bool a) w = scalar_eq (bool a) w
    value_eq (int a) w = scalar_eq (int a) w
    value_eq (float a) w = scalar_eq (float a) w
    value_eq (str a) w = scalar_eq (str a) w

    pub items_eq : Items → Items → Bool
    items_eq nil ys = elim ys [ nil ↦ true | cons _ _ ↦ false ]
    items_eq (cons x xs) ys = elim ys [ nil ↦ false | cons y r ↦ value_eq x y && items_eq xs r ]

    pub fields_eq : Fields → Fields → Bool
    fields_eq end gs = true
    fields_eq (field k v fs) gs = elim (lookup k (entries gs)) [
      | none ↦ false
      | some w ↦ value_eq v w && fields_eq fs gs
    ]

-- ===== src/Json.antt =====
-- The values that `json.loads` returns, with the Python operations that the tools apply to them.
-- Floats are the type `F`. An object keeps the order of insertion, and its keys differ.
use Prim.Native.String.{◌++◌ as str_append}
use telar.Prelude.{
  ℕ, zero, suc, String, Bool, true, false, not, ◌&&◌, Option, none, some, str_eq, ◌==◌,
  if◌then◌else◌,
}
use telar.Prelude.Int.{ℤ, pos, eq_ℤ, ◌*ℤ◌, ◌+ℤ◌, pos_part}
use telar.Prelude.Result.{Result, ok, err, Exception, type_error}
use telar.Number.{Number}
use telar.Text.{is_empty}

mutual
  pub data Json (F : Type 0) : Type 0 where
    null : Json F
    bool : Bool → Json F
    int : ℤ → Json F
    real : F → Json F
    text : String → Json F
    arr : Items F → Json F
    obj : Fields F → Json F

  pub data Items (F : Type 0) : Type 0 where
    nil : Items F
    cons : Json F → Items F → Items F

  pub data Fields (F : Type 0) : Type 0 where
    end : Fields F
    field : String → Json F → Fields F → Fields F

abbrev pub int_of_bool : Bool → ℤ
int_of_bool true = pos 1
int_of_bool false = pos 0

module _ {F : Type 0} where
  -- `row[key]`, with `none` for a missing key.
  abbrev pub find : String → Fields F → Option (Json F)
  find key end = none
  find key (field k v row) = if str_eq k key then some v else find key row

  -- `row.get(key)`: a missing key reads as `None`, like a null.
  abbrev pub or_null : Option (Json F) → Json F
  or_null none = null
  or_null (some v) = v

  abbrev pub get : String → Fields F → Json F
  get key row = or_null (find key row)

  abbrev pub size : Fields F → ℕ
  size end = 0
  size (field k v row) = suc (size row)

  -- `isinstance(value, int)`, which `True` and `False` satisfy too.
  abbrev pub is_int : Json F → Bool
  is_int (bool b) = true
  is_int (int i) = true
  is_int _ = false

  -- `value is True`
  abbrev pub is_true : Json F → Bool
  is_true (bool b) = b
  is_true _ = false

  -- What can be the key of a dictionary.
  abbrev pub is_hashable : Json F → Bool
  is_hashable (arr xs) = false
  is_hashable (obj fs) = false
  is_hashable _ = true

  abbrev pub count_true : Items F → ℕ
  count_true nil = 0
  count_true (cons v vs) = let rest = count_true vs in if is_true v then suc rest else rest

module _ (n : Number) where
  open n use {Num, of_nat, add, mul, eq, lt, of_int}

  abbrev pub Value : Type 0
  Value = Json Num

  abbrev pub Row : Type 0
  Row = Fields Num

  scalar_eq : Value → Value → Bool
  scalar_eq null null = true
  scalar_eq (bool a) (bool b) = eq_ℤ (int_of_bool a) (int_of_bool b)
  scalar_eq (bool a) (int b) = eq_ℤ (int_of_bool a) b
  scalar_eq (int a) (bool b) = eq_ℤ a (int_of_bool b)
  scalar_eq (int a) (int b) = eq_ℤ a b
  scalar_eq (bool a) (real b) = eq (of_int (int_of_bool a)) b
  scalar_eq (int a) (real b) = eq (of_int a) b
  scalar_eq (real a) (bool b) = eq a (of_int (int_of_bool b))
  scalar_eq (real a) (int b) = eq a (of_int b)
  scalar_eq (real a) (real b) = eq a b
  scalar_eq (text a) (text b) = str_eq a b
  scalar_eq _ _ = false

  unfoldable mutual
    unfolding scalar_eq

    -- `a == b`
    pub py_eq : Value → Value → Bool
    py_eq (arr xs) other = elim other [ arr ys ↦ eq_items xs ys | _ ↦ false ]
    py_eq (obj fs) other = elim other [
      | obj gs ↦ (size fs == size gs) && eq_fields fs gs
      | _ ↦ false
    ]
    py_eq a b = scalar_eq a b

    pub eq_items : Items Num → Items Num → Bool
    eq_items nil nil = true
    eq_items nil (cons y ys) = false
    eq_items (cons x xs) nil = false
    eq_items (cons x xs) (cons y ys) = py_eq x y && eq_items xs ys

    pub eq_fields : Fields Num → Fields Num → Bool
    eq_fields end gs = true
    eq_fields (field k v fs) gs = elim (find k gs) [
      | none ↦ false
      | some w ↦ py_eq v w && eq_fields fs gs
    ]

  -- `bool(value)`
  abbrev pub truthy : Value → Bool
  truthy null = false
  truthy (bool b) = b
  truthy (int i) = not (eq_ℤ i (pos 0))
  truthy (real x) = not (eq x (of_nat 0))
  truthy (text s) = not (is_empty s)
  truthy (arr nil) = false
  truthy (arr (cons v vs)) = true
  truthy (obj end) = false
  truthy (obj (field k v fs)) = true

  -- `value or 0`
  abbrev pub or_zero : Value → Value
  or_zero v = if truthy v then v else int (pos 0)

  append_items : Items Num → Items Num → Items Num
  append_items nil ys = ys
  append_items (cons x xs) ys = cons x (append_items xs ys)

  repeat_items : ℕ → Items Num → Items Num
  unfolding append_items
  repeat_items zero xs = nil
  repeat_items (suc k) xs = append_items xs (repeat_items k xs)

  repeat_text : ℕ → String → String
  repeat_text zero s = ""
  repeat_text (suc k) s = str_append s (repeat_text k s)

  times_int : ℤ → Value → Result Exception Value
  unfolding repeat_items repeat_text
  times_int i (bool b) = ok (int (i *ℤ int_of_bool b))
  times_int i (int j) = ok (int (i *ℤ j))
  times_int i (real x) = ok (real (mul (of_int i) x))
  times_int i (text s) = ok (text (repeat_text (pos_part i) s))
  times_int i (arr xs) = ok (arr (repeat_items (pos_part i) xs))
  times_int i _ = err type_error

  -- `a * b`: a product of numbers, or a repeated text or list.
  unfoldable pub py_mul : Value → Value → Result Exception Value
  unfolding times_int
  py_mul (bool b) v = times_int (int_of_bool b) v
  py_mul (int i) v = times_int i v
  py_mul (real x) (bool b) = ok (real (mul x (of_int (int_of_bool b))))
  py_mul (real x) (int i) = ok (real (mul x (of_int i)))
  py_mul (real x) (real y) = ok (real (mul x y))
  py_mul (text s) (bool b) = times_int (int_of_bool b) (text s)
  py_mul (text s) (int i) = times_int i (text s)
  py_mul (arr xs) (bool b) = times_int (int_of_bool b) (arr xs)
  py_mul (arr xs) (int i) = times_int i (arr xs)
  py_mul _ _ = err type_error

  -- `a + b` where `a` is a number, as in `sum`.
  abbrev pub add_number : Value → Value → Result Exception Value
  add_number (int i) (int j) = ok (int (i +ℤ j))
  add_number (int i) (bool b) = ok (int (i +ℤ int_of_bool b))
  add_number (int i) (real y) = ok (real (add (of_int i) y))
  add_number (real x) (int j) = ok (real (add x (of_int j)))
  add_number (real x) (bool b) = ok (real (add x (of_int (int_of_bool b))))
  add_number (real x) (real y) = ok (real (add x y))
  add_number _ _ = err type_error

  sum_items : Value → Items Num → Result Exception Value
  sum_items acc nil = ok acc
  sum_items acc (cons v vs) = elim (add_number acc v) [
    | ok total ↦ sum_items total vs
    | err e ↦ err e
  ]

  -- `sum(value)`: texts and objects have only texts to add, so they raise unless they are empty.
  unfoldable pub py_sum : Value → Result Exception Value
  unfolding sum_items
  py_sum (arr xs) = sum_items (int (pos 0)) xs
  py_sum (text s) = if is_empty s then ok (int (pos 0)) else err type_error
  py_sum (obj end) = ok (int (pos 0))
  py_sum _ = err type_error

  -- `sum(1 for v in value if v is True)`
  unfoldable pub count_trues : Value → Result Exception ℕ
  count_trues (arr xs) = ok (count_true xs)
  count_trues (text s) = ok 0
  count_trues (obj fs) = ok 0
  count_trues _ = err type_error

  -- A number among the values, as a float.
  unfoldable pub as_number : Value → Option Num
  as_number (bool b) = some (of_int (int_of_bool b))
  as_number (int i) = some (of_int i)
  as_number (real x) = some x
  as_number _ = none

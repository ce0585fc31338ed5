-- ===== src/Store/Values.antt =====
-- The dynamic values that events and rows are made of.
use dike_monolith.Prelude.{
  Eq, ◌≡◌, ◌↔◌, Bool, true, false, not, List, [], ◌∷◌, String, ◌==◌, string_eq, nat_eq, arith,
}
use dike_monolith.Prelude.Int.{ℤ, pos, negsuc}

-- A value of JavaScript, as `scValToNative` makes them: numbers are integers.
mutual
  pub data JsValue : Type 0 where
    undefined : JsValue
    null : JsValue
    boolean : Bool → JsValue
    number : ℤ → JsValue
    bigint : ℤ → JsValue
    string : String → JsValue
    array : Items → JsValue
    object : Fields → JsValue

  pub data Items : Type 0 where
    nil : Items
    cons : JsValue → Items → Items

  pub data Fields : Type 0 where
    end : Fields
    field : String → JsValue → Fields → Fields

abbrev pub items : Items → List JsValue
items nil = []
items (cons v vs) = v ∷ items vs

abbrev pub fields : Fields → List (String × JsValue)
fields end = []
fields (field k v fs) = (k, v) ∷ fields fs

-- A value of a column.
pub data SqlValue : Type 0 where
  null : SqlValue
  text : String → SqlValue
  number : ℤ → SqlValue
  boolean : Bool → SqlValue

same_int : ℤ → ℤ → Bool
same_int (pos a) (pos b) = a == b
same_int (negsuc a) (negsuc b) = a == b
same_int _ _ = false

same_bool : Bool → Bool → Bool
same_bool true b = b
same_bool false b = not b

unfoldable pub same_value : SqlValue → SqlValue → Bool
unfolding same_int same_bool
same_value SqlValue.null SqlValue.null = true
same_value (SqlValue.text s) (SqlValue.text t) = s == t
same_value (SqlValue.number a) (SqlValue.number b) = same_int a b
same_value (SqlValue.boolean a) (SqlValue.boolean b) = same_bool a b
same_value _ _ = false

same_int_iff : (a b : ℤ) → (same_int a b ≡ true) ↔ (a ≡ b)
unfolding same_int
same_int_iff (pos a) (pos b) = ground arith
same_int_iff (pos a) (negsuc b) = ground arith
same_int_iff (negsuc a) (pos b) = ground arith
same_int_iff (negsuc a) (negsuc b) = ground arith

instance pub int_eq : Eq ℤ
int_eq = record { beq = same_int; beq_iff = same_int_iff }

pub same_value_iff : (v w : SqlValue) → (same_value v w ≡ true) ↔ (v ≡ w)
unfolding same_value
same_value_iff SqlValue.null SqlValue.null = ground arith
same_value_iff SqlValue.null (SqlValue.text w) = ground arith
same_value_iff SqlValue.null (SqlValue.number w) = ground arith
same_value_iff SqlValue.null (SqlValue.boolean w) = ground arith
same_value_iff (SqlValue.text v) SqlValue.null = ground arith
same_value_iff (SqlValue.text v) (SqlValue.text w) = ground (arith, string_eq.beq_iff v w)
same_value_iff (SqlValue.text v) (SqlValue.number w) = ground arith
same_value_iff (SqlValue.text v) (SqlValue.boolean w) = ground arith
same_value_iff (SqlValue.number v) SqlValue.null = ground arith
same_value_iff (SqlValue.number v) (SqlValue.text w) = ground arith
same_value_iff (SqlValue.number v) (SqlValue.number w) = ground (arith, same_int_iff v w)
same_value_iff (SqlValue.number v) (SqlValue.boolean w) = ground arith
same_value_iff (SqlValue.boolean v) SqlValue.null = ground arith
same_value_iff (SqlValue.boolean v) (SqlValue.text w) = ground arith
same_value_iff (SqlValue.boolean v) (SqlValue.number w) = ground arith
same_value_iff (SqlValue.boolean v) (SqlValue.boolean w) = ground arith

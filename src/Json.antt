-- ===== src/Json.antt =====
-- The JSON library that the program links (jsoncpp), as the program uses it. Its implementation is
-- not in the repository, so its operations are the fields of a record, with the documented
-- behaviour that the proofs rely on.
use nixsrv.Prelude.{
  ℤ, String, ◌≡◌, Bool, true, false, ◌||◌, Option, none, some, fits_int, ◌==◌, if◌then◌else◌,
}

-- `V` is `Json::Value`.
pub record Json (V : Type 0) : Type 0 where
  pub null_value : V
  pub object_value : V
  pub array_value : V
  pub from_string : String → V
  pub from_int : ℤ → V
  pub from_bool : Bool → V
  pub is_null : V → Bool
  pub is_object : V → Bool
  pub is_array : V → Bool
  pub is_int : V → Bool
  pub is_integral : V → Bool
  pub is_convertible_to_string : V → Bool
  pub is_convertible_to_bool : V → Bool
  pub as_string : V → String
  pub as_int : V → ℤ
  pub as_largest_int : V → ℤ
  pub as_bool : V → Bool
  pub empty : V → Bool
  -- The member of that name, if there is one: `isMember` and the constant `operator[]`.
  pub member : V → String → Option V
  -- `v[k] = x`, at an object or null.
  pub insert : V → String → V → V
  -- `v.removeMember(k)`, at an object or null.
  pub erase : V → String → V
  -- `v.append(x)`, at an array.
  pub append : V → V → V
  -- `v.clear()`, at an object, an array or null.
  pub cleared : V → V
  pub reader_parse : String → Option V
  pub fast_write : V → String
  pub object_value-object : is_object object_value ≡ true
  pub object_value-member : (k : String) → member object_value k ≡ none
  pub null-member : (v : V) (k : String) → is_null v ≡ true → member v k ≡ none
  pub null_value-null : is_null null_value ≡ true
  pub array_value-array : is_array array_value ≡ true
  pub null-not_array : (v : V) → is_null v ≡ true → is_array v ≡ false
  pub object-not_array : (v : V) → is_object v ≡ true → is_array v ≡ false
  pub insert-object :
      (v : V) (k : String) (x : V)
      → (is_object v || is_null v) ≡ true
      → is_object (insert v k x) ≡ true
  pub member-insert :
      (v : V) (k j : String) (x : V)
      → (is_object v || is_null v) ≡ true
      → member (insert v k x) j ≡ (if k == j then some x else member v j)
  pub erase-object : (v : V) (k : String) → is_object (erase v k) ≡ is_object v
  pub erase-null : (v : V) (k : String) → is_null (erase v k) ≡ is_null v
  pub member-erase :
      (v : V) (k j : String)
      → (is_object v || is_null v) ≡ true
      → member (erase v k) j ≡ (if k == j then none else member v j)
  pub cleared-object : (v : V) → is_object (cleared v) ≡ is_object v
  pub member-cleared : (v : V) (k : String) → member (cleared v) k ≡ none
  pub from_string-convertible : (s : String) → is_convertible_to_string (from_string s) ≡ true
  pub as_string-from_string : (s : String) → as_string (from_string s) ≡ s
  pub from_bool-convertible : (b : Bool) → is_convertible_to_bool (from_bool b) ≡ true
  pub as_bool-from_bool : (b : Bool) → as_bool (from_bool b) ≡ b
  pub from_int-int : (n : ℤ) → fits_int n ≡ true → is_int (from_int n) ≡ true
  pub as_int-from_int : (n : ℤ) → fits_int n ≡ true → as_int (from_int n) ≡ n

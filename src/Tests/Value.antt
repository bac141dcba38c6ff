-- ===== src/Tests/Value.antt =====
-- A small JSON value, with every operation of the interface computed, at which the theorems are
-- applied.
use Prim.Native.String.{◌++◌}
use nixsrv.Prelude.{
  ℕ, zero, suc, List, [], ◌∷◌, ℤ, ◌≡◌, refl, pos, leb_ℤ, eqb_ℤ, not, Bool, true, false, ◌||◌,
  Option, none, some, String, arith, eq_iff, ◌==◌, if◌then◌else◌,
}
use nixsrv.Json.{Json}
use nixsrv.Double.{Double}

mutual
  pub data Value : Type 0 where
    null : Value
    boolean : Bool → Value
    number : ℤ → Value
    text : String → Value
    array : Items → Value
    object : Fields → Value

  pub data Fields : Type 0 where
    end : Fields
    field : String → Value → Fields → Fields

  pub data Items : Type 0 where
    nil : Items
    cons : Value → Items → Items

unfoldable pub get : Fields → String → Option Value
get end j = none
get (field k v fs) j = if k == j then some v else get fs j

unfoldable pub without : Fields → String → Fields
without end j = end
without (field k v fs) j = let rest = without fs j in if k == j then rest else field k v rest

unfoldable pub append_item : Items → Value → Items
append_item nil x = cons x nil
append_item (cons y ys) x = cons y (append_item ys x)

abbrev pub fields_of : Value → Fields
fields_of (object fs) = fs
fields_of _ = end

abbrev pub is_null : Value → Bool
is_null null = true
is_null _ = false

abbrev pub is_object : Value → Bool
is_object (object fs) = true
is_object _ = false

abbrev pub is_array : Value → Bool
is_array (array xs) = true
is_array _ = false

abbrev pub is_number : Value → Bool
is_number (number n) = true
is_number _ = false

abbrev pub is_text : Value → Bool
is_text (text s) = true
is_text _ = false

abbrev pub is_boolean : Value → Bool
is_boolean (boolean b) = true
is_boolean _ = false

abbrev pub as_text : Value → String
as_text (text s) = s
as_text _ = String.[]

abbrev pub as_number : Value → ℤ
as_number (number n) = n
as_number _ = ℤ.pos 0

abbrev pub as_boolean : Value → Bool
as_boolean (boolean b) = b
as_boolean _ = false

abbrev pub is_empty : Value → Bool
is_empty null = true
is_empty (array nil) = true
is_empty (object end) = true
is_empty _ = false

unfoldable pub append_value : Value → Value → Value
unfolding append_item
append_value (array xs) x = array (append_item xs x)
append_value v x = v

abbrev pub erased : Value → String → Value
erased (object fs) k = object (without fs k)
erased v k = v

abbrev pub cleared : Value → Value
cleared (object fs) = object end
cleared (array xs) = array nil
cleared v = null

-- The message of a job, which the writer and the reader know.
abbrev pub job_root : Value
job_root = object (
    field "parameters" (object end) (
      field "completed" (boolean false) (
        field "progress" (number (ℤ.pos 5)) (
          field "ctime" (number (ℤ.pos 7)) (
            field "action" (text "a") (
              field "module" (text "m") (
                field "@api_key" (text "k")
                  (field "@origin_node" (text "n") (field "@job_id" (text "id-1") end)))))))))

-- The message of the job that a result without fields completes.
abbrev pub done_root : Value
done_root = object (
    field "parameters" null (
      field "completed" (boolean true) (
        field "progress" (number (ℤ.pos 100)) (
          field "ctime" (number (ℤ.pos 9)) (
            field "action" (text "") (
              field "module" (text "") (
                field "@api_key" (text "")
                  (field "@origin_node" (text "") (field "@job_id" (text "id-1") end)))))))))

-- The text of a value: texts stand between quotes, numbers are written in ones.
unfoldable ones : ℕ → String
ones zero = ""
ones (suc n) = "1" ++ ones n

unfoldable mutual
  unfolding ones

  pub write : Value → String
  write null = "null"
  write (boolean true) = "true"
  write (boolean false) = "false"
  write (number (ℤ.pos n)) = "+" ++ ones n
  write (number (ℤ.negsuc n)) = "-" ++ ones n
  write (text s) = "\"" ++ (s ++ "\"")
  write (array xs) = "[" ++ (write_items xs ++ "]")
  write (object fs) = "{" ++ (write_fields fs ++ "}")

  pub write_fields : Fields → String
  write_fields end = ""
  write_fields (field k v fs) = k ++ (":" ++ (write v ++ ("," ++ write_fields fs)))

  pub write_items : Items → String
  write_items nil = ""
  write_items (cons x xs) = write x ++ ("," ++ write_items xs)

abbrev pub status_ok : Fields → Value
status_ok fs = object (field "@status_code" (number (ℤ.pos 0)) fs)

-- The fields of the message of a job with an identifier and a creation time.
abbrev pub job_fields : String → ℕ → Fields
job_fields id ctime = field "parameters" (object end) (
    field "completed" (boolean false) (
      field "progress" (number (ℤ.pos 5)) (
        field "ctime" (number (ℤ.pos ctime)) (
          field "action" (text "a") (
            field "module" (text "m") (
              field "@api_key" (text "key")
                (field "@origin_node" (text "n.a") (field "@job_id" (text id) end))))))))

-- The values whose texts are read: a job's message, small values, and the messages of clients.
abbrev pub known : List Value
known =
    job_root
    ∷ done_root
    ∷ object end
    ∷ array nil
    ∷ object (job_fields "" 0)
    ∷ object (job_fields "id-1" 7)
    ∷ status_ok (job_fields "id-1" 7)
    ∷ status_ok (field "@job_id" (text "id-1") end)
    ∷ object (field "module" (text "m") (field "@api_key" (text "key") end))
    ∷ text "v"
    ∷ object (field "f" (text "v") end)
    ∷ object (field "@status" (text "no") (field "@status_code" (number (ℤ.pos 51)) end))
    ∷ text "{f:\"v\",}"
    ∷ status_ok (field "@status" (text "") (field "@status_code" (number (ℤ.pos 0)) end))
    ∷ object (
        field "address" (text "tcp")
          (field "nodename" (text "n.a") (field "@api_key" (text "key") end)))
    ∷ object (field "nodename" (text "n.a") (field "@api_key" (text "key") end))
    ∷ status_ok (field "n" (object (field "a" (text "tcp") end)) end)
    ∷ object (
        field "value" (text "{f:\"v\",}")
          (field "key" (text "k") (field "@api_key" (text "key") end)))
    ∷ object (field "key" (text "k") (field "@api_key" (text "key") end))
    ∷ status_ok (field "k" (text "{f:\"v\",}") end)
    ∷ object (field "@api_key" (text "_development_key_admin_") end)
    ∷ []

-- The first of the values that is written so.
abbrev first_written : List Value → String → Option Value
first_written [] s = none
first_written (v ∷ vs) s = if write v == s then some v else first_written vs s

unfoldable pub read : String → Option Value
read s = first_written known s

get-without :
    (fs : Fields) (k j : String) → get (without fs k) j ≡ (if k == j then none else get fs j)
unfolding get without
get-without end k j = ground arith
get-without (field i v fs) k j =
    ground (arith, get-without fs k j, eq_iff i k, eq_iff i j, eq_iff k j)

abbrev pub inserted : Value → String → Value → Value
inserted (object fs) k x = object (field k x fs)
inserted null k x = object (field k x end)
inserted v k x = v

unfoldable pub member : Value → String → Option Value
unfolding get
member v k = get (fields_of v) k

pub null-member : (v : Value) (k : String) → is_null v ≡ true → member v k ≡ none
unfolding member
null-member null k h = refl
null-member _ k h = cc

pub object_value-member : (k : String) → member (object end) k ≡ none
unfolding member
object_value-member k = refl

pub null-not_array : (v : Value) → is_null v ≡ true → is_array v ≡ false
null-not_array null h = refl
null-not_array _ h = cc

pub object-not_array : (v : Value) → is_object v ≡ true → is_array v ≡ false
object-not_array (object fs) h = refl
object-not_array _ h = cc

pub insert-object :
    (v : Value) (k : String) (x : Value)
    → (is_object v || is_null v) ≡ true
    → is_object (inserted v k x) ≡ true
insert-object (object fs) k x h = refl
insert-object null k x h = refl
insert-object _ k x h = cc

pub member-insert :
    (v : Value) (k j : String) (x : Value)
    → (is_object v || is_null v) ≡ true
    → member (inserted v k x) j ≡ (if k == j then some x else member v j)
unfolding member
member-insert (object fs) k j x h = refl
member-insert null k j x h = refl
member-insert _ k j x h = cc

pub erase-object : (v : Value) (k : String) → is_object (erased v k) ≡ is_object v
erase-object (object fs) k = refl
erase-object _ k = refl

pub erase-null : (v : Value) (k : String) → is_null (erased v k) ≡ is_null v
erase-null (object fs) k = refl
erase-null _ k = refl

pub member-erase :
    (v : Value) (k j : String)
    → (is_object v || is_null v) ≡ true
    → member (erased v k) j ≡ (if k == j then none else member v j)
unfolding member
member-erase (object fs) k j h = get-without fs k j
member-erase null k j h = ground arith
member-erase _ k j h = cc

pub cleared-object : (v : Value) → is_object (cleared v) ≡ is_object v
cleared-object (object fs) = refl
cleared-object _ = refl

pub member-cleared : (v : Value) (k : String) → member (cleared v) k ≡ none
unfolding member
member-cleared (object fs) k = refl
member-cleared _ k = refl

instance abbrev pub value_json : Json Value
value_json = record {
  null_value = null;
  object_value = object end;
  array_value = array nil;
  from_string = text;
  from_int = number;
  from_bool = boolean;
  is_null = is_null;
  is_object = is_object;
  is_array = is_array;
  is_int = is_number;
  is_integral = is_number;
  is_convertible_to_string = is_text;
  is_convertible_to_bool = is_boolean;
  as_string = as_text;
  as_int = as_number;
  as_largest_int = as_number;
  as_bool = as_boolean;
  empty = is_empty;
  member = member;
  insert = inserted;
  erase = erased;
  append = append_value;
  cleared = cleared;
  reader_parse = read;
  fast_write = write;
  object_value-object = refl;
  object_value-member = λ k. object_value-member k;
  null-member = null-member;
  null_value-null = refl;
  array_value-array = refl;
  null-not_array = null-not_array;
  object-not_array = object-not_array;
  insert-object = insert-object;
  member-insert = member-insert;
  erase-object = erase-object;
  erase-null = erase-null;
  member-erase = member-erase;
  cleared-object = cleared-object;
  member-cleared = member-cleared;
  from_string-convertible = λ s. refl;
  as_string-from_string = λ s. refl;
  from_bool-convertible = λ b. refl;
  as_bool-from_bool = λ b. refl;
  from_int-int = λ n h. refl;
  as_int-from_int = λ n h. refl;
}

-- Whole numbers stand for the values of `double`.
instance abbrev pub whole_double : Double ℤ Value
whole_double = record {
  zero = pos 0;
  hundred = pos 100;
  geq = λ a b. leb_ℤ b a;
  nonzero = λ a. not (eqb_ℤ a (pos 0));
  from_double = number;
  is_double = is_number;
  as_double = as_number;
  from_double-double = λ d. refl;
  as_double-from_double = λ d. refl;
  geq-hundred = refl;
}

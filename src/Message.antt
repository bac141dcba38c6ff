-- ===== src/Message.antt =====
-- `Message` of src/nix/message.hxx and src/nix/message.cxx. A message is its `root_`, a JSON value.
-- The JSON library refuses, by a logic error, to read or write a member of a value that is neither
-- an object nor null.

pub mod Values
pub mod Paths
pub mod Edits
pub mod Fields
use Prim.Native.String
use Prim.Native.String.{◌++◌}
use nixsrv.Prelude.{
  ℤ, Bool, true, false, not, ◌&&◌, ◌||◌, Option, none, some, List, [], ◌∷◌, String, if◌then◌else◌,
  is_some, Result, ok, err, runtime_error, logic_error, undefined, ◌>>=◌,
}
use nixsrv.Json.{Json}
use nixsrv.Util.Split.{split}
use nixsrv.Status.{StatusCode, code}

module _ {V : Type 0} ⦃J : Json V⦄ where
  open J use {is_object, is_null, is_array, member, insert, erase}

  -- The values whose members can be named.
  abbrev pub has_names : V → Bool
  has_names v = is_object v || is_null v

  -- The loop of `find` over the keys.
  unfoldable pub find_path : List String → V → Option V
  find_path [] v = some v
  find_path (k ∷ ks) v =
      if is_object v then (elim (member v k) [ none ↦ none | some x ↦ find_path ks x ]) else none

  unfoldable pub find : String → V → Option V
  find k root = if is_array root then none else find_path (split k ".") root

  unfoldable pub get_raw_value : String → V → V
  get_raw_value k root = elim (find k root) [ none ↦ J.null_value | some dest ↦ dest ]

  unfoldable pub get_string : String → String → V → String
  get_string k default_value root = elim (find k root) [
    | none ↦ default_value
    | some dest ↦ if J.is_convertible_to_string dest then J.as_string dest else default_value
  ]

  unfoldable pub get_int : String → ℤ → V → ℤ
  get_int k default_value root = elim (find k root) [
    | none ↦ default_value
    | some dest ↦ if J.is_int dest then J.as_int dest else default_value
  ]

  unfoldable pub get_long_long : String → ℤ → V → ℤ
  get_long_long k default_value root = elim (find k root) [
    | none ↦ default_value
    | some dest ↦ if J.is_integral dest then J.as_largest_int dest else default_value
  ]

  unfoldable pub get_bool : String → Bool → V → Bool
  get_bool k default_value root = elim (find k root) [
    | none ↦ default_value
    | some dest ↦ if J.is_convertible_to_bool dest then J.as_bool dest else default_value
  ]

  unfoldable pub exists : String → V → Bool
  exists k root = is_some (find k root)

  unfoldable pub null_at : String → V → Bool
  null_at k root = elim (find k root) [ none ↦ true | some dest ↦ is_null dest ]

  unfoldable pub array_at : String → V → Bool
  array_at k root = elim (find k root) [ none ↦ false | some dest ↦ is_array dest ]

  unfoldable pub object_at : String → V → Bool
  object_at k root = elim (find k root) [ none ↦ false | some dest ↦ is_object dest ]

  -- `get` of an array answers the array there, or the default.
  unfoldable pub get_array : String → V → V → V
  get_array k default_value root = if array_at k root then get_raw_value k root else default_value

  -- `v[k]`, where the loops of `set`, `append` and `remove` go on: the member, which is made an
  -- empty object if it is not there.
  unfoldable pub child : V → String → V
  child v k = elim (member v k) [ none ↦ J.object_value | some x ↦ x ]

  -- `set` along the keys. With no key, the loop's bound `keys.end() - 1` is undefined.
  unfoldable pub set_path : List String → V → V → Result V
  unfolding child
  set_path [] value v = err undefined
  set_path (k ∷ ks) value v =
      let deeper = set_path ks value (child v k) in
      if not (has_names v) then err logic_error else elim ks [
        | [] ↦ ok (insert (erase v k) k value)
        | j ∷ js ↦
            if is_some (member v k) && not (is_object v)
            then err (runtime_error "Not an object. Cannot set value for key")
            else (do x ← deeper; ok (insert v k x))
      ]

  unfoldable pub set : String → V → V → Result V
  set k value root = set_path (split k ".") value root

  -- `append` along the keys; the value is appended to the array at their end.
  unfoldable pub append_path : List String → V → V → Result V
  unfolding child
  append_path [] value v =
      let target = if J.empty v then J.array_value else v in
      if is_array target then ok (J.append target value) else err (runtime_error "Not an array")
  append_path (k ∷ ks) value v =
      let deeper = append_path ks value (child v k) in
      if not (has_names v)
      then err logic_error
      else if is_some (member v k) && not (is_object v)
      then err (runtime_error "Not an object. Cannot traverse.")
      else (do x ← deeper; ok (insert v k x))

  unfoldable pub append : String → V → V → Result V
  append k value root = append_path (split k ".") value root

  -- `remove` along the keys, which makes the objects that are missing on the way.
  unfoldable pub remove_path : List String → V → Result V
  unfolding child
  remove_path [] v = err undefined
  remove_path (k ∷ ks) v =
      let deeper = remove_path ks (child v k) in
      if not (has_names v)
      then err logic_error
      else elim ks [ [] ↦ ok (erase v k) | j ∷ js ↦ do x ← deeper; ok (insert v k x) ]

  unfoldable pub remove : String → V → Result V
  remove k root = remove_path (split k ".") root

  unfoldable pub set_object : String → V → Result V
  set_object k root = set k J.object_value root

  unfoldable pub set_array : String → V → Result V
  set_array k root = set k J.array_value root

  unfoldable pub set_null : String → V → Result V
  set_null k root = set k J.null_value root

  unfoldable pub append_null : String → V → Result V
  append_null k root = append k J.null_value root

  unfoldable pub set_deserialized : String → String → V → Result V
  set_deserialized k value root = elim (J.reader_parse value) [
    | none ↦ err (runtime_error "Cannot parse value")
    | some deserialized ↦ set k deserialized root
  ]

  -- `parse`, which leaves the message alone at an empty text.
  unfoldable pub parse : String → V → Result V
  parse String.[] root = ok root
  parse (String.◌∷◌ c s) root = elim (J.reader_parse (String.◌∷◌ c s)) [
    | none ↦ err (runtime_error "Cannot parse message")
    | some v ↦ ok v
  ]

  unfoldable pub clear : V → Result V
  clear root = if has_names root || is_array root then ok (J.cleared root) else err logic_error

  -- `root_["@" + k] = value`
  unfoldable pub set_meta : String → V → V → Result V
  set_meta k value root =
      if has_names root then ok (insert root ("@" ++ k) value) else err logic_error

  unfoldable pub set_status_code : StatusCode → V → Result V
  set_status_code status root =
      if has_names root
      then ok (insert root "@status_code" (J.from_int (code status)))
      else err logic_error

  unfoldable pub set_status_msg : String → V → Result V
  set_status_msg msg root =
      if has_names root then ok (insert root "@status" (J.from_string msg)) else err logic_error

  unfoldable pub set_status : StatusCode → String → V → Result V
  set_status status msg root = do
    with_code ← set_status_code status root
    set_status_msg msg with_code

  -- `get_meta` of a string.
  unfoldable pub get_meta : String → String → V → String
  get_meta k default_value root = get_string ("@" ++ k) default_value root

  -- `to_string` with no key, and with one.
  unfoldable pub to_string : V → String
  to_string root = J.fast_write root

  unfoldable pub to_string_at : String → V → String
  unfolding to_string
  to_string_at String.[] root = to_string root
  to_string_at (String.◌∷◌ c s) root = J.fast_write (get_raw_value (String.◌∷◌ c s) root)

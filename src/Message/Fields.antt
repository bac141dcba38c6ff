-- ===== src/Message/Fields.antt =====
-- The fields of a message by dotted keys: what the getters read after the setters.
use nixsrv.Prelude.{
  Bool, ℤ, fits_int, refl, ◌≡◌, ◌≢◌, List, ◌∷◌, ◌∙◌, inl, inr, true, none, some, String, Bool-cases,
  ok,
}
use nixsrv.Json.{Json}
use nixsrv.Util.Split.{split}
use nixsrv.Message.{
  find_path, find, set, append, remove, remove_path, get_string, null_at, set_null, get_raw_value,
  to_string_at, get_int, get_bool, parse,
}
use nixsrv.Message.Paths.{
  Diverge, find-insert_ne, find_path-set_path, find_path-set_path-Diverge, settable, set_path-total,
  set_path-object,
}
use nixsrv.Message.Edits.{target, find_path-append_path, find_path-remove_path}

module _ {V : Type 0} ⦃J : Json V⦄ where
  open J use {is_object, is_null, is_array, member, insert, erase}

  pub find-object : (k : String) (v : V) → is_object v ≡ true → find k v ≡ find_path (split k ".") v
  unfolding find
  find-object k v h = rw (J.object-not_array v h)

  -- What `set`, where it returns, puts at a dotted key is what `find` reads there.
  pub find-set :
      (k : String) (x root : V) {root' : V} → set k x root ≡ ok root' → find k root' ≡ some x
  unfolding set
  find-set k x root {root'} h =
      find-object k root' (set_path-object (split k ".") x root h)
      ∙ find_path-set_path (split k ".") x root h

  -- `set` in an object, where it returns, changes no field whose path parts from the path of the
  -- key: neither is a beginning of the other.
  pub find-set-Diverge :
      (k j : String) (x root : V) {root' : V}
      → is_object root ≡ true
      → Diverge (split k ".") (split j ".")
      → set k x root ≡ ok root'
      → find j root' ≡ find j root
  unfolding set
  find-set-Diverge k j x root {root'} o d h =
      rw (find-object j root' (set_path-object (split k ".") x root h), find-object j root o)
        (find_path-set_path-Diverge (split k ".") (split j ".") x root d h)

  -- `set` of a text returns at every key along which a value can be set, and `get` of the key then
  -- answers that text, whatever the default.
  pub get_string-set :
      (k s d : String) (root : V)
      → settable (split k ".") root ≡ true
      → (root' : V) × (set k (J.from_string s) root ≡ ok root') × (get_string k d root' ≡ s)
  get_string-set k s d root h =
      let (root', e) = set_path-total (split k ".") (J.from_string s) root h in
      let e' : set k (J.from_string s) root ≡ ok root' = unfold set in e in
      (
        root',
        e',
        unfold get_string in
            rw (find-set k (J.from_string s) root e', get_string, J.from_string-convertible s)
              (J.as_string-from_string s),
      )

  -- A field that `set_null`, where it returns, has set reads as null.
  pub null_at-set_null :
      (k : String) (root : V) {root' : V} → set_null k root ≡ ok root' → null_at k root' ≡ true
  null_at-set_null k root {root'} h =
      let h' : set k J.null_value root ≡ ok root' = unfold set_null in h in
      unfold null_at in rw (find-set k J.null_value root h', null_at) J.null_value-null

  -- `append` leaves at its key the array that was there, or a new one, with the value added.
  pub find-append :
      (k : String) (x root : V) {root' : V}
      → is_object root ≡ true
      → is_object root' ≡ true
      → J.empty J.object_value ≡ true
      → append k x root ≡ ok root'
      → find k root' ≡ some (J.append (target (find k root)) x)
  unfolding append
  find-append k x root {root'} o o' e h =
      rw (find-object k root' o', find-object k root o)
        (find_path-append_path (split k ".") x root e h)

  -- After `remove`, where it returns, the field is not found.
  pub find-remove :
      (k : String) (root : V) {root' : V} → remove k root ≡ ok root' → find k root' ≡ none
  find-remove k root {root'} h = elim (Bool-cases (is_array root')) [
    | inl e ↦ unfold find in rw e
    | inr e ↦
        let h' : remove_path (split k ".") root ≡ ok root' = unfold remove in h in
        unfold find in rw e (find_path-remove_path (split k ".") root h')
  ]

  pub get_string_found :
      (k s d : String) (root : V) → find k root ≡ some (J.from_string s) → get_string k d root ≡ s
  unfolding get_string
  get_string_found k s d root e =
      rw (e, get_string, J.from_string-convertible s) (J.as_string-from_string s)

  -- A member that is written at the root changes no field whose key begins with another name.
  pub find-insert_root :
      (key name k : String) (ks : List String) (x root : V)
      → is_object root ≡ true
      → split key "." ≡ k ∷ ks
      → name ≢ k
      → find key (J.insert root name x) ≡ find key root
  find-insert_root key name k ks x root o e ne =
      rw
        (
          find-object key (J.insert root name x) (J.insert-object root name x (rw o)),
          find-object key root o,
          e,
        )
        (find-insert_ne root name k x ks (rw o) ne)

  pub to_string_at-find :
      (k : String) (root x : V)
      → k ≢ ""
      → find k root ≡ some x
      → to_string_at k root ≡ J.fast_write x
  unfolding to_string_at get_raw_value
  to_string_at-find Prim.Native.String.[] root x ne e = absurd (ne refl)
  to_string_at-find (Prim.Native.String.◌∷◌ c s) root x ne e =
      rw (e, to_string_at, get_raw_value) refl

  pub get_raw_value_found :
      (k : String) (x root : V) → find k root ≡ some x → get_raw_value k root ≡ x
  unfolding get_raw_value
  get_raw_value_found k x root e = rw (e, get_raw_value) refl

  pub get_int_found :
      (k : String) (n d : ℤ) (root : V)
      → fits_int n ≡ true
      → find k root ≡ some (J.from_int n)
      → get_int k d root ≡ n
  unfolding get_int
  get_int_found k n d root fit e = rw (e, get_int, J.from_int-int n fit) (J.as_int-from_int n fit)

  pub get_bool_found :
      (k : String) (b d : Bool) (root : V)
      → find k root ≡ some (J.from_bool b)
      → get_bool k d root ≡ b
  unfolding get_bool
  get_bool_found k b d root e = rw (e, get_bool, J.from_bool-convertible b) (J.as_bool-from_bool b)

  pub parse_found :
      (s : String) (root v : V) → s ≢ "" → J.reader_parse s ≡ some v → parse s root ≡ ok v
  unfolding parse
  parse_found Prim.Native.String.[] root v full e = absurd (full refl)
  parse_found (Prim.Native.String.◌∷◌ c s) root v full e = rw (e, parse) refl

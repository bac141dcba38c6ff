-- ===== src/Message/Values.antt =====
-- The classes of src/nix/message/value.cxx, each of which holds a value of the JSON library: what the
-- constructors of `Object`, `Array` and `Null` keep, and their texts. The styled text is the library's.
use nixsrv.Prelude.{◌≡◌, refl, inl, inr, Bool, true, String, if◌then◌else◌, Bool-cases}
use nixsrv.Json.{Json}

module _ {V : Type 0} ⦃J : Json V⦄ where
  unfoldable pub object : V → V
  object v = if J.is_object v then v else J.object_value

  unfoldable pub array : V → V
  array v = if J.is_array v then v else J.array_value

  abbrev pub null : V
  null = J.null_value

  -- `to_string`, with the styled text if it is to be pretty.
  unfoldable pub to_string : (V → String) → Bool → V → String
  to_string styled pretty v = if pretty then styled v else J.fast_write v

  -- An `Object` holds an object and an `Array` an array, whatever they are made of, and each keeps a
  -- value of its kind.
  pub kinds :
      (v : V)
      → (J.is_object (object v) ≡ true)
        × (J.is_array (array v) ≡ true)
        × (J.is_null null ≡ true)
        × (J.is_object v ≡ true → object v ≡ v)
        × (J.is_array v ≡ true → array v ≡ v)
  unfolding object array
  kinds v = (
    (elim (Bool-cases (J.is_object v)) [ inl e ↦ rw e e | inr e ↦ rw e J.object_value-object ]),
    (elim (Bool-cases (J.is_array v)) [ inl e ↦ rw e e | inr e ↦ rw e J.array_value-array ]),
    J.null_value-null,
    (λ e. rw e refl),
    (λ e. rw e refl),
  )

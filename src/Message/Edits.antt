-- ===== src/Message/Edits.antt =====
-- What `append` and `remove` do along lists of keys.
use nixsrv.Prelude.{
  ◌≡◌, ◌∙◌, inl, inr, true, Option, none, some, List, [], ◌∷◌, String, arith, eq_refl,
  if◌then◌else◌, Result-cases, ok,
}
use nixsrv.Json.{Json}
use nixsrv.Message.{has_names, find_path, child, append_path, remove_path}
use nixsrv.Message.Paths.{find-insert_self}

module _ {V : Type 0} ⦃J : Json V⦄ where
  open J use {is_object, is_null, is_array, member, insert, erase}

  -- The array that `append` appends to: the one that is there, or a new one in place of a value
  -- that is empty or not there.
  pub target : Option V → V
  target none = J.array_value
  target (some v) = if J.empty v then J.array_value else v

  append_path-more :
      (k : String) (ks : List String) (x v : V) {v' : V}
      → append_path (k ∷ ks) x v ≡ ok v'
      → (y : V) × (has_names v ≡ true) × (append_path ks x (child v k) ≡ ok y) × (v' ≡ insert v k y)
  append_path-more k ks x v h = elim (Result-cases (append_path ks x (child v k))) [
    | inl (y, e) ↦ (y, unfold append_path in ground arith, e, unfold append_path in ground arith)
    | inr (e, f) ↦ absurd (unfold append_path in ground arith)
  ]

  target-child :
      (v : V) (k : String) (ks : List String)
      → has_names v ≡ true
      → J.empty J.object_value ≡ true
      → target (find_path ks (child v k)) ≡ target (find_path (k ∷ ks) v)
  unfolding target find_path child
  target-child v k [] h e = ground (arith, J.null-member v k)
  target-child v k (m ∷ ms) h e =
      ground (arith, J.null-member v k, J.object_value-member m, J.object_value-object)

  -- After `append` the path leads to the array that was there, or a new one, with the value added.
  pub find_path-append_path :
      (ks : List String) (x v : V) {v' : V}
      → J.empty J.object_value ≡ true
      → append_path ks x v ≡ ok v'
      → find_path ks v' ≡ some (J.append (target (find_path ks v)) x)
  find_path-append_path [] x v e h = unfold append_path find_path target in ground arith
  find_path-append_path (k ∷ ks) x v e h =
      let (y, named, deeper, p) = append_path-more k ks x v h in
      rw (p, ← target-child v k ks named e)
        (find-insert_self v k y ks named ∙ find_path-append_path ks x (child v k) e deeper)

  remove_path-more :
      (k j : String) (js : List String) (v : V) {v' : V}
      → remove_path (k ∷ j ∷ js) v ≡ ok v'
      → (y : V) × (has_names v ≡ true)
        × (remove_path (j ∷ js) (child v k) ≡ ok y)
        × (v' ≡ insert v k y)
  remove_path-more k j js v h = elim (Result-cases (remove_path (j ∷ js) (child v k))) [
    | inl (y, e) ↦ (y, unfold remove_path in ground arith, e, unfold remove_path in ground arith)
    | inr (e, f) ↦ absurd (unfold remove_path in ground arith)
  ]

  find-erase_self :
      (v : V) (k : String) → has_names v ≡ true → find_path (k ∷ []) (erase v k) ≡ none
  unfolding find_path
  find-erase_self v k h = ground (arith, J.member-erase v k k h, eq_refl k)

  -- After `remove` nothing stands at the path.
  pub find_path-remove_path :
      (ks : List String) (v : V) {v' : V} → remove_path ks v ≡ ok v' → find_path ks v' ≡ none
  find_path-remove_path [] v h = unfold remove_path in cc
  find_path-remove_path (k ∷ []) v {v'} h =
      let e : v' ≡ erase v k = unfold remove_path in ground arith in
      let named : has_names v ≡ true = unfold remove_path in ground arith in
      rw e (find-erase_self v k named)
  find_path-remove_path (k ∷ j ∷ js) v h =
      let (y, named, deeper, p) = remove_path-more k j js v h in
      rw p
        (find-insert_self v k y (j ∷ js) named ∙ find_path-remove_path (j ∷ js) (child v k) deeper)

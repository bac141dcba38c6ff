-- ===== src/Message/Paths.antt =====
-- What `set`, `append` and `remove` do to the values that `find` reads, along lists of keys.
use nixsrv.Prelude.{
  ◌≡◌, ◌≢◌, refl, ◌∙◌, subst, ◌⊎◌, inl, inr, Bool, true, false, ◌&&◌, none, some, List, [], ◌∷◌,
  String, arith, eq_iff, eq_refl, Option-cases, Result-cases, ok,
}
use nixsrv.Json.{Json}
use nixsrv.Message.{has_names, find_path, child, set_path}

-- Neither path is a beginning of the other.
abbrev pub Diverge : List String → List String → Type 0
Diverge [] js = ⊥
Diverge (k ∷ ks) [] = ⊥
Diverge (k ∷ ks) (j ∷ js) = (k ≢ j) ⊎ ((k ≡ j) × Diverge ks js)

Diverge-ne : (k : String) (ks js : List String) → Diverge (k ∷ ks) js → js ≢ []
Diverge-ne k ks [] d = absurd d
Diverge-ne k ks (j ∷ js) d = λ e. cc

module _ {V : Type 0} ⦃J : Json V⦄ where
  open J use {is_object, is_null, member, insert, erase}

  pub find-insert_self :
      (v : V) (k : String) (x : V) (ks : List String)
      → has_names v ≡ true
      → find_path (k ∷ ks) (insert v k x) ≡ find_path ks x
  unfolding find_path
  find-insert_self v k x ks h =
      rw (J.insert-object v k x h, J.member-insert v k k x h, eq_refl) refl

  set_path-one :
      (k : String) (x v : V) {v' : V}
      → set_path (k ∷ []) x v ≡ ok v'
      → (has_names v ≡ true) × (v' ≡ insert (erase v k) k x)
  unfolding set_path
  set_path-one k x v h = ground arith

  set_path-more :
      (k j : String) (js : List String) (x v : V) {v' : V}
      → set_path (k ∷ j ∷ js) x v ≡ ok v'
      → (y : V) × (has_names v ≡ true)
        × (set_path (j ∷ js) x (child v k) ≡ ok y)
        × (v' ≡ insert v k y)
  set_path-more k j js x v h = elim (Result-cases (set_path (j ∷ js) x (child v k))) [
    | inl (y, e) ↦ (y, unfold set_path in ground arith, e, unfold set_path in ground arith)
    | inr (e, f) ↦ absurd (unfold set_path in ground arith)
  ]

  pub has_names-erase : (v : V) (k : String) → has_names v ≡ true → has_names (erase v k) ≡ true
  has_names-erase v k h = rw (J.erase-object v k, J.erase-null v k) h

  -- Along the path of `set` stands the value that was set.
  pub find_path-set_path :
      (ks : List String) (x v : V) {v' : V} → set_path ks x v ≡ ok v' → find_path ks v' ≡ some x
  unfolding set_path
  find_path-set_path [] x v h = cc
  find_path-set_path (k ∷ []) x v h =
      let (named, e) = set_path-one k x v h in
      rw e
        (find-insert_self (erase v k) k x [] (has_names-erase v k named) ∙ unfold find_path in refl)
  find_path-set_path (k ∷ j ∷ js) x v h =
      let (y, named, deeper, e) = set_path-more k j js x v h in
      rw e
        (find-insert_self v k y (j ∷ js) named ∙ find_path-set_path (j ∷ js) x (child v k) deeper)

  -- A message that was set a field is an object.
  pub set_path-object :
      (ks : List String) (x v : V) {v' : V} → set_path ks x v ≡ ok v' → is_object v' ≡ true
  unfolding set_path
  set_path-object [] x v h = cc
  set_path-object (k ∷ []) x v h =
      let (named, e) = set_path-one k x v h in
      rw e (J.insert-object (erase v k) k x (has_names-erase v k named))
  set_path-object (k ∷ j ∷ js) x v h =
      let (y, named, deeper, e) = set_path-more k j js x v h in rw e (J.insert-object v k y named)

  pub find-insert_ne :
      (v : V) (k j : String) (x : V) (js : List String)
      → has_names v ≡ true
      → k ≢ j
      → find_path (j ∷ js) (insert v k x) ≡ find_path (j ∷ js) v
  unfolding find_path
  find-insert_ne v k j x js h ne =
      rw (J.insert-object v k x h)
        (ground (arith, J.member-insert v k j x h, eq_iff k j, J.null-member v j))

  find-erase_ne :
      (v : V) (k j : String) (js : List String)
      → has_names v ≡ true
      → k ≢ j
      → find_path (j ∷ js) (erase v k) ≡ find_path (j ∷ js) v
  unfolding find_path
  find-erase_ne v k j js h ne =
      rw (J.erase-object v k) (ground (arith, J.member-erase v k j h, eq_iff k j))

  -- Nothing stands below a child that has just been made.
  pub find_path-child :
      (v : V) (k m : String) (ms : List String)
      → has_names v ≡ true
      → find_path (m ∷ ms) (child v k) ≡ find_path (k ∷ m ∷ ms) v
  unfolding find_path child
  find_path-child v k m ms h =
      ground (arith, J.null-member v k, J.object_value-member m, J.object_value-object)

  find_path-set_more :
      (k : String) (js : List String) (v y : V)
      → has_names v ≡ true
      → js ≢ []
      → find_path js y ≡ find_path js (child v k)
      → find_path (k ∷ js) (insert v k y) ≡ find_path (k ∷ js) v
  find_path-set_more k [] v y h ne e = absurd (ne refl)
  find_path-set_more k (m ∷ ms) v y h ne e =
      find-insert_self v k y (m ∷ ms) h ∙ e ∙ find_path-child v k m ms h

  -- `set` keeps what stands on every path that parts from its own.
  pub find_path-set_path-Diverge :
      (ks js : List String) (x v : V) {v' : V}
      → Diverge ks js
      → set_path ks x v ≡ ok v'
      → find_path js v' ≡ find_path js v
  find_path-set_path-Diverge [] js x v d h = absurd d
  find_path-set_path-Diverge (k ∷ ks) [] x v d h = absurd d
  find_path-set_path-Diverge (k ∷ []) (j ∷ js) x v (inl ne) h =
      let (named, e) = set_path-one k x v h in
      rw e (
        find-insert_ne (erase v k) k j x js (has_names-erase v k named) ne
        ∙ find-erase_ne v k j js named ne)
  find_path-set_path-Diverge (k ∷ []) (j ∷ js) x v (inr (same, d)) h = absurd d
  find_path-set_path-Diverge (k ∷ l ∷ ls) (j ∷ js) x v (inl ne) h =
      let (y, named, deeper, e) = set_path-more k l ls x v h in
      rw e (find-insert_ne v k j y js named ne)
  find_path-set_path-Diverge (k ∷ l ∷ ls) (j ∷ js) x v (inr (same, d)) h =
      let (y, named, deeper, e) = set_path-more k l ls x v h in
      rw e (
        subst (λ i. find_path (i ∷ js) (insert v k y) ≡ find_path (i ∷ js) v) same
          (find_path-set_more k js v y named (Diverge-ne l ls js d)
            (find_path-set_path-Diverge (l ∷ ls) js x (child v k) d deeper)))

  -- Can a value be set there: there is a key, and every value that stands on the way is an object
  -- or null.
  unfoldable pub settable : List String → V → Bool
  settable [] v = false
  settable (k ∷ []) v = has_names v
  settable (k ∷ j ∷ js) v =
      has_names v && (elim (member v k) [ none ↦ true | some x ↦ settable (j ∷ js) x ])

  settable-object :
      (k : String) (ks : List String) (v : V) → v ≡ J.object_value → settable (k ∷ ks) v ≡ true
  unfolding settable
  settable-object k [] v e = rw (e, J.object_value-object)
  settable-object k (j ∷ js) v e =
      rw e (ground (arith, J.object_value-object, J.object_value-member k))

  settable-child :
      (k j : String) (js : List String) (v : V)
      → settable (k ∷ j ∷ js) v ≡ true
      → (has_names v ≡ true) × (settable (j ∷ js) (child v k) ≡ true)
  settable-child k j js v h = elim (Option-cases (member v k)) [
    | inl e ↦ (
      unfold settable in ground arith,
      settable-object j js (child v k) (unfold child in rw (e, child)),
    )
    | inr (x, e) ↦ (unfold settable in ground arith, unfold child settable in ground arith)
  ]

  set_path-step :
      (k j : String) (js : List String) (x v y : V)
      → has_names v ≡ true
      → set_path (j ∷ js) x (child v k) ≡ ok y
      → set_path (k ∷ j ∷ js) x v ≡ ok (insert v k y)
  set_path-step k j js x v y h e =
      let shut = J.null-member v k in (unfold set_path in ground (arith, shut))

  -- `set` returns where a value can be set: no fuel, no exception.
  pub set_path-total :
      (ks : List String) (x v : V) → settable ks v ≡ true → (v' : V) × (set_path ks x v ≡ ok v')
  set_path-total [] x v h = unfold settable in cc
  set_path-total (k ∷ []) x v h = (insert (erase v k) k x, unfold settable set_path in ground arith)
  set_path-total (k ∷ j ∷ js) x v h =
      let (named, below) = settable-child k j js v h in
      let (y, e) = set_path-total (j ∷ js) x (child v k) below in
      (insert v k y, set_path-step k j js x v y named e)

  -- Along any path a value can be set in an object that holds nothing.
  pub settable_empty :
      (k : String) (ks : List String) (v : V)
      → is_object v ≡ true
      → member v k ≡ none
      → settable (k ∷ ks) v ≡ true
  unfolding settable
  settable_empty k [] v o e = rw o
  settable_empty k (j ∷ js) v o e = ground arith

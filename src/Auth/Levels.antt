-- ===== src/Auth/Levels.antt =====
-- Which keys open which routes, after any checks.
use nixsrv.Prelude.{
  ◌≡◌, refl, ◌∙◌, Bool, true, false, not, ◌&&◌, ◌||◌, String, List, [], ◌∷◌, ◌==◌, if◌then◌else◌,
  arith, eq_refl, eq_iff, Bool-cases, inl, inr,
}
use nixsrv.Json.{Json}
use nixsrv.Message.{get_string}
use nixsrv.Table
use nixsrv.Table.Laws.{get_or-emplace, get_or-put, contains-emplace}
use nixsrv.Auth.{
  Auth, AccessModifier, KeyType, any, public, api_private, admin, key_unset, key_public,
  key_private, key_admin, key_test, is_any, is_test, authorized, new_auth, look_up, check_key,
  check_access,
}

-- The keys of development mode.
pub level : String → KeyType
level k =
    if "_development_key_admin_" == k
    then key_admin
    else if "_development_key_private_" == k
    then key_private
    else if "_development_key_public_" == k
    then key_public
    else if "_development_key_" == k
    then key_test
    else key_unset

-- The routes that a key of a level opens; a key without a level is one that is not empty.
pub opens : KeyType → AccessModifier → Bool
opens key any = true
opens key_test access = true
opens key_admin access = true
opens key_private admin = false
opens key_private access = true
opens key public = true
opens key access = false

-- May a route be called with the key? Without a key, and where the server is not in development mode,
-- only one that is open to any.
pub allowed : Bool → AccessModifier → String → Bool
unfolding level opens
allowed development access key =
    is_any access || (development && not (key == "") && opens (level key) access)

-- The keys of an authenticator are those of its mode, and some without a level.
abbrev HasLevels : Bool → Table.Table KeyType → Type 0
HasLevels true keys = (k : String) → Table.get_or k key_unset keys ≡ level k
HasLevels false keys = keys ≡ []

abbrev AuthHasLevels : Auth → Type 0
AuthHasLevels a = HasLevels a.development_mode a.auth_keys

new_auth-HasLevels : (development : Bool) → AuthHasLevels (new_auth development)
unfolding new_auth
new_auth-HasLevels true = λ k.
    rw
      (
        get_or-put _ k key_unset key_admin _,
        get_or-put _ k key_unset key_private _,
        get_or-put _ k key_unset key_public _,
        get_or-put _ k key_unset key_test [],
      )
      (unfold level Table.get_or Table.find in refl)
new_auth-HasLevels false = refl

look_up-HasLevels :
    (development : Bool) (key : String) (keys : Table.Table KeyType)
    → HasLevels development keys
    → AuthHasLevels (look_up key (record { auth_keys = keys; development_mode = development }))
unfolding look_up
look_up-HasLevels true key keys h = λ k. get_or-emplace key k key_unset keys ∙ h k
look_up-HasLevels false key keys h = h

check_key-state :
    (access : AccessModifier) (key : String) (a : Auth)
    → (check_key access key a).2 ≡ (if is_any access then a else look_up key a)
unfolding check_key
check_key-state access key a = ground arith

check_key-HasLevels :
    (access : AccessModifier) (key : String) (a : Auth)
    → AuthHasLevels a
    → AuthHasLevels (check_key access key a).2
check_key-HasLevels access key a h =
    rw (check_key-state access key a) (elim (Bool-cases (is_any access)) [
      | inl e ↦ rw e h
      | inr e ↦ rw e (look_up-HasLevels a.development_mode key a.auth_keys h)
    ])

-- No text that is empty is a key of development mode.
level-empty : (key : String) → (is_test (level key) && (key == "")) ≡ false
unfolding level
level-empty key = elim (Bool-cases (key == "")) [
  | inl e ↦ rw ((eq_iff key "").0 e) refl
  | inr e ↦ rw e (ground arith)
]

-- What the switch decides at the level of a key, and at its being empty.
level_lem :
    (access : AccessModifier) (k : KeyType) (empty : Bool)
    → is_any access ≡ false
    → (is_test k && empty) ≡ false
    → (if is_test k then true else (if empty then false else authorized access k))
      ≡ (not empty && opens k access)
unfolding opens
level_lem any k empty n h = absurd cc
level_lem public key_unset empty n h = ground arith
level_lem public key_public empty n h = ground arith
level_lem public key_private empty n h = ground arith
level_lem public key_admin empty n h = ground arith
level_lem public key_test empty n h = ground arith
level_lem api_private key_unset empty n h = ground arith
level_lem api_private key_public empty n h = ground arith
level_lem api_private key_private empty n h = ground arith
level_lem api_private key_admin empty n h = ground arith
level_lem api_private key_test empty n h = ground arith
level_lem admin key_unset empty n h = ground arith
level_lem admin key_public empty n h = ground arith
level_lem admin key_private empty n h = ground arith
level_lem admin key_admin empty n h = ground arith
level_lem admin key_test empty n h = ground arith

check_key-allowed :
    (access : AccessModifier) (key : String) (development : Bool) (keys : Table.Table KeyType)
    → HasLevels development keys
    → (check_key access key (record { auth_keys = keys; development_mode = development })).0
      ≡ allowed development access key
unfolding check_key allowed
check_key-allowed any key development keys h = refl
check_key-allowed access key true keys h =
    let by_level = level_lem access (level key) (key == "") refl (level-empty key) in
    rw
      (
        get_or-emplace key key key_unset keys,
        h key,
        contains-emplace key key key_unset keys,
        eq_refl,
      )
      (ground arith)
check_key-allowed access key false keys h = rw h (unfold Table.get_or Table.find in ground arith)

-- The keys after some checks.
pub run : {V : Type 0} ⦃J : Json V⦄ → List (AccessModifier × V) → Auth → Auth
run [] a = a
run ((access, msg) ∷ rest) a = run rest (check_access access msg a).2

run-HasLevels :
    {V : Type 0} ⦃J : Json V⦄ (l : List (AccessModifier × V)) (a : Auth)
    → AuthHasLevels a
    → AuthHasLevels (run l a)
unfolding run check_access
run-HasLevels [] a h = h
run-HasLevels ((access, msg) ∷ rest) a h =
    run-HasLevels rest _ (check_key-HasLevels access (get_string "@api_key" "" msg) a h)

check_key-development_mode :
    (access : AccessModifier) (key : String) (a : Auth)
    → (check_key access key a).2.development_mode ≡ a.development_mode
check_key-development_mode access key a =
    rw (check_key-state access key a) (unfold look_up in ground arith)

run-development_mode :
    {V : Type 0} ⦃J : Json V⦄ (l : List (AccessModifier × V)) (a : Auth)
    → (run l a).development_mode ≡ a.development_mode
unfolding run check_access
run-development_mode [] a = refl
run-development_mode ((access, msg) ∷ rest) a =
    run-development_mode rest _ ∙ check_key-development_mode access (get_string "@api_key" "" msg) a

-- The keys are those of the mode.
abbrev pub Guards : Bool → Auth → Type 0
Guards development a = AuthHasLevels a × (a.development_mode ≡ development)

pub new_auth-Guards : (development : Bool) → Guards development (new_auth development)
new_auth-Guards development = (new_auth-HasLevels development, (unfold new_auth in refl))

module _ {V : Type 0} ⦃J : Json V⦄ (development : Bool) (access : AccessModifier) (msg : V)
    (a : Auth) (g : Guards development a) where
  pub check_access-Guards : Guards development (check_access access msg a).2
  unfolding check_access
  check_access-Guards = (
    check_key-HasLevels access (get_string "@api_key" "" msg) a g.0,
    check_key-development_mode access (get_string "@api_key" "" msg) a ∙ g.1,
  )

  pub check_access-by_level :
      (check_access access msg a).0 ≡ allowed development access (get_string "@api_key" "" msg)
  unfolding check_access
  check_access-by_level =
      check_key-allowed access (get_string "@api_key" "" msg) a.development_mode a.auth_keys g.0
      ∙ rw (g.1) refl

-- After any checks, access is granted exactly as the levels say: every route that is open to any,
-- and in development mode all routes to the test key, public routes to every key that is not empty,
-- private ones to the private and the administrator's key, and administration to the latter.
pub check_access-allowed :
    {V : Type 0} ⦃J : Json V⦄ (development : Bool) (l : List (AccessModifier × V))
    → (access : AccessModifier) (msg : V)
    → (check_access access msg (run l (new_auth development))).0
      ≡ allowed development access (get_string "@api_key" "" msg)
unfolding check_access
check_access-allowed development l access msg =
    let a = run l (new_auth development) in
    let mode : a.development_mode ≡ development =
      run-development_mode l (new_auth development) ∙ (unfold new_auth in refl) in
    check_key-allowed access (get_string "@api_key" "" msg) a.development_mode a.auth_keys
      (run-HasLevels l (new_auth development) (new_auth-HasLevels development))
    ∙ rw mode refl

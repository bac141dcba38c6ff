-- ===== src/Auth.antt =====
-- `Auth` of src/nix/core/auth.hxx and src/nix/core/auth.cxx, which decides by the key in a message
-- whether a route may be called.
pub mod Levels
use Prim.Native.String.{◌++◌}
use nixsrv.Prelude.{Bool, true, false, not, ◌&&◌, ◌||◌, String, [], ◌==◌, if◌then◌else◌}
use nixsrv.Json.{Json}
use nixsrv.Message.{get_string}
use nixsrv.Table
use nixsrv.Table.{Table}

-- `Route::AccessModifier_t`
pub data AccessModifier : Type 0 where
  any public api_private admin : AccessModifier

-- `KeyType_t`, and the value 0 that an entry has which `operator[]` made.
pub data KeyType : Type 0 where
  key_unset key_public key_private key_admin key_test : KeyType

abbrev pub is_test : KeyType → Bool
is_test key_test = true
is_test _ = false

abbrev pub is_private : KeyType → Bool
is_private key_private = true
is_private _ = false

abbrev pub is_admin : KeyType → Bool
is_admin key_admin = true
is_admin _ = false

abbrev pub is_any : AccessModifier → Bool
is_any any = true
is_any _ = false

pub record Auth : Type 0 where
  pub auth_keys : Table KeyType
  pub development_mode : Bool

-- The constructor.
unfoldable pub new_auth : Bool → Auth
new_auth development_mode = record {
  auth_keys =
      if development_mode
      then Table.put "_development_key_admin_" key_admin (
          Table.put "_development_key_private_" key_private (
            Table.put "_development_key_public_" key_public
              (Table.put "_development_key_" key_test [])))
      else [];
  development_mode = development_mode;
}

-- The `switch` over the route's access modifier, at a key that is known.
abbrev pub authorized : AccessModifier → KeyType → Bool
authorized any key = false
authorized public key = true
authorized api_private key = is_private key || is_admin key
authorized admin key = is_admin key

-- `auth_keys_[api_key]` in development mode, which makes an entry for a key that is not there.
unfoldable pub look_up : String → Auth → Auth
look_up api_key a =
    if a.development_mode
    then record a { auth_keys = Table.emplace api_key key_unset a.auth_keys }
    else a

-- `check_access` at the key of the message: the answer, the error message, and the keys.
unfoldable pub check_key : AccessModifier → String → Auth → Bool × String × Auth
unfolding look_up
check_key access api_key a =
    let b = look_up api_key a in
    let key = Table.get_or api_key key_unset b.auth_keys in
    if is_any access
    then (true, "", a)
    else if a.development_mode && is_test key
    then (true, "", b)
    else if api_key == ""
    then (false, "No api_key found", b)
    else if not (Table.contains api_key b.auth_keys)
    then (false, "Invalid api_key " ++ api_key, b)
    else (authorized access key, "", b)

unfoldable pub check_access :
    {V : Type 0} ⦃J : Json V⦄ → AccessModifier → V → Auth → Bool × String × Auth
unfolding check_key
check_access access msg a = check_key access (get_string "@api_key" "" msg) a

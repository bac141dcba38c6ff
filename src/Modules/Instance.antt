-- ===== src/Modules/Instance.antt =====
-- `ModuleInstance` of src/nix/module/instance.cxx. The dynamic linker is not in the repository: a
-- handle is a number, and what `dlerror` says after a call is none for a null pointer.
use Prim.Native.String.{◌++◌}
use nixsrv.Prelude.{
  ℕ, Bool, true, false, Option, none, some, String, if◌then◌else◌, Result, ok, err, undefined,
  runtime_error, is_some,
}
use nixsrv.Modules.{Module}

pub record Linker : Type 0 where
  pub dlopen : String → Option ℕ
  pub open_error : String → Option String
  -- `dlsym(h, "create")`, as a call of the creator.
  pub dlsym : ℕ → Option (Option Module)
  pub sym_error : ℕ → Option String
  -- Is `dlclose` refused?
  pub close_fails : ℕ → Bool

pub record Instance : Type 0 where
  pub module_ptr : Option Module
  pub lib_handle : Option ℕ
  pub lib_path : String
  pub fatal : Bool

unfoldable pub new_instance : String → Bool → Instance
new_instance lib_path fatal = record {
  module_ptr = none;
  lib_handle = none;
  lib_path = lib_path;
  fatal = fatal;
}

-- `load`, with the instance and the error's text afterwards. A text is not assigned from a null
-- pointer: that is undefined.
unfoldable pub load : Linker → Instance → Result (Bool × Instance × String)
load linker i = elim (linker.open_error i.lib_path) [
  | none ↦ err undefined
  | some err_msg ↦ elim (linker.dlopen i.lib_path) [
    | none ↦
        if i.fatal
        then err (runtime_error ("ModuleInstance::load(): Failed to load module: " ++ err_msg))
        else ok (false, i, err_msg)
    | some h ↦ elim (linker.sym_error h) [
      | none ↦ err undefined
      | some err_msg ↦ elim (linker.dlsym h) [
        | none ↦ ok (false, i, err_msg)
        | some created ↦
            if is_some i.lib_handle
            then err undefined
            else ok
                (is_some created, record i { module_ptr = created; lib_handle = some h }, err_msg)
      ]
    ]
  ]
]

-- `unload`. Where the library is closed, `lib_handle_.reset()` deletes a handle that no `new` made:
-- that is undefined.
unfoldable pub unload : Linker → Instance → Result (Bool × Instance)
unload linker i = elim i.lib_handle [
  | none ↦ ok (true, record i { module_ptr = none })
  | some h ↦
      if linker.close_fails h then ok (false, record i { module_ptr = none }) else err undefined
]

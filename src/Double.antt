-- ===== src/Double.antt =====
-- The C++ type `double` as the program uses it, and the JSON library's conversions of it. Its
-- arithmetic is not in the repository, so it is a parameter, with the documented behaviour that the
-- proofs rely on.
use nixsrv.Prelude.{String, ◌≡◌, Bool, true, none, some, if◌then◌else◌}
use nixsrv.Json.{Json}
use nixsrv.Message.{find}

-- `D` is `double`, `V` is `Json::Value`.
pub record Double (D V : Type 0) : Type 0 where
  pub zero : D
  pub hundred : D
  -- `>=`
  pub geq : D → D → Bool
  -- The conversion to `bool`.
  pub nonzero : D → Bool
  pub from_double : D → V
  pub is_double : V → Bool
  pub as_double : V → D
  pub from_double-double : (d : D) → is_double (from_double d) ≡ true
  pub as_double-from_double : (d : D) → as_double (from_double d) ≡ d
  pub geq-hundred : geq hundred hundred ≡ true

module _ {D V : Type 0} ⦃J : Json V⦄ ⦃F : Double D V⦄ where
  -- `get` of a number with a fraction.
  unfoldable pub get_double : String → D → V → D
  get_double k default_value root = elim (find k root) [
    | none ↦ default_value
    | some dest ↦ if F.is_double dest then F.as_double dest else default_value
  ]

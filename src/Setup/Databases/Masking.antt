-- ===== src/Setup/Databases/Masking.antt =====
-- What the masked text of a database says of its password.
use Prim.Native.String
use nixsrv.Prelude.{◌≡◌, refl, ap, ℕ, suc, String, true, arith}
use nixsrv.Util.Split.{size}
use nixsrv.Setup.Databases.{InstanceConfig, mask, dsn}

suc_injective : {m n : ℕ} → suc m ≡ suc n → m ≡ n
suc_injective e = omega arith

mask-size : (s t : String) → size s ≡ size t → mask s ≡ mask t
unfolding mask
mask-size String.[] String.[] e = refl
mask-size String.[] (String.◌∷◌ d t) e = absurd (omega arith)
mask-size (String.◌∷◌ c s) String.[] e = absurd (omega arith)
mask-size (String.◌∷◌ c s) (String.◌∷◌ d t) e =
    ap (λ r. String.◌++◌ "*" r) (mask-size s t (suc_injective e))

-- The masked text does not depend on the password but for its length: with another password of the
-- same length it is the same text.
pub dsn-password :
    (print : ℕ → String) (c : InstanceConfig) (password : String)
    → size c.password ≡ size password
    → dsn print true c ≡ dsn print true (record c { password = password })
unfolding dsn
dsn-password print c password e = rw (mask-size c.password password e) refl

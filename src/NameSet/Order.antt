-- ===== src/NameSet/Order.antt =====
-- The order of texts.
use text.Mathlib.TextEquality.{Char-path}
use nixsrv.Prelude.{◌≡◌, refl, ap₂, true, false, String, arith}
use nixsrv.NameSet.{less}

pub less_irrefl : (a : String) → less a a ≡ false
unfolding less
less_irrefl String.[] = refl
less_irrefl (String.◌∷◌ c s) = ground (arith, less_irrefl s)

pub less_trans : (a b c : String) → less a b ≡ true → less b c ≡ true → less a c ≡ true
unfolding less
less_trans String.[] String.[] c p q = cc
less_trans String.[] (String.◌∷◌ d t) String.[] p q = cc
less_trans String.[] (String.◌∷◌ d t) (String.◌∷◌ e u) p q = refl
less_trans (String.◌∷◌ c s) String.[] e p q = cc
less_trans (String.◌∷◌ c s) (String.◌∷◌ d t) String.[] p q = cc
less_trans (String.◌∷◌ c s) (String.◌∷◌ d t) (String.◌∷◌ e u) p q = ground (arith, less_trans s t u)

pub less_total : (a b : String) → less a b ≡ false → less b a ≡ false → a ≡ b
unfolding less
less_total String.[] String.[] p q = refl
less_total String.[] (String.◌∷◌ d t) p q = cc
less_total (String.◌∷◌ c s) String.[] p q = cc
less_total (String.◌∷◌ c s) (String.◌∷◌ d t) p q =
    ap₂ String.◌∷◌ (Char-path c d (ground arith)) (less_total s t (ground arith) (ground arith))

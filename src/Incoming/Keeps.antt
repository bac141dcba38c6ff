-- ===== src/Incoming/Keeps.antt =====
-- Predicates on the module's state that a handler keeps, whether it returns or throws.
use nixsrv.Prelude.{ok, err, Result, sym, subst}
use nixsrv.Incoming.{World, Handler, continue, ◌>>=◌}
use nixsrv.Incoming.Quiet.{IsQuiet}

module _ {S V A : Type 0} where
  abbrev pub Keeps : (S → Type 0) → Handler S V A → Type 0
  Keeps P m = (w : World S V) → P w.state → P (m w).1.state

  pub quiet-Keeps : (P : S → Type 0) (m : Handler S V A) → IsQuiet m → Keeps P m
  quiet-Keeps P m q w p = subst P (sym (q w)) p

module _ {S V A B : Type 0} where
  continue-Keeps :
      (P : S → Type 0) (r : Result A) (f : A → Handler S V B)
      → ((a : A) → Keeps P (f a))
      → Keeps P (continue r f)
  continue-Keeps P (ok a) f h w p = h a w p
  continue-Keeps P (err e) f h w p = p

  pub bind-Keeps :
      (P : S → Type 0) (m : Handler S V A) (f : A → Handler S V B)
      → Keeps P m
      → ((a : A) → Keeps P (f a))
      → Keeps P (m >>= f)
  bind-Keeps P m f hm hf w p = continue-Keeps P (m w).0 f hf (m w).1 (hm w p)

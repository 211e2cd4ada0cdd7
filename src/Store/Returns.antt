-- ===== src/Store/Returns.antt =====
-- Steps that, when they return, leave a property of the database: the rules by which the last step of
-- a handler is reached.
use iotex_analytics.Common.{◌≡◌, Go, ok}
use iotex_analytics.Store.{World, Run, lift, ◌>>=◌}
use iotex_analytics.Store.Steps.{>>=-ok, >>=-then}
use iotex_analytics.Store.Keeps.{Keeps}

module _ {D S : Type 0} (P Q : D → Type 0) where
  abbrev pub Returns : {A : Type 0} → Run D S A → Type 0
  Returns {A} m = (w : World D S) (a : A) → P w.db → (m w).0 ≡ ok a → Q (m w).1.db

  pub >>=-Returns :
      {A B : Type 0} (m : Run D S A) (f : A → Run D S B)
      → Keeps P m
      → ((a : A) → Returns (f a))
      → Returns (m >>= f)
  >>=-Returns m f h k w b p e =
      let (a, e1, e2) = >>=-ok m f w e in rw (>>=-then m f w a e1) (k a (m w).1 b (h w p) e2)

  pub lift->>=-Returns :
      {A B : Type 0} (r : Go A) (f : A → Run D S B)
      → ((a : A) → r ≡ ok a → Returns (f a))
      → Returns (lift r >>= f)
  lift->>=-Returns r f k w b p e =
      let (a, e1, e2) = >>=-ok (lift r) f w e in rw (>>=-then (lift r) f w a e1) (k a e1 w b p e2)

-- ===== src/Store/Steps.antt =====
-- Inversion of steps that returned.
use iotex_analytics.Common.{◌≡◌, refl, String, Go, ok, inl, inr, Go-cases, wrapped-eq-ok, arith}
use iotex_analytics.Store.{World, Run, ◌>>=◌, exec, query, wrap_error}

module _ {D S A : Type 0} where
  pub >>=-ok :
      {B : Type 0} (m : Run D S A) (f : A → Run D S B) (w : World D S) {b : B}
      → ((m >>= f) w).0 ≡ ok b
      → (a : A) × ((m w).0 ≡ ok a) × ((f a (m w).1).0 ≡ ok b)
  unfolding ◌>>=◌
  >>=-ok m f w h = elim (Go-cases (m w).0) [
    | inl (a, e) ↦ (a, e, rw (e, ◌>>=◌) at h)
    | inr (inl (x, e)) ↦ absurd (ground (arith, e, h))
    | inr (inr (x, e)) ↦ absurd (ground (arith, e, h))
  ]

  pub wrap_error-ok :
      (s : String) (m : Run D S A) (w : World D S) {a : A}
      → (wrap_error s m w).0 ≡ ok a
      → (m w).0 ≡ ok a
  unfolding wrap_error
  wrap_error-ok s m w h = wrapped-eq-ok s (m w).0 h

  pub >>=-then :
      {B : Type 0} (m : Run D S A) (f : A → Run D S B) (w : World D S) (a : A)
      → (m w).0 ≡ ok a
      → (m >>= f) w ≡ f a (m w).1
  unfolding ◌>>=◌
  >>=-then m f w a h = rw (h, ◌>>=◌) refl

  pub wrap_error_world :
      (s : String) (m : Run D S A) (w : World D S) → (wrap_error s m w).1 ≡ (m w).1
  unfolding wrap_error
  wrap_error_world s m w = refl

module _ {D S : Type 0} where
  -- A statement that returned has written what it says.
  pub exec-ok :
      (statement : D → Go D) (w : World D S)
      → (exec statement w).0 ≡ ok tt
      → statement w.db ≡ ok (exec statement w).1.db
  unfolding exec
  exec-ok statement w e = ground (arith, e)

  pub query-ok :
      {A : Type 0} (f : D → A) (w : World D S) (a : A)
      → (query f w).0 ≡ ok a
      → (a ≡ f w.db) × ((query f w).1.db ≡ w.db)
  unfolding query
  query-ok f w a e = ground (arith, e)

-- ===== src/Store/Keeps.antt =====
-- Steps that keep a property of the database however they end: the rules by which a handler is
-- taken apart.
use iotex_analytics.Common.{
  ◌≡◌, refl, inl, inr, ◌⊎◌, Bool, true, false, List, [], ◌∷◌, String, Go, ok, err, abort,
  if◌then◌else◌, arith,
}
use iotex_analytics.Store.{
  World, Run, lift, ◌>>=◌, exec, query, get_memory, set_memory, for_each, fold_run, wrap_error,
}

exec_db :
    {D S : Type 0} (statement : D → Go D) (w : World D S)
    → ((exec statement w).1.db ≡ w.db) ⊎ (statement w.db ≡ ok (exec statement w).1.db)
unfolding exec
exec_db statement w = ground arith

query_db : {D S A : Type 0} (f : D → A) (w : World D S) → (query f w).1.db ≡ w.db
unfolding query
query_db f w = ground arith

module _ {D S : Type 0} (P : D → Type 0) where
  abbrev pub Keeps : {A : Type 0} → Run D S A → Type 0
  Keeps m = (w : World D S) → P w.db → P (m w).1.db

  pub set_memory-Keeps : (f : S → S) → Keeps (set_memory f)
  unfolding set_memory
  set_memory-Keeps f w p = p

  pub get_memory-Keeps : Keeps get_memory
  unfolding get_memory
  get_memory-Keeps w p = p

  pub query-Keeps : {A : Type 0} (f : D → A) → Keeps (query {S = S} f)
  unfolding query
  query-Keeps f w p = rw (query_db f w) p

  pub wrap_error-Keeps :
      {A : Type 0} (s : String) (m : Run D S A) → Keeps m → Keeps (wrap_error s m)
  unfolding wrap_error
  wrap_error-Keeps s m h w p = h w p

  abbrev bound : {A B : Type 0} → (A → Run D S B) → Go A × World D S → Go B × World D S
  bound f (r, w) = elim r [ ok a ↦ f a w | err e ↦ (err e, w) | abort x ↦ (abort x, w) ]

  bound-Keeps :
      {A B : Type 0} (f : A → Run D S B) (r : Go A × World D S)
      → ((a : A) → Keeps (f a))
      → P r.1.db
      → P (bound f r).1.db
  bound-Keeps f (ok a, w) h p = h a w p
  bound-Keeps f (err e, w) h p = p
  bound-Keeps f (abort x, w) h p = p

  pub >>=-Keeps :
      {A B : Type 0} (m : Run D S A) (f : A → Run D S B)
      → Keeps m
      → ((a : A) → Keeps (f a))
      → Keeps (m >>= f)
  unfolding ◌>>=◌
  >>=-Keeps m f h k w p = bound-Keeps f (m w) k (h w p)

  pub lift->>=-Keeps :
      {A B : Type 0} (r : Go A) (f : A → Run D S B)
      → ((a : A) → r ≡ ok a → Keeps (f a))
      → Keeps (lift r >>= f)
  unfolding ◌>>=◌
  lift->>=-Keeps (ok a) f k = k a refl
  lift->>=-Keeps (err e) f k = λ w p. p
  lift->>=-Keeps (abort x) f k = λ w p. p

  pub if-Keeps :
      {A : Type 0} (b : Bool) (m n : Run D S A) → Keeps m → Keeps n → Keeps (if b then m else n)
  if-Keeps true m n h k = h
  if-Keeps false m n h k = k

  pub for_each-Keeps :
      {A : Type 0} (f : A → Run D S (Unit {0})) (xs : List A)
      → ((a : A) → Keeps (f a))
      → Keeps (for_each f xs)
  unfolding for_each
  for_each-Keeps f [] h = λ w p. p
  for_each-Keeps f (x ∷ xs) h =
      >>=-Keeps (f x) (λ _. for_each f xs) (h x) (λ _. for_each-Keeps f xs h)

  pub fold_run-Keeps :
      {A B : Type 0} (f : B → A → Run D S B) (b : B) (xs : List A)
      → ((b : B) (a : A) → Keeps (f b a))
      → Keeps (fold_run f b xs)
  unfolding fold_run
  fold_run-Keeps f b [] h = λ w p. p
  fold_run-Keeps f b (x ∷ xs) h =
      >>=-Keeps (f b x) (λ b'. fold_run f b' xs) (h b x) (λ b'. fold_run-Keeps f b' xs h)

  pub exec-Keeps :
      (statement : D → Go D)
      → ((d d' : D) → P d → statement d ≡ ok d' → P d')
      → Keeps (exec {S = S} statement)
  exec-Keeps statement h w p = elim (exec_db statement w) [
    | inl e ↦ rw e p
    | inr e ↦ h w.db (exec statement w).1.db p e
  ]

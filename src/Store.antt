-- ===== src/Store.antt =====
-- sql/storebase.go: transactions. `D` is what the database holds and `S` what the protocols keep in
-- memory. Every call of the database may fail: `faults` says in turn which of the coming calls do.
pub mod Atomic
pub mod Steps
pub mod Keeps
pub mod Returns
use iotex_analytics.Common.{
  ℕ, ◌≡◌, Option, none, some, List, [], ◌∷◌, String, Error, Go, ok, err, abort, panicked, exited,
  wrapped,
}

pub record World (D S : Type 0) : Type 0 where
  pub db : D
  pub memory : S
  pub faults : List (Option Error)

abbrev pub Run : Type 0 → Type 0 → Type 0 → Type 0
Run D S A = World D S → Go A × World D S

module _ {D S : Type 0} where
  -- The outcome of the next call of the database. With no outcome left, calls succeed.
  abbrev pub next_fault : World D S → Option Error × World D S
  next_fault w = elim w.faults [ [] ↦ (none, w) | f ∷ fs ↦ (f, record w { faults = fs }) ]

  abbrev pub pure : {A : Type 0} → A → Run D S A
  pure a w = (ok a, w)

  abbrev pub raise : {A : Type 0} → Error → Run D S A
  raise e w = (err e, w)

  abbrev pub lift : {A : Type 0} → Go A → Run D S A
  lift r w = (r, w)

  infixl 10 ◌>>=◌ ◌>>◌
  unfoldable pub ◌>>=◌ : {A B : Type 0} → Run D S A → (A → Run D S B) → Run D S B
  ◌>>=◌ m f w =
      let (r, w') = m w in elim r [ ok a ↦ f a w' | err e ↦ (err e, w') | abort x ↦ (abort x, w') ]

  abbrev pub ◌>>◌ : {A B : Type 0} → Run D S A → Run D S B → Run D S B
  m >> n = m >>= λ _. n

  -- errors.Wrap(err, s) on the error of a call.
  unfoldable pub wrap_error : {A : Type 0} → String → Run D S A → Run D S A
  wrap_error s m w = let (r, w') = m w in (wrapped s r, w')

  -- tx.Exec: a statement of the transaction, which the database may refuse.
  unfoldable pub exec : (D → Go D) → Run D S (Unit {0})
  exec statement w =
      let (fault, w') = next_fault w in
      elim fault [
        | some e ↦ (err e, w')
        | none ↦ elim (statement w'.db) [
          | ok d ↦ (ok tt, record w' { db = d })
          | err e ↦ (err e, w')
          | abort x ↦ (abort x, w')
        ]
      ]

  -- tx.Query, and its rows as ParseSQLRows reads them.
  unfoldable pub query : {A : Type 0} → (D → A) → Run D S A
  query f w =
      let (fault, w') = next_fault w in
      elim fault [ some e ↦ (err e, w') | none ↦ (ok (f w'.db), w') ]

  unfoldable pub get_memory : Run D S S
  get_memory w = (ok w.memory, w)

  unfoldable pub set_memory : (S → S) → Run D S (Unit {0})
  set_memory f w = (ok tt, record w { memory = f w.memory })

  -- What the deferred function of Transact does, unless the process has ended: `before` is the database when the transaction
  -- began. The error of Rollback and of Commit is logged, and a panic is recovered: `err` is still
  -- nil then.
  unfoldable pub finish : D → Go (Unit {0}) → Run D S (Unit {0})
  finish before (abort panicked) w =
      let (_, w') = next_fault w in (ok tt, record w' { db = before })
  finish before (abort exited) w = (abort exited, record w { db = before })
  finish before (err e) w = let (_, w') = next_fault w in (err e, record w' { db = before })
  finish before (ok _) w =
      let (fault, w') = next_fault w in
      elim fault [ none ↦ (ok tt, w') | some _ ↦ (ok tt, record w' { db = before }) ]

  unfoldable pub transact : Run D S (Unit {0}) → Run D S (Unit {0})
  unfolding finish
  transact tx_func w =
      let (fault, w') = next_fault w in
      elim fault [ some e ↦ (err e, w') | none ↦ let (r, w'') = tx_func w' in finish w.db r w'' ]

  -- `for _, x := range xs { if err := f(x); err != nil { return err } }`
  unfoldable pub for_each : {A : Type 0} → (A → Run D S (Unit {0})) → List A → Run D S (Unit {0})
  for_each f [] = pure tt
  for_each f (x ∷ xs) = let rest = for_each f xs in f x >>= λ _. rest

  -- `for _, x := range xs { acc, err = f(acc, x) }`
  unfoldable pub fold_run : {A B : Type 0} → (B → A → Run D S B) → B → List A → Run D S B
  fold_run f b [] = pure b
  fold_run f b (x ∷ xs) = f b x >>= λ b'. fold_run f b' xs

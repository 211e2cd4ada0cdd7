-- ===== src/Common/Outcome.antt =====
-- The outcome of a call in Go: a value with a nil error, an error, a panic, or the end of the
-- process by log.Fatal.
use Prim.Native.Nat.{ℕ}
use Prim.Native.String.{String}
use mathlib.Core.Path.{◌≡◌, refl}
use mathlib.Core.Logic.{◌⊎◌, inl, inr}
use mathlib.Core.List.{List, [], ◌∷◌}
use native.Mathlib.Omega.{arith}
use iotex_analytics.Common.Lists.{All}

-- The sentinel errors of indexprotocol/protocol.go, an error made by errors.New or errors.Errorf,
-- one wrapped by errors.Wrap, and one that code outside the repository returned.
pub data Error : Type 0 where
  not_exist already_exist unimplemented : Error
  message : String → Error
  wrap : String → Error → Error
  foreign : ℕ → Error

-- A panic can be recovered, an exit cannot.
pub data Abort : Type 0 where
  panicked exited : Abort

pub data Go {ℓ} (A : Type ℓ) : Type ℓ where
  ok : A → Go A
  err : Error → Go A
  abort : Abort → Go A

abbrev pub panic {ℓ} : {A : Type ℓ} → Go A
panic = abort panicked

abbrev pub exit {ℓ} : {A : Type ℓ} → Go A
exit = abort exited

abbrev pub bind_go {ℓ κ} : {A : Type ℓ} {B : Type κ} → Go A → (A → Go B) → Go B
bind_go (ok a) f = f a
bind_go (err e) f = err e
bind_go (abort a) f = abort a

-- errors.Wrap: a nil error stays nil, and an abort passes through.
abbrev pub wrapped {ℓ} : {A : Type ℓ} → String → Go A → Go A
wrapped s (ok a) = ok a
wrapped s (err e) = err (wrap s e)
wrapped s (abort a) = abort a

pub Go-cases {ℓ} :
    {A : Type ℓ} (m : Go A)
    → ((a : A) × (m ≡ ok a)) ⊎ (((e : Error) × (m ≡ err e)) ⊎ ((x : Abort) × (m ≡ abort x)))
Go-cases (ok a) = inl (a, refl)
Go-cases (err e) = inr (inl (e, refl))
Go-cases (abort x) = inr (inr (x, refl))

module _ {ℓ κ} {A : Type ℓ} {B : Type κ} where
  -- Inversion of a bind that returned.
  pub bind_go-eq-ok :
      (m : Go A) (f : A → Go B) {b : B} → bind_go m f ≡ ok b → (a : A) × (m ≡ ok a) × (f a ≡ ok b)
  bind_go-eq-ok (ok a) f h = (a, refl, h)
  bind_go-eq-ok (err e) f h = cc
  bind_go-eq-ok (abort x) f h = cc

  -- `for _, x := range xs { acc, err = f(acc, x) }` that stops at the first failure.
  unfoldable pub fold_go : (B → A → Go B) → B → List A → Go B
  fold_go f b [] = ok b
  fold_go f b (x ∷ xs) = bind_go (f b x) (λ b'. fold_go f b' xs)

  -- An invariant of every step is an invariant of the loop.
  pub fold_go_inv {μ} :
      (P : B → Type μ) (f : B → A → Go B)
      → ((b : B) (x : A) (b' : B) → P b → f b x ≡ ok b' → P b')
      → (b : B) (xs : List A) (r : B) → P b
      → fold_go f b xs ≡ ok r
      → P r
  unfolding fold_go
  fold_go_inv P f step b [] r h e = ground arith
  fold_go_inv P f step b (x ∷ xs) r h e = elim (Go-cases (f b x)) [
    | inl (b', q) ↦ fold_go_inv P f step b' xs r (step b x b' h q) (rw q at e)
    | inr (inl (c, q)) ↦ ground (arith, q)
    | inr (inr (x, q)) ↦ ground (arith, q)
  ]

  -- A loop whose every step returns, on an invariant and on what the items satisfy, returns.
  pub fold_go-runs {μ ν} :
      (P : B → Type μ) (Q : A → Type ν) (f : B → A → Go B)
      → ((b : B) (x : A) → P b → Q x → (b' : B) × (f b x ≡ ok b') × P b')
      → (b : B) (xs : List A) → P b
      → All Q xs
      → (r : B) × (fold_go f b xs ≡ ok r) × P r
  unfolding fold_go
  fold_go-runs P Q f step b [] p h = (b, refl, p)
  fold_go-runs P Q f step b (x ∷ xs) p (k, h) =
      let (b', e, p') = step b x p k in
      let (r, e', pr) = fold_go-runs P Q f step b' xs p' h in (r, rw e e', pr)

pub wrapped-eq-ok {ℓ} : {A : Type ℓ} (s : String) (m : Go A) {a : A} → wrapped s m ≡ ok a → m ≡ ok a
wrapped-eq-ok s (ok a) h = h
wrapped-eq-ok s (err e) h = cc
wrapped-eq-ok s (abort x) h = cc

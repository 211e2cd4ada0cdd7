-- ===== src/Common/Maps.antt =====
-- Go maps as association lists, over keys with a Boolean equality. A `range` loop over a map goes
-- through the list: its order stands for the order that the run picks.
use Prim.Native.Nat.{ℕ, ◌+◌}
use Prim.Native.String.{String}
use mathlib.Core.Path.{◌≡◌, refl, ap}
use mathlib.Core.Logic.{◌↔◌, ◌≢◌, inl, inr}
use mathlib.Core.Bool.{Bool, true, false}
use mathlib.Core.Option.{Option, none, some}
use mathlib.Core.List.{List, [], ◌∷◌}
use native.Mathlib.Omega.{arith}
use text.Mathlib.Text.{◌==◌ as str_eq}
use text.Mathlib.TextEquality.{eq_iff}
use iotex_analytics.Common.Tests.{◌==◌ as nat_beq, ==_iff, if◌then◌else◌, Bool-cases}
use iotex_analytics.Common.Lists.{sum_by}

pub record Eq {ℓ} (A : Type ℓ) : Type ℓ where
  pub beq : A → A → Bool
  pub beq_iff : (a b : A) → (beq a b ≡ true) ↔ (a ≡ b)

infix 50 ◌=?◌
abbrev pub ◌=?◌ {ℓ} : {A : Type ℓ} ⦃e : Eq A⦄ → A → A → Bool
◌=?◌ ⦃e⦄ = e.beq

instance abbrev pub nat_eq : Eq ℕ
nat_eq = record { beq = nat_beq; beq_iff = ==_iff }

instance abbrev pub string_eq : Eq String
string_eq = record { beq = str_eq; beq_iff = eq_iff }

abbrev pub list_beq {ℓ} : {A : Type ℓ} ⦃e : Eq A⦄ → List A → List A → Bool
list_beq [] [] = true
list_beq [] (y ∷ ys) = false
list_beq (x ∷ xs) [] = false
list_beq (x ∷ xs) (y ∷ ys) = if x =? y then list_beq xs ys else false

pub list_beq_refl {ℓ} : {A : Type ℓ} ⦃e : Eq A⦄ (xs : List A) → list_beq xs xs ≡ true
list_beq_refl [] = refl
list_beq_refl ⦃e⦄ (x ∷ xs) = rw ((e.beq_iff x x).1 refl) (list_beq_refl xs)

pub list_beq→eq {ℓ} : {A : Type ℓ} ⦃e : Eq A⦄ (xs ys : List A) → list_beq xs ys ≡ true → xs ≡ ys
list_beq→eq [] [] h = refl
list_beq→eq [] (y ∷ ys) h = cc
list_beq→eq (x ∷ xs) [] h = cc
list_beq→eq ⦃e⦄ (x ∷ xs) (y ∷ ys) h = elim (Bool-cases (x =? y)) [
  | inl p ↦ rw ((e.beq_iff x y).0 p, list_beq→eq xs ys (rw p at h)) refl
  | inr p ↦ absurd (ground (arith, p, h))
]

-- Byte strings as keys.
instance abbrev pub bytes_eq : Eq (List ℕ)
bytes_eq = record {
  beq = list_beq;
  beq_iff = λ a b. (list_beq→eq a b, λ p. rw p (list_beq_refl b));
}

abbrev pub Assoc {ℓ κ} : Type ℓ → Type κ → Type (ℓ ⊔ κ)
Assoc K V = List (K × V)

pub beq_ne {ℓ} : {K : Type ℓ} ⦃e : Eq K⦄ (k j : K) → k ≢ j → (k =? j) ≡ false
beq_ne ⦃e⦄ k j h = elim (Bool-cases (k =? j)) [
  | inl p ↦ absurd (h ((e.beq_iff k j).0 p))
  | inr p ↦ p
]

pub beq_false→ne {ℓ} : {K : Type ℓ} ⦃e : Eq K⦄ (k j : K) → (k =? j) ≡ false → k ≢ j
beq_false→ne ⦃e⦄ k j h p = cc ((e.beq_iff k j).1 p)

abbrev pub pair_beq {ℓ κ} : {A : Type ℓ} {B : Type κ} ⦃e : Eq A⦄ ⦃f : Eq B⦄ → A × B → A × B → Bool
pair_beq (a, b) (c, d) = if a =? c then b =? d else false

pub pair_beq_iff {ℓ κ} :
    {A : Type ℓ} {B : Type κ} ⦃e : Eq A⦄ ⦃f : Eq B⦄ (p q : A × B) → (pair_beq p q ≡ true) ↔ (p ≡ q)
pair_beq_iff ⦃e⦄ ⦃f⦄ (a, b) (c, d) = elim (Bool-cases (a =? c)) [
  | inl h ↦ rw h (
    λ q. rw ((e.beq_iff a c).0 h, (f.beq_iff b d).0 q) refl,
    λ p. (f.beq_iff b d).1 (ap (λ q. q.1) p),
  )
  | inr h ↦ rw h (λ q. absurd (cc q), λ p. absurd (beq_false→ne a c h (ap (λ q. q.0) p)))
]

instance abbrev pub pair_eq {ℓ κ} : {A : Type ℓ} {B : Type κ} ⦃e : Eq A⦄ ⦃f : Eq B⦄ → Eq (A × B)
pair_eq = record { beq = pair_beq; beq_iff = pair_beq_iff }

module _ {ℓ κ} {K : Type ℓ} {V : Type κ} ⦃e : Eq K⦄ where
  -- `v, ok := m[k]`
  abbrev pub lookup : K → Assoc K V → Option V
  lookup k [] = none
  lookup k ((j, v) ∷ m) = if j =? k then some v else lookup k m

  -- `m[k] = v`
  abbrev pub insert : K → V → Assoc K V → Assoc K V
  insert k v [] = (k, v) ∷ []
  insert k v ((j, w) ∷ m) = if j =? k then (j, v) ∷ m else (j, w) ∷ insert k v m

  -- `v := m[k]`, with the zero value for a missing key
  abbrev pub lookup_or : V → K → Assoc K V → V
  lookup_or d k m = elim (lookup k m) [ none ↦ d | some v ↦ v ]

  pub lookup-insert_self : (k : K) (v : V) (m : Assoc K V) → lookup k (insert k v m) ≡ some v
  lookup-insert_self k v [] = rw ((e.beq_iff k k).1 refl)
  lookup-insert_self k v ((j, w) ∷ m) = elim (Bool-cases (j =? k)) [
    | inl h ↦ rw h (rw h)
    | inr h ↦ rw h (rw h (lookup-insert_self k v m))
  ]

  pub lookup-insert_ne :
      (k j : K) (v : V) (m : Assoc K V) → k ≢ j → lookup j (insert k v m) ≡ lookup j m
  lookup-insert_ne k j v [] h = rw (beq_ne k j h)
  lookup-insert_ne k j v ((i, w) ∷ m) h = elim (Bool-cases (i =? k)) [
    | inl p ↦ rw p (rw ((e.beq_iff i k).0 p) (rw (beq_ne k j h)))
    | inr p ↦ rw p (rw (lookup-insert_ne k j v m h))
  ]

  pub lookup-insert :
      (k j : K) (v : V) (m : Assoc K V)
      → lookup j (insert k v m) ≡ (if k =? j then some v else lookup j m)
  lookup-insert k j v m = elim (Bool-cases (k =? j)) [
    | inl p ↦ rw (p, ← (e.beq_iff k j).0 p) (lookup-insert_self k v m)
    | inr p ↦ rw p (lookup-insert_ne k j v m (beq_false→ne k j p))
  ]

module _ {ℓ} {K : Type ℓ} ⦃e : Eq K⦄ where
  -- `m[k] += x`, where a missing key counts as 0
  abbrev pub add_to : K → ℕ → Assoc K ℕ → Assoc K ℕ
  add_to k x m = insert k (lookup_or 0 k m + x) m

  abbrev pub total : Assoc K ℕ → ℕ
  total = sum_by (λ (p : K × ℕ). p.1)

  pub total-add_to : (k : K) (x : ℕ) (m : Assoc K ℕ) → total (add_to k x m) ≡ total m + x
  total-add_to k x [] = omega arith
  total-add_to k x ((j, w) ∷ m) = ground (arith, total-add_to k x m)

  pub lookup_or-add_to :
      (k j : K) (x : ℕ) (m : Assoc K ℕ)
      → lookup_or 0 j (add_to k x m) ≡ lookup_or 0 j m + (if k =? j then x else 0)
  lookup_or-add_to k j x m = elim (Bool-cases (k =? j)) [
    | inl p ↦
        rw (lookup-insert k j (lookup_or 0 k m + x) m, p, lookup_or) (rw ((e.beq_iff k j).0 p) refl)
    | inr p ↦ rw (lookup-insert k j (lookup_or 0 k m + x) m, p, lookup_or) (omega arith)
  ]

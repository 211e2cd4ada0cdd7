-- ===== src/Paging/Pages.antt =====
-- The pages together are the list that the client serves.
use native.Mathlib.Nat.{mod-eq_of_lt, mul-le-mul_left}
use iotex_analytics.Common.{
  keep, ℕ, zero, suc, ◌+◌, ◌-◌, ◌*◌, ◌%◌, ◌≤◌, ◌<◌, ◌≡◌, refl, ◌∙◌, ap, sym, inl, inr, Bool, true,
  false, Bool-cases, some, List, [], ◌∷◌, ◌++◌, String, Go, ok, length, ltb, ltb→lt, arith,
}
use iotex_analytics.Paging.{
  u32, all_pages, VoteBucket, is_staked, get_all_staking_buckets, Candidate, has_self_stake,
  get_all_staking_candidates,
}

small_page : (limit i : ℕ) → 0 < limit → i * limit < u32 → i < u32
small_page limit i p h = omega (arith, mul-le-mul_left i p)

module _ {A : Type 0} where
  abbrev pub take : ℕ → List A → List A
  take zero xs = []
  take (suc n) [] = []
  take (suc n) (x ∷ xs) = x ∷ take n xs

  abbrev pub drop : ℕ → List A → List A
  drop zero xs = xs
  drop (suc n) [] = []
  drop (suc n) (x ∷ xs) = drop n xs

  take-full : (n : ℕ) (xs : List A) → length (take n xs) < n → take n xs ≡ xs
  take-full zero xs h = absurd (omega (arith, h))
  take-full (suc n) [] h = refl
  take-full (suc n) (x ∷ xs) h = ap (λ ys. x ∷ ys) (take-full n xs (omega (arith, h)))

  take-drop : (n : ℕ) (xs : List A) → take n xs ++ drop n xs ≡ xs
  take-drop zero xs = refl
  take-drop (suc n) [] = refl
  take-drop (suc n) (x ∷ xs) = ap (λ ys. x ∷ ys) (take-drop n xs)

  length-drop : (n : ℕ) (xs : List A) → length (drop n xs) ≡ length xs - n
  length-drop zero xs = omega arith
  length-drop (suc n) [] = omega arith
  length-drop (suc n) (x ∷ xs) = omega (arith, length-drop n xs)

  length-take : (n : ℕ) (xs : List A) → n ≤ length xs + (n - length (take n xs))
  length-take zero xs = omega arith
  length-take (suc n) [] = omega arith
  length-take (suc n) (x ∷ xs) = omega (arith, length-take n xs)

  drop-nil : (n : ℕ) → drop n [] ≡ []
  drop-nil zero = refl
  drop-nil (suc n) = refl

  drop-drop : (m n : ℕ) (xs : List A) → drop n (drop m xs) ≡ drop (m + n) xs
  drop-drop zero n xs = let e : n ≡ 0 + n = omega arith in ap (λ k. drop k xs) e
  drop-drop (suc m) n [] =
      let e : suc (m + n) ≡ suc m + n = omega arith in drop-nil n ∙ ap (λ k. drop k []) e
  drop-drop (suc m) n (x ∷ xs) =
      let e : suc (m + n) ≡ suc m + n = omega arith in
      drop-drop m n xs ∙ ap (λ k. drop k (x ∷ xs)) e

  keep-append : (f : A → Bool) (xs ys : List A) → keep f (xs ++ ys) ≡ keep f xs ++ keep f ys
  keep-append f [] ys = refl
  keep-append f (x ∷ xs) ys = elim (Bool-cases (f x)) [
    | inl h ↦ rw (h, keep-append f xs ys) refl
    | inr h ↦ rw (h, keep-append f xs ys) refl
  ]

  keep-pages :
      (f : A → Bool) (n : ℕ) (acc zs : List A)
      → (acc ++ keep f (take n zs)) ++ keep f (drop n zs) ≡ acc ++ keep f zs
  keep-pages f n [] zs = sym (keep-append f (take n zs) (drop n zs)) ∙ ap (keep f) (take-drop n zs)
  keep-pages f n (x ∷ acc) zs = ap (λ l. x ∷ l) (keep-pages f n acc zs)

  -- The client serves the pages of one list.
  abbrev pub serves : List A → ℕ → ℕ → Go (List A)
  serves xs offset size = ok (take size (drop offset xs))

  -- One round, by the answer of the client.
  module _ (s : String) (f : A → Bool) (limit fuel i : ℕ) (page : ℕ → ℕ → Go (List A))
      (acc ys : List A) (q : page (i * limit % u32) limit ≡ ok ys) where
    page_last :
        ltb (length ys) limit ≡ true
        → all_pages s f limit page (suc fuel) i acc ≡ some (ok (acc ++ keep f ys))
    unfolding all_pages
    page_last h = rw (q, all_pages) (rw (h, all_pages) refl)

    page_more :
        ltb (length ys) limit ≡ false
        → all_pages s f limit page (suc fuel) i acc
          ≡ all_pages s f limit page fuel ((i + 1) % u32) (acc ++ keep f ys)
    unfolding all_pages
    page_more h = rw (q, all_pages) (rw (h, all_pages) refl)

  all_pages-serves :
      (s : String) (f : A → Bool) (limit : ℕ) (xs : List A) (fuel i : ℕ) (acc : List A)
      → 0 < limit
      → length xs + limit < u32
      → i * limit ≤ length xs
      → length xs < (i + fuel) * limit
      → all_pages s f limit (serves xs) fuel i acc ≡ some (ok (acc ++ keep f (drop (i * limit) xs)))
  all_pages-serves s f limit xs zero i acc p b le h = absurd (omega (arith, h, le))
  all_pages-serves s f limit xs (suc fuel) i acc p b le h =
      let here : i * limit % u32 ≡ i * limit = mod-eq_of_lt (omega (arith, b, le)) in
      let ys = take limit (drop (i * limit) xs) in
      let q : serves xs (i * limit % u32) limit ≡ ok ys = ap (λ o. serves xs o limit) here in
      elim (Bool-cases (ltb (length ys) limit)) [
        | inl last ↦
            page_last s f limit fuel i (serves xs) acc ys q last
            ∙ ap (λ zs. some (ok (acc ++ keep f zs)))
                (take-full limit (drop (i * limit) xs) (ltb→lt (length ys) limit last))
        | inr more ↦
            let full = length-take limit (drop (i * limit) xs) in
            let left = length-drop (i * limit) xs in
            let enough : limit ≤ length ys = ground (arith, more) in
            let next : (i + 1) % u32 ≡ i + 1 =
              mod-eq_of_lt
                (small_page limit (i + 1) p (omega (arith, full, left, b, enough, le))) in
            let ahead : (i + 1) * limit ≡ i * limit + limit = omega arith in
            page_more s f limit fuel i (serves xs) acc ys q more
            ∙ ap (λ j. all_pages s f limit (serves xs) fuel j (acc ++ keep f ys)) next
            ∙ all_pages-serves s f limit xs fuel (i + 1) (acc ++ keep f ys) p b
                (omega (arith, full, left, enough, le)) (omega (arith, h))
            ∙ ap (λ l. some (ok ((acc ++ keep f ys) ++ keep f l)))
                (ap (λ o. drop o xs) ahead ∙ sym (drop-drop (i * limit) limit xs))
            ∙ ap (λ l. some (ok l)) (keep-pages f limit acc (drop (i * limit) xs))
      ]

-- Where the client serves the pages of one list, which with a page more stays below 2 ^ 32,
-- GetAllStakingBuckets returns the buckets of the list that are staked, in order and each once, as
-- soon as the rounds cover more than the list.
pub get_all_staking_buckets_lem :
    (buckets : List VoteBucket) (fuel : ℕ)
    → length buckets + 30000 < u32
    → length buckets < fuel * 30000
    → get_all_staking_buckets (serves buckets) fuel ≡ some (ok (keep is_staked buckets))
unfolding get_all_staking_buckets
get_all_staking_buckets_lem buckets fuel b h =
    all_pages-serves "failed to get bucket" is_staked 30000 buckets fuel 0 [] (omega arith) b
      (omega arith) (omega (arith, h))

-- Likewise, GetAllStakingCandidates returns the candidates of the list whose self stake is not "0".
get_all_staking_candidates_lem :
    (candidates : List Candidate) (fuel : ℕ)
    → length candidates + 20000 < u32
    → length candidates < fuel * 20000
    → get_all_staking_candidates (serves candidates) fuel
      ≡ some (ok (keep has_self_stake candidates))
unfolding get_all_staking_candidates
get_all_staking_candidates_lem candidates fuel b h =
    all_pages-serves "failed to get candidates" has_self_stake 20000 candidates fuel 0 []
      (omega arith) b (omega arith) (omega (arith, h))

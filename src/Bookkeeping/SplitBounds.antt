-- ===== src/Bookkeeping/SplitBounds.antt =====
-- GetBookkeeping: what each voter gets, and what all get together.
use iotex_analytics.Common.{
  ℕ, ◌+◌, ◌*◌, ◌/◌, ◌≤◌, ◌<◌, ◌≡◌, ◌⊎◌, inl, inr, Bool, Option-cases, List, [], ◌∷◌, String, Assoc,
  nat_eq, string_eq, lookup, lookup_or, ◌=?◌, add_to, total, total-add_to, lookup_or-add_to, sum_by,
  Go, ok, bind_go, bind_go-eq-ok, fold_go, quo, quo-eq-ok, arith, ◌==◌, if◌then◌else◌,
}
use iotex_analytics.Rewards.Shares.{shares_le}
use iotex_analytics.Bookkeeping.Tables.{
  Tables, replaced, rewards_to_split, total_weighted_votes, voter_votes,
}
use iotex_analytics.Bookkeeping.Split.{
  RewardDistribution, listed, last_epoch, get_bookkeeping, pay_voter, pay_epoch, split_rewards,
  convert_voter_distribution_map_to_list,
}

-- The part of a reward that goes to a voter of an epoch.
abbrev part_of : String → ℕ → ℕ → String × ℕ → ℕ
part_of voter reward votes_of_all (v, votes) =
    if v =? voter then reward * votes / votes_of_all else 0

-- What a voter gets of the reward of one epoch: nothing where there are no votes.
abbrev pub paid_to : Assoc ℕ ℕ → Assoc ℕ (Assoc String ℕ) → String → ℕ × ℕ → ℕ
paid_to totals voters voter (epoch, reward) =
    if lookup_or 0 epoch totals == 0
    then 0
    else sum_by (part_of voter reward (lookup_or 0 epoch totals)) (lookup_or [] epoch voters)

pay_voter-adds :
    (reward votes_of_all : ℕ) (m r : Assoc String ℕ) (v : String) (votes : ℕ) (voter : String)
    → pay_voter reward votes_of_all m (v, votes) ≡ ok r
    → (lookup_or 0 voter r ≡ lookup_or 0 voter m + part_of voter reward votes_of_all (v, votes))
      × (total r ≡ total m + reward * votes / votes_of_all)
unfolding pay_voter
pay_voter-adds reward votes_of_all m r v votes voter h =
    let (a, q, e) =
      bind_go-eq-ok (quo (reward * votes) votes_of_all) (λ amount. ok (add_to v amount m)) h in
    let a-is : a ≡ reward * votes / votes_of_all = quo-eq-ok (reward * votes) votes_of_all a q in
    let r-is : r ≡ add_to v (reward * votes / votes_of_all) m = ground (arith, e, a-is) in
    (
      rw r-is (lookup_or-add_to v voter (reward * votes / votes_of_all) m),
      rw r-is (total-add_to v (reward * votes / votes_of_all) m),
    )

fold-pay_voter :
    (reward votes_of_all : ℕ) (info m r : Assoc String ℕ) (voter : String)
    → fold_go (pay_voter reward votes_of_all) m info ≡ ok r
    → (lookup_or 0 voter r ≡ lookup_or 0 voter m + sum_by (part_of voter reward votes_of_all) info)
      × (total r ≡ total m + sum_by (λ (e : String × ℕ). reward * e.1 / votes_of_all) info)
unfolding fold_go
fold-pay_voter reward votes_of_all [] m r voter h = ground (arith, h)
fold-pay_voter reward votes_of_all ((v, votes) ∷ info) m r voter h =
    let (m₁, first, rest) =
      bind_go-eq-ok (pay_voter reward votes_of_all m (v, votes))
        (λ b. fold_go (pay_voter reward votes_of_all) b info) h in
    let one = pay_voter-adds reward votes_of_all m m₁ v votes voter first in
    let more = fold-pay_voter reward votes_of_all info m₁ r voter rest in
    (omega (arith, one.0, more.0), omega (arith, one.1, more.1))

-- An epoch that was paid has no votes, and changed nothing, or ran the loop over its voters.
pay_epoch-cases :
    (totals : Assoc ℕ ℕ) (voters : Assoc ℕ (Assoc String ℕ)) (m r : Assoc String ℕ)
    (epoch reward : ℕ)
    → pay_epoch totals voters m (epoch, reward) ≡ ok r
    → ((lookup_or 0 epoch totals ≡ 0) × (r ≡ m))
      ⊎ ((0 < lookup_or 0 epoch totals)
          × (fold_go (pay_voter reward (lookup_or 0 epoch totals)) m (lookup_or [] epoch voters)
              ≡ ok r))
unfolding pay_epoch
pay_epoch-cases totals voters m r epoch reward h = elim (Option-cases (lookup epoch totals)) [
  | inl n ↦ absurd (ground (arith, n, h))
  | inr (t, n) ↦ elim (Option-cases (lookup epoch voters)) [
    | inl k ↦ inl (ground (arith, n, k, h))
    | inr (info, k) ↦ rw (n, k, lookup_or) (ground (arith, n, k, h))
  ]
]

-- What an epoch pays to one voter, and to all, when their votes are at most the total.
pay_epoch-adds :
    (totals : Assoc ℕ ℕ) (voters : Assoc ℕ (Assoc String ℕ)) (m r : Assoc String ℕ)
    (epoch reward : ℕ) (voter : String)
    → pay_epoch totals voters m (epoch, reward) ≡ ok r
    → (lookup_or 0 voter r ≡ lookup_or 0 voter m + paid_to totals voters voter (epoch, reward))
      × ((total (lookup_or [] epoch voters) ≤ lookup_or 0 epoch totals)
          → total r ≤ total m + reward)
pay_epoch-adds totals voters m r epoch reward voter h =
    elim (pay_epoch-cases totals voters m r epoch reward h) [
      | inl (z, e) ↦ (ground (arith, z, e), λ k. ground (arith, e))
      | inr (p, e) ↦
          let both =
            fold-pay_voter reward (lookup_or 0 epoch totals) (lookup_or [] epoch voters) m r voter
              e in
          (
            ground (arith, both.0, p),
            λ k. omega (
              arith,
              both.1,
              shares_le reward (lookup_or 0 epoch totals) (λ (e : String × ℕ). e.1)
                  (lookup_or [] epoch voters) p k,
            ),
          )
    ]

module _ (totals : Assoc ℕ ℕ) (voters : Assoc ℕ (Assoc String ℕ)) where
  fold-pay_epoch :
      (rewards : Assoc ℕ ℕ) (m r : Assoc String ℕ) (voter : String)
      → fold_go (pay_epoch totals voters) m rewards ≡ ok r
      → (lookup_or 0 voter r ≡ lookup_or 0 voter m + sum_by (paid_to totals voters voter) rewards)
        × (((epoch : ℕ) → total (lookup_or [] epoch voters) ≤ lookup_or 0 epoch totals)
            → total r ≤ total m + total rewards)
  unfolding fold_go
  fold-pay_epoch [] m r voter h = (ground (arith, h), λ k. ground (arith, h))
  fold-pay_epoch ((epoch, reward) ∷ rewards) m r voter h =
      let (m₁, first, rest) =
        bind_go-eq-ok (pay_epoch totals voters m (epoch, reward))
          (λ b. fold_go (pay_epoch totals voters) b rewards) h in
      let one = pay_epoch-adds totals voters m m₁ epoch reward voter first in
      let more = fold-pay_epoch rewards m₁ r voter rest in
      (omega (arith, one.0, more.0), λ k. omega (arith, one.1 (k epoch), more.1 k))

  -- GetBookkeeping's loops leave, for every voter, the sum over the epochs of the voter's rounded
  -- parts `reward * votes / total votes`, and nothing for the epochs whose total votes are zero.
  pub split_rewards-pays :
      (rewards : Assoc ℕ ℕ) (m : Assoc String ℕ) (voter : String)
      → split_rewards rewards totals voters ≡ ok m
      → lookup_or 0 voter m ≡ sum_by (paid_to totals voters voter) rewards
  unfolding split_rewards
  split_rewards-pays rewards m voter h = ground (arith, fold-pay_epoch rewards [] m voter h)

  pub split_rewards_le :
      (rewards : Assoc ℕ ℕ) (m : Assoc String ℕ)
      → split_rewards rewards totals voters ≡ ok m
      → ((epoch : ℕ) → total (lookup_or [] epoch voters) ≤ lookup_or 0 epoch totals)
      → total m ≤ total rewards
  unfolding split_rewards
  split_rewards_le rewards m h k = omega (arith, (fold-pay_epoch rewards [] m "" h).1 k)

pub sum-convert_voter_distribution_map_to_list :
    (to_io : String → Go String) (m : Assoc String ℕ) (ds : List RewardDistribution)
    → convert_voter_distribution_map_to_list to_io m ≡ ok ds
    → sum_by (λ d. d.amount) ds ≡ total m
unfolding convert_voter_distribution_map_to_list
sum-convert_voter_distribution_map_to_list to_io [] ds h = ground (arith, h)
sum-convert_voter_distribution_map_to_list to_io ((voter, amount) ∷ m) ds h =
    let (io, first, h₁) =
      bind_go-eq-ok (replaced "failed to form IoTeX address from ETH address" (to_io voter))
        (λ io.
          bind_go (convert_voter_distribution_map_to_list to_io m)
            (λ ds. ok (listed voter io amount ∷ ds)))
        h in
    let (ds₁, rest, h₂) =
      bind_go-eq-ok (convert_voter_distribution_map_to_list to_io m)
        (λ ds. ok (listed voter io amount ∷ ds)) h₁ in
    ground (arith, h₂, sum-convert_voter_distribution_map_to_list to_io m ds₁ rest)

-- GetBookkeeping, when it returns, has paid out at most the rewards to split of the epochs, provided
-- that in each epoch the voters' votes are at most the total votes of the delegate.
pub get_bookkeeping_le :
    (to_io : String → Go String) (t : Tables) (start count : ℕ) (name : String) (percentage : ℕ)
    (with_block with_bonus : Bool) (rewards totals : Assoc ℕ ℕ) (voters : Assoc ℕ (Assoc String ℕ))
    (ds : List RewardDistribution)
    → rewards_to_split t start (last_epoch start count) name percentage with_block with_bonus
      ≡ ok rewards
    → total_weighted_votes t start (last_epoch start count) name ≡ ok totals
    → voter_votes t start (last_epoch start count) name ≡ ok voters
    → ((epoch : ℕ) → total (lookup_or [] epoch voters) ≤ lookup_or 0 epoch totals)
    → get_bookkeeping to_io t start count name percentage with_block with_bonus ≡ ok ds
    → sum_by (λ d. d.amount) ds ≤ total rewards
unfolding get_bookkeeping
get_bookkeeping_le to_io t start count name percentage with_block with_bonus rewards totals voters
      ds r s v k h =
    let e : bind_go (split_rewards rewards totals voters)
          (λ m. convert_voter_distribution_map_to_list to_io m)
        ≡ ok ds =
      rw (r, s, v) at h in
    let (m, split, convert) =
      bind_go-eq-ok (split_rewards rewards totals voters)
        (λ m. convert_voter_distribution_map_to_list to_io m) e in
    omega (
      arith,
      sum-convert_voter_distribution_map_to_list to_io m ds convert,
      split_rewards_le totals voters rewards m split k,
    )

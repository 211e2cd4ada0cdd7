-- ===== src/Bookkeeping/HermesBalance.antt =====
-- GetHermesBookkeeping: the refund of a delegate is exactly what the voters leave of its rewards.
use iotex_analytics.Common.{
  ℕ, ◌+◌, ◌*◌, ◌/◌, ◌≤◌, ◌<◌, ◌≡◌, inl, inr, pos, pos_part, neg_part, +ℤ_parts, -ℤ_parts, ◌+ℤ◌,
  ◌-ℤ◌, true, ◌&&◌, Option-cases, some, [], ◌∷◌, String, Assoc, nat_eq, string_eq, lookup,
  lookup_or, insert, add_to, total, total-add_to, sum_by, Go, ok, bind_go, bind_go-eq-ok, fold_go,
  quo, quo-eq-ok, arith,
}
use iotex_analytics.Rewards.Shares.{shares_le}
use iotex_analytics.Bookkeeping.Plans.{
  HermesDistributionPlan, HermesDistributionSource, calculated_distributed_reward,
}
use iotex_analytics.Bookkeeping.PlanBounds.{IsProportional, calculated_distributed_reward_le}
use iotex_analytics.Bookkeeping.Hermes.{
  Progress, pay_hermes_voter, total_rewards, keeps_waiver, staking_of, pay_hermes_epoch,
}

-- The balance and what was paid make up `n`.
unfoldable pub Holds : Progress → ℕ → Type 0
Holds st n = pos_part st.balance + total st.voter_rewards ≡ neg_part st.balance + n

-- The state after one payment.
abbrev pub paid : Progress → String → ℕ → Progress
paid st voter amount = record st {
  voter_rewards = add_to voter amount st.voter_rewards;
  balance = st.balance -ℤ pos amount;
  voters = insert voter true st.voters;
}

paid-Holds :
    (st : Progress) (voter : String) (amount n : ℕ) → Holds st n → Holds (paid st voter amount) n
unfolding Holds
paid-Holds st voter amount n k =
    omega (arith, k, total-add_to voter amount st.voter_rewards, -ℤ_parts st.balance (pos amount))

pay_hermes_voter-adds :
    (reward votes_of_all : ℕ) (st r : Progress) (voter : String) (votes : ℕ)
    → pay_hermes_voter reward votes_of_all st (voter, votes) ≡ ok r
    → r ≡ paid st voter (reward * votes / votes_of_all)
unfolding pay_hermes_voter
pay_hermes_voter-adds reward votes_of_all st r voter votes h =
    let (a, q, e) =
      bind_go-eq-ok (quo (reward * votes) votes_of_all) (λ a. ok (paid st voter a)) h in
    let a-is : a ≡ reward * votes / votes_of_all = quo-eq-ok (reward * votes) votes_of_all a q in
    ground (arith, e, a-is)

fold-pay_hermes_voter :
    (reward votes_of_all : ℕ) (info : Assoc String ℕ) (st r : Progress) (n : ℕ)
    → fold_go (pay_hermes_voter reward votes_of_all) st info ≡ ok r
    → Holds st n
    → Holds r n
      × (total r.voter_rewards
          ≡ total st.voter_rewards + sum_by (λ (e : String × ℕ). reward * e.1 / votes_of_all) info)
unfolding fold_go
fold-pay_hermes_voter reward votes_of_all [] st r n h k =
    let same : st ≡ r = ground (arith, h) in (rw (← same) k, ground (arith, same))
fold-pay_hermes_voter reward votes_of_all ((voter, votes) ∷ info) st r n h k =
    let (st₁, first, rest) =
      bind_go-eq-ok (pay_hermes_voter reward votes_of_all st (voter, votes))
        (λ b. fold_go (pay_hermes_voter reward votes_of_all) b info) h in
    let amount = reward * votes / votes_of_all in
    let one = pay_hermes_voter-adds reward votes_of_all st st₁ voter votes first in
    let (held, sum) =
      fold-pay_hermes_voter reward votes_of_all info (paid st voter amount) r n (rw one at rest)
        (paid-Holds st voter amount n k) in
    (held, omega (arith, sum, total-add_to voter amount st.voter_rewards))

-- The state in which the loop over the voters of an epoch starts.
abbrev pub credited :
    Progress → HermesDistributionPlan → HermesDistributionSource → ℕ → String → Progress
credited st plan rewards threshold address = record st {
  balance = st.balance +ℤ pos (total_rewards rewards);
  fee_waiver = st.fee_waiver && keeps_waiver plan threshold;
  staking_address = address;
}

credited-Holds :
    (st : Progress) (plan : HermesDistributionPlan) (rewards : HermesDistributionSource)
    (threshold : ℕ) (address : String) (n : ℕ)
    → Holds st n
    → Holds (credited st plan rewards threshold address) (n + total_rewards rewards)
unfolding Holds
credited-Holds st plan rewards threshold address n k =
    omega (arith, k, +ℤ_parts st.balance (pos (total_rewards rewards)))

-- A plan covers the votes of its epoch, which are not zero, and no percentage of it is above a hundred.
pub record IsFunded (plans : Assoc ℕ HermesDistributionPlan) (voters : Assoc ℕ (Assoc String ℕ))
    (epoch : ℕ) : Type 0 where
  pub votes :
      (plan : HermesDistributionPlan)
      → lookup epoch plans ≡ some plan
      → (0 < plan.total_weighted_votes)
        × (total (lookup_or [] epoch voters) ≤ plan.total_weighted_votes)
  pub proportional :
      (plan : HermesDistributionPlan) → lookup epoch plans ≡ some plan → IsProportional plan

module _ (to_io : String → Go String) (threshold : ℕ) (plans : Assoc ℕ HermesDistributionPlan)
    (voters : Assoc ℕ (Assoc String ℕ)) where
  pay_hermes_epoch-adds :
      (st r : Progress) (epoch : ℕ) (rewards : HermesDistributionSource) (n : ℕ)
      → pay_hermes_epoch to_io threshold plans voters st (epoch, rewards) ≡ ok r
      → Holds st n
      → Holds r (n + total_rewards rewards)
        × (IsFunded plans voters epoch
            → total r.voter_rewards ≤ total st.voter_rewards + total_rewards rewards)
  unfolding pay_hermes_epoch
  pay_hermes_epoch-adds st r epoch rewards n h k = elim (Option-cases (lookup epoch plans)) [
    | inl none_there ↦ absurd (ground (arith, none_there, h))
    | inr (plan, there) ↦
        let reward = calculated_distributed_reward plan rewards in
        let run : String → Go Progress = λ address.
          fold_go (pay_hermes_voter reward plan.total_weighted_votes)
            (credited st plan rewards threshold address) (lookup_or [] epoch voters) in
        let opened : bind_go (staking_of to_io plan st.staking_address) run ≡ ok r =
          rw (there, pay_hermes_epoch) at h in
        let (address, e, loop) =
          bind_go-eq-ok (staking_of to_io plan st.staking_address) run opened in
        let (held, sum) =
          fold-pay_hermes_voter reward plan.total_weighted_votes (lookup_or [] epoch voters)
            (credited st plan rewards threshold address) r (n + total_rewards rewards) loop
            (credited-Holds st plan rewards threshold address n k) in
        (
          held,
          λ f. omega (
            arith,
            sum,
            shares_le reward plan.total_weighted_votes (λ (e : String × ℕ). e.1)
                (lookup_or [] epoch voters) (f.votes plan there).0 (f.votes plan there).1,
            calculated_distributed_reward_le plan rewards (f.proportional plan there),
          ),
        )
  ]

  pub fold-pay_hermes_epoch :
      (all : Assoc ℕ HermesDistributionSource) (st r : Progress) (n : ℕ)
      → fold_go (pay_hermes_epoch to_io threshold plans voters) st all ≡ ok r
      → Holds st n
      → Holds r (n + sum_by (λ (e : ℕ × HermesDistributionSource). total_rewards e.1) all)
        × (((epoch : ℕ) → IsFunded plans voters epoch)
            → total r.voter_rewards
              ≤ total st.voter_rewards
                + sum_by (λ (e : ℕ × HermesDistributionSource). total_rewards e.1) all)
  unfolding fold_go
  fold-pay_hermes_epoch [] st r n h k =
      let same : st ≡ r = ground (arith, h) in
      let more : n ≡ n + 0 = omega arith in (rw (← same, ← more) k, λ f. ground (arith, same))
  fold-pay_hermes_epoch ((epoch, rewards) ∷ all) st r n h k =
      let (st₁, first, rest) =
        bind_go-eq-ok (pay_hermes_epoch to_io threshold plans voters st (epoch, rewards))
          (λ b. fold_go (pay_hermes_epoch to_io threshold plans voters) b all) h in
      let (held, le) = pay_hermes_epoch-adds st st₁ epoch rewards n first k in
      let (held', le') = fold-pay_hermes_epoch all st₁ r (n + total_rewards rewards) rest held in
      let sum = sum_by (λ (e : ℕ × HermesDistributionSource). total_rewards e.1) all in
      let assoc : n + total_rewards rewards + sum ≡ n + (total_rewards rewards + sum) =
        omega arith in
      (rw assoc at held', λ f. omega (arith, le (f epoch), le' f))

-- ===== src/RewardTables/Receipts.antt =====
-- getRewardInfoFromReceipt: nothing of a receipt's rewards is lost.
use iotex_analytics.Common.{
  ℕ, ◌+◌, ◌≡◌, refl, List, [], ◌∷◌, String, Assoc, string_eq, lookup_or, insert, sum_by, Go, ok,
  err, abort, bind_go-eq-ok, fold_go, arith,
}
use iotex_analytics.Bookkeeping.Tables.{number, malformed}
use iotex_analytics.Rewards.{Amounts}
use iotex_analytics.Rewards.Breakdown.{paid}
use iotex_analytics.RewardTables.{
  RewardLog, no_amounts, credit, add_log, get_reward_info_from_receipt,
}

-- The sum of the three rewards of an entry.
abbrev pub all_of : Amounts → ℕ
all_of a = a.block_reward + a.epoch_reward + a.foundation_bonus

-- What a log adds, as far as it can be read.
abbrev pub worth : Go RewardLog → ℕ
worth (ok log) = elim log.amount [ number n ↦ n | malformed ↦ 0 ]
worth _ = 0

-- Storing under a key replaces what the key had.
pub paid-replace :
    (f : Amounts → ℕ) (k : String) (a : Amounts) (m : Assoc String Amounts)
    → f no_amounts ≡ 0
    → paid f (insert k a m) + f (lookup_or no_amounts k m) ≡ paid f m + f a
paid-replace f k a [] z = omega (arith, z)
paid-replace f k a ((j, b) ∷ m) z = ground (arith, paid-replace f k a m z)

all_of-credit :
    (log : RewardLog) (a b : Amounts) → credit log a ≡ ok b → all_of b ≡ all_of a + worth (ok log)
unfolding credit
all_of-credit log a b h = ground (arith, h)

paid-add_log :
    (m m' : Assoc String Amounts) (answer : Go RewardLog)
    → add_log m answer ≡ ok m'
    → paid all_of m' ≡ paid all_of m + worth answer
unfolding add_log
paid-add_log m m' (ok log) h =
    let (a, e, last) =
      bind_go-eq-ok (credit log (lookup_or no_amounts log.addr m)) (λ a. ok (insert log.addr a m))
        h in
    let is_new : m' ≡ insert log.addr a m = ground (arith, last) in
    rw is_new (
      omega (
        arith,
        all_of-credit log (lookup_or no_amounts log.addr m) a e,
        paid-replace all_of log.addr a m refl,
      ))
paid-add_log m m' (err e) h = cc
paid-add_log m m' (abort x) h = cc

fold-add_log :
    (logs : List (Go RewardLog)) (m m' : Assoc String Amounts)
    → fold_go add_log m logs ≡ ok m'
    → paid all_of m' ≡ paid all_of m + sum_by worth logs
unfolding fold_go
fold-add_log [] m m' h = ground (arith, h)
fold-add_log (answer ∷ logs) m m' h =
    let (m₁, first, rest) = bind_go-eq-ok (add_log m answer) (λ b. fold_go add_log b logs) h in
    omega (arith, paid-add_log m m₁ answer first, fold-add_log logs m₁ m' rest)

-- When getRewardInfoFromReceipt returns, the block rewards, epoch rewards and foundation bonuses of
-- all addresses add up to the amounts of the logs.
pub paid-get_reward_info_from_receipt :
    (logs : List (Go RewardLog)) (m : Assoc String Amounts)
    → get_reward_info_from_receipt logs ≡ ok m
    → paid all_of m ≡ sum_by worth logs
unfolding get_reward_info_from_receipt
paid-get_reward_info_from_receipt logs m h = omega (arith, fold-add_log logs [] m h)

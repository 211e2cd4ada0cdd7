-- ===== src/Tests/AccountRuns.antt =====
-- Two transfers of one epoch.
use iotex_analytics.Common.{ℕ, ◌≡◌, refl, [], ◌∷◌, String, negsuc, ok}
use iotex_analytics.Accounts.{BalanceHistory, Accounts, rebuild_account_income_table}
use iotex_analytics.Accounts.Income.{IsFresh, income_of, calm, rebuild_account_income_table-income}

abbrev moves : ℕ → String → String → ℕ → BalanceHistory
moves epoch from recipient amount = record {
  epoch_number = epoch;
  block_height = 7;
  action_hash = "h";
  action_type = "transfer";
  from = from;
  recipient = recipient;
  amount = amount;
}

abbrev ledger : Accounts
ledger = record {
  balance_history = moves 2 "a" "b" 10 ∷ moves 2 "b" "a" 4 ∷ moves 1 "a" "b" 99 ∷ [];
  account_inflow = [];
  account_outflow = [];
  account_income = [];
}

ledger-IsFresh : IsFresh 2 ledger
ledger-IsFresh = record { inflow = refl; outflow = refl; income = refl }

rebuild_account_income_table-income_example :
    ((rebuild_account_income_table 2 (calm ledger tt)).0 ≡ ok tt)
    × (income_of (rebuild_account_income_table 2 (calm ledger tt)).1.db 2 "a" ≡ negsuc 5)
rebuild_account_income_table-income_example =
    rebuild_account_income_table-income 1 ledger tt "a" ledger-IsFresh

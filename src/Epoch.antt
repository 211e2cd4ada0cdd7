-- ===== src/Epoch.antt =====
-- The epoch context of epochctx/epochctx.go: which epoch a block height belongs to, and at which
-- height an epoch starts. Heights and epochs are uint64, and a division by a zero setting panics.
pub mod Plain
pub mod Starts
pub mod Partition
pub mod Recursion
use iotex_analytics.Common.{
  ℕ, ◌+◌, Bool, true, false, ◌||◌, not, List, [], ◌∷◌, Go, ok, bind_go, add64, sub64, mul64, div64,
  ltb, leb, ◌==◌, if◌then◌else◌,
}

pub record EpochCtx : Type 0 where
  pub num_candidate_delegates : ℕ
  pub num_delegates : ℕ
  pub num_sub_epochs : ℕ
  pub num_sub_epochs_dardanelles : ℕ
  pub dardanelles_height : ℕ
  pub dardanelles_on : Bool
  pub fairbank_height : ℕ

-- `Option`: a setting that NewEpochCtx applies. Those of the source never fail.
pub data Setting : Type 0 where
  enable_dardanelles_sub_epoch : ℕ → ℕ → Setting
  with_fairbank_height : ℕ → Setting

unfoldable pub apply_setting : EpochCtx → Setting → EpochCtx
apply_setting e (enable_dardanelles_sub_epoch height n) = record e {
  num_sub_epochs_dardanelles = n;
  dardanelles_height = height;
  dardanelles_on = true;
}
apply_setting e (with_fairbank_height height) = record e { fairbank_height = height }

apply_settings : EpochCtx → List Setting → EpochCtx
apply_settings e [] = e
apply_settings e (s ∷ ss) = apply_settings (apply_setting e s) ss

unfoldable pub new_epoch_ctx : ℕ → ℕ → ℕ → List Setting → EpochCtx
unfolding apply_setting apply_settings
new_epoch_ctx candidates delegates sub_epochs settings =
    apply_settings
      (record {
        num_candidate_delegates = if ltb candidates delegates then delegates else candidates;
        num_delegates = delegates;
        num_sub_epochs = sub_epochs;
        num_sub_epochs_dardanelles = 0;
        dardanelles_height = 0;
        dardanelles_on = false;
        fairbank_height = 0;
      })
      settings

-- The first two returns of GetEpochNumber: the only ones that a call at the Dardanelles height
-- can take, so the call that GetEpochNumber and GetEpochHeight make there ends here.
unfoldable pub early_epoch_number : EpochCtx → ℕ → Go ℕ
early_epoch_number e height =
    if height == 0
    then ok 0
    else bind_go (div64 (sub64 height 1) e.num_delegates)
        (λ rounds. bind_go (div64 rounds e.num_sub_epochs) (λ n. ok (add64 n 1)))

-- The first two returns of GetEpochHeight, likewise.
unfoldable pub early_epoch_height : EpochCtx → ℕ → ℕ
early_epoch_height e epoch =
    if epoch == 0
    then 0
    else add64 (mul64 (mul64 (sub64 epoch 1) e.num_delegates) e.num_sub_epochs) 1

-- What follows the first two returns of GetEpochNumber.
late_epoch_number : EpochCtx → ℕ → Go ℕ
late_epoch_number e height = bind_go (early_epoch_number e e.dardanelles_height) (λ d.
    bind_go (div64 (sub64 height (early_epoch_height e d)) e.num_delegates)
      (λ rounds. bind_go (div64 rounds e.num_sub_epochs_dardanelles) (λ n. ok (add64 d n))))

unfoldable pub get_epoch_number : EpochCtx → ℕ → Go ℕ
unfolding early_epoch_number late_epoch_number early_epoch_height
get_epoch_number e height =
    if height == 0
    then ok 0
    else if not e.dardanelles_on || leb height e.dardanelles_height
    then early_epoch_number e height
    else late_epoch_number e height

unfoldable pub get_epoch_height : EpochCtx → ℕ → Go ℕ
unfolding early_epoch_number early_epoch_height
get_epoch_height e epoch =
    if epoch == 0
    then ok 0
    else bind_go (early_epoch_number e e.dardanelles_height) (λ d.
      if not e.dardanelles_on || leb epoch d
      then ok (early_epoch_height e epoch)
      else ok (
          add64 (early_epoch_height e d)
            (mul64 (mul64 (sub64 epoch d) e.num_delegates) e.num_sub_epochs_dardanelles)))

unfoldable pub fairbank_effective_height : EpochCtx → ℕ
fairbank_effective_height e =
    add64 e.fairbank_height (mul64 e.num_delegates e.num_sub_epochs_dardanelles)

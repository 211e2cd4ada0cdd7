-- ===== src/Tests/Epochs.antt =====
-- Heights and delegate names.
use iotex_analytics.Common.{ℕ, ◌≡◌, true, List, [], ◌∷◌, ◌++◌, replicate, ok, bind_go, arith}
use iotex_analytics.Epoch.{EpochCtx}
use iotex_analytics.Epoch.Plain.{IsValid}
use iotex_analytics.Epoch.Starts.{Contains}
use iotex_analytics.Epoch.Partition.{get_epoch_number-Contains}
use iotex_analytics.DelegateName.{encode_delegate_name, decode_delegate_name}
use iotex_analytics.DelegateName.RoundTrip.{IsPlain, decode-encode_delegate_name}

-- Epochs of 4 blocks up to height 8, and of 6 blocks after it.
abbrev small_ctx : EpochCtx
small_ctx = record {
  num_candidate_delegates = 3;
  num_delegates = 2;
  num_sub_epochs = 2;
  num_sub_epochs_dardanelles = 3;
  dardanelles_height = 8;
  dardanelles_on = true;
  fairbank_height = 100;
}

small_ctx-IsValid : IsValid small_ctx
small_ctx-IsValid = record {
  has_delegates = omega arith;
  has_sub_epochs = omega arith;
  has_late_sub_epochs = λ _. omega arith;
  not_shorter = λ _. omega arith;
}

get_epoch_number-Contains_example : Contains small_ctx 13
get_epoch_number-Contains_example =
    get_epoch_number-Contains small_ctx 13 small_ctx-IsValid (omega arith) (omega arith)

-- "ab##"
abbrev ab : List ℕ
ab = 97 ∷ 98 ∷ []

ab-IsPlain : IsPlain ab
ab-IsPlain = record {
  bytes = (omega arith, (omega arith, tt));
  starts = ground arith;
  ends = (omega arith, omega arith);
}

decode-encode_delegate_name_example :
    bind_go (encode_delegate_name (ab ++ replicate 2 b'#')) decode_delegate_name
    ≡ ok (ab ++ replicate 2 b'#')
decode-encode_delegate_name_example = decode-encode_delegate_name ab 2 ab-IsPlain (omega arith)

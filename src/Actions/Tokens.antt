-- ===== src/Actions/Tokens.antt =====
-- indexprotocol/actions/xrc20.go: the transfers of XRC20 and XRC721 tokens in the logs of a block. The
-- chain client and the address package are code outside the repository: `Reader` has their answers.
use iotex_analytics.Common.{
  ℕ, ◌+◌, ◌*◌, Bool, true, false, not, ◌&&◌, ◌||◌, Option, none, some, List, [], ◌∷◌, ◌++◌, String,
  bytes, Assoc, string_eq, bytes_eq, lookup, insert, length, ℤ, pos, ◌-ℤ◌, Go, ok, err, abort,
  message, bind_go, ltb, ◌==◌, str_eq, if◌then◌else◌,
}
use iotex_analytics.Store.{Run, pure, lift, ◌>>=◌, get_memory, set_memory}
use iotex_analytics.DelegateName.Hex.{hex_value}
use iotex_analytics.Paging.Pages.{take, drop}
use iotex_analytics.Actions.Tables.{Contracts}

-- The four calls that tell the kind of a contract.
pub data Call : Type 0 where
  total_supply balance_of allowance approve owner_of : Call

pub record Reader : Type 0 where
  -- Whether the context has a chain client.
  pub has_client : Bool
  -- The status of the receipt and the data of a read, by the contract's address.
  pub read : String → Call → Go (ℕ × String)
  -- address.FromBytes of common.HexToAddress of 40 characters, as a text
  pub convert_address : List ℕ → Go String

-- An error of the client is an answer of no.
unfoldable pub read_contract : Reader → String → Call → Go Bool
read_contract r addr call = elim (r.read addr call) [
  | ok (status, answer) ↦ ok ((status == 1 || status == 106) && not (str_eq answer ""))
  | err e ↦ ok false
  | abort x ↦ abort x
]

-- One read after the other, up to the first answer of no.
unfoldable pub read_all : Reader → String → List Call → Go Bool
unfolding read_contract
read_all r addr [] = ok true
read_all r addr (call ∷ calls) =
    bind_go (read_contract r addr call) (λ yes. if yes then read_all r addr calls else ok false)

abbrev pub starts_with : List ℕ → List ℕ → Bool
starts_with [] xs = true
starts_with (p ∷ ps) [] = false
starts_with (p ∷ ps) (x ∷ xs) = if p == x then starts_with ps xs else false

-- strings.Contains
abbrev pub contains : List ℕ → List ℕ → Bool
contains [] part = starts_with part []
contains (x ∷ xs) part =
    let rest = contains xs part in if starts_with part (x ∷ xs) then true else rest

abbrev pub transfer_sha3 : List ℕ
transfer_sha3 = bytes "ddf252ad1be2c89b69c2b068fc378daa952ba7f163c4a11628f55a4df523b3ef"

unfoldable pub check_topics : List ℕ → List ℕ → Bool
check_topics topics payload =
    if length topics == 0 || ltb 192 (length topics) || ltb 192 (length payload)
    then false
    else contains topics transfer_sha3

unfoldable pub check_xrc721_topics : List ℕ → List ℕ → Bool
check_xrc721_topics topics payload =
    if length topics == 0 || not (length topics == 256) || not (length payload == 0)
    then false
    else contains topics transfer_sha3

-- What is remembered of a contract.
abbrev pub recall : String → Assoc String Bool → Assoc String Bool → Option Bool
recall addr others ones = elim (lookup addr others) [
  | some _ ↦ some false
  | none ↦ elim (lookup addr ones) [ some _ ↦ some true | none ↦ none ]
]

module _ {D : Type 0} (r : Reader) where
  unfoldable pub check_is_xrc20 : String → List ℕ → List ℕ → Run D Contracts Bool
  unfolding check_topics read_all
  check_is_xrc20 addr topics payload = elim (check_topics topics payload) [
    | false ↦ pure false
    | true ↦ get_memory >>= λ m. elim (recall addr m.non_xrc20_contract m.xrc20_contract) [
      | some known ↦ pure known
      | none ↦ elim r.has_client [
        | false ↦ pure false
        | true ↦
            lift (read_all r addr (total_supply ∷ balance_of ∷ allowance ∷ approve ∷ [])) >>= λ yes.
            elim yes [
              | true ↦
                  set_memory (λ m. record m { xrc20_contract = insert addr true m.xrc20_contract })
                  >>= λ _. pure true
              | false ↦
                  set_memory
                    (λ m. record m { non_xrc20_contract = insert addr true m.non_xrc20_contract })
                  >>= λ _. pure false
            ]
      ]
    ]
  ]

  unfoldable pub check_is_xrc721 : String → List ℕ → List ℕ → Run D Contracts Bool
  unfolding check_xrc721_topics read_all
  check_is_xrc721 addr topics payload = elim (check_xrc721_topics topics payload) [
    | false ↦ pure false
    | true ↦ get_memory >>= λ m. elim (recall addr m.non_xrc721_contract m.xrc721_contract) [
      | some known ↦ pure known
      | none ↦ elim r.has_client [
        | false ↦ pure false
        | true ↦
            lift (read_all r addr (total_supply ∷ balance_of ∷ approve ∷ owner_of ∷ [])) >>= λ yes.
            elim yes [
              | true ↦
                  set_memory
                    (λ m. record m { xrc721_contract = insert addr true m.xrc721_contract })
                  >>= λ _. pure true
              | false ↦
                  set_memory
                    (λ m. record m { non_xrc721_contract = insert addr true m.non_xrc721_contract })
                  >>= λ _. pure false
            ]
      ]
    ]
  ]

-- The digits of a number in base 16, from the left, on top of `n`.
unfoldable pub hex_digits : ℕ → List ℕ → Option ℕ
unfolding hex_value
hex_digits n [] = some n
hex_digits n (c ∷ cs) = elim (hex_value c) [ none ↦ none | some d ↦ hex_digits (n * 16 + d) cs ]

unfoldable pub number_16 : List ℕ → Option ℕ
unfolding hex_digits
number_16 [] = none
number_16 (c ∷ cs) = hex_digits 0 (c ∷ cs)

-- big.Int.SetString(s, 16): a sign, and at least one digit.
unfoldable pub set_string_16 : List ℕ → Option ℤ
unfolding ◌-ℤ◌ number_16
set_string_16 [] = none
set_string_16 (c ∷ cs) =
    if c == b'-'
    then elim (number_16 cs) [ none ↦ none | some n ↦ some (pos 0 -ℤ pos n) ]
    else if c == b'+'
    then elim (number_16 cs) [ none ↦ none | some n ↦ some (pos n) ]
    else elim (number_16 (c ∷ cs)) [ none ↦ none | some n ↦ some (pos n) ]

-- ParseContractData: the sender, the recipient and the amount. The slices are within the 256
-- characters.
unfoldable pub parse_contract_data : Reader → List ℕ → List ℕ → Go (String × String × ℤ)
unfolding set_string_16
parse_contract_data r topics payload =
    let all = topics ++ payload in
    if length all == 256
    then bind_go (r.convert_address (take 40 (drop 88 all))) (λ from.
      bind_go (r.convert_address (take 40 (drop 152 all))) (λ recipient.
        elim (set_string_16 (drop 192 all)) [
          | none ↦ err (message "amount convert error")
          | some amount ↦ ok (from, recipient, amount)
        ]))
    else err (message "data's len is wrong")

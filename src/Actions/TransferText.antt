-- ===== src/Actions/TransferText.antt =====
-- ParseContractData of indexprotocol/actions/xrc20.go reads back a transfer event.
use iotex_analytics.Common.{
  ℕ, zero, suc, ◌+◌, ◌*◌, ◌/◌, ◌%◌, ◌<◌, ◌≡◌, refl, ap, ◌∙◌, false, some, List, [], ◌∷◌, ◌++◌,
  String, length, length-append, replicate, All, pos, ok, ◌==◌, arith,
}
use iotex_analytics.DelegateName.Hex.{hex_encode, hex_digit, hex_value, hex_value-digit}
use iotex_analytics.Paging.Pages.{take, drop}
use iotex_analytics.Actions.Tables.{hex}
use iotex_analytics.Actions.Tokens.{
  Reader, hex_digits, number_16, set_string_16, parse_contract_data,
}
use iotex_analytics.Actions.Distribution.{set_bytes}

length-hex : (bs : List ℕ) → length (hex bs) ≡ 2 * length bs
unfolding hex_encode
length-hex [] = refl
length-hex (b ∷ bs) = omega (arith, length-hex bs)

take-append : (n : ℕ) (xs ys : List ℕ) → length xs ≡ n → take n (xs ++ ys) ≡ xs
take-append zero [] ys h = refl
take-append zero (x ∷ xs) ys h = absurd (omega (arith, h))
take-append (suc n) [] ys h = absurd (omega (arith, h))
take-append (suc n) (x ∷ xs) ys h = ap (λ zs. x ∷ zs) (take-append n xs ys (omega (arith, h)))

drop-append : (k m : ℕ) (xs ys : List ℕ) → length xs + m ≡ k → drop k (xs ++ ys) ≡ drop m ys
drop-append k m [] ys h = let e : k ≡ m = omega (arith, h) in rw e refl
drop-append zero m (x ∷ xs) ys h = absurd (omega (arith, h))
drop-append (suc k) m (x ∷ xs) ys h = drop-append k m xs ys (omega (arith, h))

hex_digits-hex :
    (n : ℕ) (bs : List ℕ) → All (λ b. b < 256) bs → hex_digits n (hex bs) ≡ some (set_bytes n bs)
unfolding hex_encode hex_digits set_bytes
hex_digits-hex n [] h = refl
hex_digits-hex n (b ∷ bs) (h, hs) =
    let high : hex_value (hex_digit (b / 16)) ≡ some (b / 16) =
      hex_value-digit (b / 16) (omega arith) in
    let low : hex_value (hex_digit (b % 16)) ≡ some (b % 16) =
      hex_value-digit (b % 16) (omega arith) in
    let same : (n * 16 + b / 16) * 16 + b % 16 ≡ n * 256 + b = omega arith in
    rw (high, hex_digits) (rw (low, hex_digits) (rw same (hex_digits-hex (n * 256 + b) bs hs)))

-- The texts of the signature's hash, of the two addresses and of the amount.
abbrev pub transfer_text : List ℕ → List ℕ → List ℕ → List ℕ → List ℕ
transfer_text sig from recipient amount =
    hex (sig ++ replicate 12 0)
    ++ (hex from ++ (hex (replicate 12 0) ++ (hex recipient ++ hex amount)))

high_digit : (n : ℕ) → n < 16 → ((hex_digit n == b'-') ≡ false) × ((hex_digit n == b'+') ≡ false)
unfolding hex_digit
high_digit n h = (ground arith, ground arith)

set_string_16-hex :
    (b : ℕ) (bs : List ℕ)
    → All (λ b. b < 256) (b ∷ bs)
    → set_string_16 (hex (b ∷ bs)) ≡ some (pos (set_bytes 0 (b ∷ bs)))
unfolding set_string_16 number_16 hex_encode
set_string_16-hex b bs h =
    let (minus, plus) = high_digit (b / 16) (omega (arith, h.0)) in
    let read = hex_digits-hex 0 (b ∷ bs) h in rw minus (rw plus (rw read refl))

-- The four parts of the text that the code cuts out.
module _ (sig from recipient amount : List ℕ) (ls : length sig ≡ 32) (lf : length from ≡ 20)
    (lr : length recipient ≡ 20) (la : length amount ≡ 32) where
  abbrev all : List ℕ
  all = transfer_text sig from recipient amount

  abbrev after_from : List ℕ
  after_from = hex (replicate 12 0) ++ (hex recipient ++ hex amount)

  first_word : (k m : ℕ) → 88 + m ≡ k → drop k all ≡ drop m (hex from ++ after_from)
  first_word k m e =
      drop-append k m (hex (sig ++ replicate 12 0)) _ (
        omega
          (arith, length-hex (sig ++ replicate 12 0), length-append sig (replicate 12 0), ls, e))

  second_word : (k m : ℕ) → 152 + m ≡ k → drop k all ≡ drop m (hex recipient ++ hex amount)
  unfolding hex_encode
  second_word k m e =
      first_word k (64 + m) (omega (arith, e))
      ∙ drop-append (64 + m) (24 + m) (hex from) after_from (omega (arith, length-hex from, lf))
      ∙ drop-append (24 + m) m (hex (replicate 12 0)) (hex recipient ++ hex amount) refl

  third_word : drop 192 all ≡ hex amount
  third_word =
      second_word 192 40 refl
      ∙ drop-append 40 0 (hex recipient) (hex amount) (omega (arith, length-hex recipient, lr))

  length-all : length all ≡ 256
  unfolding hex_encode
  length-all = omega (
    arith,
    ls,
    lf,
    lr,
    la,
    length-hex (sig ++ replicate 12 0),
    length-append sig (replicate 12 0),
    length-hex from,
    length-hex recipient,
    length-hex amount,
    length-append (hex (sig ++ replicate 12 0)) (hex from ++ after_from),
    length-append (hex from) after_from,
    length-append (hex (replicate 12 0)) (hex recipient ++ hex amount),
    length-append (hex recipient) (hex amount),
  )

  from_text : take 40 (drop 88 all) ≡ hex from
  from_text =
      rw (first_word 88 0 refl)
        (take-append 40 (hex from) after_from (omega (arith, length-hex from, lf)))

  recipient_text : take 40 (drop 152 all) ≡ hex recipient
  recipient_text =
      rw (second_word 152 0 refl)
        (take-append 40 (hex recipient) (hex amount) (omega (arith, length-hex recipient, lr)))

amount_read :
    (amount : List ℕ)
    → length amount ≡ 32
    → All (λ b. b < 256) amount
    → set_string_16 (hex amount) ≡ some (pos (set_bytes 0 amount))
amount_read [] l h = absurd (omega (arith, l))
amount_read (b ∷ bs) l h = set_string_16-hex b bs h

-- A transfer event of 32 bytes of signature, two addresses of 20 bytes in words of 32, and an amount
-- of 32 bytes, is read back by ParseContractData from its hexadecimal text, however the text is cut
-- into topics and data: the two addresses as the address package writes them, when it takes them, and
-- the number that the bytes of the amount are.
pub parse_contract_data-transfer_text :
    (r : Reader) (sig from recipient amount topics payload : List ℕ) (a b : String)
    → length sig ≡ 32
    → length from ≡ 20
    → length recipient ≡ 20
    → length amount ≡ 32
    → All (λ b. b < 256) amount
    → topics ++ payload ≡ transfer_text sig from recipient amount
    → r.convert_address (hex from) ≡ ok a
    → r.convert_address (hex recipient) ≡ ok b
    → parse_contract_data r topics payload ≡ ok (a, b, pos (set_bytes 0 amount))
unfolding parse_contract_data
parse_contract_data-transfer_text r sig from recipient amount topics payload a b ls lf lr la bound e
      ea eb =
    rw e (
      rw (length-all sig from recipient amount ls lf lr la) (
        rw (from_text sig from recipient amount ls lf lr la) (
          rw (recipient_text sig from recipient amount ls lf lr la) (
            rw (third_word sig from recipient amount ls lf lr la)
              (rw ea (rw eb (rw (amount_read amount la bound) refl)))))))

-- ===== src/DelegateName/Hex.antt =====
-- encoding/hex: EncodeToString and DecodeString.
use iotex_analytics.Common.{
  ℕ, zero, suc, sym, ◌∙◌, ◌+◌, ◌-◌, ◌*◌, ◌/◌, ◌%◌, ◌<◌, ◌≡◌, refl, ◌&&◌, Option, none, some, List,
  [], ◌∷◌, ◌++◌, replicate, All, Go, ok, err, message, bind_go, arith, ltb, leb, ap, if◌then◌else◌,
}

unfoldable pub hex_digit : ℕ → ℕ
hex_digit n = if ltb n 10 then b'0' + n else b'a' + (n - 10)

unfoldable pub hex_value : ℕ → Option ℕ
hex_value c =
    if leb b'0' c && leb c b'9'
    then some (c - b'0')
    else if leb b'a' c && leb c b'f'
    then some (c - b'a' + 10)
    else if leb b'A' c && leb c b'F'
    then some (c - b'A' + 10)
    else none

unfoldable pub hex_encode : List ℕ → List ℕ
unfolding hex_digit
hex_encode [] = []
hex_encode (b ∷ bs) = hex_digit (b / 16) ∷ hex_digit (b % 16) ∷ hex_encode bs

decode_pair : Option ℕ → Option ℕ → Go (List ℕ) → Go (List ℕ)
decode_pair (some h) (some l) rest = bind_go rest (λ bs. ok ((h * 16 + l) ∷ bs))
decode_pair _ _ rest = err (message "encoding/hex: invalid byte")

unfoldable pub hex_decode : List ℕ → Go (List ℕ)
unfolding decode_pair hex_value
hex_decode [] = ok []
hex_decode (c ∷ []) = err (message "encoding/hex: odd length hex string")
hex_decode (c ∷ d ∷ cs) = let rest = hex_decode cs in decode_pair (hex_value c) (hex_value d) rest

pub hex_value-digit : (n : ℕ) → n < 16 → hex_value (hex_digit n) ≡ some n
unfolding hex_value hex_digit
hex_value-digit n h = ground arith

-- What was encoded is decoded.
pub decode-encode : (bs : List ℕ) → All (λ b. b < 256) bs → hex_decode (hex_encode bs) ≡ ok bs
unfolding hex_encode hex_decode decode_pair
decode-encode [] h = refl
decode-encode (b ∷ bs) h = rw (hex_value-digit (b / 16) (omega arith)) (
    rw (hex_value-digit (b % 16) (omega arith))
      (rw (decode-encode bs h.1) (ap (λ x. ok (x ∷ bs)) (omega arith))))

pub encode-append : (xs ys : List ℕ) → hex_encode (xs ++ ys) ≡ hex_encode xs ++ hex_encode ys
unfolding hex_encode
encode-append [] ys = refl
encode-append (x ∷ xs) ys = rw (encode-append xs ys)

pub double_suc : (n : ℕ) → suc n + suc n ≡ suc (suc (n + n))
double_suc n = omega arith

pub encode-zeros : (n : ℕ) → hex_encode (replicate n 0) ≡ replicate (n + n) b'0'
unfolding hex_encode
encode-zeros zero = refl
encode-zeros (suc n) =
    ap (λ x. b'0' ∷ b'0' ∷ x) (encode-zeros n) ∙ ap (λ m. replicate m b'0') (sym (double_suc n))

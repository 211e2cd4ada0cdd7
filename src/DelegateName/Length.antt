-- ===== src/DelegateName/Length.antt =====
-- The length of an encoded delegate name.
use mathlib.Core.List.{reverse, reverse-cons}
use iotex_analytics.Common.{
  ℕ, ◌+◌, ◌-◌, ◌*◌, ap, ◌∙◌, ◌≤◌, ◌≡◌, refl, List, [], ◌∷◌, ◌++◌, length, length-append, replicate,
  ok, arith,
}
use iotex_analytics.DelegateName.{strip_hashes, encode_delegate_name}
use iotex_analytics.DelegateName.Hex.{hex_encode}
use iotex_analytics.DelegateName.RoundTrip.{length-replicate}

length-reverse : (xs : List ℕ) → length (reverse xs) ≡ length xs
length-reverse [] = refl
length-reverse (x ∷ xs) =
    ap length (reverse-cons x xs)
    ∙ length-append (reverse xs) (x ∷ [])
    ∙ omega (arith, length-reverse xs)

length-strip_hashes :
    (xs : List ℕ) → length (strip_hashes xs).0 + length (strip_hashes xs).1 ≡ length xs
unfolding strip_hashes
length-strip_hashes [] = omega arith
length-strip_hashes (x ∷ xs) = ground (arith, length-strip_hashes xs)

length-hex_encode : (xs : List ℕ) → length (hex_encode xs) ≡ 2 * length xs
unfolding hex_encode
length-hex_encode [] = omega arith
length-hex_encode (x ∷ xs) = omega (arith, length-hex_encode xs)

padded_length :
    (name : List ℕ)
    → length name ≤ 12
    → length (
        hex_encode (
          (replicate (12 - length name) 0 ++ reverse (strip_hashes (reverse name)).0)
          ++ (strip_hashes (reverse name)).1))
      ≡ 24
padded_length name h =
    let (left, suffix) = strip_hashes (reverse name) in
    omega (
      arith,
      length-hex_encode ((replicate (12 - length name) 0 ++ reverse left) ++ suffix),
      length-append (replicate (12 - length name) 0 ++ reverse left) suffix,
      length-append (replicate (12 - length name) 0) (reverse left),
      length-replicate (12 - length name) 0,
      length-reverse left,
      length-strip_hashes (reverse name),
      length-reverse name,
    )

-- Whatever name EncodeDelegateName accepts, the result has the 24 characters that the name columns
-- hold.
length-encode_delegate_name : (name r : List ℕ) → encode_delegate_name name ≡ ok r → length r ≡ 24
unfolding encode_delegate_name
length-encode_delegate_name name r h = ground (arith, padded_length name)

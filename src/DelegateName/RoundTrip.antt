-- ===== src/DelegateName/RoundTrip.antt =====
-- Decoding an encoded delegate name.
use mathlib.Core.List.{reverse, reverse-append, reverse-cons, reverse-reverse}
use mathlib.Core.Path.{ap₂}
use iotex_analytics.Common.{
  ℕ, zero, suc, ◌+◌, ◌-◌, ◌/◌, ◌%◌, ◌<◌, ◌≤◌, ◌≡◌, ◌≢◌, ◌∙◌, ap, refl, false, ◌&&◌, List, [], ◌∷◌,
  ◌++◌, length, length-append, replicate, All, All-append, ok, bind_go, arith, ◌==◌,
}
use iotex_analytics.DelegateName.{
  strip_hashes, encode_delegate_name, strip_zeros, trim_left_zeros, decode_delegate_name,
}
use iotex_analytics.DelegateName.Hex.{
  hex_digit, hex_encode, decode-encode, encode-append, encode-zeros, double_suc,
}

replicate_snoc : (n a : ℕ) → replicate n a ++ a ∷ [] ≡ a ∷ replicate n a
replicate_snoc zero a = refl
replicate_snoc (suc n) a = ap (λ x. a ∷ x) (replicate_snoc n a)

reverse-replicate : (n a : ℕ) → reverse (replicate n a) ≡ replicate n a
reverse-replicate zero a = refl
reverse-replicate (suc n) a =
    reverse-cons a (replicate n a)
    ∙ ap (λ x. x ++ a ∷ []) (reverse-replicate n a)
    ∙ replicate_snoc n a

pub length-replicate : (n a : ℕ) → length (replicate n a) ≡ n
length-replicate zero a = refl
length-replicate (suc n) a = ap suc (length-replicate n a)

-- The first byte of the part before the `#`s is no control character.
abbrev pub Starts : List ℕ → Type 0
Starts [] = ⊥
Starts (c ∷ cs) = 16 ≤ c

-- Read from the end: the last byte is neither 0 nor `#`.
abbrev pub Ends : List ℕ → Type 0
Ends [] = ⊥
Ends (c ∷ cs) = (c ≢ 0) × (c ≢ b'#')

pub record IsPlain (core : List ℕ) : Type 0 where
  pub bytes : All (λ b. b < 256) core
  pub starts : Starts core
  pub ends : Ends (reverse core)

strip_hashes_lem :
    (k : ℕ) (r : List ℕ) → Ends r → strip_hashes (replicate k b'#' ++ r) ≡ (r, replicate k 0)
unfolding strip_hashes
strip_hashes_lem zero [] h = elim h [ ]
strip_hashes_lem zero (c ∷ cs) h = ground arith
strip_hashes_lem (suc k) r h = rw (strip_hashes_lem k r h)

strip_zeros_lem :
    (k c d : ℕ) (cs : List ℕ)
    → ((c == b'0') && (d == b'0')) ≡ false
    → strip_zeros (replicate (k + k) b'0' ++ c ∷ d ∷ cs) ≡ (c ∷ d ∷ cs, replicate k b'#')
unfolding strip_zeros
strip_zeros_lem zero c d cs h = rw h
strip_zeros_lem (suc k) c d cs h =
    ap (λ m. strip_zeros (replicate m b'0' ++ c ∷ d ∷ cs)) (double_suc k)
    ∙ more (k + k) (strip_zeros_lem k c d cs h)
  where
    more :
        (m : ℕ)
        → strip_zeros (replicate m b'0' ++ c ∷ d ∷ cs) ≡ (c ∷ d ∷ cs, replicate k b'#')
        → strip_zeros (replicate (suc (suc m)) b'0' ++ c ∷ d ∷ cs)
          ≡ (c ∷ d ∷ cs, replicate (suc k) b'#')
    more m e = rw e

trim_left_zeros_lem :
    (m c : ℕ) (cs : List ℕ) → c ≢ b'0' → trim_left_zeros (replicate m b'0' ++ c ∷ cs) ≡ c ∷ cs
unfolding trim_left_zeros
trim_left_zeros_lem zero c cs h = ground arith
trim_left_zeros_lem (suc m) c cs h = rw (trim_left_zeros_lem m c cs h)

digit_zero : (n : ℕ) → n ≢ 0 → n < 16 → hex_digit n ≢ b'0'
unfolding hex_digit
digit_zero n h k = ground arith

trim-hex :
    (m : ℕ) (core : List ℕ)
    → Starts core
    → All (λ b. b < 256) core
    → trim_left_zeros (replicate m b'0' ++ hex_encode core) ≡ hex_encode core
unfolding hex_encode
trim-hex m [] s b = elim s [ ]
trim-hex m (c ∷ cs) s b =
    trim_left_zeros_lem m (hex_digit (c / 16)) (hex_digit (c % 16) ∷ hex_encode cs)
      (digit_zero (c / 16) (omega arith) (omega arith))

last_pair :
    (z : ℕ) (zs : List ℕ)
    → reverse (hex_encode (reverse (z ∷ zs)))
      ≡ hex_digit (z % 16) ∷ hex_digit (z / 16) ∷ reverse (hex_encode (reverse zs))
unfolding hex_encode
last_pair z zs =
    ap (λ x. reverse (hex_encode x)) (reverse-cons z zs)
    ∙ ap reverse (encode-append (reverse zs) (z ∷ []))
    ∙ reverse-append (hex_encode (reverse zs)) (hex_encode (z ∷ []))

no_zero_pair :
    (z : ℕ)
    → z ≢ 0
    → z < 256
    → ((hex_digit (z % 16) == b'0') && (hex_digit (z / 16) == b'0')) ≡ false
unfolding hex_digit
no_zero_pair z h b = ground arith

-- The encoded part before the `#`s ends in a pair of digits other than "00".
strip-hex :
    (k : ℕ) (r tail : List ℕ)
    → Ends r
    → All (λ b. b < 256) r
    → strip_zeros (replicate (k + k) b'0' ++ (reverse (hex_encode (reverse r)) ++ tail))
      ≡ (reverse (hex_encode (reverse r)) ++ tail, replicate k b'#')
strip-hex k [] tail e b = elim e [ ]
strip-hex k (z ∷ zs) tail e b = rw (last_pair z zs) (
    strip_zeros_lem k (hex_digit (z % 16)) (hex_digit (z / 16))
      (reverse (hex_encode (reverse zs)) ++ tail) (no_zero_pair z e.0 b.0))

All-reverse : (P : ℕ → Type 0) (xs : List ℕ) → All P xs → All P (reverse xs)
All-reverse P [] h = tt
All-reverse P (x ∷ xs) h =
    rw (reverse-cons x xs) (All-append P (reverse xs) (x ∷ []) (All-reverse P xs h.1) (h.0, tt))

-- The hexadecimal text of the padded name, read from the end.
reverse-encoded :
    (m k : ℕ) (core : List ℕ)
    → reverse (hex_encode ((replicate m 0 ++ core) ++ replicate k 0))
      ≡ replicate (k + k) b'0' ++ (reverse (hex_encode core) ++ replicate (m + m) b'0')
reverse-encoded m k core =
    ap reverse (
      encode-append (replicate m 0 ++ core) (replicate k 0)
      ∙ ap₂ ◌++◌
          (encode-append (replicate m 0) core ∙ ap (λ x. x ++ hex_encode core) (encode-zeros m))
          (encode-zeros k))
    ∙ reverse-append (replicate (m + m) b'0' ++ hex_encode core) (replicate (k + k) b'0')
    ∙ ap₂ ◌++◌ (reverse-replicate (k + k) b'0') (
        reverse-append (replicate (m + m) b'0') (hex_encode core)
        ∙ ap (λ x. reverse (hex_encode core) ++ x) (reverse-replicate (m + m) b'0'))

reverse-left :
    (m : ℕ) (core : List ℕ)
    → reverse (reverse (hex_encode core) ++ replicate (m + m) b'0')
      ≡ replicate (m + m) b'0' ++ hex_encode core
reverse-left m core =
    reverse-append (reverse (hex_encode core)) (replicate (m + m) b'0')
    ∙ ap₂ ◌++◌ (reverse-replicate (m + m) b'0') (reverse-reverse (hex_encode core))

decode-padded :
    (m k : ℕ) (core : List ℕ)
    → IsPlain core
    → decode_delegate_name (hex_encode ((replicate m 0 ++ core) ++ replicate k 0))
      ≡ ok (core ++ replicate k b'#')
unfolding decode_delegate_name
decode-padded m k core p =
    rw (reverse-encoded m k core, stripped)
      (rw (reverse-left m core, trim-hex (m + m) core p.starts p.bytes, decode-encode core p.bytes))
  where
    stripped :
        strip_zeros
          (replicate (k + k) b'0' ++ (reverse (hex_encode core) ++ replicate (m + m) b'0'))
        ≡ (reverse (hex_encode core) ++ replicate (m + m) b'0', replicate k b'#')
    stripped =
        rw reverse-reverse at
          (strip-hex k (reverse core) (replicate (m + m) b'0') p.ends (All-reverse _ core p.bytes))

encode_short :
    (name : List ℕ) (left suffix : List ℕ)
    → length name ≤ 12
    → strip_hashes (reverse name) ≡ (left, suffix)
    → encode_delegate_name name
      ≡ ok (hex_encode ((replicate (12 - length name) 0 ++ reverse left) ++ suffix))
unfolding encode_delegate_name
encode_short name left suffix h e = rw e (ground arith)

encode-plain :
    (k : ℕ) (core : List ℕ)
    → IsPlain core
    → length core + k ≤ 12
    → encode_delegate_name (core ++ replicate k b'#')
      ≡ ok (
          hex_encode
            ((replicate (12 - length (core ++ replicate k b'#')) 0 ++ core) ++ replicate k 0))
encode-plain k core p h =
    encode_short (core ++ replicate k b'#') (reverse core) (replicate k 0)
      (omega (arith, length-append core (replicate k b'#'), length-replicate k b'#'))
      (ap strip_hashes (reverse-append core (replicate k b'#'))
        ∙ ap (λ x. strip_hashes (x ++ reverse core)) (reverse-replicate k b'#')
        ∙ strip_hashes_lem k (reverse core) p.ends)
    ∙ ap
        (λ x. ok (
          hex_encode
            ((replicate (12 - length (core ++ replicate k b'#')) 0 ++ x) ++ replicate k 0)))
        (reverse-reverse core)

-- A name of at most 12 bytes, plain up to a run of `#`s at its end, is decoded to itself after it
-- was encoded.
pub decode-encode_delegate_name :
    (core : List ℕ) (k : ℕ)
    → IsPlain core
    → length core + k ≤ 12
    → bind_go (encode_delegate_name (core ++ replicate k b'#')) decode_delegate_name
      ≡ ok (core ++ replicate k b'#')
decode-encode_delegate_name core k p h =
    rw (encode-plain k core p h) (decode-padded (12 - length (core ++ replicate k b'#')) k core p)

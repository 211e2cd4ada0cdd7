-- ===== src/DelegateName.antt =====
-- EncodeDelegateName and DecodeDelegateName of indexprotocol/protocol.go. A Go string is the list
-- of its bytes.
pub mod Hex
pub mod RoundTrip
pub mod Length
use mathlib.Core.List.{reverse}
use iotex_analytics.Common.{
  ℕ, ◌+◌, ◌-◌, Bool, true, false, ◌&&◌, List, [], ◌∷◌, ◌++◌, length, replicate, Go, ok, err,
  message, bind_go, leb, ◌==◌, if◌then◌else◌,
}
use Hex.{hex_encode, hex_decode}

-- The loop `for strings.HasSuffix(name, "#")`, over the reversed name: what is left, and the zero
-- bytes that it has put into `suffixZeros`.
unfoldable pub strip_hashes : List ℕ → List ℕ × List ℕ
strip_hashes [] = ([], [])
strip_hashes (c ∷ cs) =
    let (rest, zeros) = strip_hashes cs in if c == b'#' then (rest, 0 ∷ zeros) else (c ∷ cs, [])

unfoldable pub encode_delegate_name : List ℕ → Go (List ℕ)
unfolding strip_hashes
encode_delegate_name name =
    if length name == 24
    then ok name
    else if leb (length name) 12
    then (let prefix = replicate (12 - length name) 0 in
        let (left, suffix) = strip_hashes (reverse name) in
        ok (hex_encode ((prefix ++ reverse left) ++ suffix)))
    else err (message "invalid length")

-- The loop `for strings.HasSuffix(name, "00")`, over the reversed name: what is left, and the
-- suffix of `#`.
unfoldable pub strip_zeros : List ℕ → List ℕ × List ℕ
strip_zeros [] = ([], [])
strip_zeros (c ∷ []) = (c ∷ [], [])
strip_zeros (c ∷ d ∷ cs) =
    let (rest, suffix) = strip_zeros cs in
    if c == b'0' && d == b'0' then (rest, b'#' ∷ suffix) else (c ∷ d ∷ cs, [])

-- strings.TrimLeft(name, "0")
unfoldable pub trim_left_zeros : List ℕ → List ℕ
trim_left_zeros [] = []
trim_left_zeros (c ∷ cs) = let rest = trim_left_zeros cs in if c == b'0' then rest else c ∷ cs

unfoldable pub decode_delegate_name : List ℕ → Go (List ℕ)
unfolding strip_zeros trim_left_zeros
decode_delegate_name name =
    let (left, suffix) = strip_zeros (reverse name) in
    bind_go (hex_decode (trim_left_zeros (reverse left))) (λ alias. ok (alias ++ suffix))

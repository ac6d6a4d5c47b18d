-- ===== src/Ingress/Signature.antt =====
-- ingress/signature.go: `VerifySignature`. The MAC of Go's library is an argument; the hexadecimal
-- decoding is written out.
pub mod Exact
use gronin.Prelude.{
  ℕ, zero, suc, ◌+◌, ◌-◌, ◌*◌, Bool, true, false, ◌&&◌, ◌||◌, not, List, [], ◌∷◌, Option, none,
  some, leb, ◌==◌, if◌then◌else◌, length,
}
use gronin.Prelude.Bytes.{Bytes, same}

-- strings.CutPrefix
unfoldable pub cut_prefix : Bytes → Bytes → Option Bytes
cut_prefix [] s = some s
cut_prefix (c ∷ p) [] = none
cut_prefix (c ∷ p) (d ∷ s) = let rest = cut_prefix p s in if c == d then rest else none

unfoldable pub hex_digit : ℕ → Option ℕ
hex_digit c =
    if leb b'0' c && leb c b'9'
    then some (c - b'0')
    else if leb b'a' c && leb c b'f'
    then some (c - b'a' + 10)
    else if leb b'A' c && leb c b'F'
    then some (c - b'A' + 10)
    else none

unfoldable pub hex_byte : Option ℕ → Option ℕ → Option Bytes → Option Bytes
hex_byte (some a) (some b) (some rest) = some ((a * 16 + b) ∷ rest)
hex_byte (some a) (some b) none = none
hex_byte (some a) none rest = none
hex_byte none b rest = none

-- hex.DecodeString
unfoldable pub decode_hex : Bytes → Option Bytes
decode_hex [] = some []
decode_hex (c ∷ []) = none
decode_hex (c ∷ d ∷ s) = hex_byte (hex_digit c) (hex_digit d) (decode_hex s)

-- A buffer of 32 zeros.
abbrev pub zeros : ℕ → Bytes
zeros zero = []
zeros (suc n) = 0 ∷ zeros n

unfoldable pub of_mac_size : Option Bytes → Bytes
of_mac_size none = zeros 32
of_mac_size (some s) = if length s == 32 then s else zeros 32

unfoldable pub decoded_rest : Option Bytes → Bytes
decoded_rest none = zeros 32
decoded_rest (some value) = of_mac_size (decode_hex value)

-- `offeredSignature`, of the values of the declared header.
unfoldable pub offered_signature : Bytes → List Bytes → Bytes
offered_signature prefix [] = zeros 32
offered_signature prefix (value ∷ []) = decoded_rest (cut_prefix prefix value)
offered_signature prefix (value ∷ other ∷ values) = zeros 32

unfoldable pub verify_signature :
    (Bytes → Bytes → Bytes) → Bytes → List Bytes → Bytes → Bytes → Bool
verify_signature mac prefix values secret body =
    same (mac secret body) (offered_signature prefix values)

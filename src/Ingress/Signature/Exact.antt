-- ===== src/Ingress/Signature/Exact.antt =====
-- ingress/signature.go: which headers verify.
use gronin.Prelude.{
  ℕ, ◌+◌, ◌-◌, ◌/◌, ◌%◌, ◌<◌, true, false, List, [], ◌∷◌, ◌++◌, Option, none, some, ltb, ◌==◌, ◌≡◌,
  refl, sym, ap, ◌∙◌, arith, if◌then◌else◌, length, All, Bool-cases, inl, inr,
}
use gronin.Prelude.Bytes.{Bytes, same, same-eq, same_refl}
use gronin.Ingress.Signature.{
  cut_prefix, hex_digit, hex_byte, decode_hex, zeros, of_mac_size, decoded_rest, offered_signature,
  verify_signature,
}

unfoldable pub digit_of : ℕ → ℕ
digit_of n = if ltb n 10 then b'0' + n else b'a' + (n - 10)

-- The lower-case hexadecimal text of bytes.
unfoldable pub encode_hex : Bytes → Bytes
encode_hex [] = []
encode_hex (c ∷ s) = digit_of (c / 16) ∷ digit_of (c % 16) ∷ encode_hex s

hex_digit-digit_of : (n : ℕ) → n < 16 → hex_digit (digit_of n) ≡ some n
unfolding hex_digit digit_of
hex_digit-digit_of n h = ground arith

decode_hex-encode_hex : (s : Bytes) → All (λ c. c < 256) s → decode_hex (encode_hex s) ≡ some s
unfolding decode_hex encode_hex hex_byte
decode_hex-encode_hex [] h = refl
decode_hex-encode_hex (c ∷ s) (h, hs) = rw (hex_digit-digit_of (c / 16) (omega arith)) (
    rw (hex_digit-digit_of (c % 16) (omega arith))
      (rw (decode_hex-encode_hex s hs) (ap (λ n. some (n ∷ s)) (omega arith))))

cut_prefix-append : (p s : Bytes) → cut_prefix p (p ++ s) ≡ some s
unfolding cut_prefix
cut_prefix-append [] s = refl
cut_prefix-append (c ∷ p) s = ground (arith, cut_prefix-append p s)

cut_prefix-some : (p v s : Bytes) → cut_prefix p v ≡ some s → v ≡ p ++ s
unfolding cut_prefix
cut_prefix-some [] v s e = ground arith
cut_prefix-some (c ∷ p) [] s e = ground arith
cut_prefix-some (c ∷ p) (d ∷ v) s e = ground (arith, cut_prefix-some p v s)

-- What a request that verifies carries: the declared header once, the prefix, and the hexadecimal
-- text of the MAC of the body.
abbrev pub IsSigned : (Bytes → Bytes → Bytes) → Bytes → List Bytes → Bytes → Bytes → Type 0
IsSigned mac prefix values secret body =
    (text : Bytes) × (values ≡ (prefix ++ text) ∷ []) × (decode_hex text ≡ some (mac secret body))

module _ (mac : Bytes → Bytes → Bytes) (prefix : Bytes) (secret body : Bytes)
    (no_zeros : same (mac secret body) (zeros 32) ≡ false) where
  decoded :
      (value text : Bytes) (o : Option Bytes)
      → cut_prefix prefix value ≡ some text
      → decode_hex text ≡ o
      → same (mac secret body) (of_mac_size o) ≡ true
      → IsSigned mac prefix (value ∷ []) secret body
  unfolding of_mac_size
  decoded value text none cut d e = ground arith
  decoded value text (some s) cut d e = elim (Bool-cases (length s == 32)) [
    | inl full ↦ (
      text,
      ap (λ v. v ∷ []) (cut_prefix-some prefix value text cut),
      d ∙ ap some (sym (same-eq _ _ (rw (full, of_mac_size) at e))),
    )
    | inr short ↦ ground arith
  ]

  -- Where the MAC of a body is not all zeros, a request that verifies carries the declared header
  -- once, and in it the declared prefix and the hexadecimal text of that MAC.
  pub verify_signature-IsSigned :
      (values : List Bytes)
      → verify_signature mac prefix values secret body ≡ true
      → IsSigned mac prefix values secret body
  unfolding verify_signature offered_signature decoded_rest
  verify_signature-IsSigned [] e = ground arith
  verify_signature-IsSigned (value ∷ other ∷ values) e = ground arith
  verify_signature-IsSigned (value ∷ []) e = cut (cut_prefix prefix value) refl e
    where
      cut :
          (o : Option Bytes)
          → cut_prefix prefix value ≡ o
          → same (mac secret body) (decoded_rest o) ≡ true
          → IsSigned mac prefix (value ∷ []) secret body
      cut none p h = ground arith
      cut (some text) p h = decoded value text (decode_hex text) p refl h

-- A header that carries, after the declared prefix, the lower-case hexadecimal text of a MAC of 32
-- bytes verifies.
pub verify_signature-encode_hex :
    (mac : Bytes → Bytes → Bytes) (prefix secret body : Bytes)
    → length (mac secret body) ≡ 32
    → All (λ c. c < 256) (mac secret body)
    → verify_signature mac prefix ((prefix ++ encode_hex (mac secret body)) ∷ []) secret body ≡ true
unfolding verify_signature offered_signature decoded_rest of_mac_size
verify_signature-encode_hex mac prefix secret body size bytes =
    rw (cut_prefix-append prefix (encode_hex (mac secret body)))
      (rw (decode_hex-encode_hex (mac secret body) bytes) (rw size (same_refl (mac secret body))))

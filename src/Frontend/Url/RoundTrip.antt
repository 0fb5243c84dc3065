-- ===== src/Frontend/Url/RoundTrip.antt =====
-- `decodeURIComponent` reads back what `urlEncode` writes.
use distributed_cloud_storag.Prelude.{
  ℕ, ◌+◌, ◌*◌, ◌/◌, ◌%◌, ◌<◌, ◌≤◌, ◌≡◌, refl, ap, ◌∙◌, true, inl, inr, Bool-cases, [], ◌∷◌, ◌++◌,
  some, arith, if◌then◌else◌, All,
}
use distributed_cloud_storag.Prelude.Dict.{Bytes}
use distributed_cloud_storag.Frontend.Url.{
  is_plain, hex_char, encode_byte, url_encode, hex_digit, hex_value, more_digits, plain_byte,
  decoded, decode_uri_component,
}

-- The bytes of a text.
abbrev IsBytes : Bytes → Type 0
IsBytes = All (λ c. c < 256)

hex_digit-hex_char : (d : ℕ) → d < 16 → hex_digit (hex_char d) ≡ some d
unfolding hex_digit hex_char
hex_digit-hex_char d h = ground arith

hex_char-range : (d : ℕ) → d < 16 → (b'0' ≤ hex_char d) × (hex_char d ≤ b'F')
unfolding hex_char
hex_char-range d h = ground arith

hex_value-digits :
    (h l d e : ℕ)
    → b'0' ≤ h
    → l ≤ b'F'
    → hex_digit h ≡ some d
    → hex_digit l ≡ some e
    → hex_value (h ∷ l ∷ []) ≡ some (d * 16 + e)
unfolding hex_value more_digits
hex_value-digits h l d e lh ll eh el = ground arith

hex_value-hex_char :
    (c : ℕ) → c < 256 → hex_value (hex_char (c / 16) ∷ hex_char (c % 16) ∷ []) ≡ some c
hex_value-hex_char c h =
    let high : c / 16 < 16 = omega arith in
    let low : c % 16 < 16 = omega arith in
    hex_value-digits (hex_char (c / 16)) (hex_char (c % 16)) (c / 16) (c % 16)
      (hex_char-range (c / 16) high).0 (hex_char-range (c % 16) low).1
      (hex_digit-hex_char (c / 16) high) (hex_digit-hex_char (c % 16) low)
    ∙ (let e : c / 16 * 16 + c % 16 ≡ c = omega arith in ap some e)

decode-coded :
    (c h l : ℕ) (s : Bytes)
    → hex_value (h ∷ l ∷ []) ≡ some c
    → decode_uri_component (b'%' ∷ h ∷ l ∷ s) ≡ c ∷ decode_uri_component s
unfolding decode_uri_component decoded
decode-coded c h l s e =
    ap (λ o. decoded o (decode_uri_component (h ∷ l ∷ s)) (decode_uri_component s)) e

decode-plain :
    (c : ℕ) (s : Bytes)
    → is_plain c ≡ true
    → decode_uri_component (c ∷ s) ≡ c ∷ decode_uri_component s
unfolding decode_uri_component is_plain plain_byte
decode-plain c [] h = ground arith
decode-plain c (x ∷ []) h = ground arith
decode-plain c (x ∷ y ∷ s) h = ground arith

decode-encode_byte :
    (c : ℕ) (s : Bytes)
    → c < 256
    → decode_uri_component (encode_byte c ++ s) ≡ c ∷ decode_uri_component s
unfolding encode_byte
decode-encode_byte c s h = elim (Bool-cases (is_plain c)) [
  | inl plain ↦
      ap
        (λ b.
          decode_uri_component
            ((if b then c ∷ [] else b'%' ∷ hex_char (c / 16) ∷ hex_char (c % 16) ∷ []) ++ s))
        plain
      ∙ decode-plain c s plain
  | inr coded ↦
      ap
        (λ b.
          decode_uri_component
            ((if b then c ∷ [] else b'%' ∷ hex_char (c / 16) ∷ hex_char (c % 16) ∷ []) ++ s))
        coded
      ∙ decode-coded c (hex_char (c / 16)) (hex_char (c % 16)) s (hex_value-hex_char c h)
]

-- A text of bytes that is encoded for a URL is decoded to itself.
pub decode_uri_component-url_encode :
    (s : Bytes) → IsBytes s → decode_uri_component (url_encode s) ≡ s
unfolding url_encode
decode_uri_component-url_encode [] h = unfold decode_uri_component in refl
decode_uri_component-url_encode (c ∷ s) h =
    decode-encode_byte c (url_encode s) h.0
    ∙ ap (λ t. c ∷ t) (decode_uri_component-url_encode s h.1)

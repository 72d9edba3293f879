-- ===== src/Codec/Base64/Strict.antt =====
-- What the strict test says of encoded text, its length, and the round trip of hexadecimal text.
use knish_io_client_cpp.Base.{
  ℕ, ◌+◌, ◌*◌, ◌/◌, ◌%◌, ◌^◌, ◌<◌, ◌≡◌, ◌≢◌, refl, ap, ◌∙◌, true, List, [], ◌∷◌, ◌++◌, arith,
  length, All, Text, IsByte, ok,
}
use knish_io_client_cpp.Codec.Hex.{IsLowerHex, from_hex_string-lower, length-to_hex_string}
use knish_io_client_cpp.Codec.Base64.{
  symbol, encode_group, to_base64, hex_to_base64, base64_to_hex, strict_loop, is_strict_base64,
}
use knish_io_client_cpp.Codec.Base64.RoundTrip.{
  symbol-ne-pad, symbol-is_base64_char, encode_one, encode_two, encode_three, from_base64-to_base64,
}

strict_loop-symbol : (i : ℕ) (s : Text) → i < 64 → strict_loop 0 (symbol i ∷ s) ≡ strict_loop 0 s
unfolding strict_loop
strict_loop-symbol i s h = rw (symbol-ne-pad i h, symbol-is_base64_char i h) refl

strict_loop-one : (a : ℕ) → a < 256 → strict_loop 0 (encode_group (a ∷ [])) ≡ true
strict_loop-one a h =
    rw
      (
        encode_one a h,
        strict_loop-symbol (a / 4 % 64) _ (omega arith),
        strict_loop-symbol (a % 4 * 16) _ (omega arith),
      )
      (unfold strict_loop in refl)

strict_loop-two : (a b : ℕ) → a < 256 → b < 256 → strict_loop 0 (encode_group (a ∷ b ∷ [])) ≡ true
strict_loop-two a b ha hb =
    let v = a * 256 + b in
    rw
      (
        encode_two a b ha hb,
        strict_loop-symbol (v / 2 ^ 10 % 64) _ (omega arith),
        strict_loop-symbol (v / 2 ^ 4 % 64) _ (omega arith),
        strict_loop-symbol (v % 16 * 4) _ (omega arith),
      )
      (unfold strict_loop in refl)

strict_loop-three :
    (a b c : ℕ) (s : Text)
    → a < 256
    → b < 256
    → c < 256
    → strict_loop 0 (encode_group (a ∷ b ∷ c ∷ []) ++ s) ≡ strict_loop 0 s
strict_loop-three a b c s ha hb hc =
    let v = (a * 256 + b) * 256 + c in
    rw (encode_three a b c ha hb hc) (
      strict_loop-symbol (v / 2 ^ 18 % 64) _ (omega arith)
      ∙ strict_loop-symbol (v / 2 ^ 12 % 64) _ (omega arith)
      ∙ strict_loop-symbol (v / 2 ^ 6 % 64) _ (omega arith)
      ∙ strict_loop-symbol (v % 64) s (omega arith))

strict_loop-to_base64 : (bs : List ℕ) → All IsByte bs → strict_loop 0 (to_base64 bs) ≡ true
unfolding to_base64
strict_loop-to_base64 [] h = unfold strict_loop in refl
strict_loop-to_base64 (a ∷ []) h = strict_loop-one a h.0
strict_loop-to_base64 (a ∷ b ∷ []) h = strict_loop-two a b h.0 h.1.0
strict_loop-to_base64 (a ∷ b ∷ c ∷ bs) h =
    strict_loop-three a b c (to_base64 bs) h.0 h.1.0 h.1.1.0 ∙ strict_loop-to_base64 bs h.1.1.1

-- Four characters for each three bytes begun.
pub length-to_base64 : (bs : List ℕ) → length (to_base64 bs) ≡ (length bs + 2) / 3 * 4
unfolding to_base64 encode_group
length-to_base64 [] = refl
length-to_base64 (a ∷ []) = refl
length-to_base64 (a ∷ b ∷ []) = refl
length-to_base64 (a ∷ b ∷ c ∷ bs) = omega (arith, length-to_base64 bs)

pos_of_ne : (bs : List ℕ) → bs ≢ [] → 0 < length bs
pos_of_ne [] ne = absurd (ne refl)
pos_of_ne (b ∷ bs) ne = omega arith

-- The strict test accepts what `toBase64` writes for one byte or more.
pub to_base64-is_strict_base64 :
    (bs : List ℕ) → All IsByte bs → bs ≢ [] → is_strict_base64 (to_base64 bs) ≡ true
unfolding is_strict_base64
to_base64-is_strict_base64 bs h ne =
    ground (arith, ne', length-to_base64 bs, strict_loop-to_base64 bs h)
  where
    ne' : 0 < length bs
    ne' = pos_of_ne bs ne

-- A lower-case hexadecimal text of even length, not empty, survives the way through base64, and the text on
-- the way passes the strict test and has four characters for each three bytes begun.
pub hex_base64_roundtrip :
    (s : Text)
    → All IsLowerHex s
    → length s % 2 ≡ 0
    → 0 < length s
    → (t : Text) × (hex_to_base64 s ≡ ok t)
      × (base64_to_hex t ≡ s)
      × (length t ≡ (length s / 2 + 2) / 3 * 4)
      × (is_strict_base64 t ≡ true)
unfolding hex_to_base64 base64_to_hex
hex_base64_roundtrip s h even some =
    let (bs, e, bytes, back) = from_hex_string-lower s h even in
    (
      to_base64 bs,
      rw e refl,
      rw (from_base64-to_base64 bs bytes) back,
      omega (arith, length-to_base64 bs, length-to_hex_string bs, ap length back),
      to_base64-is_strict_base64 bs bytes
          (λ z. absurd (omega (arith, some, ap length back, length-to_hex_string bs, ap length z))),
    )

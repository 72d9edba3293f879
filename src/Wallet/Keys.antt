-- ===== src/Wallet/Keys.antt =====
-- The keys and chains of src/Wallet.cpp: the chains compose, and a generated key has its documented shape.
use knish_io_client_cpp.Base.{
  ℕ, zero, suc, ◌<◌, ◌+◌, ◌*◌, ◌≡◌, refl, ap, ◌∙◌, true, false, List, [], ◌∷◌, map, arith,
  if◌then◌else◌, Bool-cases, inl, inr, ◌⊎◌, length, is_empty, all, concat, All, Text, ok,
}
use knish_io_client_cpp.Base.Int.{ℤ, pos, eqb_ℤ}
use knish_io_client_cpp.Libraries.{Libraries}
use knish_io_client_cpp.Hash.{hex_digest, shake256_hex-ok, hex_digest-IsLowerHex, length-hex_digest}
use knish_io_client_cpp.Codec.Hex.{is_hex_digit, IsLowerHex, IsLowerHex→IsHexDigit}
use knish_io_client_cpp.Codec.Chunks.{chunk_substr}
use knish_io_client_cpp.BigInt.{is_valid_hex}
use knish_io_client_cpp.BigInt.HexAdd.{constant_time_hex_add-sum}
use knish_io_client_cpp.Wallet.{
  checked_ots_version, key_sponge, normalize_hex, generate_wallet_key, hash_chain, hash_fragments,
  squeeze_address, generate_wallet_address,
}

lower-all : (s : Text) → All IsLowerHex s → all is_hex_digit s ≡ true
lower-all [] h = refl
lower-all (c ∷ s) h = rw (IsLowerHex→IsHexDigit c h.0) (lower-all s h.1)

is_valid_hex-of : (s : Text) → 0 < length s → All IsLowerHex s → is_valid_hex s ≡ true
unfolding is_valid_hex
is_valid_hex-of [] n h = absurd (omega arith)
is_valid_hex-of (c ∷ s) n h = lower-all (c ∷ s) h

module _ (lib : Libraries) where
  -- `rounds` rounds of SHAKE-256 with 512 bits, written in hexadecimal.
  unfoldable pub chain : ℕ → Text → Text
  chain zero chunk = chunk
  chain (suc rounds) chunk = chain rounds (hex_digest lib chunk 64)

  pub hash_chain-ok :
      (rounds : ℕ) (chunk : Text) → hash_chain lib rounds chunk ≡ ok (chain rounds chunk)
  unfolding hash_chain chain
  hash_chain-ok zero chunk = refl
  hash_chain-ok (suc rounds) chunk =
      rw (shake256_hex-ok lib chunk 64 (omega arith))
        (hash_chain-ok rounds (hex_digest lib chunk 64))

  pub chain-add : (m n : ℕ) (chunk : Text) → chain n (chain m chunk) ≡ chain (m + n) chunk
  unfolding chain
  chain-add zero n chunk = ap (λ (k : ℕ). chain k chunk) {x = n} {y = 0 + n} (omega arith)
  chain-add (suc m) n chunk =
      chain-add m n (hex_digest lib chunk 64)
      ∙ ap (λ (k : ℕ). chain k chunk) {x = suc (m + n)} {y = suc m + n} (omega arith)

  pub length-chain :
      (rounds : ℕ) (chunk : Text) → length chunk ≡ 128 → length (chain rounds chunk) ≡ 128
  unfolding chain
  length-chain zero chunk h = h
  length-chain (suc rounds) chunk h = length-chain rounds _ (length-hex_digest lib chunk 64)

  pub chain-IsLowerHex :
      (rounds : ℕ) (chunk : Text) → All IsLowerHex chunk → All IsLowerHex (chain rounds chunk)
  unfolding chain
  chain-IsLowerHex zero chunk h = h
  chain-IsLowerHex (suc rounds) chunk h =
      chain-IsLowerHex rounds _ (hex_digest-IsLowerHex lib chunk 64)

  pub hash_fragments-ok :
      (chunks : List Text) → hash_fragments lib chunks ≡ ok (concat (map (chain 16) chunks))
  unfolding hash_fragments
  hash_fragments-ok [] = refl
  hash_fragments-ok (chunk ∷ chunks) = rw (hash_chain-ok 16 chunk, hash_fragments-ok chunks) refl

  pub squeeze_address-ok :
      (sponge : Text)
      → squeeze_address lib sponge ≡ ok (hex_digest lib (hex_digest lib sponge 1024) 32)
  unfolding squeeze_address
  squeeze_address-ok sponge =
      rw (shake256_hex-ok lib sponge 1024 (omega arith)) (shake256_hex-ok lib _ 32 (omega arith))

  pub generate_wallet_address-ok :
      (key : Text)
      → generate_wallet_address lib key
        ≡ squeeze_address lib (concat (map (chain 16) (chunk_substr key 128)))
  unfolding generate_wallet_address
  generate_wallet_address-ok key = rw (hash_fragments-ok (chunk_substr key 128)) refl

  hex_digest-is_valid_hex : (s : Text) (n : ℕ) → 0 < n → is_valid_hex (hex_digest lib s n) ≡ true
  hex_digest-is_valid_hex s n h =
      is_valid_hex-of (hex_digest lib s n) (omega (arith, length-hex_digest lib s n))
        (hex_digest-IsLowerHex lib s n)

  normalize_hex-ok :
      (s : Text) (n : ℕ)
      → 0 < n
      → (r : Text) × (normalize_hex lib s (8 * n) ≡ ok r) × (is_valid_hex r ≡ true)
  unfolding normalize_hex
  normalize_hex-ok s n h = elim (Bool-cases (is_valid_hex s)) [
    | inl e ↦ (s, rw e refl, e)
    | inr e ↦ (hex_digest lib s n, rw e (shake256_hex-ok lib s n h), hex_digest-is_valid_hex s n h)
  ]

  -- A secret and a position that are not empty have a key at versions 1 and 2: lower-case hexadecimal, of
  -- 2048 digits at version 1 and 8192 at version 2.
  pub generate_wallet_key-ok :
      (secret token position : Text) (version : ℤ)
      → is_empty secret ≡ false
      → is_empty position ≡ false
      → (version ≡ pos 1) ⊎ (version ≡ pos 2)
      → (key : Text) × (generate_wallet_key lib secret token position version ≡ ok key)
        × All IsLowerHex key
        × (length key ≡ (if eqb_ℤ version (pos 2) then 8192 else 2048))
  unfolding generate_wallet_key checked_ots_version
  generate_wallet_key-ok secret token position version hs hp hv =
      let (secret_hex, e1, v1) = normalize_hex-ok secret 128 (omega arith) in
      let (position_hex, e2, v2) = normalize_hex-ok position 32 (omega arith) in
      let (sum, e3, value, lower) = constant_time_hex_add-sum secret_hex position_hex v1 v2 in
      elim hv [
        | inl v ↦ rw v (
            let run = shake256_hex-ok lib (key_sponge lib (pos 1) sum token) 1024 (omega arith) in
            let inner = hex_digest lib (key_sponge lib (pos 1) sum token) 1024 in
            (
              hex_digest lib inner 1024,
              rw (hs, hp, e1, e2, e3, run) (rw (shake256_hex-ok lib inner 1024 (omega arith)) refl),
              hex_digest-IsLowerHex lib _ 1024,
              length-hex_digest lib _ 1024,
            ))
        | inr v ↦ rw v (
            let run = shake256_hex-ok lib (key_sponge lib (pos 2) sum token) 1024 (omega arith) in
            let inner = hex_digest lib (key_sponge lib (pos 2) sum token) 1024 in
            (
              hex_digest lib inner 4096,
              rw (hs, hp, e1, e2, e3, run) (rw (shake256_hex-ok lib inner 4096 (omega arith)) refl),
              hex_digest-IsLowerHex lib _ 4096,
              length-hex_digest lib _ 4096,
            ))
      ]

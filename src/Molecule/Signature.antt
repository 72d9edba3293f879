-- ===== src/Molecule/Signature.antt =====
-- The signature of a hash by a key: its shape, its compressed form, and where its chains end.
use knish_io_client_cpp.Base.{
  ℕ, ◌+◌, ◌*◌, ◌/◌, ◌%◌, ◌≤◌, ◌<◌, ◌≡◌, ◌⊎◌, refl, sym, ap, ◌∙◌, Bool, true, false, List, map,
  arith, inl, inr, length, concat, All, Text, ok,
}
use knish_io_client_cpp.Base.Int.{ℤ}
use knish_io_client_cpp.Libraries.{Libraries}
use knish_io_client_cpp.Codec.Hex.{IsLowerHex}
use knish_io_client_cpp.Codec.Base64.{base64_to_hex, is_strict_base64}
use knish_io_client_cpp.Codec.Base64.Strict.{hex_base64_roundtrip}
use knish_io_client_cpp.Codec.Chunks.{
  chunk_substr, chunk_substr-All, chunk_substr-whole, chunk_substr-pieces,
}
use knish_io_client_cpp.BigInt.{is_signable_hash}
use knish_io_client_cpp.Wallet.{hash_fragments}
use knish_io_client_cpp.Wallet.Keys.{hash_fragments-ok, chain}
use knish_io_client_cpp.Ots.{
  enumerate, normalize, sign_rounds, verify_rounds, sign_chains, verify_chains,
}
use knish_io_client_cpp.Ots.Passes.{InRange}
use knish_io_client_cpp.Ots.Normalize.{normalize-shape}
use knish_io_client_cpp.Ots.Chains.{
  chained, run_chains-ok, chained-meet, length-chained, chained-whole, chained-IsLowerHex,
  length-concat, All-concat,
}
use knish_io_client_cpp.Molecule.{signature_hex, signature_fragments}

symbols : Text → List ℤ
symbols h = normalize (enumerate h)

symbols-InRange : (h : Text) → is_signable_hash h ≡ true → All InRange (symbols h)
unfolding symbols
symbols-InRange h s = (normalize-shape h s).1

-- A hash that can be signed has 64 symbols.
length-symbols : (h : Text) → is_signable_hash h ≡ true → length (symbols h) ≡ 64
unfolding symbols
length-symbols h s = (normalize-shape h s).0

-- The number of chains of a key: 16 at version 1 and 64 at version 2.
abbrev pub IsWidth : ℕ → Type 0
IsWidth k = (k ≡ 16) ⊎ (k ≡ 64)

signature_hex-plain : (k : ℕ) (s : Text) → IsWidth k → length s ≡ k * 128 → signature_hex s ≡ ok s
unfolding signature_hex
signature_hex-plain k s w h = elim w [
  | inl e ↦ (let z : length s ≡ 2048 = omega (arith, ap (λ (n : ℕ). n * 128) e) in rw z (rw z refl))
  | inr e ↦ (let z : length s ≡ 8192 = omega (arith, ap (λ (n : ℕ). n * 128) e) in rw z (rw z refl))
]

signature_hex-base64 :
    (k : ℕ) (s t : Text)
    → IsWidth k
    → length s ≡ k * 128
    → base64_to_hex t ≡ s
    → length t ≡ (length s / 2 + 2) / 3 * 4
    → is_strict_base64 t ≡ true
    → signature_hex t ≡ ok s
unfolding signature_hex
signature_hex-base64 k s t w h back len strict = elim w [
  | inl e ↦
      (let z : length s ≡ 2048 = omega (arith, ap (λ (n : ℕ). n * 128) e) in
        let y : length t ≡ 1368 = omega arith in rw (y, strict, back) (rw z refl))
  | inr e ↦
      (let z : length s ≡ 8192 = omega (arith, ap (λ (n : ℕ). n * 128) e) in
        let y : length t ≡ 5464 = omega arith in rw (y, strict, back) (rw z refl))
]

module _ (lib : Libraries) where
  -- The signature in hexadecimal: each piece of the key after its rounds.
  pub signed_hex : Text → Text → Text
  signed_hex h key = concat (chained lib sign_rounds (symbols h) (chunk_substr key 128))

  module _ (h key : Text) (k : ℕ) (hs : is_signable_hash h ≡ true) (w : IsWidth k)
      (lower : All IsLowerHex key) (len : length key ≡ k * 128) where
    fits : length (chunk_substr key 128) ≤ length (symbols h)
    fits = elim w [
      | inl e ↦ omega (arith, (chunk_substr-whole key k len).1, length-symbols h hs)
      | inr e ↦ omega (arith, (chunk_substr-whole key k len).1, length-symbols h hs)
    ]

    pieces-whole :
        All (λ c. length c ≡ 128) (chained lib sign_rounds (symbols h) (chunk_substr key 128))
    pieces-whole = chained-whole lib sign_rounds (symbols h) _ (chunk_substr-whole key k len).0

    pieces-length : length (chained lib sign_rounds (symbols h) (chunk_substr key 128)) ≡ k
    pieces-length =
        length-chained lib sign_rounds (symbols h) _ fits ∙ (chunk_substr-whole key k len).1

    length-signed_hex : length (signed_hex h key) ≡ k * 128
    unfolding signed_hex
    length-signed_hex = length-concat 128 _ pieces-whole ∙ ap (λ (n : ℕ). n * 128) pieces-length

    signed_hex-IsLowerHex : All IsLowerHex (signed_hex h key)
    unfolding signed_hex
    signed_hex-IsLowerHex = All-concat _ (
        chained-IsLowerHex lib sign_rounds (symbols h) _
          (chunk_substr-All IsLowerHex key 128 lower))

    sign_chains-ok :
        sign_chains lib (normalize (enumerate h)) (chunk_substr key 128) ≡ ok (signed_hex h key)
    unfolding sign_chains signed_hex symbols
    sign_chains-ok = run_chains-ok lib sign_rounds (symbols h) _ fits

    chunks-signed_hex :
        chunk_substr (signed_hex h key) 128
        ≡ chained lib sign_rounds (symbols h) (chunk_substr key 128)
    unfolding signed_hex
    chunks-signed_hex = chunk_substr-pieces _ pieces-whole (length-concat 128 _ pieces-whole)

    -- Verification ends at the text whose double hash is the key's address.
    pub verify_chains-signed :
        verify_chains lib (normalize (enumerate h)) (chunk_substr (signed_hex h key) 128)
        ≡ ok (concat (map (chain lib 16) (chunk_substr key 128)))
    unfolding verify_chains symbols
    verify_chains-signed = rw chunks-signed_hex (
        run_chains-ok lib verify_rounds (symbols h) _
          (omega (arith, pieces-length, (chunk_substr-whole key k len).1, fits))
        ∙ ap (λ c. ok (concat c))
            (chained-meet lib (symbols h) (chunk_substr key 128) (symbols-InRange h hs) fits))

    positive : 0 < length (signed_hex h key)
    positive = elim w [
      | inl e ↦ omega (arith, length-signed_hex)
      | inr e ↦ omega (arith, length-signed_hex)
    ]

    even : length (signed_hex h key) % 2 ≡ 0
    even = omega (arith, length-signed_hex)

    -- The text that is cut up for the atoms decodes to the signature, compressed or not.
    pub signature_fragments-ok :
        (compressed : Bool)
        → (t : Text) × (signature_fragments lib h key compressed ≡ ok t)
          × (signature_hex t ≡ ok (signed_hex h key))
          × (0 < length t)
    unfolding signature_fragments
    signature_fragments-ok false = (
      signed_hex h key,
      rw sign_chains-ok refl,
      signature_hex-plain k _ w length-signed_hex,
      positive,
    )
    signature_fragments-ok true =
        let (t, run, back, size, strict) =
          hex_base64_roundtrip (signed_hex h key) signed_hex-IsLowerHex even positive in
        (
          t,
          rw sign_chains-ok run,
          signature_hex-base64 k _ t w length-signed_hex back size strict,
          omega (arith, size, positive, even),
        )

  -- A hash that can be signed, and a key of 16 or 64 pieces of 128 lower-case hexadecimal characters: the chains of signing return, and the
  -- chains of verification, run on the signature's pieces, end where the address of the key is hashed from.
  pub verify_chains-sign_chains :
      (h key : Text) (k : ℕ)
      → is_signable_hash h ≡ true
      → IsWidth k
      → All IsLowerHex key
      → length key ≡ k * 128
      → (s : Text) × (sign_chains lib (normalize (enumerate h)) (chunk_substr key 128) ≡ ok s)
        × (verify_chains lib (normalize (enumerate h)) (chunk_substr s 128)
            ≡ hash_fragments lib (chunk_substr key 128))
  verify_chains-sign_chains h key k hs w lower len = (
    signed_hex h key,
    sign_chains-ok h key k hs w lower len,
    verify_chains-signed h key k hs w lower len
        ∙ sym (hash_fragments-ok lib (chunk_substr key 128)),
  )

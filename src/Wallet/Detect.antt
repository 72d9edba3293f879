-- ===== src/Wallet/Detect.antt =====
-- `Wallet::detectOtsVersion` finds a version whose key has the address.
use knish_io_client_cpp.Base.{
  ◌≡◌, ◌≢◌, ◌⊎◌, refl, sym, ap, ◌∙◌, true, false, Bool-cases, inl, inr, List, [], ◌∷◌, map,
  is_empty, Text, same, same→eq, same_refl, Result, ok, err, ◌>>=◌, Option, none, some,
}
use knish_io_client_cpp.Base.Int.{ℤ, pos}
use knish_io_client_cpp.Libraries.{Libraries}
use knish_io_client_cpp.Wallet.{
  checked_ots_version, generate_wallet_key, generate_wallet_address, detect_loop,
  detect_ots_version, to_lower,
}
use knish_io_client_cpp.Wallet.Keys.{
  generate_wallet_key-ok, generate_wallet_address-ok, squeeze_address-ok,
}

different : (a b : Text) → same a b ≡ false → a ≢ b
different a b e h = let yes : same a b ≡ true = rw h (same_refl b) in cc

value_or_nil : Result Text → Text
value_or_nil (ok s) = s
value_or_nil (err e) = []

ok-injective : (a b : Text) → ok a ≡ ok b → a ≡ b
unfolding value_or_nil
ok-injective a b h = ap value_or_nil h

-- The key at a version has the address.
abbrev pub HasAddress : Libraries → Text → Text → Text → Text → ℤ → Type 0
HasAddress lib secret token position wanted v =
    (generate_wallet_key lib secret token position v >>= generate_wallet_address lib) ≡ ok wanted

-- What a detected version, or none, says of the keys at two versions.
abbrev pub Detected : Libraries → Text → Text → Text → Text → ℤ → ℤ → Option ℤ → Type 0
Detected lib secret token position wanted v w (some found) =
    HasAddress lib secret token position wanted found
Detected lib secret token position wanted v w none =
    ¬ HasAddress lib secret token position wanted v
    × ¬ HasAddress lib secret token position wanted w

swapped :
    (lib : Libraries) (secret token position wanted : Text) (v w : ℤ) (r : Option ℤ)
    → Detected lib secret token position wanted v w r
    → Detected lib secret token position wanted w v r
swapped lib secret token position wanted v w (some found) h = h
swapped lib secret token position wanted v w none h = (h.1, h.0)

module _ (lib : Libraries) (secret token position : Text) (hs : is_empty secret ≡ false)
    (hp : is_empty position ≡ false) where
  -- The address of the key at a version.
  address_at :
      (v : ℤ)
      → (v ≡ pos 1) ⊎ (v ≡ pos 2)
      → (key : Text) × (address : Text) × (generate_wallet_key lib secret token position v ≡ ok key)
        × (generate_wallet_address lib key ≡ ok address)
  address_at v hv =
      let (key, run, _, _) = generate_wallet_key-ok lib secret token position v hs hp hv in
      (key, _, run, generate_wallet_address-ok lib key ∙ squeeze_address-ok lib _)

  hit :
      (v : ℤ) (hv : (v ≡ pos 1) ⊎ (v ≡ pos 2)) (wanted : Text) (versions : List ℤ)
      → ((detect_loop lib secret token position wanted (v ∷ versions) ≡ ok (some v))
          × HasAddress lib secret token position wanted v)
        ⊎ ((detect_loop lib secret token position wanted (v ∷ versions)
              ≡ detect_loop lib secret token position wanted versions)
            × ¬ HasAddress lib secret token position wanted v)
  unfolding detect_loop
  hit v hv wanted versions =
      let (key, address, run, addressed) = address_at v hv in
      elim (Bool-cases (same address wanted)) [
        | inl e ↦
            inl (rw (run, addressed, e) refl, rw run (addressed ∙ ap ok (same→eq address wanted e)))
        | inr e ↦ inr (
          rw (run, addressed, e) refl,
          λ h.
              different address wanted e
                (ok-injective address wanted (sym addressed ∙ (rw run at h))),
        )
      ]

  nothing_left : (wanted : Text) → detect_loop lib secret token position wanted [] ≡ ok none
  unfolding detect_loop
  nothing_left wanted = refl

  both :
      (v w : ℤ) (hv : (v ≡ pos 1) ⊎ (v ≡ pos 2)) (hw : (w ≡ pos 1) ⊎ (w ≡ pos 2)) (wanted : Text)
      → (r : Option ℤ) × (detect_loop lib secret token position wanted (v ∷ w ∷ []) ≡ ok r)
        × Detected lib secret token position wanted v w r
  both v w hv hw wanted = elim (hit v hv wanted (w ∷ [])) [
    | inl a ↦ (some v, a.0, a.1)
    | inr a ↦ elim (hit w hw wanted []) [
      | inl b ↦ (some w, a.0 ∙ b.0, b.1)
      | inr b ↦ (none, a.0 ∙ b.0 ∙ nothing_left wanted, (a.1, b.1))
    ]
  ]

-- For a secret, a position and an address that are not empty and a preferred version 1 or 2, detection
-- returns: a version whose key has the address in lower case, or none, and then neither the key at version 1
-- nor the key at version 2 has it.
pub detect_ots_version-Detected :
    (lib : Libraries) (secret token position address : Text) (preferred : ℤ)
    → is_empty secret ≡ false
    → is_empty position ≡ false
    → is_empty address ≡ false
    → (preferred ≡ pos 1) ⊎ (preferred ≡ pos 2)
    → (r : Option ℤ) × (detect_ots_version lib secret token position address preferred ≡ ok r)
      × Detected lib secret token position (map to_lower address) (pos 1) (pos 2) r
unfolding detect_ots_version checked_ots_version
detect_ots_version-Detected lib secret token position address preferred hs hp ha hv = elim hv [
  | inl v ↦
      (let (r, run, found) =
          both lib secret token position hs hp (pos 1) (pos 2) (inl refl) (inr refl)
            (map to_lower address) in
        (r, rw (v, hs, hp, ha) run, found))
  | inr v ↦
      (let (r, run, found) =
          both lib secret token position hs hp (pos 2) (pos 1) (inr refl) (inl refl)
            (map to_lower address) in
        (
          r,
          rw (v, hs, hp, ha) run,
          swapped lib secret token position (map to_lower address) (pos 2) (pos 1) r found,
        ))
]

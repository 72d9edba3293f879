-- ===== src/Molecule/Signing.antt =====
-- What `Molecule::sign` writes, `Molecule::verifyOts` accepts.
use knish_io_client_cpp.Base.{
  ℕ, zero, suc, ◌+◌, ◌-◌, ◌*◌, ◌/◌, ◌≤◌, ◌<◌, ◌≡◌, ◌⊎◌, refl, sym, ap, ◌∙◌, Bool, true, false, not,
  List, [], ◌∷◌, map, arith, if◌then◌else◌, inl, inr, length, is_empty, All, Text, same, same_refl,
  ok, ◌>>=◌,
}
use knish_io_client_cpp.Base.Int.{ℤ, pos, eqb_ℤ}
use knish_io_client_cpp.Libraries.{Libraries}
use knish_io_client_cpp.Codec.Chunks.{
  chunk_substr, chunk_count, chunk_count-at_most, chunk_count-enough, length-chunk_substr,
  concat-chunk_substr,
}
use knish_io_client_cpp.BigInt.{is_signable_hash}
use knish_io_client_cpp.Atom.{Atom, hash_atoms_base17}
use knish_io_client_cpp.Atom.Order.{unsigned, hash_atoms_base17-unsigned}
use knish_io_client_cpp.Atom.Digest.{HasView, hash_atoms_base17-ok}
use knish_io_client_cpp.Hash.{hex_digest, shake256_hex-ok}
use knish_io_client_cpp.Wallet.{
  generate_bundle_hash, generate_wallet_key, generate_wallet_address, squeeze_address,
}
use knish_io_client_cpp.Wallet.Keys.{generate_wallet_address-ok, generate_wallet_key-ok}
use knish_io_client_cpp.Ots.{enumerate, normalize, verify_chains}
use knish_io_client_cpp.Molecule.{
  Molecule, signing_ots_version, joined_fragments, signature_hex, signature_fragments, sign_atoms,
  sign, verify_ots, verify_molecular_hash,
}
use knish_io_client_cpp.Molecule.Signature.{
  IsWidth, signed_hex, verify_chains-signed, signature_fragments-ok,
}
use knish_io_client_cpp.Molecule.Assign.{Unsigned, assign_fragments-ok}

address_of : List Atom → Text
address_of [] = []
address_of (a ∷ atoms) = a.wallet_address

positive_size : (size len count : ℕ) → 0 < len → len ≤ size * count → 0 < size
positive_size zero len count h e = absurd (omega (arith, e))
positive_size (suc size) len count h e = omega arith

pub signable-some : (h : Text) → is_signable_hash h ≡ true → is_empty h ≡ false
unfolding is_signable_hash
signable-some [] s = cc
signable-some (c ∷ h) s = refl

some-length : {A : Type 0} (xs : List A) (x : A) (rest : List A) → xs ≡ x ∷ rest → 0 < length xs
some-length xs x rest e = rw e (omega arith)

module _ (lib : Libraries) where
  front-address :
      (after : List Atom) (front : Atom) (others : List Atom)
      → map unsigned after ≡ map unsigned (front ∷ others)
      → (a : Atom) × (rest : List Atom) × (after ≡ a ∷ rest)
        × (a.wallet_address ≡ front.wallet_address)
  unfolding unsigned address_of
  front-address [] front others e = cc
  front-address (a ∷ rest) front others e = (a, rest, refl, ap address_of e)

  bundle-ok :
      (m : Molecule) (secret : Text) (anonymous : Bool)
      → (b : Text) × ((if not anonymous then generate_bundle_hash lib secret else ok m.bundle)
          ≡ ok b)
  unfolding generate_bundle_hash
  bundle-ok m secret true = (m.bundle, refl)
  bundle-ok m secret false = (hex_digest lib secret 32, shake256_hex-ok lib secret 32 (omega arith))

  sign-run :
      (m : Molecule) (secret : Text) (anonymous compressed : Bool) (front : Atom)
      (others : List Atom) (bundle h : Text) (after : List Atom) (last : Text)
      → m.atoms ≡ front ∷ others
      → (if not anonymous then generate_bundle_hash lib secret else ok m.bundle) ≡ ok bundle
      → hash_atoms_base17 lib m.atoms ≡ ok h
      → is_signable_hash h ≡ true
      → sign_atoms lib (record m { bundle = bundle; molecular_hash = h }) front secret compressed
        ≡ ok (after, last)
      → sign lib m secret anonymous compressed
        ≡ (ok last, record m { bundle = bundle; molecular_hash = h; atoms = after })
  unfolding sign
  sign-run m secret anonymous compressed front others bundle h after last shape b hash signable
        run =
      let hash' = rw shape at hash in
      let run' = rw shape at run in rw shape (rw (b, hash', signable, run') refl)

  verify_ots-run :
      (m : Molecule) (front : Atom) (others : List Atom) (ots fragments address : Text)
      → m.atoms ≡ front ∷ others
      → is_signable_hash m.molecular_hash ≡ true
      → signature_hex (joined_fragments m.atoms) ≡ ok ots
      → verify_chains lib (normalize (enumerate m.molecular_hash)) (chunk_substr ots 128)
        ≡ ok fragments
      → squeeze_address lib fragments ≡ ok address
      → address ≡ front.wallet_address
      → verify_ots lib m ≡ ok tt
  unfolding verify_ots
  verify_ots-run m front others ots fragments address shape signable joined run squeezed matches =
      let joined' = rw shape at joined in
      rw shape (rw (signable, joined', run, squeezed, matches, same_refl front.wallet_address) refl)

  verify_molecular_hash-run :
      (m : Molecule) (a : Atom) (rest : List Atom)
      → m.atoms ≡ a ∷ rest
      → hash_atoms_base17 lib m.atoms ≡ ok m.molecular_hash
      → is_signable_hash m.molecular_hash ≡ true
      → verify_molecular_hash lib m ≡ ok true
  unfolding verify_molecular_hash
  verify_molecular_hash-run m a rest shape hash signable =
      let hash' = rw shape at hash in
      rw (shape, signable-some _ signable) (rw (hash', same_refl m.molecular_hash) refl)

  -- The two widths of a key, by its version.
  key-IsWidth :
      (version : ℤ) (key : Text)
      → (version ≡ pos 1) ⊎ (version ≡ pos 2)
      → length key ≡ (if eqb_ℤ version (pos 2) then 8192 else 2048)
      → (k : ℕ) × IsWidth k × (length key ≡ k * 128)
  key-IsWidth version key hv len = elim hv [
    | inl v ↦ (16, inl refl, rw v at len)
    | inr v ↦ (64, inr refl, rw v at len)
  ]

  sign_atoms-ok :
      (m : Molecule) (front : Atom) (secret key : Text) (compressed : Bool) (text : Text)
      → generate_wallet_key lib secret front.token front.position (signing_ots_version m) ≡ ok key
      → signature_fragments lib m.molecular_hash key compressed ≡ ok text
      → 0 < length text
      → 0 < length m.atoms
      → All Unsigned m.atoms
      → (after : List Atom) × (last : Text) × (sign_atoms lib m front secret compressed
          ≡ ok (after, last))
        × (joined_fragments after ≡ text)
        × (map unsigned after ≡ map unsigned m.atoms)
  unfolding sign_atoms chunk_count
  sign_atoms-ok m front secret key compressed text keyed signed some_text some_atoms fresh =
      let size = (length text + length m.atoms - 1) / length m.atoms in
      let pieces = chunk_substr text size in
      let enough : length text ≤ size * length m.atoms =
        chunk_count-enough (length text) (length m.atoms) some_atoms in
      let at_most : length pieces ≤ length m.atoms = omega (
        arith,
        length-chunk_substr text size,
        chunk_count-at_most (length text) (length m.atoms) some_text some_atoms,
      ) in
      let (after, last, run, joined, same) = assign_fragments-ok m.atoms pieces [] fresh at_most in
      (
        after,
        last,
        rw (keyed, signed) run,
        joined
            ∙ concat-chunk_substr text size
                (positive_size size (length text) (length m.atoms) some_text enough),
        same,
      )

  -- What `sign` leaves, with the atoms and the hash that it writes.
  pub sign-accepted :
      (m : Molecule) (secret : Text) (anonymous compressed : Bool) (front : Atom)
      (others : List Atom)
      → m.atoms ≡ front ∷ others
      → All Unsigned m.atoms
      → is_empty secret ≡ false
      → is_empty front.position ≡ false
      → (signing_ots_version m ≡ pos 1) ⊎ (signing_ots_version m ≡ pos 2)
      → (generate_wallet_key lib secret front.token front.position (signing_ots_version m)
          >>= generate_wallet_address lib)
        ≡ ok front.wallet_address
      → HasView lib m.atoms
      → (last : Text) × (signed : Molecule) × (sign lib m secret anonymous compressed
          ≡ (ok last, signed))
        × (verify_ots lib signed ≡ ok tt)
        × (verify_molecular_hash lib signed ≡ ok true)
        × (map unsigned signed.atoms ≡ map unsigned m.atoms)
        × (is_empty signed.molecular_hash ≡ false)
  unfolding signing_ots_version
  sign-accepted m secret anonymous compressed front others shape fresh hs hp hv owned view =
      let (key, keyed, lower, len) =
        generate_wallet_key-ok lib secret front.token front.position (signing_ots_version m) hs hp
          hv in
      let (k, width, whole) = key-IsWidth (signing_ots_version m) key hv len in
      let (bundle, b) = bundle-ok m secret anonymous in
      let (h, hash, signable) = hash_atoms_base17-ok lib m.atoms view in
      let (text, cut, back, some_text) =
        signature_fragments-ok lib h key k signable width lower whole compressed in
      let hashed = record m { bundle = bundle; molecular_hash = h } in
      let (after, last, run, joined, same) =
        sign_atoms-ok hashed front secret key compressed text keyed cut some_text
          (some-length m.atoms front others shape) fresh in
      let signed = record m { bundle = bundle; molecular_hash = h; atoms = after } in
      let (a, rest, shape', address) =
        front-address after front others (same ∙ ap (map unsigned) shape) in
      let rehash : hash_atoms_base17 lib after ≡ ok h =
        sym (hash_atoms_base17-unsigned lib after)
        ∙ ap (hash_atoms_base17 lib) same
        ∙ hash_atoms_base17-unsigned lib m.atoms
        ∙ hash in
      (
        last,
        signed,
        sign-run m secret anonymous compressed front others bundle h after last shape b hash
            signable run,
        verify_ots-run signed a rest (signed_hex lib h key) _ front.wallet_address shape' signable
            (ap signature_hex joined ∙ back)
            (verify_chains-signed lib h key k signable width lower whole)
            (sym (generate_wallet_address-ok lib key) ∙ (rw keyed at owned)) (sym address),
        verify_molecular_hash-run signed a rest shape' rehash signable,
        same,
        signable-some h signable,
      )

  -- A molecule with at least one atom and no stored signature, whose atoms the library prints where all of them
  -- have a version, of a wallet at version 1 or 2 whose address is the address of the key that the secret
  -- generates, is signed without an exception, compressed or not, and the signed molecule passes `verifyOts`
  -- and `verifyMolecularHash`.
  pub sign-verify_ots :
      (m : Molecule) (secret : Text) (anonymous compressed : Bool) (front : Atom)
      (others : List Atom)
      → m.atoms ≡ front ∷ others
      → All Unsigned m.atoms
      → is_empty secret ≡ false
      → is_empty front.position ≡ false
      → (signing_ots_version m ≡ pos 1) ⊎ (signing_ots_version m ≡ pos 2)
      → (generate_wallet_key lib secret front.token front.position (signing_ots_version m)
          >>= generate_wallet_address lib)
        ≡ ok front.wallet_address
      → HasView lib m.atoms
      → (last : Text) × (signed : Molecule) × (sign lib m secret anonymous compressed
          ≡ (ok last, signed))
        × (verify_ots lib signed ≡ ok tt)
        × (verify_molecular_hash lib signed ≡ ok true)
  sign-verify_ots m secret anonymous compressed front others shape fresh hs hp hv owned view =
      let (last, signed, run, ots, hash, same, some) =
        sign-accepted m secret anonymous compressed front others shape fresh hs hp hv owned view in
      (last, signed, run, ots, hash)

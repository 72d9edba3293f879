-- ===== src/Storage/Provider/Recovered.antt =====
-- `AesGcmSecretStorageProvider::recoverSecret` with the recovery passphrase of `storeSecret`.
use knish_io_client_cpp.Base.{
  ◌≡◌, ◌∙◌, refl, sym, ap, false, ◌++◌, is_empty, Text, codes, ok, Option, some,
}
use knish_io_client_cpp.Storage.Libraries.{JsonText, IsExactText, OpenSsl, IsAead}
use knish_io_client_cpp.Storage.Envelope.RoundTrip.{Sealing}
use knish_io_client_cpp.Storage.Backend.{StorageBackend, IsStore}
use knish_io_client_cpp.Storage.Provider.{
  StorageOptions, Draws, key_prefix, recovery_key_prefix, metadata_of, chosen_passphrase,
  recovered_passphrase, sealed_text, unsealed, store_recovery, store_secret, retrieve_secret,
  recover_secret,
}
use knish_io_client_cpp.Storage.Provider.Stored.{
  IsAsciiCall, DrawsOf, AcceptsWrites, metadata_of-IsAsciiMetadata, sealed_text-run,
  store_recovery-some, stored, retrieved,
}

module _ (js : JsonText) (exact : IsExactText js) (ssl : OpenSsl) (aead : IsAead ssl)
    (b : StorageBackend) (store : IsStore b) (writes : AcceptsWrites b)
    (default_passphrase : Option Text) where
  -- `storeSecret` with a recovery passphrase: both payloads stand.
  both :
      (draws : Draws) (bundle_hash secret passphrase recovery : Text)
      (d : Sealing ssl secret passphrase) (r : Sealing ssl secret recovery)
      (options later : StorageOptions) (s : b.State)
      → is_empty bundle_hash ≡ false
      → is_empty secret ≡ false
      → is_empty recovery ≡ false
      → chosen_passphrase options.passphrase default_passphrase ≡ ok passphrase
      → chosen_passphrase later.passphrase default_passphrase ≡ ok passphrase
      → IsAsciiCall bundle_hash options draws.now
      → DrawsOf ssl draws secret passphrase recovery d r
      → options.recovery_passphrase ≡ some recovery
      → (after : b.State) × (raw : Text) × (store_secret js ssl b default_passphrase draws
            bundle_hash secret options s
          ≡ (ok tt, after))
        × (b.get_item (recovery_key_prefix ++ bundle_hash) after ≡ some raw)
        × (unsealed js ssl raw recovery ≡ ok secret)
        × (retrieve_secret js ssl b default_passphrase bundle_hash later after ≡ ok (some secret))
  unfolding unsealed
  both draws bundle_hash secret passphrase recovery d r options later s hb hs hr chosen again ascii
        (salted, vector, salted', vector') with_recovery =
      let metadata = metadata_of bundle_hash options draws.now (codes "aes-gcm") in
      let (t, p, parsed, opened, kept, run, found) =
        stored js exact ssl aead b store writes default_passphrase draws bundle_hash secret
          passphrase d options s hb hs chosen ascii salted vector in
      let (raw, q, text, parsed', opened', kept') =
        sealed_text-run js exact ssl aead secret recovery r metadata
          (metadata_of-IsAsciiMetadata bundle_hash options draws.now ascii) in
      let text' : sealed_text js ssl draws.recovery_salt draws.recovery_iv secret recovery metadata
          ≡ ok raw =
        rw (salted', vector') text in
      let s1 = (b.set_item (key_prefix ++ bundle_hash) t s).1 in
      let wrote = writes (recovery_key_prefix ++ bundle_hash) raw s1 in
      let whole =
        run
        ∙ ap (λ o. store_recovery js ssl b default_passphrase o draws bundle_hash secret options s1)
            with_recovery
        ∙ store_recovery-some js ssl b default_passphrase recovery raw draws bundle_hash secret
            options s1 hr text' in
      let after = (b.set_item (recovery_key_prefix ++ bundle_hash) raw s1).1 in
      (
        after,
        raw,
        whole ∙ ap (λ o. (o, after)) wrote,
        store.get_item-set_item (recovery_key_prefix ++ bundle_hash) raw s1 wrote,
        rw parsed' opened',
        ap (λ o. retrieve_secret js ssl b default_passphrase bundle_hash later o.1) (sym whole)
            ∙ retrieved js exact ssl aead b store writes default_passphrase draws bundle_hash secret
                passphrase d options later s hb hs chosen again ascii salted vector,
      )

  recover_secret-of :
      (draws : Draws) (bundle_hash secret recovery raw : Text) (options : StorageOptions)
      (s : b.State)
      → is_empty bundle_hash ≡ false
      → is_empty recovery ≡ false
      → b.get_item (recovery_key_prefix ++ bundle_hash) s ≡ some raw
      → unsealed js ssl raw recovery ≡ ok secret
      → recover_secret js ssl b default_passphrase draws bundle_hash recovery options s
        ≡ store_secret js ssl b default_passphrase draws bundle_hash secret
            (record options {
              passphrase = recovered_passphrase options.passphrase default_passphrase recovery;
              recovery_passphrase = some recovery;
            })
            s
  unfolding recover_secret
  recover_secret-of draws bundle_hash secret recovery raw options s hb hr found opened =
      rw (hb, hr, found, opened) refl

  -- A secret stored with a recovery passphrase is recovered with it: `storeSecret` throws nothing, `recoverSecret`
  -- with the recovery passphrase then throws nothing, and `retrieveSecret` with the passphrase that the recovery
  -- chose returns the secret. It takes that the texts are not empty, that the bundle's hash and the labels are
  -- ASCII, that all four random draws of each call succeed, and that the backend is a store that takes every write.
  pub retrieve_secret-recover_secret :
      (first second : Draws) (bundle_hash secret passphrase fresh recovery : Text)
      (d : Sealing ssl secret passphrase) (r : Sealing ssl secret recovery)
      (e : Sealing ssl secret fresh) (q : Sealing ssl secret recovery)
      (options renewed later : StorageOptions) (s : b.State)
      → is_empty bundle_hash ≡ false
      → is_empty secret ≡ false
      → is_empty recovery ≡ false
      → chosen_passphrase options.passphrase default_passphrase ≡ ok passphrase
      → chosen_passphrase
          (recovered_passphrase renewed.passphrase default_passphrase recovery)
          default_passphrase
        ≡ ok fresh
      → chosen_passphrase later.passphrase default_passphrase ≡ ok fresh
      → IsAsciiCall bundle_hash options first.now
      → IsAsciiCall bundle_hash renewed second.now
      → DrawsOf ssl first secret passphrase recovery d r
      → DrawsOf ssl second secret fresh recovery e q
      → options.recovery_passphrase ≡ some recovery
      → (mid after : b.State) × (store_secret js ssl b default_passphrase first bundle_hash secret
            options s
          ≡ (ok tt, mid))
        × (recover_secret js ssl b default_passphrase second bundle_hash recovery renewed mid
            ≡ (ok tt, after))
        × (retrieve_secret js ssl b default_passphrase bundle_hash later after ≡ ok (some secret))
  retrieve_secret-recover_secret first second bundle_hash secret passphrase fresh recovery d r e q
        options renewed later s hb hs hr chosen chosen' again ascii ascii' drawn drawn'
        with_recovery =
      let (mid, raw, run, found, opened, _) =
        both first bundle_hash secret passphrase recovery d r options options s hb hs hr chosen
          chosen ascii drawn with_recovery in
      let again' = record renewed {
        passphrase = recovered_passphrase renewed.passphrase default_passphrase recovery;
        recovery_passphrase = some recovery;
      } in
      let (after, _, run', _, _, back) =
        both second bundle_hash secret fresh recovery e q again' later mid hb hs hr chosen' again
          (record {
            ascii_hash = ascii'.ascii_hash;
            ascii_label = ascii'.ascii_label;
            bounded_now = ascii'.bounded_now;
          })
          drawn' refl in
      (
        mid,
        after,
        run,
        recover_secret-of second bundle_hash secret recovery raw renewed mid hb hr found opened
            ∙ run',
        back,
      )

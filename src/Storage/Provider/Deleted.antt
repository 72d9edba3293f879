-- ===== src/Storage/Provider/Deleted.antt =====
-- `AesGcmSecretStorageProvider::deleteSecret`, and the errors of `retrieveSecret`.
use knish_io_client_cpp.Base.{
  ◌≡◌, ◌≢◌, ◌∙◌, refl, sym, ap, Bool, false, ◌||◌, [], ◌∷◌, ◌++◌, drop, Text, ok, err, Option, none,
  secret_storage_exception,
}
use knish_io_client_cpp.Storage.Libraries.{JsonText, OpenSsl}
use knish_io_client_cpp.Storage.Backend.{StorageBackend, IsStore, is_some}
use knish_io_client_cpp.Storage.Provider.{
  StorageOptions, Draws, key_prefix, recovery_key_prefix, retrieve_raw, retrieve_secret,
  delete_secret, has_secret, recover_secret,
}
use knish_io_client_cpp.Storage.Provider.Stored.{prefixes-differ}

-- A backend whose removals do not throw.
abbrev pub AcceptsRemovals : StorageBackend → Type 0
AcceptsRemovals b =
    (key : Text) (s : b.State) → (removed : Bool) × ((b.remove_item key s).0 ≡ ok removed)

module _ (js : JsonText) (ssl : OpenSsl) (b : StorageBackend) (store : IsStore b)
    (default_passphrase : Option Text) where
  retrieve_secret-none :
      (bundle_hash : Text) (options : StorageOptions) (s : b.State)
      → b.get_item (key_prefix ++ bundle_hash) s ≡ none
      → retrieve_secret js ssl b default_passphrase bundle_hash options s ≡ ok none
  unfolding retrieve_secret retrieve_raw
  retrieve_secret-none bundle_hash options s e = rw e refl

  retrieve_secret-same :
      (bundle_hash : Text) (options : StorageOptions) (s after : b.State)
      → b.get_item (key_prefix ++ bundle_hash) after ≡ b.get_item (key_prefix ++ bundle_hash) s
      → retrieve_secret js ssl b default_passphrase bundle_hash options after
        ≡ retrieve_secret js ssl b default_passphrase bundle_hash options s
  unfolding retrieve_secret
  retrieve_secret-same bundle_hash options s after e = rw e refl

  recover_secret-none :
      (draws : Draws) (bundle_hash recovery : Text) (options : StorageOptions) (s : b.State)
      → b.get_item (recovery_key_prefix ++ bundle_hash) s ≡ none
      → recover_secret js ssl b default_passphrase draws bundle_hash recovery options s
        ≡ (err secret_storage_exception, s)
  unfolding recover_secret
  recover_secret-none draws [] recovery options s e = refl
  recover_secret-none draws (c ∷ bundle_hash) [] options s e = refl
  recover_secret-none draws (c ∷ bundle_hash) (r ∷ recovery) options s e = rw e refl

  delete_secret-of :
      (bundle_hash : Text) (s s1 s2 : b.State) (r1 r2 : Bool)
      → b.remove_item (key_prefix ++ bundle_hash) s ≡ (ok r1, s1)
      → b.remove_item (recovery_key_prefix ++ bundle_hash) s1 ≡ (ok r2, s2)
      → delete_secret js ssl b default_passphrase bundle_hash s ≡ (ok (r1 || r2), s2)
  unfolding delete_secret
  delete_secret-of bundle_hash s s1 s2 r1 r2 e1 e2 = rw (e1, e2) refl

  -- Where the backend is a store whose removals do not throw, `deleteSecret` throws nothing and returns whether
  -- there was a payload or a recovery payload of the bundle. After it, whatever stood there before: `hasSecret`
  -- is false, `retrieveSecret` returns nothing and throws nothing, `recoverSecret` throws and changes nothing,
  -- and what `retrieveSecret` says of another bundle is what it said before.
  pub retrieve_secret-delete_secret :
      AcceptsRemovals b
      → (draws : Draws) (bundle_hash other recovery : Text) (options : StorageOptions) (s : b.State)
      → other ≢ bundle_hash
      → (after : b.State) × (delete_secret js ssl b default_passphrase bundle_hash s ≡ (
        ok (
            is_some (b.get_item (key_prefix ++ bundle_hash) s)
            || is_some (b.get_item (recovery_key_prefix ++ bundle_hash) s)),
        after,
      ))
        × (has_secret js ssl b default_passphrase bundle_hash after ≡ false)
        × (retrieve_secret js ssl b default_passphrase bundle_hash options after ≡ ok none)
        × (recover_secret js ssl b default_passphrase draws bundle_hash recovery options after
            ≡ (err secret_storage_exception, after))
        × (retrieve_secret js ssl b default_passphrase other options after
            ≡ retrieve_secret js ssl b default_passphrase other options s)
  unfolding has_secret
  retrieve_secret-delete_secret removals draws bundle_hash other recovery options s ne =
      let k = key_prefix ++ bundle_hash in
      let rk = recovery_key_prefix ++ bundle_hash in
      let s1 = (b.remove_item k s).1 in
      let s2 = (b.remove_item rk s1).1 in
      let (r1, e1) = removals k s in
      let (r2, e2) = removals rk s1 in
      let (gone, first) = store.get_item-remove_item k r1 s e1 in
      let (gone', second) = store.get_item-remove_item rk r2 s1 e2 in
      let kept =
        store.get_item-remove_other k rk s (λ e. prefixes-differ bundle_hash bundle_hash (sym e)) in
      let nothing : b.get_item k s2 ≡ none =
        store.get_item-remove_other rk k s1 (prefixes-differ bundle_hash bundle_hash) ∙ gone in
      let others =
        store.get_item-remove_other rk (key_prefix ++ other) s1 (prefixes-differ other bundle_hash)
        ∙ store.get_item-remove_other k (key_prefix ++ other) s (λ e. ne (ap (drop 15) e)) in
      (
        s2,
        delete_secret-of bundle_hash s s1 s2 r1 r2 (ap (λ o. (o, s1)) e1) (ap (λ o. (o, s2)) e2)
            ∙ ap (λ r. (ok r, s2))
                (ap (λ r. r || r2) first
                  ∙ ap (λ r. is_some (b.get_item k s) || r) (second ∙ ap is_some kept)),
        ap is_some nothing,
        retrieve_secret-none bundle_hash options s2 nothing,
        recover_secret-none draws bundle_hash recovery options s2 gone',
        retrieve_secret-same other options s s2 others,
      )

-- ===== src/Tests/Providers.antt =====
-- Runs of the theorems on the providers of the secret storage.
use knish_io_client_cpp.Base.{
  Option, ◌≡◌, refl, ap, true, false, [], ◌++◌, ◌||◌, Text, codes, get_or, arith, ok, err,
  secret_storage_exception, decryption_failed, none, some,
}
use knish_io_client_cpp.Storage.Libraries.{FileSystem}
use knish_io_client_cpp.Storage.Backend.{
  Store, IsStore, memory_backend, is_some, store_find, store_set, store_erase,
}
use knish_io_client_cpp.Storage.Backend.File.{file_backend, file_backend-IsStore}
use knish_io_client_cpp.Storage.Backend.Map.{memory_backend-IsStore}
use knish_io_client_cpp.Storage.Provider.{
  key_prefix, recovery_key_prefix, chosen_passphrase, recovered_passphrase, store_secret,
  retrieve_secret, delete_secret, has_secret, recover_secret,
}
use knish_io_client_cpp.Storage.Provider.Retrieved.{
  retrieve_secret-store_secret, retrieve_secret-refused, retrieve_secret-rejected,
}
use knish_io_client_cpp.Storage.Provider.Recovered.{retrieve_secret-recover_secret}
use knish_io_client_cpp.Storage.Provider.Deleted.{retrieve_secret-delete_secret}
use knish_io_client_cpp.Storage.Memory.{
  MemorySecretStorageProvider, memory_store_secret, memory_retrieve_secret,
}
use knish_io_client_cpp.Storage.Memory.Kept.{memory_retrieve_secret-store_secret}
use knish_io_client_cpp.Tests.JsonCode.{test_json, test_json-IsExactText}
use knish_io_client_cpp.Tests.Storing.{
  test_ssl, test_ssl-IsAead, test_sealing, test_draws, options_of, test_call, a_text, memory-writes,
  memory-removals, empty_store, secret-bytes,
}

retrieve_secret-store_secret_example :
    (after : memory_backend.State) × (store_secret test_json test_ssl memory_backend none test_draws
        (codes "ab")
        (codes "secret")
        (options_of (some a_text) none)
        empty_store
      ≡ (ok tt, after))
    × (retrieve_secret test_json test_ssl memory_backend none
          (codes "ab")
          (options_of (some a_text) none)
          after
        ≡ ok (some (codes "secret")))
unfolding chosen_passphrase test_sealing
retrieve_secret-store_secret_example =
    retrieve_secret-store_secret test_json test_json-IsExactText test_ssl test_ssl-IsAead
      memory_backend memory_backend-IsStore memory-writes none test_draws (codes "ab")
      (codes "secret") a_text (test_sealing (codes "secret") a_text secret-bytes)
      (options_of (some a_text) none) (options_of (some a_text) none) empty_store refl refl refl
      refl (test_call (some a_text) none) refl refl refl

retrieve_secret-refused_example :
    (after : memory_backend.State) × (store_secret test_json test_ssl memory_backend none test_draws
        (codes "ab")
        (codes "secret")
        (options_of (some a_text) (some []))
        empty_store
      ≡ (err secret_storage_exception, after))
    × (retrieve_secret test_json test_ssl memory_backend none
          (codes "ab")
          (options_of (some a_text) none)
          after
        ≡ ok (some (codes "secret")))
unfolding chosen_passphrase test_sealing
retrieve_secret-refused_example =
    retrieve_secret-refused test_json test_json-IsExactText test_ssl test_ssl-IsAead memory_backend
      memory_backend-IsStore memory-writes none test_draws (codes "ab") (codes "secret") a_text
      (test_sealing (codes "secret") a_text secret-bytes) (options_of (some a_text) (some []))
      (options_of (some a_text) none) empty_store refl refl refl refl
      (test_call (some a_text) (some [])) refl refl refl

retrieve_secret-rejected_example :
    retrieve_secret test_json test_ssl memory_backend none
      (codes "ab")
      (options_of (some (codes "no")) none)
      (store_secret test_json test_ssl memory_backend none test_draws
        (codes "ab")
        (codes "secret")
        (options_of (some a_text) none)
        empty_store).1
    ≡ err decryption_failed
unfolding chosen_passphrase test_sealing test_ssl
retrieve_secret-rejected_example =
    retrieve_secret-rejected test_json test_json-IsExactText test_ssl test_ssl-IsAead memory_backend
      memory_backend-IsStore memory-writes none test_draws (codes "ab") (codes "secret") a_text
      (codes "no") (test_sealing (codes "secret") a_text secret-bytes)
      (options_of (some a_text) none) (options_of (some (codes "no")) none) (codes "no") empty_store
      refl refl refl refl (test_call (some a_text) none) refl refl refl refl

retrieve_secret-recover_secret_example :
    (mid after : memory_backend.State) × (store_secret test_json test_ssl memory_backend none
        test_draws
        (codes "ab")
        (codes "secret")
        (options_of (some a_text) (some (codes "back")))
        empty_store
      ≡ (ok tt, mid))
    × (recover_secret test_json test_ssl memory_backend none test_draws
          (codes "ab")
          (codes "back")
          (options_of (some (codes "next")) none)
          mid
        ≡ (ok tt, after))
    × (retrieve_secret test_json test_ssl memory_backend none
          (codes "ab")
          (options_of (some (codes "next")) none)
          after
        ≡ ok (some (codes "secret")))
unfolding chosen_passphrase recovered_passphrase test_sealing
retrieve_secret-recover_secret_example =
    retrieve_secret-recover_secret test_json test_json-IsExactText test_ssl test_ssl-IsAead
      memory_backend memory_backend-IsStore memory-writes none test_draws test_draws (codes "ab")
      (codes "secret") a_text (codes "next") (codes "back")
      (test_sealing (codes "secret") a_text secret-bytes)
      (test_sealing (codes "secret") (codes "back") secret-bytes)
      (test_sealing (codes "secret") (codes "next") secret-bytes)
      (test_sealing (codes "secret") (codes "back") secret-bytes)
      (options_of (some a_text) (some (codes "back"))) (options_of (some (codes "next")) none)
      (options_of (some (codes "next")) none) empty_store refl refl refl refl refl refl
      (test_call (some a_text) (some (codes "back"))) (test_call (some (codes "next")) none)
      (refl, refl, refl, refl) (refl, refl, refl, refl) refl

retrieve_secret-delete_secret_example :
    (after : memory_backend.State) × (delete_secret test_json test_ssl memory_backend none
        (codes "ab")
        empty_store
      ≡ (
        ok (
            is_some (memory_backend.get_item (key_prefix ++ (codes "ab")) empty_store)
            || is_some (memory_backend.get_item (recovery_key_prefix ++ (codes "ab")) empty_store)),
        after,
      ))
    × (has_secret test_json test_ssl memory_backend none (codes "ab") after ≡ false)
    × (retrieve_secret test_json test_ssl memory_backend none
          (codes "ab")
          (options_of (some a_text) none)
          after
        ≡ ok none)
    × (recover_secret test_json test_ssl memory_backend none test_draws
          (codes "ab")
          (codes "back")
          (options_of (some a_text) none)
          after
        ≡ (err secret_storage_exception, after))
    × (retrieve_secret test_json test_ssl memory_backend none
          (codes "cd")
          (options_of (some a_text) none)
          after
        ≡ retrieve_secret test_json test_ssl memory_backend none
            (codes "cd")
            (options_of (some a_text) none)
            empty_store)
retrieve_secret-delete_secret_example =
    retrieve_secret-delete_secret test_json test_ssl memory_backend memory_backend-IsStore none
      memory-removals test_draws (codes "ab") (codes "cd") (codes "back")
      (options_of (some a_text) none) empty_store
      (λ e. absurd (omega (arith, ap (λ (t : Text). get_or t 0 0) e)))

abbrev empty_provider : MemorySecretStorageProvider
empty_provider = record { store = []; recovery_store = [] }

memory_retrieve_secret-store_secret_example :
    (memory_retrieve_secret
        (codes "ab")
        (memory_store_secret test_json test_ssl test_draws
          (codes "ab")
          (codes "secret")
          (options_of (some a_text) none)
          empty_provider).1
      ≡ some (codes "secret"))
    × (memory_retrieve_secret
          (codes "cd")
          (memory_store_secret test_json test_ssl test_draws
            (codes "ab")
            (codes "secret")
            (options_of (some a_text) none)
            empty_provider).1
        ≡ memory_retrieve_secret (codes "cd") empty_provider)
memory_retrieve_secret-store_secret_example =
    memory_retrieve_secret-store_secret test_json test_ssl test_draws (codes "ab") (codes "secret")
      (codes "cd") (options_of (some a_text) none) empty_provider refl refl
      (λ e. absurd (omega (arith, ap (λ (t : Text). get_or t 0 0) e)))

abbrev text_of : Option Text → Text
text_of none = []
text_of (some text) = text

abbrev test_files : FileSystem
unfolding store_set store_find store_erase
test_files = record {
  Disk = Store Text;
  exists = λ path disk. is_some (store_find path disk);
  parent_path = λ path. [];
  create_directories = λ path disk. (false, disk);
  open_truncated = λ path disk. (true, store_set path [] disk);
  write_text = λ path text disk. (true, store_set path text disk);
  read_text = λ path disk. store_find path disk;
  remove = λ path disk. store_erase path disk;
  restrict = λ path disk. disk;
  rename = λ path to disk.
      (false, store_set to (text_of (store_find path disk)) (store_erase path disk));
  dump_indented = λ j. ok [];
}

file_backend-IsStore_example :
    IsStore (file_backend test_json test_files (codes "secrets.json") (λ n. codes "0f"))
file_backend-IsStore_example =
    file_backend-IsStore test_json test_files (codes "secrets.json") (λ n. codes "0f")

-- ===== src/Storage/Backend.antt =====
-- `StorageBackend` of src/storage/StorageBackend.h, as operations on a state, and `MemoryStorageBackend` of
-- src/storage/StorageBackend.cpp. A member function that may throw returns the state beside its result. The
-- locks have no effect on one thread.
pub mod Map
pub mod File
use knish_io_client_cpp.Base.{
  Bool, true, false, ◌≡◌, ◌≢◌, List, [], ◌∷◌, map, if◌then◌else◌, Text, same, Result, ok, err,
  Option, none, some,
}
use knish_io_client_cpp.Json.{before}

pub record StorageBackend : Type 1 where
  pub State : Type 0
  pub get_item : Text → State → Option Text
  pub set_item : Text → Text → State → Result (Unit {0}) × State
  pub remove_item : Text → State → Result Bool × State
  pub keys : State → List Text

-- `std::map`, the pairs in the order of their keys.
abbrev pub Store : Type 0 → Type 0
Store A = List (Text × A)

abbrev pub is_some : {A : Type 0} → Option A → Bool
is_some none = false
is_some (some a) = true

module _ {A : Type 0} where
  unfoldable pub store_find : Text → Store A → Option A
  store_find key [] = none
  store_find key ((k, v) ∷ store) =
      let rest = store_find key store in if same key k then some v else rest

  unfoldable pub store_set : Text → A → Store A → Store A
  store_set key value [] = (key, value) ∷ []
  store_set key value ((k, v) ∷ store) =
      let rest = store_set key value store in
      if same key k
      then (key, value) ∷ store
      else if before key k
      then (key, value) ∷ (k, v) ∷ store
      else (k, v) ∷ rest

  unfoldable pub store_erase : Text → Store A → Store A
  store_erase key [] = []
  store_erase key ((k, v) ∷ store) =
      let rest = store_erase key store in if same key k then rest else (k, v) ∷ rest

  abbrev pub store_keys : Store A → List Text
  store_keys store = map (λ kv. kv.0) store

unfoldable pub memory_backend : StorageBackend
memory_backend = record {
  State = Store Text;
  get_item = store_find;
  set_item = λ key value store. (ok tt, store_set key value store);
  remove_item = λ key store. (ok (is_some (store_find key store)), store_erase key store);
  keys = store_keys;
}

-- What the providers count on: an item that was set is found, one that was removed is not, and no other item
-- changes.
pub record IsStore (b : StorageBackend) : Type 0 where
  pub get_item-set_item :
      (key value : Text) (s : b.State)
      → (b.set_item key value s).0 ≡ ok tt
      → b.get_item key (b.set_item key value s).1 ≡ some value
  pub get_item-set_other :
      (key other value : Text) (s : b.State)
      → other ≢ key
      → b.get_item other (b.set_item key value s).1 ≡ b.get_item other s
  pub get_item-remove_item :
      (key : Text) (removed : Bool) (s : b.State)
      → (b.remove_item key s).0 ≡ ok removed
      → (b.get_item key (b.remove_item key s).1 ≡ none) × (removed ≡ is_some (b.get_item key s))
  pub get_item-remove_other :
      (key other : Text) (s : b.State)
      → other ≢ key
      → b.get_item other (b.remove_item key s).1 ≡ b.get_item other s

-- ===== src/Storage/Backend/Map.antt =====
-- `std::map` as the backends use it: what is set is found, what is erased is not, and the rest stays.
use knish_io_client_cpp.Base.{
  ◌≡◌, ◌≢◌, ◌∙◌, refl, sym, false, Bool-cases, inl, inr, [], ◌∷◌, Text, same, same_refl, same→eq,
  none, some,
}
use knish_io_client_cpp.Json.{before}
use knish_io_client_cpp.Storage.Backend.{
  Store, IsStore, store_find, store_set, store_erase, memory_backend,
}

pub differ : (xs ys : Text) → xs ≢ ys → same xs ys ≡ false
differ xs ys ne = elim (Bool-cases (same xs ys)) [
  | inl e ↦ absurd (ne (same→eq xs ys e))
  | inr e ↦ e
]

module _ {A : Type 0} where
  pub find-set :
      (key : Text) (value : A) (store : Store A)
      → store_find key (store_set key value store) ≡ some value
  unfolding store_find store_set
  find-set key value [] = rw (same_refl key) refl
  find-set key value ((k, v) ∷ store) = elim (Bool-cases (same key k)) [
    | inl e ↦ rw e (rw (same_refl key) refl)
    | inr e ↦ elim (Bool-cases (before key k)) [
      | inl b ↦ rw (e, b) (rw (same_refl key) refl)
      | inr b ↦ rw (e, b) (rw e (find-set key value store))
    ]
  ]

  pub find-set_other :
      (key other : Text) (value : A) (store : Store A)
      → other ≢ key
      → store_find other (store_set key value store) ≡ store_find other store
  unfolding store_find store_set
  find-set_other key other value [] ne = rw (differ other key ne) refl
  find-set_other key other value ((k, v) ∷ store) ne = elim (Bool-cases (same key k)) [
    | inl e ↦
        let k' : same other k ≡ false = differ other k (λ h. ne (h ∙ sym (same→eq key k e))) in
        rw e (rw (differ other key ne, k') refl)
    | inr e ↦ elim (Bool-cases (before key k)) [
      | inl b ↦ rw (e, b) (rw (differ other key ne) refl)
      | inr b ↦ rw (e, b, find-set_other key other value store ne) refl
    ]
  ]

  pub find-erase : (key : Text) (store : Store A) → store_find key (store_erase key store) ≡ none
  unfolding store_find store_erase
  find-erase key [] = refl
  find-erase key ((k, v) ∷ store) = elim (Bool-cases (same key k)) [
    | inl e ↦ rw e (find-erase key store)
    | inr e ↦ rw e (rw e (find-erase key store))
  ]

  pub find-erase_other :
      (key other : Text) (store : Store A)
      → other ≢ key
      → store_find other (store_erase key store) ≡ store_find other store
  unfolding store_find store_erase
  find-erase_other key other [] ne = refl
  find-erase_other key other ((k, v) ∷ store) ne = elim (Bool-cases (same key k)) [
    | inl e ↦
        let k' : same other k ≡ false = differ other k (λ h. ne (h ∙ sym (same→eq key k e))) in
        rw (e, k') (find-erase_other key other store ne)
    | inr e ↦ rw (e, find-erase_other key other store ne) refl
  ]

-- `MemoryStorageBackend` is a store: what setItem sets getItem finds, what removeItem removes it does not find,
-- removeItem says whether there was something, and no other item changes.
pub memory_backend-IsStore : IsStore memory_backend
unfolding memory_backend
memory_backend-IsStore = record {
  get_item-set_item = λ key value s h. find-set key value s;
  get_item-set_other = λ key other value s ne. find-set_other key other value s ne;
  get_item-remove_item = λ key removed s h. (find-erase key s, (cc));
  get_item-remove_other = λ key other s ne. find-erase_other key other s ne;
}

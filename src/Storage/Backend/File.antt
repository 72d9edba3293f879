-- ===== src/Storage/Backend/File.antt =====
-- `FileStorageBackend` of src/storage/StorageBackend.cpp, over a file system. The random part of the name of a
-- temporary file is an argument, by the number of the write.
use knish_io_client_cpp.Base.{
  ℕ, suc, ◌≡◌, ◌≢◌, ◌∙◌, refl, sym, ap, Bool, true, false, not, ◌&&◌, [], ◌∷◌, ◌++◌, if◌then◌else◌,
  is_empty, Text, codes, Result, ok, err, ◌>>=◌, rethrow_as, secret_storage_exception, Option, none,
  some, Option-cases, inl, inr,
}
use knish_io_client_cpp.Json.{Json, Fields}
use knish_io_client_cpp.Storage.Libraries.{JsonText, FileSystem}
use knish_io_client_cpp.Storage.Backend.{
  StorageBackend, IsStore, Store, store_find, store_set, store_erase, store_keys, is_some,
}
use knish_io_client_cpp.Storage.Backend.Map.{find-set, find-set_other, find-erase, find-erase_other}

-- `json j = store_;`
unfoldable pub store_fields : Store Text → Fields
store_fields [] = Fields.end
store_fields ((key, value) ∷ store) = Fields.field key (Json.text value) (store_fields store)

-- The loop of `load`: what is not text is passed over.
unfoldable pub load_fields : Fields → Store Text → Store Text
load_fields Fields.end store = store
load_fields (Fields.field key (Json.text value) rest) store =
    load_fields rest (store_set key value store)
load_fields (Fields.field key other rest) store = load_fields rest store

abbrev pub load_json : Json → Store Text
load_json (Json.object fields) = load_fields fields []
load_json other = []

module _ (js : JsonText) (fs : FileSystem) (path : Text) where
  abbrev pub load_text : Option Text → Result (Store Text)
  load_text none = err secret_storage_exception
  load_text (some text) =
      rethrow_as secret_storage_exception (js.parse text >>= λ j. ok (load_json j))

  unfoldable pub load : fs.Disk → Result (Store Text)
  load disk = if not (fs.exists path disk) then ok [] else load_text (fs.read_text path disk)

  -- Writing and renaming the temporary file.
  unfoldable pub persist_text : Text → Text → fs.Disk → Result (Unit {0}) × fs.Disk
  persist_text tmp_path text disk =
      let (good, written) = fs.write_text tmp_path text disk in
      let (failed, renamed) = fs.rename tmp_path path (fs.restrict tmp_path written) in
      if not good
      then (err secret_storage_exception, fs.remove tmp_path written)
      else if failed
      then (err secret_storage_exception, fs.remove tmp_path renamed)
      else (ok tt, renamed)

  -- The printer throws while the temporary file is open; the file is left then.
  abbrev pub persist_dumped : Text → Result Text → fs.Disk → Result (Unit {0}) × fs.Disk
  persist_dumped tmp_path (err thrown) disk = (err thrown, disk)
  persist_dumped tmp_path (ok text) disk = persist_text tmp_path text disk

  unfoldable pub persist_store : Text → Store Text → fs.Disk → Result (Unit {0}) × fs.Disk
  persist_store token store disk =
      let tmp_path = path ++ (codes ".tmp." ++ token) in
      let (opened, emptied) = fs.open_truncated tmp_path disk in
      if not opened
      then (err secret_storage_exception, emptied)
      else persist_dumped tmp_path (fs.dump_indented (Json.object (store_fields store))) emptied

  unfoldable pub persist : Text → Store Text → fs.Disk → Result (Unit {0}) × fs.Disk
  persist token store disk =
      let parent = fs.parent_path path in
      let (failed, created) = fs.create_directories parent disk in
      if not (is_empty parent) && not (fs.exists parent disk)
      then (if failed
          then (err secret_storage_exception, created)
          else persist_store token store created)
      else persist_store token store disk

pub record FileState (Disk : Type 0) : Type 0 where
  pub store : Store Text
  pub disk : Disk
  pub writes : ℕ

module _ (js : JsonText) (fs : FileSystem) (path : Text) (tokens : ℕ → Text) where
  -- A change of the map, and then the write. When the write throws, the map keeps the change.
  unfoldable pub changed : Store Text → FileState fs.Disk → Result (Unit {0}) × FileState fs.Disk
  changed store s =
      let (done, disk) = persist js fs path (tokens s.writes) store s.disk in
      (done, record { store = store; disk = disk; writes = suc s.writes })

  unfoldable pub file_remove_item : Text → FileState fs.Disk → Result Bool × FileState fs.Disk
  file_remove_item key s =
      let (done, after) = changed (store_erase key s.store) s in
      if not (is_some (store_find key s.store))
      then (ok false, s)
      else (done >>= λ _. ok true, after)

  unfoldable pub file_backend : StorageBackend
  file_backend = record {
    State = FileState fs.Disk;
    get_item = λ key s. store_find key s.store;
    set_item = λ key value s. changed (store_set key value s.store) s;
    remove_item = file_remove_item;
    keys = λ s. store_keys s.store;
  }

  -- What `removeItem` does where there is nothing, and where there is something.
  remove-nothing :
      (key : Text) (s : FileState fs.Disk)
      → store_find key s.store ≡ none
      → file_remove_item key s ≡ (ok false, s)
  unfolding file_remove_item
  remove-nothing key s e = rw e refl

  remove-something :
      (key v : Text) (s : FileState fs.Disk)
      → store_find key s.store ≡ some v
      → file_remove_item key s ≡ (
        (changed (store_erase key s.store) s).0 >>= (λ _. ok true),
        (changed (store_erase key s.store) s).1,
      )
  unfolding file_remove_item
  remove-something key v s e = rw e refl

  changed-store : (store : Store Text) (s : FileState fs.Disk) → (changed store s).1.store ≡ store
  unfolding changed
  changed-store store s = refl

  done-true :
      (r : Result (Unit {0})) (removed : Bool)
      → (r >>= (λ _. ok true)) ≡ ok removed
      → removed ≡ true
  done-true (ok done) removed h = cc
  done-true (err thrown) removed h = cc

  not-done : (removed : Bool) → Result.ok false ≡ ok removed → removed ≡ false
  not-done removed h = cc

  removed-lem :
      (key : Text) (removed : Bool) (s : FileState fs.Disk)
      → (file_remove_item key s).0 ≡ ok removed
      → (store_find key (file_remove_item key s).1.store ≡ none)
        × (removed ≡ is_some (store_find key s.store))
  removed-lem key removed s h = elim (Option-cases (store_find key s.store)) [
    | inl e ↦ (
      ap (λ r. store_find key r.1.store) (remove-nothing key s e) ∙ e,
      not-done removed (ap (λ r. r.0) (sym (remove-nothing key s e)) ∙ h) ∙ sym (ap is_some e),
    )
    | inr (v, e) ↦ (
      ap (λ r. store_find key r.1.store) (remove-something key v s e)
          ∙ ap (store_find key) (changed-store _ s)
          ∙ find-erase key s.store,
      done-true _ removed (ap (λ r. r.0) (sym (remove-something key v s e)) ∙ h)
          ∙ sym (ap is_some e),
    )
  ]

  removed-other :
      (key other : Text) (s : FileState fs.Disk)
      → other ≢ key
      → store_find other (file_remove_item key s).1.store ≡ store_find other s.store
  removed-other key other s ne = elim (Option-cases (store_find key s.store)) [
    | inl e ↦ ap (λ r. store_find other r.1.store) (remove-nothing key s e)
    | inr (v, e) ↦
        ap (λ r. store_find other r.1.store) (remove-something key v s e)
        ∙ ap (store_find other) (changed-store _ s)
        ∙ find-erase_other key other s.store ne
  ]

  -- `FileStorageBackend` is a store too, on any file system and whatever fails: when setItem or removeItem throws
  -- nothing, getItem finds what was set and not what was removed, and no other item changes, even where they throw.
  pub file_backend-IsStore : IsStore file_backend
  unfolding file_backend
  file_backend-IsStore = record {
    get_item-set_item = λ key value s h.
        ap (store_find key) (changed-store (store_set key value s.store) s)
        ∙ find-set key value s.store;
    get_item-set_other = λ key other value s ne.
        ap (store_find other) (changed-store (store_set key value s.store) s)
        ∙ find-set_other key other value s.store ne;
    get_item-remove_item = λ key removed s h. removed-lem key removed s h;
    get_item-remove_other = λ key other s ne. removed-other key other s ne;
  }

  -- After a setItem, whether or not it threw because the file could not be written, getItem returns the value.
  pub file_backend-keeps :
      (key value : Text) (s : FileState fs.Disk)
      → store_find key (changed (store_set key value s.store) s).1.store ≡ some value
  file_backend-keeps key value s =
      ap (store_find key) (changed-store (store_set key value s.store) s)
      ∙ find-set key value s.store

-- ===== src/Served/Client/Sound.antt =====
-- What `Molecule::verifyFromServerData` accepts passed `Molecule::check`.
use knish_io_client_cpp.Base.{
  ◌≡◌, ◌⊎◌, inl, inr, refl, Bool, true, false, Bool-cases, [], ◌∷◌, Text, codes, Result, ok, err,
  Option, none, some,
}
use knish_io_client_cpp.Base.Int.{ℤ}
use knish_io_client_cpp.Libraries.{Libraries}
use knish_io_client_cpp.Floats.{Floats}
use knish_io_client_cpp.Json.{Json}
use knish_io_client_cpp.Molecule.{Molecule, verify_molecular_hash}
use knish_io_client_cpp.Check.{check}
use knish_io_client_cpp.Storage.Libraries.{JsonText}
use knish_io_client_cpp.Wire.Read.{find_in}
use knish_io_client_cpp.Served.Client.{
  ServedVerification, molecule_of_served, some_hash, checked, hash_checked, client_checked,
  verify_client, has_versions, retry, verify_parsed, verify_discarded, verify_from_server_data,
}

module _ (js : JsonText) (lib : Libraries) (f : Floats) (now : ℤ) where
  -- The served molecule, read with an atom version or without, passes `check`.
  unfoldable pub IsChecked : Json → Option Text → Type 0
  IsChecked served forced =
      (m : Molecule) × (molecule_of_served js now served forced ≡ ok m) × (check lib f m ≡ ok tt)

  checked-lem :
      (h : Option Text) (r : Result (Unit {0}))
      → (checked js lib f now h r).0.verified ≡ true
      → r ≡ ok tt
  checked-lem h (ok done) e = refl
  checked-lem h (err thrown) e = cc

  hash_checked-lem :
      (m : Molecule) (r : Result Bool)
      → (hash_checked js lib f now m r).0.verified ≡ true
      → check lib f m ≡ ok tt
  hash_checked-lem m (ok true) e = checked-lem (some_hash m.molecular_hash) (check lib f m) e
  hash_checked-lem m (ok false) e = cc
  hash_checked-lem m (err thrown) e = cc

  client_checked-lem :
      (r : Result Molecule)
      → (client_checked js lib f now r).0.verified ≡ true
      → (m : Molecule) × (r ≡ ok m) × (check lib f m ≡ ok tt)
  client_checked-lem (ok m) e = (m, refl, hash_checked-lem m (verify_molecular_hash lib m) e)
  client_checked-lem (err thrown) e = cc

  verify_client-IsChecked :
      (served : Json) (forced : Option Text)
      → (verify_client js lib f now served forced).0.verified ≡ true
      → IsChecked served forced
  unfolding verify_client IsChecked
  verify_client-IsChecked served forced e =
      client_checked-lem (molecule_of_served js now served forced) e

  -- The retries with the versions: the result is the one before, or that of a version.
  retry-IsChecked :
      (served : Json) (result : ServedVerification)
      → (retry js lib f now served (codes "4" ∷ codes "3" ∷ []) result).verified ≡ true
      → IsChecked served (some (codes "4")) ⊎ IsChecked served (some (codes "3"))
  unfolding retry
  retry-IsChecked served result e =
      elim (Bool-cases (verify_client js lib f now served (some (codes "4"))).0.verified) [
        | inl four ↦ inl (verify_client-IsChecked served (some (codes "4")) four)
        | inr not_four ↦
            elim (Bool-cases (verify_client js lib f now served (some (codes "3"))).0.verified) [
              | inl three ↦ inr (verify_client-IsChecked served (some (codes "3")) three)
              | inr not_three ↦ let e' = rw (not_four, not_three) at e in cc
            ]
      ]

  -- The same of what is parsed: the attempt without a version, or a retry.
  parsed-IsChecked :
      (served : Json)
      → (verify_parsed js lib f now served).verified ≡ true
      → IsChecked served none
        ⊎ (IsChecked served (some (codes "4")) ⊎ IsChecked served (some (codes "3")))
  parsed-IsChecked served e =
      elim (Bool-cases (verify_client js lib f now served none).0.verified) [
        | inl first ↦ inl (verify_client-IsChecked served none first)
        | inr not_first ↦ elim (Bool-cases (verify_client js lib f now served none).1) [
          | inl mismatch ↦
              elim (Bool-cases (has_versions js lib f now (find_in (codes "atoms") served))) [
                | inl versions ↦ let e' = rw (not_first, mismatch, versions) at e in cc
                | inr versions ↦ inr (
                    retry-IsChecked served (verify_client js lib f now served none).0
                      (rw (not_first, mismatch, versions) at e))
              ]
          | inr match ↦ let e' = rw (not_first, match) at e in cc
        ]
      ]

  discarded-IsChecked :
      (r : Result Json)
      → (verify_discarded js lib f now r).verified ≡ true
      → (served : Json) × (r ≡ ok served)
        × (IsChecked served none
            ⊎ (IsChecked served (some (codes "4")) ⊎ IsChecked served (some (codes "3"))))
  discarded-IsChecked (ok served) e = (served, refl, parsed-IsChecked served e)
  discarded-IsChecked (err thrown) e = cc

  -- Either verifyFromServerData does not say that a served text is verified, or the text is JSON, and the molecule
  -- that it is read as, with the atom versions that it has, or with version 4 or 3 in all atoms, passes `check`.
  pub verify_from_server_data-IsChecked :
      (served_json : Text)
      → ((verify_from_server_data js lib f now served_json).verified ≡ false)
        ⊎ ((served : Json) × (js.parse served_json ≡ ok served)
            × (IsChecked served none
                ⊎ (IsChecked served (some (codes "4")) ⊎ IsChecked served (some (codes "3")))))
  unfolding verify_from_server_data
  verify_from_server_data-IsChecked served_json =
      elim (Bool-cases (verify_from_server_data js lib f now served_json).verified) [
        | inl e ↦ inr (discarded-IsChecked (js.parse served_json) e)
        | inr e ↦ inl e
      ]

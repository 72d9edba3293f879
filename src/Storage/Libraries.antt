-- ===== src/Storage/Libraries.antt =====
-- What the secret storage takes from libraries: the JSON parser and printer and its conversions, and the
-- cryptography of OpenSSL.
use knish_io_client_cpp.Base.{
  ℕ, ◌<◌, ◌^◌, ◌≡◌, true, List, length, All, IsByte, Text, Bool, Result, ok, Option, some,
}
use knish_io_client_cpp.Base.Int.{ℤ, pos, magnitude}
use knish_io_client_cpp.Json.{Json, is_plain}

-- `nlohmann::json` where it throws: `parse`, `dump`, and `get` at four types.
pub record JsonText : Type 0 where
  pub parse : Text → Result Json
  pub dump : Json → Result Text
  pub get_string : Json → Result Text
  pub get_boolean : Json → Result Bool
  pub get_int64 : Json → Result ℤ
  pub get_uint32 : Json → Result ℕ

-- What is printed is read back, and a value is converted to its own type.
pub record IsExactText (js : JsonText) : Type 0 where
  pub parse-dump :
      (j : Json) → is_plain j ≡ true → (t : Text) × (js.dump j ≡ ok t) × (js.parse t ≡ ok j)
  pub get_string-text : (s : Text) → js.get_string (Json.text s) ≡ ok s
  pub get_boolean-boolean : (b : Bool) → js.get_boolean (Json.boolean b) ≡ ok b
  pub get_int64-number : (n : ℤ) → magnitude n < 2 ^ 63 → js.get_int64 (Json.number n) ≡ ok n
  pub get_uint32-number : (n : ℕ) → n < 2 ^ 32 → js.get_uint32 (Json.number (pos n)) ≡ ok n

-- OpenSSL: `none` where a call reports a failure. The iterations are an `int`.
pub record OpenSsl : Type 0 where
  pub pkcs5_pbkdf2_hmac : Text → List ℕ → ℤ → Option (List ℕ)
  -- AES-256-GCM, of a key, an initialisation vector and a text: the ciphertext and its tag.
  pub encrypt : List ℕ → List ℕ → Text → Option (List ℕ × List ℕ)
  pub decrypt : List ℕ → List ℕ → List ℕ → List ℕ → Option Text

-- The cipher is undone with the same key and vector; the tag has 16 bytes.
pub record IsAead (ssl : OpenSsl) : Type 0 where
  pub decrypt-encrypt :
      (key iv : List ℕ) (text : Text) (sealed tag : List ℕ)
      → ssl.encrypt key iv text ≡ some (sealed, tag)
      → (ssl.decrypt key iv sealed tag ≡ some text)
        × (length tag ≡ 16)
        × All IsByte sealed
        × All IsByte tag

-- The files that `FileStorageBackend` works on. A failure of `remove` on the temporary file is left out.
pub record FileSystem : Type 1 where
  pub Disk : Type 0
  pub exists : Text → Disk → Bool
  pub parent_path : Text → Text
  -- Whether an error code was set.
  pub create_directories : Text → Disk → Bool × Disk
  -- The file opened for writing, emptied.
  pub open_truncated : Text → Disk → Bool × Disk
  -- Whether the stream was good after the text was written and flushed.
  pub write_text : Text → Text → Disk → Bool × Disk
  pub read_text : Text → Disk → Option Text
  pub remove : Text → Disk → Disk
  -- The permissions set to those of the owner.
  pub restrict : Text → Disk → Disk
  -- Whether an error code was set.
  pub rename : Text → Text → Disk → Bool × Disk
  -- `dump(2)`
  pub dump_indented : Json → Result Text

-- ===== src/Wallet.antt =====
-- `Wallet` of src/Wallet.h, and its one-time-signature keys in src/Wallet.cpp. Where the build has the
-- optional kcore library, the same chains are computed there; the model is of the code without it.
pub mod Keys
pub mod Detect
use knish_io_client_cpp.Base.{
  ℕ, zero, suc, ◌+◌, ◌-◌, ◌≤◌, ◌≡◌, refl, Bool, true, false, not, ◌&&◌, ◌||◌, List, [], ◌∷◌, ◌++◌,
  map, arith, ltb, leb, ◌==◌, if◌then◌else◌, length, is_empty, all, concat, Text, codes, same,
  Result, ok, err, ◌>>=◌, ◌>>◌, require, rethrow_as, invalid_argument, runtime_error, logic_error,
  Option, none, some,
}
use knish_io_client_cpp.Base.Int.{ℤ, pos, eqb_ℤ}
use knish_io_client_cpp.Libraries.{Libraries}
use knish_io_client_cpp.Hash.{shake256_hex}
use knish_io_client_cpp.Codec.Chunks.{chunk_substr}
use knish_io_client_cpp.BigInt.{is_valid_hex, constant_time_hex_add}

-- `TokenUnit`; the map of metas is in key order.
pub record TokenUnit : Type 0 where
  pub id : Text
  pub name : Text
  pub metas : List (Text × Text)

pub record Wallet : Type 0 where
  pub position : Text
  pub token : Text
  pub key : Text
  pub address : Text
  pub balance : Text
  pub batch_id : Text
  pub molecules : Text
  pub bundle : Text
  pub token_units : List TokenUnit
  pub privkey : List ℕ
  pub pubkey : List ℕ
  pub mlkem_public_key : List ℕ
  pub mlkem_private_key : List ℕ
  pub mlkem_parameter_set : ℤ
  pub ots_version : ℤ

unfoldable pub checked_ots_version : ℤ → Result ℤ
checked_ots_version ots_version =
    if not (eqb_ℤ ots_version (pos 1)) && not (eqb_ℤ ots_version (pos 2))
    then err invalid_argument
    else ok ots_version

-- A keyed wallet keeps its version.
unfoldable pub set_ots_version : Wallet → ℤ → Result Wallet
unfolding checked_ots_version
set_ots_version w ots_version = do
  version ← checked_ots_version ots_version
  require (not (not (is_empty w.key) && not (eqb_ℤ version w.ots_version))) logic_error
  ok (record w { ots_version = version })

-- `std::tolower` on one character.
abbrev pub to_lower : ℕ → ℕ
to_lower c = if leb b'A' c && leb c b'Z' then c + 32 else c

module _ (lib : Libraries) where
  unfoldable pub generate_bundle_hash : Text → Result Text
  generate_bundle_hash secret = shake256_hex lib secret 256

  -- The input of the key sponge at each version.
  unfoldable pub key_sponge : ℤ → Text → Text → Text
  key_sponge version indexed_key_hex token =
      if eqb_ℤ version (pos 2)
      then codes "KnishIO-OTS-v2|" ++ (indexed_key_hex ++ (codes "|" ++ token))
      else indexed_key_hex ++ (if not (is_empty token) then token else [])

  -- A text that is not hexadecimal is hashed first.
  unfoldable pub normalize_hex : Text → ℕ → Result Text
  normalize_hex s bits = if is_valid_hex s then ok s else shake256_hex lib s bits

  unfoldable pub generate_wallet_key : Text → Text → Text → ℤ → Result Text
  generate_wallet_key secret token position ots_version = do
    version ← checked_ots_version ots_version
    require (not (is_empty secret)) invalid_argument
    require (not (is_empty position)) invalid_argument
    rethrow_as runtime_error (do
      secret_hex ← normalize_hex secret 1024
      position_hex ← normalize_hex position 256
      indexed_key_hex ← constant_time_hex_add secret_hex position_hex
      inner ← shake256_hex lib (key_sponge version indexed_key_hex token) 8192
      shake256_hex lib inner (if eqb_ℤ version (pos 2) then 32768 else 8192))

  -- `for (…) chunk = shake256Hex(chunk, 512);`
  unfoldable pub hash_chain : ℕ → Text → Result Text
  hash_chain zero chunk = ok chunk
  hash_chain (suc rounds) chunk = shake256_hex lib chunk 512 >>= λ next. hash_chain rounds next

  unfoldable pub hash_fragments : List Text → Result Text
  hash_fragments [] = ok []
  hash_fragments (fragment ∷ fragments) = do
    working ← hash_chain 16 fragment
    rest ← hash_fragments fragments
    ok (working ++ rest)

  -- The double hash at the end of an address.
  unfoldable pub squeeze_address : Text → Result Text
  squeeze_address digest_sponge = do
    digest ← shake256_hex lib digest_sponge 8192
    shake256_hex lib digest 256

  unfoldable pub generate_wallet_address : Text → Result Text
  generate_wallet_address key = do
    digest_sponge ← hash_fragments (chunk_substr key 128)
    squeeze_address digest_sponge

  -- The loop over the two versions, the preferred one first.
  unfoldable pub detect_loop : Text → Text → Text → Text → List ℤ → Result (Option ℤ)
  detect_loop secret token position wanted [] = ok none
  detect_loop secret token position wanted (version ∷ versions) =
      let rest = detect_loop secret token position wanted versions in
      do
        key ← generate_wallet_key secret token position version
        address ← generate_wallet_address key
        if same address wanted then ok (some version) else rest

  unfoldable pub detect_ots_version : Text → Text → Text → Text → ℤ → Result (Option ℤ)
  detect_ots_version secret token position address preferred = do
    first ← checked_ots_version preferred
    if is_empty secret || (is_empty position || is_empty address)
        then ok none
        else detect_loop secret token position (map to_lower address)
            (first ∷ (if eqb_ℤ first (pos 1) then pos 2 else pos 1) ∷ [])

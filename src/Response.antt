-- ===== src/Response.antt =====
-- The answers of the node: src/response/Response.cpp and include/response/Response.h. Each class is a record of
-- the answer and what was read from it; the getters are functions of it.
pub mod Taken
use knish_io_client_cpp.Base.{
  Bool, true, false, not, ◌||◌, List, [], ◌∷◌, map, if◌then◌else◌, is_empty, Text, codes, same,
  Result, ok, err, ◌>>=◌, Option, none, some,
}
use knish_io_client_cpp.Json.{Json, Items, Fields, find}
use knish_io_client_cpp.Storage.Libraries.{JsonText}
use knish_io_client_cpp.Wallet.{TokenUnit}
use knish_io_client_cpp.Wire.Read.{find_in, item_list}

-- `j.contains(key) && j[key].is_string()`, with the text.
abbrev pub text_of : Option Json → Option Text
text_of (some (Json.text s)) = some s
text_of other = none

abbrev pub string_at : Text → Json → Option Text
string_at key j = text_of (find_in key j)

abbrev pub first_of : Option Text → Option Text → Option Text
first_of (some s) other = some s
first_of none other = other

abbrev pub text_or : Text → Option Text → Text
text_or default none = default
text_or default (some s) = s

-- Whether the molecule was taken.
abbrev pub is_taken : Text → Bool
is_taken status = same status (codes "accepted") || same status (codes "success")

pub record Response : Type 0 where
  pub json_data : Json
  pub error : Option Text

abbrev no_error : Option Text → Bool
no_error none = true
no_error (some message) = false

unfoldable pub is_success : Response → Bool
is_success r = no_error r.error

unfoldable pub set_data : Json → Response → Response
set_data json r = record { json_data = json; error = r.error }

unfoldable pub set_error : Text → Response → Response
set_error message r = record { json_data = r.json_data; error = some message }

-- `data["ProposeMolecule"]`; what is not there has no keys.
abbrev pub or_null : Option Json → Json
or_null none = Json.null
or_null (some j) = j

abbrev pub proposed : Response → Json
proposed r = or_null (find_in (codes "ProposeMolecule") r.json_data)

-- Token units.

abbrev pub text_metas : Fields → List (Text × Text)
text_metas Fields.end = []
text_metas (Fields.field key (Json.text s) rest) = (key, s) ∷ text_metas rest
text_metas (Fields.field key value rest) = text_metas rest

abbrev pub metas_of : Option Json → List (Text × Text)
metas_of (some (Json.object fields)) = text_metas fields
metas_of other = []

abbrev pub read_unit : Json → TokenUnit
read_unit u = record {
  id = text_or [] (string_at (codes "id") u);
  name = text_or [] (string_at (codes "name") u);
  metas = metas_of (find_in (codes "metas") u);
}

abbrev pub array_of : Option Json → List Json
array_of (some (Json.array js)) = item_list js
array_of other = []

unfoldable pub parse_token_units : Json → List TokenUnit
parse_token_units wallet = map read_unit (array_of (find_in (codes "tokenUnits") wallet))

-- `ResponseBalance`

pub record Balance : Type 0 where
  pub address : Text
  pub bundle_hash : Text
  pub token_slug : Text
  pub amount : Text
  pub position : Text
  pub batch_id : Text
  pub characters : List Text
  pub token_units : List TokenUnit

pub record ResponseBalance : Type 0 where
  pub response : Response
  pub balance : Option Balance

abbrev pub texts_in : List Json → List Text
texts_in [] = []
texts_in (Json.text s ∷ js) = s ∷ texts_in js
texts_in (j ∷ js) = texts_in js

-- A text or an array, in which what is not a text is passed over.
abbrev pub characters_of : Option Json → List Text
characters_of (some (Json.text s)) = s ∷ []
characters_of (some (Json.array js)) = texts_in (item_list js)
characters_of other = []

-- `ResponseWalletList`

pub record ListedWallet : Type 0 where
  pub address : Text
  pub bundle_hash : Text
  pub token : Text
  pub position : Text
  pub pubkey : Text
  pub balance : Text
  pub batch_id : Text
  pub token_units : List TokenUnit

pub record ResponseWalletList : Type 0 where
  pub response : Response
  pub wallets : List ListedWallet

abbrev pub read_wallet : Json → ListedWallet
read_wallet j = record {
  address = text_or [] (string_at (codes "address") j);
  bundle_hash = text_or [] (string_at (codes "bundleHash") j);
  token = text_or [] (first_of (string_at (codes "tokenSlug") j) (string_at (codes "token") j));
  position = text_or [] (string_at (codes "position") j);
  pubkey = text_or [] (string_at (codes "pubkey") j);
  balance = text_or [] (first_of (string_at (codes "balance") j) (string_at (codes "amount") j));
  batch_id = text_or [] (string_at (codes "batchId") j);
  token_units = parse_token_units j;
}

-- The older key counts only where the newer is absent.
abbrev pub wallets_key : Option Json → Option Json → Option Json
wallets_key (some j) older = some j
wallets_key none older = older

unfoldable pub parse_wallet_list : ResponseWalletList → ResponseWalletList
parse_wallet_list r = record {
  response = r.response;
  wallets = map read_wallet (
      array_of (
        wallets_key (find_in (codes "wallets") r.response.json_data)
          (find_in (codes "WalletList") r.response.json_data)));
}

-- `ResponseContinuId`

pub record ContinuId : Type 0 where
  pub bundle : Text
  pub position : Text
  pub wallet_address : Text
  pub timestamp : Text

pub record ResponseContinuId : Type 0 where
  pub response : Response
  pub continu_id : Option ContinuId

abbrev pub read_continu_id : Option ContinuId → Option Json → Option ContinuId
read_continu_id old (some (Json.object fields)) =
    let j = Json.object fields in
    some (record {
      bundle = text_or [] (string_at (codes "bundleHash") j);
      position = text_or [] (string_at (codes "position") j);
      wallet_address = text_or [] (string_at (codes "address") j);
      timestamp = [];
    })
read_continu_id old other = old

unfoldable pub parse_continu_id : ResponseContinuId → ResponseContinuId
parse_continu_id r = record {
  response = r.response;
  continu_id = read_continu_id r.continu_id (find_in (codes "ContinuId") r.response.json_data);
}

-- `ResponseProposeMolecule`; the last getter of `ResponseTransferTokens` returns "0".

unfoldable pub get_molecular_hash : Response → Text
get_molecular_hash r = text_or [] (string_at (codes "molecularHash") (proposed r))

unfoldable pub get_status : Response → Text
get_status r = text_or (codes "unknown") (string_at (codes "status") (proposed r))

unfoldable pub is_accepted : Response → Bool
is_accepted r = is_taken (get_status r)

unfoldable pub get_rejection_reason : Response → Text
get_rejection_reason r = text_or [] (string_at (codes "reason") (proposed r))

-- `ResponseTransferTokens`

abbrev pub taken : Option Text → Bool
taken none = false
taken (some status) = is_taken status

unfoldable pub is_transferred : Response → Bool
is_transferred r = taken (string_at (codes "status") (proposed r))

unfoldable pub get_transaction_hash : Response → Text
get_transaction_hash r = text_or [] (string_at (codes "molecularHash") (proposed r))

-- `ResponseCreateToken`

pub record ResponseCreateToken : Type 0 where
  pub response : Response
  pub token_slug : Text
  pub amount : Text

unfoldable pub set_token_slug : Text → ResponseCreateToken → ResponseCreateToken
set_token_slug slug r = record { response = r.response; token_slug = slug; amount = r.amount }

unfoldable pub set_amount : Text → ResponseCreateToken → ResponseCreateToken
set_amount amount r = record { response = r.response; token_slug = r.token_slug; amount = amount }

unfoldable pub created_amount : ResponseCreateToken → Text
created_amount r = if is_empty r.amount then codes "0" else r.amount

module _ (js : JsonText) where
  -- `status` is converted to a text without a test of its type.
  abbrev pub created : Option Json → Result Bool
  created none = ok false
  created (some j) = js.get_string j >>= λ status. ok (is_taken status)

  unfoldable pub is_created : Response → Result Bool
  is_created r = created (find_in (codes "status") (proposed r))

  abbrev pub or_no_fields : Result Json → Json
  or_no_fields (ok j) = j
  or_no_fields (err thrown) = Json.object Fields.end

  abbrev pub parsed_payload : Option Text → Json
  parsed_payload none = Json.object Fields.end
  parsed_payload (some s) = or_no_fields (js.parse s)

  -- The payload is an object in a text.
  unfoldable pub parse_propose_payload : Response → Json
  parse_propose_payload r = parsed_payload (string_at (codes "payload") (proposed r))

  unfoldable pub get_auth_token : Response → Text
  get_auth_token r = text_or [] (string_at (codes "token") (parse_propose_payload r))

  unfoldable pub get_public_key : Response → Text
  get_public_key r = text_or [] (string_at (codes "pubkey") (parse_propose_payload r))

  unfoldable pub is_authorized : Response → Bool
  is_authorized r = not (is_empty (get_auth_token r))

  -- `balance` stays as it was where the answer has none.
  abbrev pub string_or_empty : Option Json → Result Text
  string_or_empty none = ok []
  string_or_empty (some j) = js.get_string j

  abbrev pub read_balance : Json → Result Balance
  read_balance j = do
    address ← string_or_empty (find_in (codes "address") j)
    bundle_hash ← string_or_empty (find_in (codes "bundleHash") j)
    token_slug ← string_or_empty (find_in (codes "tokenSlug") j)
    amount ← string_or_empty (find_in (codes "amount") j)
    position ← string_or_empty (find_in (codes "position") j)
    batch_id ← string_or_empty (find_in (codes "batchId") j)
    ok (record {
      address = address;
      bundle_hash = bundle_hash;
      token_slug = token_slug;
      amount = amount;
      position = position;
      batch_id = batch_id;
      characters = characters_of (find_in (codes "characters") j);
      token_units = parse_token_units j;
    })

  abbrev pub next_balance : Option Balance → Option Json → Result (Option Balance)
  next_balance old none = ok old
  next_balance old (some Json.null) = ok old
  next_balance old (some j) = read_balance j >>= λ b. ok (some b)

  unfoldable pub parse_balance : ResponseBalance → Result ResponseBalance
  parse_balance r = do
    balance ← next_balance r.balance (find_in (codes "Balance") r.response.json_data)
    ok (record { response = r.response; balance = balance })

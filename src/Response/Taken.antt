-- ===== src/Response/Taken.antt =====
-- What the answers of src/response/Response.cpp say of a proposed molecule: the three tests of its status, and
-- the token in its payload.
use knish_io_client_cpp.Base.{◌≡◌, refl, ap, not, Text, codes, is_empty, ok, Option, none, some}
use knish_io_client_cpp.Json.{Json, Fields, find}
use knish_io_client_cpp.Storage.Libraries.{JsonText, IsExactText}
use knish_io_client_cpp.Wire.Read.{find_in}
use knish_io_client_cpp.Response.{
  Response, proposed, string_at, text_or, taken, is_taken, get_status, is_accepted, is_transferred,
  is_created, get_auth_token, is_authorized, parse_propose_payload,
}

taken-default : (status : Option Text) → taken status ≡ is_taken (text_or (codes "unknown") status)
taken-default none = refl
taken-default (some status) = refl

-- A transfer is taken exactly where the molecule is: an unknown status counts as not taken.
pub is_transferred-is_accepted : (r : Response) → is_transferred r ≡ is_accepted r
unfolding is_transferred is_accepted get_status
is_transferred-is_accepted r = taken-default (string_at (codes "status") (proposed r))

module _ (js : JsonText) (exact : IsExactText js) where
  -- Where the status is a text, a token is created exactly where the molecule is taken.
  pub is_created-is_accepted :
      (r : Response) (status : Text)
      → find_in (codes "status") (proposed r) ≡ some (Json.text status)
      → is_created js r ≡ ok (is_accepted r)
  unfolding is_created is_accepted get_status
  is_created-is_accepted r status there = rw (there, exact.get_string-text status) refl

  -- The token of an authorization is read out of the text of its payload.
  pub get_auth_token-payload :
      (r : Response) (payload token : Text) (fields : Fields)
      → find_in (codes "payload") (proposed r) ≡ some (Json.text payload)
      → js.parse payload ≡ ok (Json.object fields)
      → find (codes "token") fields ≡ some (Json.text token)
      → (get_auth_token js r ≡ token) × (is_authorized js r ≡ not (is_empty token))
  unfolding get_auth_token is_authorized parse_propose_payload
  get_auth_token-payload r payload token fields there parsed found =
      let read : get_auth_token js r ≡ token = rw (there, parsed, found) refl in
      (read, ap (λ t. not (is_empty t)) read)

-- ===== src/Tests/Answers.antt =====
-- Runs of the readers of answers.
use knish_io_client_cpp.Base.{◌≡◌, refl, true, false, [], Text, codes, ok, none}
use knish_io_client_cpp.Json.{Json, Items, Fields, find}
use knish_io_client_cpp.Wire.Read.{item_list}
use knish_io_client_cpp.Response.{
  Response, ResponseWalletList, is_accepted, is_created, get_status, parse_wallet_list,
}
use knish_io_client_cpp.Response.Taken.{is_created-is_accepted}
use knish_io_client_cpp.Tests.JsonCode.{test_json, test_json-IsExactText}

abbrev answer : Text → Json → Response
answer key j = record { json_data = Json.object (Fields.field key j Fields.end); error = none }

abbrev with_status : Json → Json
with_status status = Json.object (Fields.field (codes "status") status Fields.end)

abbrev accepted : Response
accepted = answer (codes "ProposeMolecule") (with_status (Json.text (codes "accepted")))

accepted_run : (is_accepted accepted ≡ true) × (is_created test_json accepted ≡ ok true)
unfolding is_accepted get_status find
accepted_run =
    (refl, is_created-is_accepted test_json test_json-IsExactText accepted (codes "accepted") refl)

-- A status that is null: the molecule is not accepted.
abbrev null_status : Response
null_status = answer (codes "ProposeMolecule") (with_status Json.null)

null_status_run : is_accepted null_status ≡ false
unfolding is_accepted get_status find
null_status_run = refl

-- The older key is passed over where the newer one is there.
abbrev two_keys : Json
two_keys = Json.object (
    Fields.field (codes "WalletList") (Json.array (Items.cons (Json.object Fields.end) Items.nil))
      (Fields.field (codes "wallets") (Json.array Items.nil) Fields.end))

abbrev two_keys_list : ResponseWalletList
two_keys_list =
    parse_wallet_list
      (record { response = record { json_data = two_keys; error = none }; wallets = [] })

two_keys_run : two_keys_list.wallets ≡ []
unfolding parse_wallet_list find item_list
two_keys_run = refl

-- ===== src/Tests/Wires.antt =====
-- Runs of the theorems on times, on molecules as JSON and on served molecules.
use knish_io_client_cpp.Base.{◌≡◌, ◌⊎◌, refl, false, [], ◌∷◌, arith, Text, codes, ok, none, some}
use knish_io_client_cpp.Base.Int.{pos, ◌+ℤ◌}
use knish_io_client_cpp.Base.Decimal.{to_string}
use knish_io_client_cpp.Base.Integers.{wrap}
use knish_io_client_cpp.Json.{Json, Items, Fields}
use knish_io_client_cpp.Molecule.{Molecule}
use knish_io_client_cpp.Check.{check}
use knish_io_client_cpp.Served.Timestamp.{Stamp, parse_rfc3339_millis, to_signed_timestamp}
use knish_io_client_cpp.Served.Timestamp.Calendar.{
  IsDate, days_of, next_date, is_leap, days_in_month, days_from_civil-next_date,
}
use knish_io_client_cpp.Served.Timestamp.Rfc3339.{
  print_stamp, millis_since_epoch, parse_rfc3339_millis-print_stamp,
}
use knish_io_client_cpp.Served.Client.{verify_from_server_data}
use knish_io_client_cpp.Served.Client.Sound.{IsChecked, verify_from_server_data-IsChecked}
use knish_io_client_cpp.Wire.Write.{molecule_to_json}
use knish_io_client_cpp.Wire.Read.{molecule_from_json}
use knish_io_client_cpp.Wire.Plain.{IsWireAtom}
use knish_io_client_cpp.Wire.Molecules.{molecule_from_json-to_json}
use knish_io_client_cpp.Tests.{test_libraries, test_molecule, test_atom, zeros}
use knish_io_client_cpp.Tests.Building.{test_wallet}
use knish_io_client_cpp.Tests.Checks.{test_floats}
use knish_io_client_cpp.Tests.JsonCode.{test_json, test_json-IsExactText, enc}

leap_day : IsDate (2024, 2, 28)
unfolding IsDate days_in_month is_leap
leap_day = (omega arith, omega arith, omega arith, omega arith, omega arith)

days_from_civil-next_date_example :
    (days_of (1970, 1, 1) ≡ pos 0)
    × (days_of (next_date (2024, 2, 28)) ≡ days_of (2024, 2, 28) +ℤ pos 1)
days_from_civil-next_date_example = days_from_civil-next_date 2024 2 28 leap_day

abbrev test_stamp : Stamp
test_stamp = record {
  year = 2024;
  month = 2;
  day = 29;
  hour = 23;
  minute = 59;
  second = 58;
  millis = 7;
  offset = pos 0;
}

parse_rfc3339_millis-print_stamp_example :
    (parse_rfc3339_millis (print_stamp test_stamp) ≡ some (millis_since_epoch test_stamp))
    × (to_signed_timestamp (print_stamp test_stamp)
        ≡ some (to_string (millis_since_epoch test_stamp)))
parse_rfc3339_millis-print_stamp_example = parse_rfc3339_millis-print_stamp test_stamp (record {
  four_digit_year = omega arith;
  month_in_range = (omega arith, omega arith);
  day_in_range = (omega arith, omega arith);
  hour_in_range = omega arith;
  minute_in_range = omega arith;
  second_in_range = omega arith;
  millis_in_range = omega arith;
  utc = refl;
})

test_IsWireAtom : IsWireAtom (test_atom zeros)
unfolding wrap
test_IsWireAtom = record {
  some_position = refl;
  some_wallet_address = refl;
  some_isotope = refl;
  ascii_position = refl;
  ascii_wallet_address = refl;
  ascii_isotope = refl;
  ascii_token = refl;
  ascii_value = refl;
  ascii_batch_id = refl;
  ascii_meta_type = refl;
  ascii_meta_id = refl;
  ascii_meta = ((refl, refl), tt);
  ascii_ots_fragment = refl;
  ascii_version = tt;
  bounded_created_at = omega arith;
  bounded_index = (refl, omega arith);
  no_null_meta = refl;
  no_parsed_empty = refl;
}

abbrev sent : Molecule
sent = record test_molecule { atoms = test_atom zeros ∷ []; source_wallet = some (test_wallet []) }

molecule_from_json-to_json_example :
    (j : Json) × (read : Molecule) × (molecule_to_json sent ≡ ok j)
    × (molecule_from_json test_json (pos 5) j ≡ ok read)
    × (read ≡ record sent { source_wallet = none; remainder_wallet = none })
    × (check test_libraries test_floats read ≡ check test_libraries test_floats sent)
molecule_from_json-to_json_example =
    molecule_from_json-to_json test_json test_json-IsExactText (pos 5) test_libraries test_floats
      sent
      (record {
        wire_atoms = (test_IsWireAtom, tt);
        bounded_time = omega arith;
        readable_balance = (pos 0, refl);
      })

abbrev served_text : Text
served_text = enc (Json.object (Fields.field (codes "atoms") (Json.array Items.nil) Fields.end)) []

verify_from_server_data-IsChecked_example :
    ((verify_from_server_data test_json test_libraries test_floats (pos 5) served_text).verified
      ≡ false)
    ⊎ ((served : Json) × (test_json.parse served_text ≡ ok served)
        × (IsChecked test_json test_libraries test_floats (pos 5) served none
            ⊎ (IsChecked test_json test_libraries test_floats (pos 5) served (some (codes "4"))
                ⊎ IsChecked test_json test_libraries test_floats
                    (pos 5)
                    served
                    (some (codes "3")))))
verify_from_server_data-IsChecked_example =
    verify_from_server_data-IsChecked test_json test_libraries test_floats (pos 5) served_text

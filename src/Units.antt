-- ===== src/Units.antt =====
-- Stackable token units: their wire form in src/Molecule.cpp and src/Wallet.cpp, and `Wallet::splitUnits`.
pub mod Split
use knish_io_client_cpp.Base.{
  ℕ, suc, ◌+◌, Bool, true, false, not, ◌&&◌, ◌||◌, List, [], ◌∷◌, map, any, ltb, ◌==◌,
  if◌then◌else◌, is_empty, Text, codes, same, Option, none, some, Result, ok, ◌>>=◌, is_ok,
  value_or, is_ok-value, ◌≡◌,
}
use knish_io_client_cpp.Json.{Json, json_array, Fields}
use knish_io_client_cpp.Libraries.{Libraries}
use knish_io_client_cpp.Atom.{Meta}
use knish_io_client_cpp.Wallet.{TokenUnit, Wallet}

-- `metas[kv.first] = kv.second` for each pair of the unit's map, whose keys differ and are in order.
abbrev fields_of : List (Text × Text) → Fields
fields_of [] = Fields.end
fields_of ((key, value) ∷ rest) = Fields.field key (Json.text value) (fields_of rest)

-- One unit as the triple [id, name, metas].
unfoldable pub unit_triple : TokenUnit → Json
unit_triple unit =
    json_array (Json.text unit.id ∷ Json.text unit.name ∷ Json.object (fields_of unit.metas) ∷ [])

module _ (lib : Libraries) where
  unfoldable pub units_json : List TokenUnit → Result Text
  units_json units = lib.dump (json_array (map unit_triple units))

  -- The `tokenUnits` meta, left out when there are no units.
  unfoldable pub units_meta : List TokenUnit → Result Meta
  units_meta units =
      if is_empty units
      then ok []
      else (units_json units >>= λ json. ok ((codes "tokenUnits", json) ∷ []))

  -- The library prints the units of a wallet.
  abbrev pub PrintsUnits : Wallet → Type 0
  PrintsUnits w = is_ok (units_meta w.token_units) ≡ true

  -- The meta of a wallet whose units are printed.
  abbrev pub units_of : Wallet → Meta
  units_of w = value_or [] (units_meta w.token_units)

  pub units_meta-ok : (w : Wallet) → PrintsUnits w → units_meta w.token_units ≡ ok (units_of w)
  units_meta-ok w h = is_ok-value [] (units_meta w.token_units) h

-- Whether an id is in a list.
abbrev pub id_in_list : Text → List Text → Bool
id_in_list id ids = any (λ u. same id u) ids

-- The loop that sorts units into those that a test sends and those that are kept.
unfoldable pub split : (TokenUnit → Bool) → List TokenUnit → List TokenUnit × List TokenUnit
split sends [] = ([], [])
split sends (unit ∷ units) =
    let rest = split sends units in
    if sends unit then (unit ∷ rest.0, rest.1) else (rest.0, unit ∷ rest.1)

-- The wallet itself, the remainder wallet, and the recipient where there is one.
unfoldable pub split_units :
    Wallet → List Text → Wallet → Option Wallet → Wallet × Wallet × Option Wallet
split_units w units remainder recipient =
    if is_empty units
    then (w, remainder, recipient)
    else (let (sent, kept) = split (λ unit. id_in_list unit.id units) w.token_units in
        (
          record w { token_units = sent },
          record remainder { token_units = kept },
          elim recipient [ none ↦ none | some r ↦ some (record r { token_units = sent }) ],
        ))

-- Each recipient's own units; a recipient without a list has none.
unfoldable pub give_units : List TokenUnit → List (List Text) → List Wallet → List Wallet
give_units units lists [] = []
give_units units [] (r ∷ recipients) =
    record r { token_units = [] } ∷ give_units units [] recipients
give_units units (ids ∷ lists) (r ∷ recipients) =
    record r { token_units = (split (λ unit. id_in_list unit.id ids) units).0 }
    ∷ give_units units lists recipients

-- The wallet itself, the recipients and the remainder wallet.
unfoldable pub split_units_multi :
    Wallet → List (List Text) → List Wallet → Wallet → Wallet × List Wallet × Wallet
split_units_multi w lists recipients remainder =
    if not (any (λ ids. not (is_empty ids)) lists)
    then (w, recipients, remainder)
    else (let (sent, kept) = split (λ unit. any (id_in_list unit.id) lists) w.token_units in
        (
          record w { token_units = sent },
          give_units w.token_units lists recipients,
          record remainder { token_units = kept },
        ))

-- ===== src/Json.antt =====
-- Values of `nlohmann::json` as the code builds them. The library itself (parsing, printing) is not
-- in the repository's own code: `dump` is a parameter, see `Libraries`.
use knish_io_client_cpp.Base.{
  List, [], ◌∷◌, Text, Bool, true, false, ◌&&◌, ◌||◌, ltb, ◌==◌, if◌then◌else◌, same, all, Option,
  none, some,
}
use knish_io_client_cpp.Base.Int.{ℤ, magnitude}

mutual
  pub data Json : Type 0 where
    null : Json
    boolean : Bool → Json
    number : ℤ → Json
    -- A number that is not an integer, by its text.
    real : Text → Json
    text : Text → Json
    array : Items → Json
    object : Fields → Json

  pub data Items : Type 0 where
    nil : Items
    cons : Json → Items → Items

  pub data Fields : Type 0 where
    end : Fields
    field : Text → Json → Fields → Fields

-- `nlohmann::json::array({…})`
abbrev pub items : List Json → Items
items [] = Items.nil
items (j ∷ js) = Items.cons j (items js)

abbrev pub json_array : List Json → Json
json_array js = Json.array (items js)

-- `operator<` of two strings.
unfoldable pub before : Text → Text → Bool
before [] [] = false
before [] (y ∷ ys) = true
before (x ∷ xs) [] = false
before (x ∷ xs) (y ∷ ys) = ltb x y || x == y && before xs ys

-- `object[key] = value`, with the keys in order.
unfoldable pub put : Text → Json → Fields → Fields
put key value Fields.end = Fields.field key value Fields.end
put key value (Fields.field k v rest) =
    let later = put key value rest in
    if same key k
    then Fields.field key value rest
    else if before key k
    then Fields.field key value (Fields.field k v rest)
    else Fields.field k v later

-- `j.find(key)` in an object.
unfoldable pub find : Text → Fields → Option Json
find key Fields.end = none
find key (Fields.field k v rest) = let later = find key rest in if same key k then some v else later

-- What the printer of the library prints, and the parser reads back: text of ASCII characters, integers of 64
-- bits, and objects with their keys in order, as they are in a `std::map`.
abbrev pub is_ascii : Text → Bool
is_ascii s = all (λ c. ltb c 128) s

abbrev pub precedes : Text → Fields → Bool
precedes key Fields.end = true
precedes key (Fields.field k v rest) = before key k

unfoldable mutual
  pub is_plain : Json → Bool
  is_plain Json.null = true
  is_plain (Json.boolean b) = true
  is_plain (Json.number n) = ltb (magnitude n) 9223372036854775808
  is_plain (Json.real s) = false
  is_plain (Json.text s) = is_ascii s
  is_plain (Json.array js) = plain_items js
  is_plain (Json.object fs) = plain_fields fs

  pub plain_items : Items → Bool
  plain_items Items.nil = true
  plain_items (Items.cons j js) = is_plain j && plain_items js

  pub plain_fields : Fields → Bool
  plain_fields Fields.end = true
  plain_fields (Fields.field key value rest) =
      is_ascii key && precedes key rest && is_plain value && plain_fields rest

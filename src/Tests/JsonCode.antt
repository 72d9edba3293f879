-- ===== src/Tests/JsonCode.antt =====
-- A printer and a parser of JSON values that are inverse: postfix code, read back on a stack.
use knish_io_client_cpp.Base.{
  ℕ, ◌+◌, ◌-◌, ◌≡◌, ◌∙◌, refl, ap, Bool, true, false, List, [], ◌∷◌, ◌==◌, ltb, if◌then◌else◌, Text,
  Result, ok, err, json_error, arith,
}
use knish_io_client_cpp.Base.Int.{ℤ, pos, negsuc}
use knish_io_client_cpp.Json.{Json, Items, Fields}
use knish_io_client_cpp.Storage.Libraries.{JsonText, IsExactText}

data Slot : Type 0 where
  value : Json → Slot
  list : Items → Slot
  members : Fields → Slot
  word : Text → Slot

push_char : ℕ → List Slot → List Slot
push_char c (Slot.word w ∷ st) = Slot.word (c ∷ w) ∷ st
push_char c st = st

to_text : List Slot → List Slot
to_text (Slot.word w ∷ st) = Slot.value (Json.text w) ∷ st
to_text st = st

to_real : List Slot → List Slot
to_real (Slot.word w ∷ st) = Slot.value (Json.real w) ∷ st
to_real st = st

to_number : Bool → List Slot → List Slot
to_number positive (Slot.word (n ∷ w) ∷ st) =
    Slot.value (Json.number (if positive then pos n else negsuc n)) ∷ st
to_number positive st = st

to_items : List Slot → List Slot
to_items (Slot.list js ∷ Slot.value j ∷ st) = Slot.list (Items.cons j js) ∷ st
to_items st = st

to_array : List Slot → List Slot
to_array (Slot.list js ∷ st) = Slot.value (Json.array js) ∷ st
to_array st = st

to_fields : List Slot → List Slot
to_fields (Slot.members fs ∷ Slot.value j ∷ Slot.word k ∷ st) =
    Slot.members (Fields.field k j fs) ∷ st
to_fields st = st

to_object : List Slot → List Slot
to_object (Slot.members fs ∷ st) = Slot.value (Json.object fs) ∷ st
to_object st = st

command : ℕ → List Slot → List Slot
unfolding to_text to_real to_number to_items to_array to_fields to_object
command n st =
    if n == 0
    then Slot.value Json.null ∷ st
    else if n == 1
    then Slot.value (Json.boolean true) ∷ st
    else if n == 2
    then Slot.value (Json.boolean false) ∷ st
    else if n == 3
    then Slot.word [] ∷ st
    else if n == 4
    then to_text st
    else if n == 5
    then to_number true st
    else if n == 6
    then to_number false st
    else if n == 7
    then Slot.list Items.nil ∷ st
    else if n == 8
    then to_items st
    else if n == 9
    then to_array st
    else if n == 10
    then Slot.members Fields.end ∷ st
    else if n == 11
    then to_fields st
    else if n == 12
    then to_object st
    else to_real st

run : Text → List Slot → List Slot
unfolding command push_char
run [] st = st
run (n ∷ code) st = if ltb n 14 then run code (command n st) else run code (push_char (n - 14) st)

-- The code of a value, in front of the code that follows.
pub enc_word : Text → Text → Text
enc_word [] rest = 3 ∷ rest
enc_word (c ∷ s) rest = enc_word s ((14 + c) ∷ rest)

unfoldable mutual
  pub enc : Json → Text → Text
  enc Json.null rest = 0 ∷ rest
  enc (Json.boolean true) rest = 1 ∷ rest
  enc (Json.boolean false) rest = 2 ∷ rest
  enc (Json.number (pos n)) rest = enc_word (n ∷ []) (5 ∷ rest)
  enc (Json.number (negsuc n)) rest = enc_word (n ∷ []) (6 ∷ rest)
  enc (Json.real s) rest = enc_word s (13 ∷ rest)
  enc (Json.text s) rest = enc_word s (4 ∷ rest)
  enc (Json.array js) rest = enc_items js (9 ∷ rest)
  enc (Json.object fs) rest = enc_fields fs (12 ∷ rest)

  pub enc_items : Items → Text → Text
  enc_items Items.nil rest = 7 ∷ rest
  enc_items (Items.cons j js) rest = enc j (enc_items js (8 ∷ rest))

  pub enc_fields : Fields → Text → Text
  enc_fields Fields.end rest = 10 ∷ rest
  enc_fields (Fields.field k v fs) rest = enc_word k (enc v (enc_fields fs (11 ∷ rest)))

run-word : (s rest : Text) (st : List Slot) → run (enc_word s rest) st ≡ run rest (Slot.word s ∷ st)
unfolding run enc_word push_char
run-word [] rest st = refl
run-word (c ∷ s) rest st =
    let big : ltb (14 + c) 14 ≡ false = ground arith in
    let less : 14 + c - 14 ≡ c = omega arith in
    run-word s ((14 + c) ∷ rest) st ∙ rw (big, less) refl

mutual
  unfolding run enc

  run-enc :
      (j : Json) (rest : Text) (st : List Slot) → run (enc j rest) st ≡ run rest (Slot.value j ∷ st)
  run-enc Json.null rest st = refl
  run-enc (Json.boolean true) rest st = refl
  run-enc (Json.boolean false) rest st = refl
  run-enc (Json.number (pos n)) rest st = run-word (n ∷ []) (5 ∷ rest) st
  run-enc (Json.number (negsuc n)) rest st = run-word (n ∷ []) (6 ∷ rest) st
  run-enc (Json.real s) rest st = run-word s (13 ∷ rest) st
  run-enc (Json.text s) rest st = run-word s (4 ∷ rest) st
  run-enc (Json.array js) rest st = run-items js (9 ∷ rest) st
  run-enc (Json.object fs) rest st = run-fields fs (12 ∷ rest) st

  run-items :
      (js : Items) (rest : Text) (st : List Slot)
      → run (enc_items js rest) st ≡ run rest (Slot.list js ∷ st)
  run-items Items.nil rest st = refl
  run-items (Items.cons j js) rest st =
      run-enc j (enc_items js (8 ∷ rest)) st ∙ run-items js (8 ∷ rest) (Slot.value j ∷ st)

  run-fields :
      (fs : Fields) (rest : Text) (st : List Slot)
      → run (enc_fields fs rest) st ≡ run rest (Slot.members fs ∷ st)
  run-fields Fields.end rest st = refl
  run-fields (Fields.field k v fs) rest st =
      run-word k (enc v (enc_fields fs (11 ∷ rest))) st
      ∙ run-enc v (enc_fields fs (11 ∷ rest)) (Slot.word k ∷ st)
      ∙ run-fields fs (11 ∷ rest) (Slot.value v ∷ Slot.word k ∷ st)

result : List Slot → Result Json
result (Slot.value j ∷ []) = ok j
result st = err json_error

string_of : Json → Result Text
string_of (Json.text s) = ok s
string_of j = err json_error

boolean_of : Json → Result Bool
boolean_of (Json.boolean b) = ok b
boolean_of j = err json_error

int64_of : Json → Result ℤ
int64_of (Json.number n) = ok n
int64_of j = err json_error

uint32_of : Json → Result ℕ
uint32_of (Json.number (pos n)) = ok n
uint32_of j = err json_error

pub test_json : JsonText
unfolding run enc result string_of boolean_of int64_of uint32_of
test_json = record {
  parse = λ t. result (run t []);
  dump = λ j. ok (enc j []);
  get_string = string_of;
  get_boolean = boolean_of;
  get_int64 = int64_of;
  get_uint32 = uint32_of;
}

pub test_json-IsExactText : IsExactText test_json
unfolding test_json result
test_json-IsExactText = record {
  parse-dump = λ j h. (enc j [], refl, ap result (run-enc j [] []));
  get_string-text = λ s. refl;
  get_boolean-boolean = λ b. refl;
  get_int64-number = λ n h. refl;
  get_uint32-number = λ n h. refl;
}

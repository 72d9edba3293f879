-- ===== src/Tests/Messages.antt =====
-- A run of the theorem on messages, with boxes that put one byte before the text.
use knish_io_client_cpp.Base.{
  ℕ, ◌≡◌, refl, sym, ap, Bool, true, false, List, [], ◌∷◌, length, replicate, Text, codes, ok,
  arith, Option, none, some,
}
use knish_io_client_cpp.Message.{Sodium, IsSealedBox, encrypt_message, decrypt_message}
use knish_io_client_cpp.Message.RoundTrip.{decrypt_message-encrypt_message}
use knish_io_client_cpp.Tests.Storing.{are_bytes, bytes_of}

abbrev seal_when : Bool → Text → Option (List ℕ)
seal_when true message = some (7 ∷ message)
seal_when false message = none

abbrev unsealed : List ℕ → Option Text
unsealed [] = none
unsealed (b ∷ bs) = some bs

abbrev test_pair : List ℕ × List ℕ
test_pair = (replicate 32 1, replicate 32 2)

abbrev test_sodium : Sodium
test_sodium = record {
  ready = true;
  public_key_bytes = 32;
  secret_key_bytes = 32;
  seal_bytes = 1;
  box_seal = λ drawn message public_key. seal_when (are_bytes message) message;
  box_seal_open = λ boxed public_key private_key. unsealed boxed;
  box_keypair = λ drawn. some test_pair;
}

pair_or : List ℕ × List ℕ → Option (List ℕ × List ℕ) → List ℕ × List ℕ
pair_or default none = default
pair_or default (some pair) = pair

box_or : List ℕ → Option (List ℕ) → List ℕ
box_or default none = default
box_or default (some boxed) = boxed

sealed-lem :
    (b : Bool) (message boxed : List ℕ)
    → seal_when b message ≡ some boxed
    → (7 ∷ message ≡ boxed) × (b ≡ true)
unfolding box_or
sealed-lem true message boxed h = (ap (box_or []) h, refl)
sealed-lem false message boxed h = cc

test_sodium-IsSealedBox : IsSealedBox test_sodium
unfolding pair_or
test_sodium-IsSealedBox = record {
  keypair-length = λ drawn public_key private_key h. (
    ap (λ o. length ((pair_or test_pair o).0)) (sym h),
    ap (λ o. length ((pair_or test_pair o).1)) (sym h),
  );
  open-seal = λ seed drawn public_key private_key boxed message pair h.
      let (e, bytes) = sealed-lem (are_bytes message) message boxed h in
      (rw⁻¹ e (omega arith), rw⁻¹ e (omega arith, bytes_of message bytes), rw⁻¹ e refl);
}

decrypt_message-encrypt_message_example :
    (e : Text) × (encrypt_message test_sodium [] (codes "hello") (replicate 32 1) ≡ ok e)
    × (decrypt_message test_sodium e (replicate 32 1) (replicate 32 2) ≡ ok (codes "hello"))
unfolding are_bytes
decrypt_message-encrypt_message_example =
    decrypt_message-encrypt_message test_sodium test_sodium-IsSealedBox refl [] [] (replicate 32 1)
      (replicate 32 2) (7 ∷ codes "hello") (codes "hello") refl refl

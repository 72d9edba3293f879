-- ===== src/Tests/Values.antt =====
-- Values of the functions at concrete inputs.
use knish_io_client_cpp.Base.{◌≡◌, refl, true, [], ◌∷◌, codes, ok, some}
use knish_io_client_cpp.Base.Int.{pos, negsuc, ◌+ℤ◌, ◌-ℤ◌}
use knish_io_client_cpp.Codec.Hex.{is_hex_digit}
use knish_io_client_cpp.Codec.Base64.{to_base64, from_base64, is_strict_base64}
use knish_io_client_cpp.BigInt.{constant_time_hex_add}
use knish_io_client_cpp.Radix.{
  charset_base_convert, strlen, skip_zeros, convert_digits, pack_digits, head_digits, convert_loop,
}
use knish_io_client_cpp.Ots.{
  symbol_value, enumerate, total_from, normalize_step, normalize_pass, normalize_loop, normalize,
}

uneven : normalize (enumerate (codes "0g8z9a")) ≡ (negsuc 7 ∷ pos 7 ∷ negsuc 0 ∷ pos 0 ∷ pos 2 ∷ [])
unfolding normalize normalize_loop normalize_pass normalize_step total_from enumerate symbol_value
    ◌+ℤ◌ ◌-ℤ◌
uneven = refl

carries :
    constant_time_hex_add (codes "ffffffffFFFFFFFF") (codes "01") ≡ ok (codes "10000000000000000")
unfolding constant_time_hex_add
carries = refl

base17 :
    charset_base_convert (codes "00ff1234567890") 16 17 (some (codes "0123456789abcdefg"))
    ≡ ok (codes "831g0c79fb2c")
unfolding charset_base_convert strlen skip_zeros convert_digits is_hex_digit pack_digits head_digits
    convert_loop
base17 = refl

abc : to_base64 (codes "ab") ≡ codes "YWI="
unfolding to_base64
abc = refl

cba : from_base64 (codes "YWI=YWJj") ≡ codes "ababc"
unfolding from_base64
cba = refl

strict_abc : is_strict_base64 (codes "YWI=") ≡ true
unfolding is_strict_base64
strict_abc = refl

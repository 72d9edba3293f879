-- ===== src/Libraries.antt =====
-- What the client takes from code that is not its own: the vendored Keccak sponge and the JSON printer.
use knish_io_client_cpp.Base.{ℕ, ◌≡◌, List, length, All, IsByte, Text, Result}
use knish_io_client_cpp.Json.{Json}

pub record Libraries : Type 0 where
  -- `FIPS202_SHAKE256`: as many bytes of output as are asked for.
  pub fips202_shake256 : Text → ℕ → List ℕ
  pub length-fips202_shake256 : (s : Text) (n : ℕ) → length (fips202_shake256 s n) ≡ n
  pub fips202_shake256-bytes : (s : Text) (n : ℕ) → All IsByte (fips202_shake256 s n)
  -- `nlohmann::json::dump()`, which throws on text that is not UTF-8.
  pub dump : Json → Result Text

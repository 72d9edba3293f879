-- ===== src/Ots.antt =====
-- The one-time signature of src/Molecule.cpp on texts: the symbols of a molecular hash, their
-- normalization, and the hash chains. Where the build has the optional kcore library, the same chains are
-- computed there; the model is of the code without it.
pub mod Passes
pub mod Normalize
pub mod Chains
use knish_io_client_cpp.Base.{
  ℕ, zero, suc, ◌+◌, ◌-◌, ◌≡◌, refl, Bool, true, false, ◌&&◌, List, [], ◌∷◌, ◌++◌, leb,
  if◌then◌else◌, Text, codes, Result, ok, err, ◌>>=◌, out_of_range,
}
use knish_io_client_cpp.Base.Int.{ℤ, pos, negsuc, pos_part, neg_part, ◌+ℤ◌, ◌-ℤ◌, ltb_ℤ, eqb_ℤ}
use knish_io_client_cpp.Libraries.{Libraries}
use knish_io_client_cpp.Wallet.{hash_chain}

-- The value of a symbol, where it has one: '0' … '9' are -8 … 1 and 'a' … 'g' are 2 … 8.
unfoldable pub symbol_value : ℕ → List ℤ
symbol_value c =
    if leb b'0' c && leb c b'7'
    then negsuc (b'7' - c) ∷ []
    else if leb b'8' c && leb c b'9'
    then pos (c - b'8') ∷ []
    else if leb b'a' c && leb c b'g'
    then pos (2 + (c - b'a')) ∷ []
    else []

-- A character that is no symbol is passed over.
unfoldable pub enumerate : Text → List ℤ
enumerate [] = []
enumerate (c ∷ hash) = symbol_value c ++ enumerate hash

-- `for (auto &c : …) total += c;`
unfoldable pub total_from : ℤ → List ℤ → ℤ
total_from total [] = total
total_from total (c ∷ cs) = total_from (total +ℤ c) cs

-- One turn of the inner loop: whether the symbol moves, the symbol, and the total.
unfoldable pub normalize_step : Bool → ℤ → ℤ → Bool × ℤ × ℤ
normalize_step below total c =
    if (if below then ltb_ℤ c (pos 8) else ltb_ℤ (negsuc 7) c)
    then (
      true,
      (if below then c +ℤ pos 1 else c -ℤ pos 1),
      (if below then total +ℤ pos 1 else total -ℤ pos 1),
    )
    else (false, c, total)

-- The inner loop, which stops when a move brings the total to zero.
unfoldable pub normalize_pass : Bool → ℤ → List ℤ → List ℤ × ℤ
normalize_pass below total [] = ([], total)
normalize_pass below total (c ∷ cs) =
    let (moved, next, now) = normalize_step below total c in
    let rest = normalize_pass below now cs in
    if moved && eqb_ℤ now (pos 0) then (next ∷ cs, now) else (next ∷ rest.0, rest.1)

-- The outer loop, on fuel.
unfoldable pub normalize_loop : ℕ → Bool → ℤ → List ℤ → List ℤ
normalize_loop zero below total cs = cs
normalize_loop (suc fuel) below total cs =
    let (next, now) = normalize_pass below total cs in
    let rest = normalize_loop fuel below now next in if eqb_ℤ total (pos 0) then cs else rest

-- Each pass brings the total closer to zero, so that its distance from zero is fuel enough.
unfoldable pub normalize : List ℤ → List ℤ
normalize mapped =
    let total = total_from (pos 0) mapped in
    normalize_loop (pos_part total + neg_part total) (ltb_ℤ total (pos 0)) total mapped

-- Signing hashes chunk i 8 - n[i] times, and verification 8 + n[i] times more.
abbrev pub sign_rounds : ℤ → ℤ
sign_rounds n = pos 8 -ℤ n

abbrev pub verify_rounds : ℤ → ℤ
verify_rounds n = pos 8 +ℤ n

module _ (lib : Libraries) where
  -- The loop over the chunks: chunk i is hashed `count (normalized[i])` times, and the results are joined.
  -- The source does not test the index; reading past the end is the error `out_of_range` here.
  unfoldable pub run_chains : (ℤ → ℤ) → List ℤ → List Text → Result Text
  run_chains count normalized [] = ok []
  run_chains count [] (chunk ∷ chunks) = err out_of_range
  run_chains count (n ∷ normalized) (chunk ∷ chunks) = do
    working ← hash_chain lib (pos_part (count n)) chunk
    rest ← run_chains count normalized chunks
    ok (working ++ rest)

  unfoldable pub sign_chains : List ℤ → List Text → Result Text
  sign_chains = run_chains sign_rounds

  unfoldable pub verify_chains : List ℤ → List Text → Result Text
  verify_chains = run_chains verify_rounds

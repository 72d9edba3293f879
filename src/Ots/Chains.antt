-- ===== src/Ots/Chains.antt =====
-- The chains of signing and of verification meet: 8 - n rounds and then 8 + n rounds are 16 rounds.
use knish_io_client_cpp.Base.{
  ℕ, suc, ◌+◌, ◌*◌, ◌≤◌, ◌≡◌, refl, ap, ◌∙◌, List, [], ◌∷◌, map, arith, length, concat, All,
  All-append, length-append, Text, ok,
}
use knish_io_client_cpp.Base.Int.{ℤ, pos, pos_part, ◌+ℤ◌, ◌-ℤ◌}
use knish_io_client_cpp.Libraries.{Libraries}
use knish_io_client_cpp.Codec.Hex.{IsLowerHex}
use knish_io_client_cpp.Wallet.Keys.{
  chain, hash_chain-ok, chain-add, length-chain, chain-IsLowerHex,
}
use knish_io_client_cpp.Ots.{run_chains, sign_rounds, verify_rounds}
use knish_io_client_cpp.Ots.Passes.{InRange}

-- Each chunk, hashed as often as its symbol says.
abbrev pub chained : Libraries → (ℤ → ℤ) → List ℤ → List Text → List Text
chained lib count [] chunks = []
chained lib count (n ∷ ns) [] = []
chained lib count (n ∷ ns) (chunk ∷ chunks) =
    chain lib (pos_part (count n)) chunk ∷ chained lib count ns chunks

module _ (lib : Libraries) where
  pub run_chains-ok :
      (count : ℤ → ℤ) (ns : List ℤ) (chunks : List Text)
      → length chunks ≤ length ns
      → run_chains lib count ns chunks ≡ ok (concat (chained lib count ns chunks))
  unfolding run_chains
  run_chains-ok count [] [] h = refl
  run_chains-ok count [] (chunk ∷ chunks) h = absurd (omega arith)
  run_chains-ok count (n ∷ ns) [] h = refl
  run_chains-ok count (n ∷ ns) (chunk ∷ chunks) h =
      rw (hash_chain-ok lib (pos_part (count n)) chunk, run_chains-ok count ns chunks (omega arith))
        refl

  rounds-sum : (n : ℤ) → InRange n → pos_part (pos 8 -ℤ n) + pos_part (pos 8 +ℤ n) ≡ 16
  unfolding ◌+ℤ◌ ◌-ℤ◌
  rounds-sum n h = ground arith

  -- Verification ends each chain where the address was made, after 16 rounds.
  pub chained-meet :
      (ns : List ℤ) (chunks : List Text)
      → All InRange ns
      → length chunks ≤ length ns
      → chained lib verify_rounds ns (chained lib sign_rounds ns chunks) ≡ map (chain lib 16) chunks
  chained-meet [] [] h l = refl
  chained-meet [] (chunk ∷ chunks) h l = absurd (omega arith)
  chained-meet (n ∷ ns) [] h l = refl
  chained-meet (n ∷ ns) (chunk ∷ chunks) h l =
      rw
        (
          chain-add lib (pos_part (pos 8 -ℤ n)) (pos_part (pos 8 +ℤ n)) chunk
              ∙ ap (λ (k : ℕ). chain lib k chunk) (rounds-sum n h.0),
          chained-meet ns chunks h.1 (omega arith),
        )
        refl

  pub length-chained :
      (count : ℤ → ℤ) (ns : List ℤ) (chunks : List Text)
      → length chunks ≤ length ns
      → length (chained lib count ns chunks) ≡ length chunks
  length-chained count [] [] h = refl
  length-chained count [] (chunk ∷ chunks) h = absurd (omega arith)
  length-chained count (n ∷ ns) [] h = refl
  length-chained count (n ∷ ns) (chunk ∷ chunks) h =
      ap suc (length-chained count ns chunks (omega arith))

  pub chained-whole :
      (count : ℤ → ℤ) (ns : List ℤ) (chunks : List Text)
      → All (λ c. length c ≡ 128) chunks
      → All (λ c. length c ≡ 128) (chained lib count ns chunks)
  chained-whole count [] chunks h = tt
  chained-whole count (n ∷ ns) [] h = tt
  chained-whole count (n ∷ ns) (chunk ∷ chunks) h =
      (length-chain lib (pos_part (count n)) chunk h.0, chained-whole count ns chunks h.1)

  pub chained-IsLowerHex :
      (count : ℤ → ℤ) (ns : List ℤ) (chunks : List Text)
      → All (All IsLowerHex) chunks
      → All (All IsLowerHex) (chained lib count ns chunks)
  chained-IsLowerHex count [] chunks h = tt
  chained-IsLowerHex count (n ∷ ns) [] h = tt
  chained-IsLowerHex count (n ∷ ns) (chunk ∷ chunks) h =
      (chain-IsLowerHex lib (pos_part (count n)) chunk h.0, chained-IsLowerHex count ns chunks h.1)

pub length-concat :
    (size : ℕ) (pieces : List Text)
    → All (λ c. length c ≡ size) pieces
    → length (concat pieces) ≡ length pieces * size
length-concat size [] h = omega arith
length-concat size (p ∷ ps) h =
    omega (arith, length-append p (concat ps), length-concat size ps h.1, h.0)

pub All-concat : (ps : List Text) → All (All IsLowerHex) ps → All IsLowerHex (concat ps)
All-concat [] h = tt
All-concat (p ∷ ps) h = All-append _ p _ h.0 (All-concat ps h.1)

-- ===== src/Atom/Digest.antt =====
-- The molecular hash always has the 64 symbols that a signature needs.
use knish_io_client_cpp.Base.{
  ℕ, zero, suc, ◌-◌, ◌*◌, ◌^◌, ◌≤◌, ◌<◌, ◌≡◌, ◌≢◌, ◌⊎◌, inl, inr, refl, ap, Bool, true, false, ◌&&◌,
  ◌||◌, List, [], ◌∷◌, ◌++◌, map, arith, length, length-map, length-append, length-replicate, all,
  is_empty, not, if◌then◌else◌, Text, Bool-cases, codes, All, All-weaken, concat, leb, ltb, ◌==◌,
  ok, err, Result-cases, Exception, is_ok, replicate, ==_iff,
}
use knish_io_client_cpp.Base.Tables.{all_below, all_below→true}
use knish_io_client_cpp.Libraries.{Libraries}
use knish_io_client_cpp.Hash.{hex_digest, shake256-ok, length-hex_digest, hex_digest-IsLowerHex}
use knish_io_client_cpp.Codec.Hex.{is_hex_digit, IsLowerHex, IsLowerHex→IsHexDigit}
use knish_io_client_cpp.BigInt.{is_signable_hash}
use knish_io_client_cpp.BigInt.Parse.{hex_value}
use knish_io_client_cpp.Radix.{strlen}
use knish_io_client_cpp.Radix.Convert.{symbol_of, charset_base_convert-value, hex_value-lt}
use knish_io_client_cpp.Atom.{
  Atom, has_version, version4_view_json, sponge_atom, hash_atoms, hash_atoms_hex, hash_atoms_base17,
}
use native.Mathlib.Nat.{pow-le-pow_right}

abbrev symbols : Text
symbols = codes "0123456789abcdefg"

abbrev signable : ℕ → Bool
signable c = leb b'0' c && leb c b'9' || leb b'a' c && leb c b'g'

symbols-signable : all_below 17 (λ d. signable (symbol_of symbols d)) ≡ true
unfolding all_below
symbols-signable = refl

all-signable :
    (ds : List ℕ) → All (λ d. d < 17) ds → all signable (map (symbol_of symbols) ds) ≡ true
all-signable [] h = refl
all-signable (d ∷ ds) h =
    rw
      (
        all_below→true 17 (λ d. signable (symbol_of symbols d)) d symbols-signable h.0,
        all-signable ds h.1,
      )
      refl

all-pad : (n : ℕ) (s : Text) → all signable s ≡ true → all signable (replicate n b'0' ++ s) ≡ true
all-pad zero s h = h
all-pad (suc n) s h = all-pad n s h

all-is_hex_digit : (s : Text) → All IsLowerHex s → all is_hex_digit s ≡ true
all-is_hex_digit [] h = refl
all-is_hex_digit (c ∷ s) h = rw (IsLowerHex→IsHexDigit c h.0, all-is_hex_digit s h.1) refl

-- 64 hexadecimal digits need at most 64 digits of base 17.
digits_fit : (v n : ℕ) → v < 2 ^ 256 → (n ≡ 1) ⊎ (17 ^ n ≤ v * 17) → n ≤ 64
digits_fit v n small (inl e) = omega arith
digits_fit v n small (inr h) = elim (Bool-cases (leb n 64)) [
  | inl le ↦ ground arith
  | inr gt ↦
      let long : 65 ≤ n = ground arith in
      let wide : 17 ^ 65 ≤ 17 ^ n = pow-le-pow_right (omega arith) long in absurd (omega arith)
]

symbols_enough : 17 ≤ strlen symbols
unfolding strlen
symbols_enough = omega arith

-- The padding in front.
abbrev padded : Text → Text
padded s = replicate (if ltb (length s) 64 then 64 - length s else 0) b'0' ++ s

padded-is_signable_hash :
    (ds : List ℕ)
    → length ds ≤ 64
    → All (λ d. d < 17) ds
    → is_signable_hash (padded (map (symbol_of symbols) ds)) ≡ true
unfolding is_signable_hash
padded-is_signable_hash ds fits small =
    let s = map (symbol_of symbols) ds in
    let n = if ltb (length s) 64 then 64 - length s else 0 in
    let full : (length (padded s) == 64) ≡ true = (==_iff (length (padded s)) 64).1 (
      ground (
        arith,
        length-append (replicate n b'0') s,
        length-replicate {A = ℕ} n b'0',
        length-map (symbol_of symbols) ds,
      )) in
    rw full (all-pad n s (all-signable ds small))

-- The atoms are hashed in the structured form.
abbrev pub is_versioned : List Atom → Bool
is_versioned atoms = not (is_empty atoms) && all has_version atoms

-- Where the atoms are hashed in the structured form, the library prints their view.
abbrev pub HasView : Libraries → List Atom → Type 0
HasView lib atoms = is_versioned atoms ≡ true → is_ok (version4_view_json lib atoms) ≡ true

module _ (lib : Libraries) where
  -- Atoms without a version are hashed in the legacy form.
  pub legacy-HasView :
      (a : Atom) (atoms : List Atom) → has_version a ≡ false → HasView lib (a ∷ atoms)
  legacy-HasView a atoms e h = let h' = rw e at h in cc

  hash_atoms-legacy :
      (atoms : List Atom)
      → is_versioned atoms ≡ false
      → (input : Text) × (hash_atoms lib atoms ≡ ok (lib.fips202_shake256 input 32))
  unfolding hash_atoms
  hash_atoms-legacy atoms e =
      (concat (map (sponge_atom (length atoms)) atoms), rw e (shake256-ok lib _ 32 (omega arith)))

  hash_atoms-viewed :
      (atoms : List Atom) (view : Text)
      → is_versioned atoms ≡ true
      → version4_view_json lib atoms ≡ ok view
      → hash_atoms lib atoms ≡ ok (lib.fips202_shake256 view 32)
  unfolding hash_atoms
  hash_atoms-viewed atoms view e printed = rw (e, printed) (shake256-ok lib view 32 (omega arith))

  hash_atoms-refused :
      (atoms : List Atom) (thrown : Exception)
      → is_versioned atoms ≡ true
      → version4_view_json lib atoms ≡ err thrown
      → hash_atoms_base17 lib atoms ≡ err thrown
  unfolding hash_atoms hash_atoms_hex hash_atoms_base17
  hash_atoms-refused atoms thrown e printed = rw (e, printed) refl

  hex_digest-ne-nil : (s : Text) → hex_digest lib s 32 ≢ []
  hex_digest-ne-nil s e = absurd (omega (arith, ap length e, length-hex_digest lib s 32))

  hex_digest-lt : (s : Text) → hex_value (hex_digest lib s 32) < 2 ^ 256
  hex_digest-lt s =
      let h =
        hex_value-lt (hex_digest lib s 32)
          (All-weaken _ _ IsLowerHex→IsHexDigit _ (hex_digest-IsLowerHex lib s 32)) in
      rw (ap (λ (n : ℕ). 2 ^ (4 * n)) (length-hex_digest lib s 32)) at h

  base17-of :
      (atoms : List Atom) (input : Text)
      → hash_atoms lib atoms ≡ ok (lib.fips202_shake256 input 32)
      → (h : Text) × (hash_atoms_base17 lib atoms ≡ ok h) × (is_signable_hash h ≡ true)
  unfolding hash_atoms_base17 hash_atoms_hex hex_digest
  base17-of atoms input run =
      let hex = hex_digest lib input 32 in
      let (ds, conv, (value, small, size)) =
        charset_base_convert-value 17 (omega arith) (omega arith) symbols hex symbols_enough
          (all-is_hex_digit hex (hex_digest-IsLowerHex lib input 32)) (hex_digest-ne-nil input) in
      (
        padded (map (symbol_of symbols) ds),
        rw (run, conv) refl,
        padded-is_signable_hash ds
            (digits_fit (hex_value hex) (length ds) (hex_digest-lt input) size) small,
      )

  -- Hashing any list of atoms returns a hash that can be signed, 64 characters of [0-9a-g]; or every atom has a
  -- version, the library throws at printing their view, and hashing throws the same.
  pub hash_atoms_base17-is_signable_hash :
      (atoms : List Atom)
      → ((h : Text) × (hash_atoms_base17 lib atoms ≡ ok h) × (is_signable_hash h ≡ true))
        ⊎ ((thrown : Exception) × (is_versioned atoms ≡ true)
            × (version4_view_json lib atoms ≡ err thrown)
            × (hash_atoms_base17 lib atoms ≡ err thrown))
  hash_atoms_base17-is_signable_hash atoms = elim (Bool-cases (is_versioned atoms)) [
    | inr e ↦ let (input, run) = hash_atoms-legacy atoms e in inl (base17-of atoms input run)
    | inl e ↦ elim (Result-cases (version4_view_json lib atoms)) [
      | inl (thrown, printed) ↦ inr (thrown, e, printed, hash_atoms-refused atoms thrown e printed)
      | inr (view, printed) ↦ inl (base17-of atoms view (hash_atoms-viewed atoms view e printed))
    ]
  ]

  -- Where the view is printed, hashing returns.
  pub hash_atoms_base17-ok :
      (atoms : List Atom)
      → HasView lib atoms
      → (h : Text) × (hash_atoms_base17 lib atoms ≡ ok h) × (is_signable_hash h ≡ true)
  hash_atoms_base17-ok atoms view = elim (hash_atoms_base17-is_signable_hash atoms) [
    | inl hash ↦ hash
    | inr (thrown, e, printed, _) ↦ let h = rw printed at (view e) in absurd cc
  ]

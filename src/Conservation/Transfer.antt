-- ===== src/Conservation/Transfer.antt =====
-- The inner loop of `Molecule::verifyTokenIsotopeV` on a debit and the credits that make it up.
use knish_io_client_cpp.Base.{
  ℕ, ◌+◌, ◌^◌, ◌≤◌, ◌<◌, ◌≡◌, ◌∙◌, refl, ap, true, false, List, [], ◌∷◌, All, Text, codes, length,
  same, same_refl, ok, arith, ==_refl,
}
use knish_io_client_cpp.Base.Int.{pos, sub_ℕ, ◌+ℤ◌, magnitude, int_laws, eq_of_parts}
use knish_io_client_cpp.Base.Decimal.{decimal}
use knish_io_client_cpp.Floats.{Floats, AreExact}
use knish_io_client_cpp.Atom.{Atom}
use knish_io_client_cpp.Transfers.Sums.{total}
use knish_io_client_cpp.Conservation.{has_isotope, is_cross, token_sum, token_loop, token_isotope_v}
use knish_io_client_cpp.Conservation.Shadowed.{OfToken, no_cross, token_loop-seen}

-- A V atom of a token.
abbrev pub IsValueOf : Text → Atom → Type 0
IsValueOf token a = (has_isotope (codes "V") a ≡ true) × (is_cross a ≡ false) × (a.token ≡ token)

-- V atoms of a token, with the amounts that they credit.
pub data Credits (token : Text) : List Atom → List ℕ → Type 0 where
  no_credits : Credits token [] []
  credit :
      {a : Atom} {atoms : List Atom} {n : ℕ} {ns : List ℕ}
      → IsValueOf token a
      → a.value ≡ decimal n
      → Credits token atoms ns
      → Credits token (a ∷ atoms) (n ∷ ns)

Credits-OfToken :
    (token : Text) (atoms : List Atom) (ns : List ℕ)
    → Credits token atoms ns
    → All (OfToken token) atoms × All (λ a. is_cross a ≡ false) atoms
Credits-OfToken token [] [] no_credits = (tt, tt)
Credits-OfToken token (a ∷ atoms) (n ∷ ns) (credit (v, c, t) e rest) =
    let (tokens, plain) = Credits-OfToken token atoms ns rest in
    ((ap (same token) t ∙ same_refl token, tokens), (c, plain))
Credits-OfToken token [] (n ∷ ns) c = elim c [ ]
Credits-OfToken token (a ∷ atoms) [] c = elim c [ ]

step-sum : (k b n : ℕ) → k + n ≤ b → sub_ℕ k b +ℤ pos n ≡ sub_ℕ (k + n) b
step-sum k b n h = eq_of_parts _ _ (grind int_laws)

first-sum : (b : ℕ) → pos 0 +ℤ sub_ℕ 0 b ≡ sub_ℕ 0 b
first-sum b = eq_of_parts _ _ (grind int_laws)

sub-magnitude : (k b : ℕ) → k ≤ b → magnitude (sub_ℕ k b) ≤ b
sub-magnitude k b h = ground arith

sub_self : (b : ℕ) → sub_ℕ b b ≡ pos 0
sub_self b = ground arith

module _ (f : Floats) (exact : AreExact f) where
  token_sum-step :
      (token : Text) (sum : f.Double) (value : f.Double) (a : Atom) (atoms : List Atom)
      → IsValueOf token a
      → f.strtod a.value ≡ (value, length a.value)
      → token_sum f token sum (a ∷ atoms) ≡ token_sum f token (f.add_double sum value) atoms
  unfolding token_sum
  token_sum-step token sum value a atoms (v, c, t) read =
      rw (v, t, same_refl token) (rw (read, ==_refl (length a.value)) refl)

  token_sum-Credits :
      (token : Text) (atoms : List Atom) (ns : List ℕ) (k b : ℕ)
      → Credits token atoms ns
      → k + total ns ≤ b
      → b < 2 ^ 53
      → token_sum f token (exact.double_of (sub_ℕ k b)) atoms
        ≡ ok (exact.double_of (sub_ℕ (k + total ns) b))
  unfolding token_sum
  token_sum-Credits token [] [] k b no_credits h l =
      ap (λ (n : ℕ). ok (exact.double_of (sub_ℕ n b))) {x = k} {y = k + 0} (omega arith)
  token_sum-Credits token (a ∷ atoms) (n ∷ ns) k b (credit v e rest) h l =
      let read : f.strtod a.value ≡ (exact.double_of (pos n), length a.value) =
        rw e (exact.strtod-decimal n (omega arith)) in
      let added =
        exact.add_double_of (sub_ℕ k b) (pos n) (omega (arith, sub-magnitude k b (omega arith)))
          (omega arith) in
      token_sum-step token _ _ a atoms v read
      ∙ ap (λ d. token_sum f token d atoms)
          (added ∙ ap exact.double_of (step-sum k b n (omega arith)))
      ∙ token_sum-Credits token atoms ns (k + n) b rest (omega arith) l
      ∙ ap (λ (j : ℕ). ok (exact.double_of (sub_ℕ j b))) {x = k + n + total ns}
          {y = k + (n + total ns)} (omega arith)
  token_sum-Credits token [] (n ∷ ns) k b c h l = elim c [ ]
  token_sum-Credits token (a ∷ atoms) [] k b c h l = elim c [ ]

  token_sum-transfer :
      (debit : Atom) (atoms : List Atom) (ns : List ℕ) (b : ℕ)
      → IsValueOf debit.token debit
      → debit.value ≡ b'-' ∷ decimal b
      → Credits debit.token atoms ns
      → total ns ≡ b
      → 0 < b
      → b < 2 ^ 53
      → token_sum f debit.token f.zero_double (debit ∷ atoms) ≡ ok (exact.double_of (pos 0))
  token_sum-transfer debit atoms ns b v e credits h some l =
      let read : f.strtod debit.value ≡ (exact.double_of (sub_ℕ 0 b), length debit.value) =
        rw e (exact.strtod-negative b some l) in
      let added =
        exact.add_double_of (pos 0) (sub_ℕ 0 b) (omega arith)
          (omega (arith, sub-magnitude 0 b (omega arith))) in
      token_sum-step debit.token _ _ debit atoms v read
      ∙ ap (λ d. token_sum f debit.token d atoms)
          (ap (λ z. f.add_double z (exact.double_of (sub_ℕ 0 b))) exact.zero_double_of
            ∙ added
            ∙ ap exact.double_of (first-sum b))
      ∙ token_sum-Credits debit.token atoms ns 0 b credits (omega arith) l
      ∙ ap (λ (j : ℕ). ok (exact.double_of (sub_ℕ j b))) {x = 0 + total ns} {y = b} (omega arith)
      ∙ ap (λ z. ok (exact.double_of z)) (sub_self b)

  -- A debit of a positive amount below 2^53 and V atoms of the same token that credit all of it pass the
  -- conservation check.
  pub token_isotope_v-transfer :
      (debit : Atom) (atoms : List Atom) (ns : List ℕ) (b : ℕ)
      → IsValueOf debit.token debit
      → debit.value ≡ b'-' ∷ decimal b
      → Credits debit.token atoms ns
      → total ns ≡ b
      → 0 < b
      → b < 2 ^ 53
      → token_isotope_v f (debit ∷ atoms) ≡ ok true
  unfolding token_isotope_v token_loop
  token_isotope_v-transfer debit atoms ns b v e credits h some l =
      let (tokens, plain) = Credits-OfToken debit.token atoms ns credits in
      let zero = exact.is_zero_double_of (pos 0) in
      rw (v.1, no_cross atoms plain)
        (rw (v.0, token_sum-transfer debit atoms ns b v e credits h some l, zero)
          (token_loop-seen f debit [] atoms tokens))

-- ===== src/Ots/Normalize.antt =====
-- `Molecule::enumerate` and `Molecule::normalize`: the symbols of a hash and the sum of zero.
use knish_io_client_cpp.Base.{
  ◌==◌, ℕ, zero, suc, ◌≤◌, ◌<◌, ◌≡◌, refl, sym, ap, ◌∙◌, Bool, true, false, ◌&&◌, List, [], ◌∷◌,
  arith, leb, Bool-cases, inl, inr, length, length-append, &&_split, ◌||◌, all, All, All-append,
  Text,
}
use knish_io_client_cpp.Base.Int.{
  magnitude, ℤ, pos, negsuc, pos_part, neg_part, ltb_ℤ, eqb_ℤ, eq_of_parts, int_laws,
}
use knish_io_client_cpp.BigInt.{is_signable_hash}
use knish_io_client_cpp.Ots.{
  symbol_value, enumerate, total_from, normalize_pass, normalize_loop, normalize,
}
use knish_io_client_cpp.Ots.Passes.{
  sum, InRange, total_from-sum, pass-sum, length-pass, pass-InRange, pass-below, pass-above,
}

-- The total is on the side that the loop was entered on.
abbrev OnSide : Bool → ℤ → Type 0
OnSide true total = pos_part total ≡ 0
OnSide false total = neg_part total ≡ 0

pass-progress :
    (below : Bool) (total : ℤ) (cs : List ℤ)
    → total ≡ sum cs
    → OnSide below total
    → eqb_ℤ total (pos 0) ≡ false
    → OnSide below (normalize_pass below total cs).1
      × (magnitude (normalize_pass below total cs).1 < magnitude total)
pass-progress true total cs e side nz =
    let away : 0 < neg_part total = ground (arith, side, nz) in
    let (r, s, t) = pass-below total cs away in
    (r, elim t [ inl l ↦ omega arith | inr n ↦ absurd (omega (arith, ap neg_part e)) ])
pass-progress false total cs e side nz =
    let away : 0 < pos_part total = ground (arith, side, nz) in
    let (r, s, t) = pass-above total cs away in
    (r, elim t [ inl l ↦ omega arith | inr n ↦ absurd (omega (arith, ap pos_part e)) ])

pass-total :
    (below : Bool) (total : ℤ) (cs : List ℤ)
    → total ≡ sum cs
    → (normalize_pass below total cs).1 ≡ sum (normalize_pass below total cs).0
pass-total below total cs e =
    let moved = pass-sum below total cs in
    eq_of_parts _ _
      (omega (int_laws, ap pos_part moved, ap neg_part moved, ap pos_part e, ap neg_part e))

zero_of_magnitude : (a : ℤ) → magnitude a ≤ 0 → a ≡ pos 0
zero_of_magnitude a h = eq_of_parts _ _ (omega arith)

loop-sum :
    (fuel : ℕ) (below : Bool) (total : ℤ) (cs : List ℤ)
    → total ≡ sum cs
    → OnSide below total
    → magnitude total ≤ fuel
    → sum (normalize_loop fuel below total cs) ≡ pos 0
unfolding normalize_loop
loop-sum zero below total cs e side h = sym e ∙ zero_of_magnitude total h
loop-sum (suc fuel) below total cs e side h = elim (Bool-cases (eqb_ℤ total (pos 0))) [
  | inl z ↦ rw z (sym e ∙ eq_of_parts _ _ (ground (arith, z)))
  | inr z ↦ rw z (
      let p = pass-progress below total cs e side z in
      loop-sum fuel below _ _ (pass-total below total cs e) p.0 (omega (arith, p.1)))
]

loop-length :
    (fuel : ℕ) (below : Bool) (total : ℤ) (cs : List ℤ)
    → length (normalize_loop fuel below total cs) ≡ length cs
unfolding normalize_loop
loop-length zero below total cs = refl
loop-length (suc fuel) below total cs = ground (
  arith,
  length-pass below total cs,
  loop-length fuel below (normalize_pass below total cs).1 (normalize_pass below total cs).0,
)

loop-InRange :
    (fuel : ℕ) (below : Bool) (total : ℤ) (cs : List ℤ)
    → All InRange cs
    → All InRange (normalize_loop fuel below total cs)
unfolding normalize_loop
loop-InRange zero below total cs h = h
loop-InRange (suc fuel) below total cs h = elim (Bool-cases (eqb_ℤ total (pos 0))) [
  | inl z ↦ rw z h
  | inr z ↦ rw z (loop-InRange fuel below _ _ (pass-InRange below total cs h))
]

start-OnSide : (total : ℤ) → OnSide (ltb_ℤ total (pos 0)) total
start-OnSide (pos n) = elim (Bool-cases (ltb_ℤ (pos n) (pos 0))) [
  | inl z ↦ absurd (ground (arith, z))
  | inr z ↦ rw z refl
]
start-OnSide (negsuc n) = elim (Bool-cases (ltb_ℤ (negsuc n) (pos 0))) [
  | inl z ↦ rw z refl
  | inr z ↦ absurd (ground (arith, z))
]

-- Normalization ends with symbols whose sum is zero: the loop's condition has failed, on the fuel given.
pub normalize-sum : (cs : List ℤ) → sum (normalize cs) ≡ pos 0
unfolding normalize
normalize-sum cs =
    let total = total_from (pos 0) cs in
    let e : total ≡ sum cs = total_from-sum (pos 0) cs ∙ eq_of_parts _ _ (omega int_laws) in
    loop-sum _ (ltb_ℤ total (pos 0)) total cs e (start-OnSide total) (omega arith)

pub length-normalize : (cs : List ℤ) → length (normalize cs) ≡ length cs
unfolding normalize
length-normalize cs = loop-length _ _ _ cs

pub normalize-InRange : (cs : List ℤ) → All InRange cs → All InRange (normalize cs)
unfolding normalize
normalize-InRange cs h = loop-InRange _ _ _ cs h

symbol_value-InRange : (c : ℕ) → All InRange (symbol_value c)
unfolding symbol_value
symbol_value-InRange c = ground arith

pub enumerate-InRange : (hash : Text) → All InRange (enumerate hash)
unfolding enumerate
enumerate-InRange [] = tt
enumerate-InRange (c ∷ hash) =
    All-append _ (symbol_value c) _ (symbol_value-InRange c) (enumerate-InRange hash)

-- A symbol has one value.
length-symbol_value :
    (c : ℕ)
    → (leb b'0' c && leb c b'9' || leb b'a' c && leb c b'g') ≡ true
    → length (symbol_value c) ≡ 1
unfolding symbol_value
length-symbol_value c h = ground arith

pub length-enumerate :
    (hash : Text)
    → all (λ c. leb b'0' c && leb c b'9' || leb b'a' c && leb c b'g') hash ≡ true
    → length (enumerate hash) ≡ length hash
unfolding enumerate
length-enumerate [] h = refl
length-enumerate (c ∷ hash) h =
    let (h0, h1) = &&_split _ _ h in
    omega (
      arith,
      length-append (symbol_value c) (enumerate hash),
      length-symbol_value c h0,
      length-enumerate hash h1,
    )

-- The symbols of a hash that can be signed, normalized, are 64 numbers from -8 to 8.
pub normalize-shape :
    (hash : Text)
    → is_signable_hash hash ≡ true
    → (length (normalize (enumerate hash)) ≡ 64) × All InRange (normalize (enumerate hash))
unfolding is_signable_hash
normalize-shape hash s = (
  elim (Bool-cases (length hash == 64)) [
    | inl e ↦
        length-normalize (enumerate hash) ∙ length-enumerate hash (rw e at s) ∙ ground (arith, e)
    | inr e ↦ (let no : false ≡ true = rw e at s in cc)
  ],
  normalize-InRange (enumerate hash) (enumerate-InRange hash),
)

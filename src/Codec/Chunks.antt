-- ===== src/Codec/Chunks.antt =====
-- `chunkSubstr` of src/utility.cpp.
use knish_io_client_cpp.Base.{
  ℕ, zero, suc, ◌+◌, ◌-◌, ◌*◌, ◌/◌, ◌≤◌, ◌<◌, ◌≡◌, refl, sym, ap, ◌∙◌, List, [], ◌∷◌, ◌++◌, arith,
  length, take, drop, concat, Text, take-append-drop, drop-drop, length-drop, length-take, All,
  All-take, All-drop,
}

-- `ceil((double)length / size)`, exact for lengths below 2^53; no caller passes size 0.
unfoldable pub chunk_count : ℕ → ℕ → ℕ
chunk_count len size = (len + size - 1) / size

chunk_loop : ℕ → ℕ → Text → ℕ → List Text
chunk_loop zero offset str size = []
chunk_loop (suc left) offset str size =
    take size (drop offset str) ∷ chunk_loop left (offset + size) str size

unfoldable pub chunk_substr : Text → ℕ → List Text
unfolding chunk_count chunk_loop
chunk_substr str size = chunk_loop (chunk_count (length str) size) 0 str size

drop-all : (n : ℕ) (s : Text) → length s ≤ n → drop n s ≡ []
drop-all zero [] h = refl
drop-all zero (c ∷ s) h = absurd (omega arith)
drop-all (suc n) [] h = refl
drop-all (suc n) (c ∷ s) h = drop-all n s (omega arith)

chunk_loop-concat :
    (n offset : ℕ) (s : Text) (size : ℕ)
    → length s ≤ offset + n * size
    → concat (chunk_loop n offset s size) ≡ drop offset s
unfolding chunk_loop
chunk_loop-concat zero offset s size h = sym (drop-all offset s (omega arith))
chunk_loop-concat (suc n) offset s size h =
    ap (λ t. take size (drop offset s) ++ t)
      (chunk_loop-concat n (offset + size) s size (grind arith) ∙ sym (drop-drop offset size s))
    ∙ take-append-drop size (drop offset s)

pub chunk_count-enough : (len size : ℕ) → 0 < size → len ≤ chunk_count len size * size
unfolding chunk_count
chunk_count-enough len size h = grind arith

-- The pieces, joined, are the text.
pub concat-chunk_substr : (s : Text) (size : ℕ) → 0 < size → concat (chunk_substr s size) ≡ s
unfolding chunk_substr
concat-chunk_substr s size h =
    chunk_loop-concat (chunk_count (length s) size) 0 s size
      (omega (arith, chunk_count-enough (length s) size h))

length-chunk_loop : (n offset : ℕ) (s : Text) (size : ℕ) → length (chunk_loop n offset s size) ≡ n
unfolding chunk_loop
length-chunk_loop zero offset s size = refl
length-chunk_loop (suc n) offset s size = ap suc (length-chunk_loop n (offset + size) s size)

pub length-chunk_substr :
    (s : Text) (size : ℕ) → length (chunk_substr s size) ≡ chunk_count (length s) size
unfolding chunk_substr
length-chunk_substr s size = length-chunk_loop _ 0 s size

chunk_loop-whole :
    (n offset : ℕ) (s : Text) (size : ℕ)
    → offset + n * size ≤ length s
    → All (λ c. length c ≡ size) (chunk_loop n offset s size)
unfolding chunk_loop
chunk_loop-whole zero offset s size h = tt
chunk_loop-whole (suc n) offset s size h = (
  grind (arith, length-take size (drop offset s), length-drop offset s),
  chunk_loop-whole n (offset + size) s size (grind arith),
)

chunk_loop-All :
    (P : ℕ → Type 0) (n offset : ℕ) (s : Text) (size : ℕ)
    → All P s
    → All (All P) (chunk_loop n offset s size)
unfolding chunk_loop
chunk_loop-All P zero offset s size h = tt
chunk_loop-All P (suc n) offset s size h =
    (All-take P size _ (All-drop P offset s h), chunk_loop-All P n (offset + size) s size h)

pub chunk_substr-All :
    (P : ℕ → Type 0) (s : Text) (size : ℕ) → All P s → All (All P) (chunk_substr s size)
unfolding chunk_substr
chunk_substr-All P s size h = chunk_loop-All P _ 0 s size h

take-append : (size : ℕ) (p rest : Text) → length p ≡ size → take size (p ++ rest) ≡ p
take-append zero [] rest h = refl
take-append zero (c ∷ p) rest h = absurd (omega arith)
take-append (suc n) [] rest h = absurd (omega arith)
take-append (suc n) (c ∷ p) rest h = ap (λ t. c ∷ t) (take-append n p rest (omega arith))

drop-append : (size : ℕ) (p rest : Text) → length p ≡ size → drop size (p ++ rest) ≡ rest
drop-append zero [] rest h = refl
drop-append zero (c ∷ p) rest h = absurd (omega arith)
drop-append (suc n) [] rest h = absurd (omega arith)
drop-append (suc n) (c ∷ p) rest h = drop-append n p rest (omega arith)

chunk_loop-pieces :
    (pieces : List Text) (offset : ℕ) (s : Text) (size : ℕ)
    → All (λ c. length c ≡ size) pieces
    → drop offset s ≡ concat pieces
    → chunk_loop (length pieces) offset s size ≡ pieces
unfolding chunk_loop
chunk_loop-pieces [] offset s size h e = refl
chunk_loop-pieces (p ∷ ps) offset s size h e =
    rw
      (
        e,
        take-append size p (concat ps) h.0,
        chunk_loop-pieces ps (offset + size) s size h.1
            (sym (drop-drop offset size s) ∙ rw e (drop-append size p (concat ps) h.0)),
      )
      refl

-- Pieces of 128 characters, joined, are cut into the same pieces.
pub chunk_substr-pieces :
    (pieces : List Text)
    → All (λ c. length c ≡ 128) pieces
    → length (concat pieces) ≡ length pieces * 128
    → chunk_substr (concat pieces) 128 ≡ pieces
unfolding chunk_substr chunk_count
chunk_substr-pieces pieces h e =
    ap (λ (n : ℕ). chunk_loop n 0 (concat pieces) 128) {y = length pieces} (omega arith)
    ∙ chunk_loop-pieces pieces 0 (concat pieces) 128 h refl

-- A text of whole pieces is cut into pieces of 128 characters.
pub chunk_substr-whole :
    (s : Text) (k : ℕ)
    → length s ≡ k * 128
    → All (λ c. length c ≡ 128) (chunk_substr s 128) × (length (chunk_substr s 128) ≡ k)
unfolding chunk_substr chunk_count
chunk_substr-whole s k h =
    (chunk_loop-whole _ 0 s 128 (omega arith), length-chunk_loop _ 0 s 128 ∙ omega arith)

at_most : (len count size : ℕ) → 0 < len → len ≤ size * count → (len + size - 1) / size ≤ count
at_most len count size h e = grind arith

-- Cutting into `count` parts of the size that the ceiling gives makes at most `count` pieces.
pub chunk_count-at_most :
    (len count : ℕ) → 0 < len → 0 < count → chunk_count len ((len + count - 1) / count) ≤ count
unfolding chunk_count
chunk_count-at_most len count h k =
    let size = (len + count - 1) / count in
    at_most len count size h (omega (arith, chunk_count-enough len count k))

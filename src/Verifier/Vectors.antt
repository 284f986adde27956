-- ===== src/Verifier/Vectors.antt =====
-- The words of a text and the arithmetic on embeddings, which are lists of floats.
use Prim.Native.Char.{Char, code}
use hyper_looms.Prelude.{
  ℕ, zero, suc, String, Bool, ◌||◌, ◌&&◌, List, [], ◌∷◌, nat_beq, leb, if◌then◌else◌,
}
use hyper_looms.Float.{FloatOps}

-- [a-zA-Z0-9_]
is_word_char : Char → Bool
is_word_char c =
    let n = code c in
    (leb 97 n && leb n 122) || ((leb 65 n && leb n 90) || ((leb 48 n && leb n 57) || nat_beq n 95))

-- the word that the text begins with, and the words after it
words : String → String × List String
unfolding is_word_char
words String.[] = ("", [])
words (String.◌∷◌ c s) =
    let (word, rest) = words s in
    if is_word_char c
    then (String.◌∷◌ c word, rest)
    else ("", elim word [ String.[] ↦ rest | String.◌∷◌ d w ↦ String.◌∷◌ d w ∷ rest ])

-- `_word_pattern.findall(s)`
unfoldable pub tokens : String → List String
unfolding words
tokens s =
    let (word, rest) = words s in
    elim word [ String.[] ↦ rest | String.◌∷◌ d w ↦ String.◌∷◌ d w ∷ rest ]

module _ (F : FloatOps) where
  open F use {Float, lit, add, mul}

  -- vector[bucket] += 1.0
  unfoldable pub bump : List Float → ℕ → List Float
  bump [] i = []
  bump (x ∷ v) zero = add x (lit 10 1) ∷ v
  bump (x ∷ v) (suc i) = x ∷ bump v i

  dot_from : Float → List Float → List Float → Float
  dot_from acc [] w = acc
  dot_from acc (x ∷ v) [] = acc
  dot_from acc (x ∷ v) (y ∷ w) = dot_from (add acc (mul x y)) v w

  -- sum(a * b for a, b in zip(v, w))
  unfoldable pub dot : List Float → List Float → Float
  unfolding dot_from
  dot v w = dot_from (lit 0 0) v w

  -- centroid[index] += value, for the values of the second vector
  unfoldable pub add_vectors : List Float → List Float → List Float
  add_vectors [] w = []
  add_vectors (x ∷ v) [] = x ∷ v
  add_vectors (x ∷ v) (y ∷ w) = add x y ∷ add_vectors v w

  -- [0.0] * n
  unfoldable pub zero_vector : ℕ → List Float
  zero_vector zero = []
  zero_vector (suc n) = lit 0 1 ∷ zero_vector n

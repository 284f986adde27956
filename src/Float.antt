-- ===== src/Float.antt =====
-- Python's `float` and the built-in functions on it, which the program computes with and does not
-- implement: a parameter of every component. `FloatLaws` is what the theorems use of them, for
-- values that are not NaN (request models refuse NaN where they set a bound).
pub mod Clamp
pub mod Fixed
use hyper_looms.Prelude.{ℕ, ◌*◌, ◌^◌, ◌≤◌, ◌<◌, ◌≡◌, Bool, true, false, not, if◌then◌else◌}

pub record FloatOps : Type 1 where
  pub Float : Type 0
  -- the literal m / 10^k: 0.65 is `lit 65 2`; an integer that is converted is `lit n 0`
  pub lit : ℕ → ℕ → Float
  pub add : Float → Float → Float
  pub sub : Float → Float → Float
  pub mul : Float → Float → Float
  pub div : Float → Float → Float
  pub sqrt : Float → Float
  pub lt : Float → Float → Bool
  pub le : Float → Float → Bool
  -- round(x, k)
  pub round : Float → ℕ → Float
  -- int(round(x)) of x ≥ 0
  pub round_nat : Float → ℕ

-- The order is total (no NaN), literals are ordered as decimals, sums and roundings of non-negative
-- values are non-negative, and rounding is to the nearest decimal of that many digits, so it does
-- not pass one, and what it leaves above zero is at least the least such decimal (IEEE 754 and
-- Python's `round`).
pub record FloatLaws (F : FloatOps) : Type 0 where
  pub le_refl : (a : F.Float) → F.le a a ≡ true
  pub le_trans : (a b c : F.Float) → F.le a b ≡ true → F.le b c ≡ true → F.le a c ≡ true
  pub lt_not_le : (a b : F.Float) → F.lt a b ≡ not (F.le b a)
  pub le_total : (a b : F.Float) → F.le a b ≡ false → F.le b a ≡ true
  pub lit_le : (m k n j : ℕ) → m * 10 ^ j ≤ n * 10 ^ k → F.le (F.lit m k) (F.lit n j) ≡ true
  pub add_nonneg :
      (a b : F.Float)
      → F.le (F.lit 0 0) a ≡ true
      → F.le (F.lit 0 0) b ≡ true
      → F.le (F.lit 0 0) (F.add a b) ≡ true
  pub round_nonneg :
      (a : F.Float) (k : ℕ) → F.le (F.lit 0 0) a ≡ true → F.le (F.lit 0 0) (F.round a k) ≡ true
  pub lit_pos : (m k : ℕ) → 0 < m → k ≤ 4 → F.lt (F.lit 0 0) (F.lit m k) ≡ true
  pub le-round :
      (m k : ℕ) (a : F.Float)
      → k ≤ 4
      → F.le (F.lit m k) a ≡ true
      → F.le (F.lit m k) (F.round a 4) ≡ true
  pub round_step :
      (a : F.Float) (k : ℕ)
      → k ≤ 4
      → F.lt (F.lit 0 0) (F.round a k) ≡ true
      → F.le (F.lit 1 k) (F.round a k) ≡ true

module _ (F : FloatOps) where
  open F use {Float, lt}

  -- max(a, b) of Python: the second where it is greater
  abbrev pub max_float : Float → Float → Float
  max_float a b = if lt a b then b else a

  -- min(a, b) of Python: the second where it is less
  abbrev pub min_float : Float → Float → Float
  min_float a b = if lt b a then b else a

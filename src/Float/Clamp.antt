-- ===== src/Float/Clamp.antt =====
-- `max(lo, min(hi, x))` lies between its bounds.
use hyper_looms.Prelude.{ℕ, ◌≤◌, ◌<◌, ◌≡◌, true, arith}
use hyper_looms.Float.{FloatOps, FloatLaws, max_float, min_float}

module _ (F : FloatOps) (laws : FloatLaws F) where
  open F use {Float, le}
  open laws use {le_refl, lt_not_le, le_total}

  pub le-max_left : (a b : Float) → le a (max_float F a b) ≡ true
  le-max_left a b = ground (arith, lt_not_le a b, le_total b a, le_refl a)

  pub le-max_right : (a b : Float) → le b (max_float F a b) ≡ true
  le-max_right a b = ground (arith, lt_not_le a b, le_refl b)

  pub min-le_left : (a b : Float) → le (min_float F a b) a ≡ true
  min-le_left a b = ground (arith, lt_not_le b a, le_total a b, le_refl a)

  pub min-le_right : (a b : Float) → le (min_float F a b) b ≡ true
  min-le_right a b = ground (arith, lt_not_le b a, le_refl b)

  pub max-le : (a b c : Float) → le a c ≡ true → le b c ≡ true → le (max_float F a b) c ≡ true
  max-le a b c h k = ground arith

  pub le-min : (a b c : Float) → le c a ≡ true → le c b ≡ true → le c (min_float F a b) ≡ true
  le-min a b c h k = ground arith

  pub lt_of_lt_le : (a b c : Float) → F.lt a b ≡ true → le b c ≡ true → F.lt a c ≡ true
  lt_of_lt_le a b c h k = ground (arith, lt_not_le a b, lt_not_le a c, laws.le_trans b c a k)

  -- What is at least a positive amount of at most four decimals does not round to zero.
  pub round_recorded :
      (m k : ℕ) (a : Float)
      → 0 < m
      → k ≤ 4
      → le (F.lit m k) a ≡ true
      → F.lt (F.lit 0 0) (F.round a 4) ≡ true
  round_recorded m k a some_m digits h =
      lt_of_lt_le (F.lit 0 0) (F.lit m k) (F.round a 4) (laws.lit_pos m k some_m digits)
        (laws.le-round m k a digits h)

  -- max(lo, min(hi, x))
  pub clamp_bounds :
      (lo hi x : Float)
      → le lo hi ≡ true
      → (le lo (max_float F lo (min_float F hi x)) ≡ true)
        × (le (max_float F lo (min_float F hi x)) hi ≡ true)
  clamp_bounds lo hi x h = (le-max_left lo _, max-le lo _ hi h (min-le_left hi x))

-- ===== src/Float/Fixed.antt =====
-- Decimal fixed-point numbers with eight digits: an instance of `FloatOps` that meets the laws and
-- runs. On sums, differences and literals of few digits it is exact decimal arithmetic.
use native.Mathlib.Nat.{
  pow-suc, le-div_iff_mul-le, le_of_mul-le-mul_right, mul-le-mul_right, div-mul-le_self, le_trans,
  le_of_eq,
}
use hyper_looms.Prelude.{
  ℕ, zero, suc, ◌+◌, ◌-◌, ◌*◌, ◌/◌, ◌%◌, ◌^◌, ◌≤◌, ◌<◌, ◌≡◌, true, arith, ltb, leb, if◌then◌else◌,
  nat_beq, ◌||◌, ◌&&◌, ◌⊎◌, inl, inr,
}
use hyper_looms.Prelude.Int.{ℤ, pos, pos_part, neg_part, ◌+ℤ◌, ◌-ℤ◌, ltb_ℤ, leb_ℤ, sub_ℕ}
use hyper_looms.Float.{FloatOps, FloatLaws}

abbrev pub scale : ℕ
scale = 100000000

-- n rounded to a multiple of u, ties to the even multiple
abbrev pub round_to : ℕ → ℕ → ℕ
round_to u n =
    let q = n / u in
    let r = n % u in
    if ltb (2 * r) u || (nat_beq (2 * r) u && nat_beq (q % 2) 0) then q * u else (q + 1) * u

-- A function of the magnitude, with the sign `s` tells: the positive part less the negative part.
abbrev pub on_magnitude : (ℕ → ℕ) → ℤ → ℤ
on_magnitude f a =
    sub_ℕ (if nat_beq (neg_part a) 0 then f (pos_part a) else 0)
      (if nat_beq (neg_part a) 0 then 0 else f (neg_part a))

abbrev pub mul_fixed : ℤ → ℤ → ℤ
mul_fixed a b =
    sub_ℕ ((pos_part a * pos_part b + neg_part a * neg_part b) / scale)
      ((pos_part a * neg_part b + neg_part a * pos_part b) / scale)

abbrev pub div_fixed : ℤ → ℤ → ℤ
div_fixed a b =
    let d = pos_part b + neg_part b in
    sub_ℕ ((if nat_beq (neg_part b) 0 then pos_part a else neg_part a) * scale / d)
      ((if nat_beq (neg_part b) 0 then neg_part a else pos_part a) * scale / d)

-- The root of n between lo and hi, by halving the distance as often as the first argument says.
abbrev pub root : ℕ → ℕ → ℕ → ℕ → ℕ
root zero n lo hi = lo
root (suc steps) n lo hi =
    let mid = (lo + hi) / 2 in
    root steps n (if leb (mid * mid) n then mid else lo) (if leb (mid * mid) n then hi else mid)

abbrev pub fixed : FloatOps
fixed = record {
  Float = ℤ;
  lit = λ m k. pos (m * scale / 10 ^ k);
  add = λ a b. a +ℤ b;
  sub = λ a b. a -ℤ b;
  mul = mul_fixed;
  div = div_fixed;
  sqrt = λ a. pos (root 40 (pos_part a * scale) 0 (pos_part a + 2 * scale));
  lt = ltb_ℤ;
  le = leb_ℤ;
  round = λ a k. on_magnitude (round_to (10 ^ (8 - k))) a;
  round_nat = λ a. round_to scale (pos_part a) / scale;
}

pow10-pos : (k : ℕ) → 0 < 10 ^ k
pow10-pos zero = omega arith
pow10-pos (suc k) = rw pow-suc (omega (arith, pow10-pos k))

q_swap : (q d b : ℕ) → q * d * b ≡ q * b * d
q_swap q d b = omega arith

div-le-div : (a b c d : ℕ) → 0 < b → 0 < d → a * d ≤ c * b → a / b ≤ c / d
div-le-div a b c d hb hd h = (le-div_iff_mul-le hd).1 (
    le_of_mul-le-mul_right
      (le_trans
        (le_trans (le_of_eq (q_swap (a / b) d b)) (mul-le-mul_right d (div-mul-le_self a b))) h)
      hb)

lit_le_fixed :
    (m k n j : ℕ) → m * 10 ^ j ≤ n * 10 ^ k → fixed.le (fixed.lit m k) (fixed.lit n j) ≡ true
lit_le_fixed m k n j h = ground (
  arith,
  div-le-div (m * scale) (10 ^ k) (n * scale) (10 ^ j) (pow10-pos k) (pow10-pos j) (omega arith),
)

round_nonneg_fixed :
    (a : ℤ) (k : ℕ)
    → fixed.le (fixed.lit 0 0) a ≡ true
    → fixed.le (fixed.lit 0 0) (fixed.round a k) ≡ true
round_nonneg_fixed a k h = ground arith

-- the five numbers of digits that a literal of money has
digits_cases : (k : ℕ) → k ≤ 4 → (k ≡ 0) ⊎ ((k ≡ 1) ⊎ ((k ≡ 2) ⊎ ((k ≡ 3) ⊎ (k ≡ 4))))
digits_cases k h = ground arith

lit_pos_fixed : (m k : ℕ) → 0 < m → k ≤ 4 → fixed.lt (fixed.lit 0 0) (fixed.lit m k) ≡ true
lit_pos_fixed m k some_m h = elim (digits_cases k h) [
  | inl e ↦ rw e (ground arith)
  | inr (inl e) ↦ rw e (ground arith)
  | inr (inr (inl e)) ↦ rw e (ground arith)
  | inr (inr (inr (inl e))) ↦ rw e (ground arith)
  | inr (inr (inr (inr e))) ↦ rw e (ground arith)
]

le-round_fixed :
    (m k : ℕ) (a : ℤ)
    → k ≤ 4
    → fixed.le (fixed.lit m k) a ≡ true
    → fixed.le (fixed.lit m k) (fixed.round a 4) ≡ true
le-round_fixed m k a h = elim (digits_cases k h) [
  | inl e ↦ rw e (λ le. ground arith)
  | inr (inl e) ↦ rw e (λ le. ground arith)
  | inr (inr (inl e)) ↦ rw e (λ le. ground arith)
  | inr (inr (inr (inl e))) ↦ rw e (λ le. ground arith)
  | inr (inr (inr (inr e))) ↦ rw e (λ le. ground arith)
]

round_step_fixed :
    (a : ℤ) (k : ℕ)
    → k ≤ 4
    → fixed.lt (fixed.lit 0 0) (fixed.round a k) ≡ true
    → fixed.le (fixed.lit 1 k) (fixed.round a k) ≡ true
round_step_fixed a k h = elim (digits_cases k h) [
  | inl e ↦ rw e (λ positive. ground arith)
  | inr (inl e) ↦ rw e (λ positive. ground arith)
  | inr (inr (inl e)) ↦ rw e (λ positive. ground arith)
  | inr (inr (inr (inl e))) ↦ rw e (λ positive. ground arith)
  | inr (inr (inr (inr e))) ↦ rw e (λ positive. ground arith)
]

pub fixed-FloatLaws : FloatLaws fixed
unfolding ◌+ℤ◌
fixed-FloatLaws = record {
  le_refl = λ a. ground arith;
  le_trans = λ a b c h k. ground arith;
  lt_not_le = λ a b. ground arith;
  le_total = λ a b h. ground arith;
  lit_le = lit_le_fixed;
  add_nonneg = λ a b h k. ground arith;
  round_nonneg = round_nonneg_fixed;
  lit_pos = lit_pos_fixed;
  le-round = le-round_fixed;
  round_step = round_step_fixed;
}

-- ===== src/Scheduler/Scores.antt =====
-- The ranges of the estimates and of the parts of a score.
use hyper_looms.Prelude.{
  ◌≡◌, true, String, Option, none, some, arith, ◌==◌, ◌||◌, string_eq, if_ind,
}
use hyper_looms.Float.{FloatOps, FloatLaws}
use hyper_looms.Float.Clamp.{clamp_bounds}
use hyper_looms.Models.Job.{JobConfig}
use hyper_looms.Text.{lower, strip}
use hyper_looms.Scheduler.{estimate_required_vram_gb, region_affinity_score}

module _ (F : FloatOps) (laws : FloatLaws F) where
  open F use {Float, lit, le}

  -- A job is taken to need between 4 and 80 GB, whatever its model and its tokens.
  pub estimate_required_vram_gb_bounds :
      (config : JobConfig F)
      → (le (lit 40 1) (estimate_required_vram_gb F config) ≡ true)
        × (le (estimate_required_vram_gb F config) (lit 800 1) ≡ true)
  unfolding estimate_required_vram_gb
  estimate_required_vram_gb_bounds config =
      clamp_bounds F laws (lit 40 1) (lit 800 1) _ (laws.lit_le 40 1 800 1 (omega arith))

  abbrev InRange : Float → Type 0
  InRange x = (le (lit 15 2) x ≡ true) × (le x (lit 10 1) ≡ true)

  lit_InRange_7 : InRange (lit 7 1)
  lit_InRange_7 = (laws.lit_le 15 2 7 1 (omega arith), laws.lit_le 7 1 10 1 (omega arith))

  -- The score of a region lies between 0.15 and 1.
  pub region_affinity_score_bounds :
      (region : String) (preferred : Option String)
      → (le (lit 15 2) (region_affinity_score F region preferred) ≡ true)
        × (le (region_affinity_score F region preferred) (lit 10 1) ≡ true)
  unfolding region_affinity_score
  region_affinity_score_bounds region none = lit_InRange_7
  region_affinity_score_bounds region (some preferred) =
      if_ind InRange (preferred == "") (λ _. lit_InRange_7)
        (λ _.
          if_ind InRange (lower (strip preferred) == "" || lower (strip region) == "")
            (λ _. (laws.lit_le 15 2 45 2 (omega arith), laws.lit_le 45 2 10 1 (omega arith)))
            (λ _.
              if_ind InRange (lower (strip preferred) == lower (strip region))
                (λ _. (laws.lit_le 15 2 10 1 (omega arith), laws.le_refl (lit 10 1)))
                (λ _.
                  clamp_bounds F laws (lit 15 2) (lit 10 1) _
                    (laws.lit_le 15 2 10 1 (omega arith)))))

-- ===== src/Training/Progress.antt =====
-- A run that is open is completed by ticks alone, in as many as its epochs need.
use mathlib.Core.Option
use hyper_looms.Prelude.{
  ℕ, suc, ◌+◌, ◌-◌, ◌≤◌, ◌<◌, String, ◌≡◌, ◌⊎◌, ◌∙◌, sym, ap, refl, true, false, some, List, [],
  ◌∷◌, arith, ◌==◌, string_eq, nat_eq, Bool-cases, inl, inr, if◌then◌else◌, subst, leb, length,
}
use hyper_looms.Float.{FloatOps}
use hyper_looms.Models.Training.{TrainingStatus, training_status_eq}
use hyper_looms.Training.Tables.{TableLaws}
use hyper_looms.Training.Rows.{TrainingMoment, TrainingRunRow, run_key, Database}
use hyper_looms.Training.Metadata.{MetadataStore}
use hyper_looms.Training.Runs.{is_terminal, tick_training_runs}
use hyper_looms.Training.Effects.{ticked_row}
use hyper_looms.Training.Ticks.{tick_training_runs_lem}

module _ (F : FloatOps) (D : Database F) where
  -- one tick after the other
  abbrev pub ticks : List (TrainingMoment F) → MetadataStore F D → MetadataStore F D
  ticks [] s = s
  ticks (m ∷ ms) s = ticks ms (tick_training_runs F D m s).1

  -- The ticks that a run needs: one to start, and one for each epoch that is left.
  abbrev pub ticks_left : TrainingRunRow F → ℕ
  ticks_left row =
      if is_terminal row.status
      then 0
      else if row.status == TrainingStatus.queued
      then (row.target_epochs - row.current_epoch) + 1
      else row.target_epochs - row.current_epoch

  module _ (laws : TableLaws (TrainingRunRow F) (run_key F) D.runs) where
    -- a tick completes the run, or leaves it open and one tick nearer
    ticked_row_cases :
        (m : TrainingMoment F) (row : TrainingRunRow F)
        → is_terminal row.status ≡ false
        → row.current_epoch < row.target_epochs
        → (let row' = ticked_row F D laws m row in
            (row'.target_epochs ≡ row.target_epochs)
            × (((row'.status ≡ TrainingStatus.completed) × (row'.current_epoch ≡ row.target_epochs))
                ⊎ ((is_terminal row'.status ≡ false)
                    × (row'.current_epoch < row.target_epochs)
                    × (ticks_left row ≡ suc (ticks_left row')))))
    ticked_row_cases m row open_run short =
        elim (Bool-cases (row.status == TrainingStatus.queued)) [
          | inl waiting ↦ rw (open_run, waiting) (refl, inr (refl, short, omega arith))
          | inr going ↦ elim (Bool-cases (leb row.target_epochs (row.current_epoch + 1))) [
            | inl last ↦ rw (open_run, going) (refl, inl (ground arith, ground arith))
            | inr more ↦ rw (open_run, going) (refl, inr (ground arith, ground arith, ground arith))
          ]
        ]

    -- ticks leave a run that is over as it is
    ticks_terminal :
        (ms : List (TrainingMoment F)) (s : MetadataStore F D) (k : String) (row : TrainingRunRow F)
        → D.runs.find s.runs k ≡ some row
        → is_terminal row.status ≡ true
        → D.runs.find (ticks ms s).runs k ≡ some row
    ticks_terminal [] s k row found over = found
    ticks_terminal (m ∷ ms) s k row found over =
        let moved = (tick_training_runs_lem F D laws m s).1 k in
        let same : ticked_row F D laws m row ≡ row = rw over refl in
        ticks_terminal ms (tick_training_runs F D m s).1 k row (ground (arith, moved, found)) over

    -- A run that is queued or running, short of its last epoch, is completed at its last epoch after
    -- as many ticks as it has epochs left, and one more where it is queued; later ticks leave it so.
    pub ticks_complete :
        (ms : List (TrainingMoment F)) (s : MetadataStore F D) (run_id : String)
        (row : TrainingRunRow F)
        → D.runs.find s.runs run_id ≡ some row
        → is_terminal row.status ≡ false
        → row.current_epoch < row.target_epochs
        → ticks_left row ≤ length ms
        → (after : TrainingRunRow F) × (D.runs.find (ticks ms s).runs run_id ≡ some after)
          × (after.status ≡ TrainingStatus.completed)
          × (after.current_epoch ≡ row.target_epochs)
    ticks_complete [] s k row found open_run short enough = absurd (ground arith)
    ticks_complete (m ∷ ms) s k row found open_run short enough =
        let row' = ticked_row F D laws m row in
        let s1 = (tick_training_runs F D m s).1 in
        let there : D.runs.find s1.runs k ≡ some row' =
          (tick_training_runs_lem F D laws m s).1 k
          ∙ ap (Option.map (ticked_row F D laws m)) found in
        let (same, step) = ticked_row_cases m row open_run short in
        elim step [
          | inl (done, full) ↦
              (row', ticks_terminal ms s1 k row' there (ap is_terminal done), done, full)
          | inr (going, more, less) ↦
              let (after, stored, done, full) =
                ticks_complete ms s1 k row' there going
                  (subst (λ n. row'.current_epoch < n) (sym same) more) (ground arith) in
              (after, stored, done, full ∙ same)
        ]

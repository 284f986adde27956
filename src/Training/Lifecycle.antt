-- ===== src/Training/Lifecycle.antt =====
-- The life of a training run: what every operation keeps of each stored run, and the moves that its
-- status can make.
use hyper_looms.Prelude.{
  ◌+◌, ◌≤◌, ◌<◌, ◌≡◌, ◌≢◌, ◌∙◌, sym, ap, refl, false, arith, ◌==◌, string_eq, nat_eq, Bool-cases,
  inl, inr, subst, leb, min,
}
use hyper_looms.Float.{FloatOps}
use hyper_looms.Models.Training.{
  TrainingStatus, training_status_eq, TrainingCheckpointCreateRequest,
}
use hyper_looms.Training.Tables.{TableLaws}
use hyper_looms.Training.Rows.{TrainingMoment, TrainingRunRow, run_key, Database, map_training_run}
use hyper_looms.Training.Metadata.{advanced_row}
use hyper_looms.Training.Runs.{is_terminal, completes}
use hyper_looms.Training.Effects.{ticked_row, ended_row, appended_row}

-- A run that is not over may start, be completed, or be cancelled.
infix 40 ◌⇒◌
pub data ◌⇒◌ : TrainingStatus → TrainingStatus → Type 0 where
  rest : {p : TrainingStatus} → p ⇒ p
  begin : TrainingStatus.queued ⇒ TrainingStatus.running
  finish : {p : TrainingStatus} → is_terminal p ≡ false → p ⇒ TrainingStatus.completed
  cancel : {p : TrainingStatus} → is_terminal p ≡ false → p ⇒ TrainingStatus.cancelled

pub ⇒-trans : {p q r : TrainingStatus} → p ⇒ q → q ⇒ r → p ⇒ r
⇒-trans rest b = b
⇒-trans begin rest = begin
⇒-trans begin (finish h) = finish refl
⇒-trans begin (cancel h) = cancel refl
⇒-trans (finish h) rest = finish h
⇒-trans (finish h) (finish g) = absurd (ground arith)
⇒-trans (finish h) (cancel g) = absurd (ground arith)
⇒-trans (cancel h) rest = cancel h
⇒-trans (cancel h) (finish g) = absurd (ground arith)
⇒-trans (cancel h) (cancel g) = absurd (ground arith)

module _ (F : FloatOps) where
  -- A run is short of its last epoch as long as it is open, and at it when it is completed.
  pub record RunIsValid (row : TrainingRunRow F) : Type 0 where
    pub unfailed : row.status ≢ TrainingStatus.failed
    pub short : is_terminal row.status ≡ false → row.current_epoch < row.target_epochs
    pub full : row.status ≡ TrainingStatus.completed → row.target_epochs ≤ row.current_epoch

  -- The run is valid still, and moved only forward.
  pub record Moves (row after : TrainingRunRow F) : Type 0 where
    pub valid : RunIsValid after
    pub forward : row.status ⇒ after.status
    pub epochs : row.current_epoch ≤ after.current_epoch
    pub target : after.target_epochs ≡ row.target_epochs

  pub Moves-refl : (row : TrainingRunRow F) → RunIsValid row → Moves row row
  Moves-refl row v = record { valid = v; forward = rest; epochs = omega arith; target = refl }

  Moves-finish :
      (row after : TrainingRunRow F)
      → is_terminal row.status ≡ false
      → after.status ≡ TrainingStatus.completed
      → after.target_epochs ≡ row.target_epochs
      → row.current_epoch ≤ after.current_epoch
      → row.target_epochs ≤ after.current_epoch
      → Moves row after
  Moves-finish row after open_run done same more enough = record {
    valid = record {
      unfailed = λ e. ground arith;
      short = λ h. absurd (ground arith);
      full = λ e. ground arith;
    };
    forward = subst (λ x. row.status ⇒ x) (sym done) (finish open_run);
    epochs = more;
    target = same;
  }

  Moves-stay :
      (row after : TrainingRunRow F)
      → RunIsValid row
      → after.status ≡ row.status
      → after.target_epochs ≡ row.target_epochs
      → row.current_epoch ≤ after.current_epoch
      → (is_terminal row.status ≡ false → after.current_epoch < row.target_epochs)
      → Moves row after
  Moves-stay row after v unmoved same more short = record {
    valid = record {
      unfailed = λ e. v.unfailed (sym unmoved ∙ e);
      short = λ h. let less = short (ap is_terminal (sym unmoved) ∙ h) in ground arith;
      full = λ e. let reached = v.full (sym unmoved ∙ e) in ground arith;
    };
    forward = subst (λ x. row.status ⇒ x) (sym unmoved) rest;
    epochs = more;
    target = same;
  }

  module _ (D : Database F) (laws : TableLaws (TrainingRunRow F) (run_key F) D.runs) where
    pub ticked_row-Moves :
        (m : TrainingMoment F) (row : TrainingRunRow F)
        → RunIsValid row
        → Moves row (ticked_row F D laws m row)
    ticked_row-Moves m row v = elim (Bool-cases (is_terminal row.status)) [
      | inl over ↦ rw over (Moves-refl row v)
      | inr open_run ↦
          let short = v.short open_run in
          elim (Bool-cases (row.status == TrainingStatus.queued)) [
            | inl waiting ↦
                rw (open_run, waiting)
                  (record {
                    valid = record {
                      unfailed = λ e. ground arith;
                      short = λ _. short;
                      full = λ e. absurd (ground arith);
                    };
                    forward =
                        subst (λ x. x ⇒ TrainingStatus.running)
                          (sym (
                            (training_status_eq.beq_iff row.status TrainingStatus.queued).0
                              waiting))
                          begin;
                    epochs = omega arith;
                    target = refl;
                  })
            | inr going ↦
                rw (open_run, going)
                  (elim (Bool-cases
                    (leb row.target_epochs (min row.target_epochs (row.current_epoch + 1)))) [
                      | inl last ↦
                          Moves-finish row _ open_run (ground arith) refl (ground arith)
                            (ground arith)
                      | inr more ↦
                          Moves-stay row _ v (ground arith) refl (ground arith) (λ _. ground arith)
                    ])
          ]
    ]

    pub ended_row-Moves :
        (m : TrainingMoment F) (row : TrainingRunRow F)
        → RunIsValid row
        → Moves row (ended_row F D laws m row)
    ended_row-Moves m row v = elim (Bool-cases (is_terminal row.status)) [
      | inl over ↦ rw over (Moves-refl row v)
      | inr open_run ↦ rw open_run (record {
        valid = record {
          unfailed = λ e. ground arith;
          short = λ h. absurd (ground arith);
          full = λ e. absurd (ground arith);
        };
        forward = cancel open_run;
        epochs = omega arith;
        target = refl;
      })
    ]

    pub appended_row-Moves :
        (m : TrainingMoment F) (payload : TrainingCheckpointCreateRequest F)
        (row : TrainingRunRow F)
        → RunIsValid row
        → Moves row (appended_row F D laws m payload row)
    appended_row-Moves m payload row v =
        let advanced = advanced_row F D m payload row in
        elim (Bool-cases (completes F D (map_training_run F advanced))) [
          | inl enough ↦ rw enough (
              let unfailed = v.unfailed in
              Moves-finish row _ (ground arith) refl refl (ground arith) (ground arith))
          | inr not_yet ↦
              rw not_yet
                (Moves-stay row advanced v refl refl (ground arith) (λ open_run. ground arith))
        ]

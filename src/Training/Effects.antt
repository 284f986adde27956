-- ===== src/Training/Effects.antt =====
-- What an operation on one run makes of the table of runs: one row changes, the others stay.
use mathlib.Core.Option
use hyper_looms.Prelude.{
  String, ◌≡◌, ◌∙◌, sym, ap, refl, true, false, Option, none, some, arith, ◌==◌, string_eq, nat_eq,
  Bool-cases, Option-cases, inl, inr, option_ind, if_ind, if◌then◌else◌, subst, is_some, beq_refl,
}
use hyper_looms.Float.{FloatOps}
use hyper_looms.Result.{Result, ok, result_ind}
use hyper_looms.Models.Training.{
  TrainingStatus, training_status_eq, TrainingRun, TrainingCheckpointCreateRequest,
  TrainingCheckpoint,
}
use hyper_looms.Training.Tables.{TableLaws}
use hyper_looms.Training.Rows.{
  TrainingMoment, TrainingRunRow, run_key, Database, map_training_run, map_checkpoint,
}
use hyper_looms.Training.Metadata.{
  MetadataStore, get_training_run, update_training_run, create_checkpoint, checkpoint_row,
  advanced_row,
}
use hyper_looms.Training.Runs.{
  is_terminal, completed_row, completes, append_training_checkpoint, cancelled_row,
  cancel_training_run, started_row, epoch_row, epoch_checkpoint,
}

pub map-none : {A B : Type 0} (f : A → B) (o : Option A) → Option.map f o ≡ none → o ≡ none
map-none f none e = refl
map-none f (some a) e = absurd (ground arith)

pub map-some :
    {A B : Type 0} (f : A → B) (o : Option A) (b : B)
    → Option.map f o ≡ some b
    → (a : A) × (o ≡ some a) × (f a ≡ b)
map-some f none b e = absurd (ground arith)
map-some f (some a) b e = (a, refl, ground arith)

pub same_ok : {A : Type 0} (r : Result A) (a b : A) → r ≡ ok a → r ≡ ok b → a ≡ b
same_ok r a b h g = ground arith

pub same_some : {A : Type 0} (o : Option A) (a b : A) → o ≡ some a → o ≡ some b → a ≡ b
same_some o a b h g = ground arith

module _ (F : FloatOps) (D : Database F)
    (laws : TableLaws (TrainingRunRow F) (run_key F) D.runs) where
  abbrev pub run_at : D.runs.Table → String → Option (TrainingRunRow F)
  run_at s k = D.runs.find s k

  -- From s to t the row under the given id changes by g, if there is one, and no other does.
  abbrev pub Only :
      D.runs.Table → D.runs.Table → String → (TrainingRunRow F → TrainingRunRow F) → Type 0
  Only s t i g =
      (k : String) → run_at t k ≡ (if i == k then Option.map g (run_at s k) else run_at s k)

  pub Only-trans :
      (s t u : D.runs.Table) (i : String) (g h : TrainingRunRow F → TrainingRunRow F)
      → Only s t i g
      → Only t u i h
      → Only s u i (λ r. h (g r))
  Only-trans s t u i g h first second k = elim (Bool-cases (i == k)) [
    | inl same ↦ elim (Option-cases (run_at s k)) [
      | inl gone ↦ ground (arith, first k, second k)
      | inr (row, found) ↦ ground (arith, first k, second k)
    ]
    | inr other ↦ ground (arith, first k, second k)
  ]

  -- where there is no such row, nothing changes
  Only-missing :
      (s : D.runs.Table) (i : String) (g : TrainingRunRow F → TrainingRunRow F)
      → run_at s i ≡ none
      → Only s s i g
  Only-missing s i g gone k = elim (Bool-cases (i == k)) [
    | inl same ↦
        let here : run_at s k ≡ none =
          subst (λ x. run_at s x ≡ none) ((string_eq.beq_iff i k).0 same) gone in
        ground arith
    | inr other ↦ ground arith
  ]

  Only-update :
      (s : D.runs.Table) (i : String) (g : TrainingRunRow F → TrainingRunRow F)
      (row : TrainingRunRow F)
      → run_at s i ≡ some row
      → (g row).run_id ≡ row.run_id
      → Only s (D.runs.update (g row) s) i g
  Only-update s i g row found keyed k =
      let named : (g row).run_id ≡ i = keyed ∙ laws.find_key s i row found in
      let there : is_some (run_at s (g row).run_id) ≡ true =
        subst (λ x. is_some (run_at s x) ≡ true) (sym named) (ap is_some found) in
      let moved = laws.find-update (g row) s k there in
      elim (Bool-cases (i == k)) [
        | inl same ↦
            let here : run_at s k ≡ some row =
              subst (λ x. run_at s x ≡ some row) ((string_eq.beq_iff i k).0 same) found in
            ground (arith, moved, named)
        | inr other ↦ ground (arith, moved, named)
      ]

  Only-any :
      (s t : D.runs.Table) (i : String) (g h : TrainingRunRow F → TrainingRunRow F)
      → run_at s i ≡ none
      → Only s t i g
      → Only s t i h
  Only-any s t i g h gone first k = elim (Bool-cases (i == k)) [
    | inl same ↦
        let here : run_at s k ≡ none =
          subst (λ x. run_at s x ≡ none) ((string_eq.beq_iff i k).0 same) gone in
        first k ∙ ground arith
    | inr other ↦ first k ∙ ground arith
  ]

  pub Only-same : (s : D.runs.Table) (i : String) → Only s s i (λ r. r)
  Only-same s i k = elim (Option-cases (run_at s k)) [
    | inl gone ↦ ground arith
    | inr (row, found) ↦ ground arith
  ]

  -- the same for the row that is there, whatever g is elsewhere
  pub Only-agree :
      (s t : D.runs.Table) (i : String) (g h : TrainingRunRow F → TrainingRunRow F)
      (row : TrainingRunRow F)
      → run_at s i ≡ some row
      → g row ≡ h row
      → Only s t i g
      → Only s t i h
  Only-agree s t i g h row found agree first k = elim (Bool-cases (i == k)) [
    | inl same ↦
        let here : run_at s k ≡ some row =
          subst (λ x. run_at s x ≡ some row) ((string_eq.beq_iff i k).0 same) found in
        first k ∙ ground arith
    | inr other ↦ first k ∙ ground arith
  ]

  abbrev pub stamped :
      TrainingMoment F → (TrainingRunRow F → TrainingRunRow F) → TrainingRunRow F → TrainingRunRow F
  stamped m f row = record (f row) { updated_at = m.now }

  pub update_training_run-Only :
      (m : TrainingMoment F) (i : String) (f : TrainingRunRow F → TrainingRunRow F)
      (s : MetadataStore F D)
      → ((row : TrainingRunRow F) → (f row).run_id ≡ row.run_id)
      → Only s.runs (update_training_run F D m i f s).1.runs i (stamped m f)
  unfolding update_training_run
  update_training_run-Only m i f s keyed =
      option_ind
        (λ (t : Result (TrainingRun F) × MetadataStore F D). Only s.runs t.1.runs i (stamped m f))
        (run_at s.runs i) (Only-missing s.runs i (stamped m f))
        (λ row found. Only-update s.runs i (stamped m f) row found (keyed row))

  pub create_checkpoint-Only :
      (m : TrainingMoment F) (i : String) (payload : TrainingCheckpointCreateRequest F)
      (s : MetadataStore F D)
      → Only s.runs (create_checkpoint F D m i payload s).1.runs i (advanced_row F D m payload)
  unfolding create_checkpoint
  create_checkpoint-Only m i payload s =
      let g = advanced_row F D m payload in
      option_ind
        (λ (t : Result (TrainingCheckpoint F) × MetadataStore F D). Only s.runs t.1.runs i g)
        (run_at s.runs i) (Only-missing s.runs i g)
        (λ row found. Only-update s.runs i g row found refl)

  -- the checkpoint that an operation returns
  abbrev pub new_checkpoint :
      TrainingMoment F → String → TrainingCheckpointCreateRequest F → TrainingCheckpoint F
  new_checkpoint m i payload = map_checkpoint F (checkpoint_row F D m i payload)

  -- What a checkpoint from outside makes of its run.
  abbrev pub appended_row :
      TrainingMoment F → TrainingCheckpointCreateRequest F → TrainingRunRow F → TrainingRunRow F
  appended_row m payload row =
      let advanced = advanced_row F D m payload row in
      if completes F D (map_training_run F advanced)
      then stamped m (completed_row F D m (new_checkpoint m row.run_id payload)) advanced
      else advanced

  -- What a tick makes of a run.
  abbrev pub ticked_row : TrainingMoment F → TrainingRunRow F → TrainingRunRow F
  ticked_row m row =
      let run = map_training_run F row in
      let payload = epoch_checkpoint F D m run in
      if is_terminal row.status
      then row
      else if row.status == TrainingStatus.queued
      then stamped m (started_row F D m) row
      else stamped m (epoch_row F D m run (new_checkpoint m row.run_id payload))
          (advanced_row F D m payload row)

  -- What a cancellation makes of a run.
  abbrev pub ended_row : TrainingMoment F → TrainingRunRow F → TrainingRunRow F
  ended_row m row = if is_terminal row.status then row else stamped m (cancelled_row F D m) row

  pub cancel_training_run-Only :
      (m : TrainingMoment F) (i : String) (s : MetadataStore F D)
      → Only s.runs (cancel_training_run F D m i s).1.runs i (ended_row m)
  unfolding cancel_training_run
  cancel_training_run-Only m i s =
      let g = ended_row m in
      let After : Result (TrainingRun F) × MetadataStore F D → Type 0 =
        λ t. Only s.runs t.1.runs i g in
      option_ind After (get_training_run F D s i)
        (λ missing. Only-missing s.runs i g (map-none (map_training_run F) _ missing))
        (λ run found_run.
          let (row, found, shown) = map-some (map_training_run F) (run_at s.runs i) run found_run in
          let same : row.status ≡ run.status = ap (λ r. r.status) shown in
          if_ind After (is_terminal run.status)
            (λ ended.
              Only-agree s.runs s.runs i (λ r. r) g row found (ground arith) (Only-same s.runs i))
            (λ open_run.
              Only-agree s.runs _ i (stamped m (cancelled_row F D m)) g row found (ground arith)
                (update_training_run-Only m i (cancelled_row F D m) s (λ r. refl))))

  -- a checkpoint is returned for a run that is there, and its run is there afterwards
  pub create_checkpoint_lem :
      (m : TrainingMoment F) (i : String) (payload : TrainingCheckpointCreateRequest F)
      (s : MetadataStore F D) (row : TrainingRunRow F)
      → run_at s.runs i ≡ some row
      → ((create_checkpoint F D m i payload s).0 ≡ ok (new_checkpoint m i payload))
        × (run_at (create_checkpoint F D m i payload s).1.runs i
            ≡ some (advanced_row F D m payload row))
  unfolding create_checkpoint
  create_checkpoint_lem m i payload s row found = (
    ground (arith, found),
    ground (arith, create_checkpoint-Only m i payload s i, found, beq_refl i),
  )

  pub append_training_checkpoint-Only :
      (m : TrainingMoment F) (i : String) (payload : TrainingCheckpointCreateRequest F)
      (s : MetadataStore F D)
      → Only s.runs (append_training_checkpoint F D m i payload s).1.runs i (appended_row m payload)
  unfolding append_training_checkpoint
  append_training_checkpoint-Only m i payload s =
      let g = appended_row m payload in
      let After : Result (TrainingCheckpoint F) × MetadataStore F D → Type 0 =
        λ t. Only s.runs t.1.runs i g in
      let advance = advanced_row F D m payload in
      let (created, s1) = create_checkpoint F D m i payload s in
      let finish : TrainingCheckpoint F → TrainingRunRow F → TrainingRunRow F =
        λ ck. stamped m (completed_row F D m ck) in
      let s2 : TrainingCheckpoint F → MetadataStore F D =
        λ ck. (update_training_run F D m i (completed_row F D m ck) s1).1 in
      let first : Only s.runs s1.runs i advance = create_checkpoint-Only m i payload s in
      let second : (ck : TrainingCheckpoint F)
          → Only s.runs (s2 ck).runs i (λ r. finish ck (advance r)) =
        λ ck.
          Only-trans s.runs s1.runs (s2 ck).runs i advance (finish ck) first
            (update_training_run-Only m i (completed_row F D m ck) s1 (λ r. refl)) in
      elim (Option-cases (run_at s.runs i)) [
        | inl gone ↦
            let same = Only-any s.runs s1.runs i advance g gone first in
            result_ind After created (λ e _. same)
              (λ ck _.
                option_ind After (get_training_run F D s1 i) (λ _. same)
                  (λ run _.
                    if_ind After (completes F D run)
                      (λ _. Only-any s.runs (s2 ck).runs i _ g gone (second ck)) (λ _. same)))
        | inr (row, found) ↦
            let (made, there) = create_checkpoint_lem m i payload s row found in
            let named : i ≡ row.run_id = sym (laws.find_key s.runs i row found) in
            result_ind After created (λ e failed. absurd (ground arith))
              (λ ck done.
                let ck_made : ck ≡ new_checkpoint m row.run_id payload =
                  same_ok created ck _ done made ∙ ap (λ x. new_checkpoint m x payload) named in
                option_ind After (get_training_run F D s1 i)
                  (λ lost. absurd (ground (arith, map-none (map_training_run F) _ lost, there)))
                  (λ run found_run.
                    let shown : run ≡ map_training_run F (advance row) =
                      same_some (get_training_run F D s1 i) run _ found_run
                        (ap (Option.map (map_training_run F)) there) in
                    if_ind After (completes F D run)
                      (λ full.
                        Only-agree s.runs (s2 ck).runs i _ g row found
                          (rw (subst (λ r. completes F D r ≡ true) shown full)
                            (ap (λ c. finish c (advance row)) ck_made))
                          (second ck))
                      (λ short.
                        Only-agree s.runs s1.runs i advance g row found
                          (rw (subst (λ r. completes F D r ≡ false) shown short) refl) first)))
      ]

-- ===== src/Training/Reachable.antt =====
-- The metadata store as a state machine: the operations on it as steps, in any order.
use mathlib.Core.Option
use hyper_looms.Prelude.{
  option_ind, ◌≤◌, String, ◌≡◌, ◌∙◌, sym, ap, refl, false, Option, none, some, [], ◌∷◌, arith, ◌==◌,
  string_eq, Bool-cases, inl, inr, if◌then◌else◌, if_ind, subst,
}
use hyper_looms.Float.{FloatOps}
use hyper_looms.Result.{Result, result_ind, concat}
use hyper_looms.Store.State.{StoreState, list_nodes}
use hyper_looms.Models.Training.{
  TrainingRun, TrainingRunCreateRequest, TrainingCheckpointCreateRequest,
  ModelArtifactCreateRequest, DatasetCreateRequest, ComputeEstimateResponse,
}
use hyper_looms.Training.Tables.{TableLaws}
use hyper_looms.Training.Rows.{TrainingMoment, TrainingRunRow, run_key, Database}
use hyper_looms.Training.Metadata.{
  MetadataStore, create_model_artifact, create_dataset_artifact, insert_training_run, run_row,
}
use hyper_looms.Training.Estimate.{estimate_compute}
use hyper_looms.Training.Runs.{
  run_data, estimate_payload, charge_run, create_training_run, append_training_checkpoint,
  cancel_training_run, tick_training_runs,
}
use hyper_looms.Training.Effects.{
  Only, ticked_row, cancel_training_run-Only, append_training_checkpoint-Only, map-some, same_some,
}
use hyper_looms.Training.Ticks.{tick_training_runs_lem}
use hyper_looms.Training.Lifecycle.{
  ⇒-trans, RunIsValid, Moves, Moves-refl, ticked_row-Moves, ended_row-Moves, appended_row-Moves,
}

map-id : {A : Type 0} (o : Option A) → Option.map (λ a. a) o ≡ o
map-id none = refl
map-id (some a) = refl

module _ (F : FloatOps) (D : Database F) where
  open F use {Float}

  abbrev pub new_run_id : TrainingMoment F → String
  new_run_id m = concat ("run-" ∷ m.fresh "run" ∷ [])

  -- One call. The id of a new run is a `uuid4`, which no stored run has, and its request asks for
  -- one epoch at least.
  pub data TrainingStep : MetadataStore F D → MetadataStore F D → Type 0 where
    adds_artifact :
        (m : TrainingMoment F) (payload : ModelArtifactCreateRequest F) (s : MetadataStore F D)
        → TrainingStep s (create_model_artifact F D m payload s).1
    adds_dataset :
        (m : TrainingMoment F) (payload : DatasetCreateRequest F) (s : MetadataStore F D)
        → TrainingStep s (create_dataset_artifact F D m payload s).1
    creates :
        (m : TrainingMoment F) (rate : Float) (payload : TrainingRunCreateRequest F)
        (coordinator : StoreState F) (s : MetadataStore F D)
        → D.runs.find s.runs (new_run_id m) ≡ none
        → 1 ≤ payload.target_epochs
        → TrainingStep s (create_training_run F D m rate payload coordinator s).1.1
    appends :
        (m : TrainingMoment F) (run_id : String) (payload : TrainingCheckpointCreateRequest F)
        (s : MetadataStore F D)
        → TrainingStep s (append_training_checkpoint F D m run_id payload s).1
    cancels :
        (m : TrainingMoment F) (run_id : String) (s : MetadataStore F D)
        → TrainingStep s (cancel_training_run F D m run_id s).1
    ticks :
        (m : TrainingMoment F) (s : MetadataStore F D)
        → TrainingStep s (tick_training_runs F D m s).1

  pub data TrainingSteps : MetadataStore F D → MetadataStore F D → Type 0 where
    done : (s : MetadataStore F D) → TrainingSteps s s
    step : (s t u : MetadataStore F D) → TrainingStep s t → TrainingSteps t u → TrainingSteps s u

  abbrev pub RunsAreValid : MetadataStore F D → Type 0
  RunsAreValid s =
      (run_id : String) (row : TrainingRunRow F)
      → D.runs.find s.runs run_id ≡ some row
      → RunIsValid F row

  -- Every stored run stays stored, and moves forward.
  abbrev pub AllMove : MetadataStore F D → MetadataStore F D → Type 0
  AllMove s t =
      (run_id : String) (row : TrainingRunRow F)
      → D.runs.find s.runs run_id ≡ some row
      → (after : TrainingRunRow F) × (D.runs.find t.runs run_id ≡ some after) × Moves F row after

  abbrev Kept : MetadataStore F D → MetadataStore F D → Type 0
  Kept s t = RunsAreValid s → RunsAreValid t × AllMove s t

  Kept-refl : (s : MetadataStore F D) → Kept s s
  Kept-refl s v = (v, λ k row found. (row, found, Moves-refl F row (v k row found)))

  Kept-trans : (s t u : MetadataStore F D) → Kept s t → Kept t u → Kept s u
  Kept-trans s t u f g v =
      let (vt, first) = f v in
      let (vu, second) = g vt in
      (
        vu,
        λ k row found.
            let (mid, there, a) = first k row found in
            let (after, last, b) = second k mid there in
            (
              after,
              last,
              record {
                valid = b.valid;
                forward = ⇒-trans a.forward b.forward;
                epochs = let ea = a.epochs in let eb = b.epochs in omega arith;
                target = b.target ∙ a.target;
              },
            ),
      )

  Kept-mapped :
      (s t : MetadataStore F D) (h : String → TrainingRunRow F → TrainingRunRow F)
      → ((k : String) → D.runs.find t.runs k ≡ Option.map (h k) (D.runs.find s.runs k))
      → ((k : String) (row : TrainingRunRow F) → RunIsValid F row → Moves F row (h k row))
      → Kept s t
  Kept-mapped s t h mapped moves v = (
    λ k row found.
        let (old, there, same) =
          map-some (h k) (D.runs.find s.runs k) row (sym (mapped k) ∙ found) in
        subst (RunIsValid F) same (moves k old (v k old there)).valid,
    λ k row found. (h k row, mapped k ∙ ap (Option.map (h k)) found, moves k row (v k row found)),
  )

  module _ (laws : TableLaws (TrainingRunRow F) (run_key F) D.runs) where
    Only-Kept :
        (s t : MetadataStore F D) (i : String) (g : TrainingRunRow F → TrainingRunRow F)
        → Only F D laws s.runs t.runs i g
        → ((row : TrainingRunRow F) → RunIsValid F row → Moves F row (g row))
        → Kept s t
    Only-Kept s t i g one moves =
        Kept-mapped s t (λ k row. if i == k then g row else row)
          (λ k. elim (Bool-cases (i == k)) [
            | inl same ↦ rw same (one k ∙ rw same refl)
            | inr other ↦ one k ∙ rw other (sym (map-id (D.runs.find s.runs k)))
          ])
          (λ k row v. if_ind (Moves F row) (i == k) (λ _. moves row v) (λ _. Moves-refl F row v))

    run_row-Kept :
        (m : TrainingMoment F) (payload : TrainingRunCreateRequest F)
        (estimate : ComputeEstimateResponse F) (s : MetadataStore F D)
        → D.runs.find s.runs (new_run_id m) ≡ none
        → 1 ≤ payload.target_epochs
        → Kept s (record s {
          runs = D.runs.insert (run_row F D m (run_data F D payload estimate)) s.runs;
        })
    run_row-Kept m payload estimate s fresh some_epochs v =
        let row = run_row F D m (run_data F D payload estimate) in
        let new : RunIsValid F row = record {
          unfailed = λ e. ground arith;
          short = λ _. some_epochs;
          full = λ e. absurd (ground arith);
        } in
        (
          λ k other found.
              let moved = sym (laws.find-insert row s.runs k fresh) ∙ found in
              if_ind (λ o. o ≡ some other → RunIsValid F other) (new_run_id m == k)
                (λ _ (here : some row ≡ some other).
                  subst (RunIsValid F) (same_some (some row) row other refl here) new)
                (λ _ there. v k other there) moved,
          λ k other found.
              let apart : (new_run_id m == k) ≡ false = elim (Bool-cases (new_run_id m == k)) [
                | inl same ↦ absurd (
                    ground (
                      arith,
                      ap (D.runs.find s.runs) ((string_eq.beq_iff (new_run_id m) k).0 same),
                    ))
                | inr ne ↦ ne
              ] in
              (
                other,
                laws.find-insert row s.runs k fresh ∙ rw apart found,
                Moves-refl F other (v k other found),
              ),
        )

    insert_training_run-Kept :
        (m : TrainingMoment F) (payload : TrainingRunCreateRequest F)
        (estimate : ComputeEstimateResponse F) (s : MetadataStore F D)
        → D.runs.find s.runs (new_run_id m) ≡ none
        → 1 ≤ payload.target_epochs
        → Kept s (insert_training_run F D m (run_data F D payload estimate) s).1
    unfolding insert_training_run
    insert_training_run-Kept m payload estimate s fresh some_epochs =
        option_ind (λ (t : Result (TrainingRun F) × MetadataStore F D). Kept s t.1) m.database_error
          (λ _. run_row-Kept m payload estimate s fresh some_epochs) (λ _ _. Kept-refl s)

    create_training_run-Kept :
        (m : TrainingMoment F) (rate : Float) (payload : TrainingRunCreateRequest F)
        (coordinator : StoreState F) (s : MetadataStore F D)
        → D.runs.find s.runs (new_run_id m) ≡ none
        → 1 ≤ payload.target_epochs
        → Kept s (create_training_run F D m rate payload coordinator s).1.1
    unfolding create_training_run
    create_training_run-Kept m rate payload coordinator s fresh some_epochs =
        let After : Result (TrainingRun F) × (StoreState F × MetadataStore F D) → Type 0 =
          λ t. Kept s t.1.1 in
        result_ind After
          (estimate_compute F D m rate (estimate_payload F D payload) (list_nodes F coordinator) s)
          (λ e _. Kept-refl s)
          (λ estimate _.
            result_ind After
              (charge_run F D m payload estimate.estimated_cost_credits coordinator.credits).0
              (λ e _. Kept-refl s)
              (λ _ _. insert_training_run-Kept m payload estimate s fresh some_epochs))

    TrainingStep-Kept : (s t : MetadataStore F D) → TrainingStep s t → Kept s t
    unfolding create_model_artifact create_dataset_artifact
    TrainingStep-Kept s t (adds_artifact m payload _) = Kept-refl s
    TrainingStep-Kept s t (adds_dataset m payload _) = Kept-refl s
    TrainingStep-Kept s t (creates m rate payload coordinator _ fresh some_epochs) =
        create_training_run-Kept m rate payload coordinator s fresh some_epochs
    TrainingStep-Kept s t (appends m i payload _) =
        Only-Kept s t i _ (append_training_checkpoint-Only F D laws m i payload s)
          (appended_row-Moves F D laws m payload)
    TrainingStep-Kept s t (cancels m i _) =
        Only-Kept s t i _ (cancel_training_run-Only F D laws m i s) (ended_row-Moves F D laws m)
    TrainingStep-Kept s t (ticks m _) =
        Kept-mapped s t (λ k. ticked_row F D laws m) (tick_training_runs_lem F D laws m s).1
          (λ k. ticked_row-Moves F D laws m)

    -- Any operations keep every stored run valid: it has not failed, it is short of its last epoch
    -- as long as it is queued or running, and it has reached that epoch when it is completed.
    pub TrainingSteps-RunsAreValid :
        (s t : MetadataStore F D) → TrainingSteps s t → RunsAreValid s → RunsAreValid t
    TrainingSteps-RunsAreValid s _ (done _) v = v
    TrainingSteps-RunsAreValid s u (step _ t _ first others) v =
        TrainingSteps-RunsAreValid t u others (TrainingStep-Kept s t first v).0

    -- Any operations from a store of valid runs refine the life of each: it stays stored, its status
    -- moves from queued to running, and from these to completed or cancelled, and no further, its
    -- epoch never falls, and its target stays.
    pub TrainingSteps-AllMove :
        (s t : MetadataStore F D) → TrainingSteps s t → RunsAreValid s → AllMove s t
    TrainingSteps-AllMove s _ (done _) v = (Kept-refl s v).1
    TrainingSteps-AllMove s u (step _ t _ first others) v =
        let one = TrainingStep-Kept s t first in
        (Kept-trans s t u one
          (λ w. (TrainingSteps-RunsAreValid t u others w, TrainingSteps-AllMove t u others w)) v).1

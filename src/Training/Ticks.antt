-- ===== src/Training/Ticks.antt =====
-- `tick_training_runs` as one step of every run, and what a number of ticks leads to.
use mathlib.Core.Option
use hyper_looms.Prelude.{
  ℕ, String, ◌≡◌, refl, Bool, true, false, some, List, [], ◌∷◌, map, arith, ◌==◌, string_eq, nat_eq,
  Option-cases, inl, inr, if_ind, if◌then◌else◌, subst, contains, All, IsNodup,
}
use hyper_looms.Float.{FloatOps}
use hyper_looms.Result.{Result, ok, result_ind}
use hyper_looms.Models.Training.{TrainingStatus, training_status_eq, TrainingRun}
use hyper_looms.Training.Tables.{TableLaws}
use hyper_looms.Training.Rows.{TrainingMoment, TrainingRunRow, run_key, Database, map_training_run}
use hyper_looms.Training.Metadata.{
  MetadataStore, list_training_runs, update_training_run, create_checkpoint, advanced_row,
}
use hyper_looms.Training.Runs.{
  is_terminal, started_row, epoch_row, epoch_checkpoint, tick_epoch, tick_run, tick_runs,
  tick_training_runs,
}
use hyper_looms.Training.Effects.{
  run_at, Only, Only-trans, Only-agree, Only-same, stamped, new_checkpoint, ticked_row, same_ok,
  update_training_run-Only, create_checkpoint-Only, create_checkpoint_lem,
}

-- the operation gave a result
abbrev pub IsOk : {A : Type 0} → Result A → Type 0
IsOk {A} r = (a : A) × (r ≡ ok a)

module _ (F : FloatOps) (D : Database F)
    (laws : TableLaws (TrainingRunRow F) (run_key F) D.runs) where
  update_training_run-IsOk :
      (m : TrainingMoment F) (i : String) (f : TrainingRunRow F → TrainingRunRow F)
      (s : MetadataStore F D) (row : TrainingRunRow F)
      → run_at F D laws s.runs i ≡ some row
      → IsOk (update_training_run F D m i f s).0
  unfolding update_training_run
  update_training_run-IsOk m i f s row found =
      (map_training_run F (stamped F D laws m f row), ground (arith, found))

  tick_epoch_lem :
      (m : TrainingMoment F) (s : MetadataStore F D) (row : TrainingRunRow F)
      → run_at F D laws s.runs row.run_id ≡ some row
      → IsOk (tick_epoch F D m (map_training_run F row) s).0
        × Only F D laws s.runs (tick_epoch F D m (map_training_run F row) s).1.runs row.run_id (λ r.
          stamped F D laws m
            (epoch_row F D m (map_training_run F row) (
              new_checkpoint F D laws m row.run_id
                (epoch_checkpoint F D m (map_training_run F row))))
            (advanced_row F D m (epoch_checkpoint F D m (map_training_run F row)) r))
  unfolding tick_epoch
  tick_epoch_lem m s row found =
      let run = map_training_run F row in
      let payload = epoch_checkpoint F D m run in
      let ck = new_checkpoint F D laws m row.run_id payload in
      let s1 = (create_checkpoint F D m row.run_id payload s).1 in
      let f = epoch_row F D m run ck in
      let (made, there) = create_checkpoint_lem F D laws m row.run_id payload s row found in
      let g : TrainingRunRow F → TrainingRunRow F =
        λ r. stamped F D laws m f (advanced_row F D m payload r) in
      result_ind
        (λ (t : Result (TrainingRun F) × MetadataStore F D).
          IsOk t.0 × Only F D laws s.runs t.1.runs row.run_id g)
        (create_checkpoint F D m row.run_id payload s).0 (λ e failed. absurd (ground arith))
        (λ c done.
          subst
            (λ x.
              let t = update_training_run F D m row.run_id (epoch_row F D m run x) s1 in
              IsOk t.0 × Only F D laws s.runs t.1.runs row.run_id g)
            (same_ok (create_checkpoint F D m row.run_id payload s).0 ck c made done)
            (
              update_training_run-IsOk m row.run_id f s1 _ there,
              Only-trans F D laws s.runs s1.runs _ row.run_id _ _
                  (create_checkpoint-Only F D laws m row.run_id payload s)
                  (update_training_run-Only F D laws m row.run_id f s1 (λ r. refl)),
            ))

  tick_run_lem :
      (m : TrainingMoment F) (s : MetadataStore F D) (row : TrainingRunRow F)
      → run_at F D laws s.runs row.run_id ≡ some row
      → is_terminal row.status ≡ false
      → IsOk (tick_run F D m (map_training_run F row) s).0
        × Only F D laws s.runs
            (tick_run F D m (map_training_run F row) s).1.runs
            row.run_id
            (ticked_row F D laws m)
  unfolding tick_run
  tick_run_lem m s row found open_run =
      let run = map_training_run F row in
      if_ind
        (λ (t : Result (TrainingRun F) × MetadataStore F D).
          IsOk t.0 × Only F D laws s.runs t.1.runs row.run_id (ticked_row F D laws m))
        (row.status == TrainingStatus.queued)
        (λ waiting. (
          update_training_run-IsOk m row.run_id (started_row F D m) s row found,
          Only-agree F D laws s.runs _ row.run_id _ (ticked_row F D laws m) row found
              (rw open_run (rw waiting refl))
              (update_training_run-Only F D laws m row.run_id (started_row F D m) s (λ r. refl)),
        ))
        (λ going.
          let (fine, one) = tick_epoch_lem m s row found in
          (
            fine,
            Only-agree F D laws s.runs _ row.run_id _ (ticked_row F D laws m) row found
                (rw open_run (rw going refl)) one,
          ))

  -- The effect of a tick on the rows under the given ids.
  abbrev Ticked : TrainingMoment F → List String → MetadataStore F D → MetadataStore F D → Type 0
  Ticked m ids s t =
      (k : String)
      → run_at F D laws t.runs k ≡ (
          if contains k ids
          then Option.map (ticked_row F D laws m) (run_at F D laws s.runs k)
          else run_at F D laws s.runs k)

  abbrev ids_of_rows : List (TrainingRunRow F) → List String
  ids_of_rows rows = map (run_key F) rows

  Stored : MetadataStore F D → TrainingRunRow F → Type 0
  Stored s row = run_at F D laws s.runs row.run_id ≡ some row

  -- the other rows are still there when one has changed
  Stored-kept :
      (s t : MetadataStore F D) (i : String) (g : TrainingRunRow F → TrainingRunRow F)
      (rows : List (TrainingRunRow F))
      → Only F D laws s.runs t.runs i g
      → contains i (ids_of_rows rows) ≡ false
      → All (Stored s) rows
      → All (Stored t) rows
  unfolding Stored
  Stored-kept s t i g [] one out a = tt
  Stored-kept s t i g (row ∷ rows) one out (here, a) =
      (ground (arith, one row.run_id, here), Stored-kept s t i g rows one (ground arith) a)

  Ticked-cons :
      (m : TrainingMoment F) (s t u : MetadataStore F D) (i : String) (ids : List String)
      → Only F D laws s.runs t.runs i (ticked_row F D laws m)
      → Ticked m ids t u
      → contains i ids ≡ false
      → Ticked m (i ∷ ids) s u
  Ticked-cons m s t u i ids one rest out k =
      ground (arith, one k, rest k, string_eq.beq_iff k i, string_eq.beq_iff i k)

  tick_runs_lem :
      (m : TrainingMoment F) (rows : List (TrainingRunRow F)) (s : MetadataStore F D)
      → All (Stored s) rows
      → IsNodup (ids_of_rows rows)
      → IsOk (tick_runs F D m (map (map_training_run F) rows) s).0
        × Ticked m (ids_of_rows rows) s (tick_runs F D m (map (map_training_run F) rows) s).1
  unfolding tick_runs Stored
  tick_runs_lem m [] s a u = (([], refl), λ k. refl)
  tick_runs_lem m (row ∷ rows) s (here, a) (out, u) =
      let i = row.run_id in
      let ids = ids_of_rows rows in
      let runs = map (map_training_run F) rows in
      let Fine : Result (List (TrainingRun F)) × MetadataStore F D → Type 0 =
        λ t. IsOk t.0 × Ticked m (i ∷ ids) s t.1 in
      let (ticked, s1) = tick_run F D m (map_training_run F row) s in
      if_ind Fine (is_terminal row.status)
        (λ ended.
          let (fine, rest) = tick_runs_lem m rows s a u in
          let same =
            Only-agree F D laws s.runs s.runs i (λ r. r) (ticked_row F D laws m) row here
              (rw ended refl) (Only-same F D laws s.runs i) in
          (fine, Ticked-cons m s s (tick_runs F D m runs s).1 i ids same rest out))
        (λ open_run.
          let ((updated, went), one) = tick_run_lem m s row here open_run in
          let s2 = (tick_runs F D m runs s1).1 in
          let ((others, also), rest) =
            tick_runs_lem m rows s1 (Stored-kept s s1 i _ rows one out a) u in
          let all = Ticked-cons m s s1 s2 i ids one rest out in
          result_ind Fine ticked (λ e failed. absurd (ground arith))
            (λ x _.
              result_ind Fine (tick_runs F D m runs s1).0 (λ e failed. absurd (ground arith))
                (λ xs _. ((x ∷ xs, refl), all))))

  -- A tick succeeds, and it moves each stored run by one step: a queued run starts, a running run
  -- completes its next epoch, any other run stays.
  pub tick_training_runs_lem :
      (m : TrainingMoment F) (s : MetadataStore F D)
      → IsOk (tick_training_runs F D m s).0
        × ((run_id : String)
            → D.runs.find (tick_training_runs F D m s).1.runs run_id
              ≡ Option.map (ticked_row F D laws m) (D.runs.find s.runs run_id))
  unfolding tick_training_runs list_training_runs Stored
  tick_training_runs_lem m s =
      let rank : TrainingRunRow F → ℕ = λ r. r.created_at in
      let every : TrainingRunRow F → Bool = λ _. true in
      let rows = D.runs.select_desc rank every s.runs in
      let (fine, ticked) =
        tick_runs_lem m rows s (laws.select_found rank every s.runs)
          (laws.select_once rank every s.runs) in
      (
        fine,
        λ k. elim (Option-cases (run_at F D laws s.runs k)) [
          | inl gone ↦ ground (arith, ticked k, gone)
          | inr (row, found) ↦
              ground
                (arith, ticked k, found, laws.select_complete rank every s.runs k row found refl)
        ],
      )

-- ===== src/Training/Requests.antt =====
-- What the routes of the training service promise: an estimate keeps its bounds, what a run
-- that is refused leaves behind, and for what a user pays twice.
use text.Mathlib.TextLemmas.{length-append}
use Prim.Native.String.{count}
use hyper_looms.Prelude.{
  ℕ, ◌≤◌, String, ◌≡◌, ◌≢◌, ◌↔◌, ◌⊎◌, ◌∙◌, sym, ap, refl, true, Option, none, some, List, [], ◌∷◌,
  arith, string_eq, Option-cases, inl, inr, if_ind, option_ind, subst, max, length, length-take,
  take, map, is_some,
}
use hyper_looms.Float.{FloatOps, FloatLaws}
use hyper_looms.Result.{Result, Error, ok, err, result_ind, Result-cases, concat}
use hyper_looms.Scheduler.{rank_nodes}
use hyper_looms.Credits.{CreditLedger, transfer, charge_user_for_job, charge_args}
use hyper_looms.Credits.Idempotent.{LedgerSteps, charge_user_for_job_atomic, transfer_replay}
use hyper_looms.Float.Clamp.{round_recorded}
use hyper_looms.Store.State.{StoreState, list_nodes}
use hyper_looms.Models.Credits.{CreditTransaction}
use hyper_looms.Models.Node.{Node}
use hyper_looms.Models.Training.{
  ModelArtifact, DatasetArtifact, ComputeEstimateRequest, ComputeEstimateResponse,
  TrainingRunCreateRequest, TrainingRun,
}
use hyper_looms.Training.Rows.{TrainingMoment, Database, map_artifact, map_dataset}
use hyper_looms.Training.Metadata.{
  insert_training_run, MetadataStore, get_model_artifact, get_dataset_artifact,
}
use hyper_looms.Training.Estimate.{
  config_of, hint_of, config_is_valid, estimate_run, estimate_compute, replicas_for,
  effective_candidates, fallback_candidates,
}
use hyper_looms.Training.Runs.{
  estimate_payload, train_reference, train_call, charge_run, create_training_run,
}

length-map : {A B : Type 0} (f : A → B) (xs : List A) → length (map f xs) ≡ length xs
length-map f [] = refl
length-map f (x ∷ xs) = omega (arith, length-map f xs)

ok_injective : {A : Type 0} (a b : A) → ok a ≡ ok b → a ≡ b
ok_injective a b e = ground arith

some_injective : {A : Type 0} (a b : A) → some a ≡ some b → a ≡ b
some_injective a b e = ground arith

some_text : (i o : String) → concat ("charge:" ∷ i ∷ ":" ∷ o ∷ []) ≢ ""
some_text i o e = ground (arith, length-append "charge:" (concat (i ∷ ":" ∷ o ∷ [])), ap count e)

module _ (F : FloatOps) (D : Database F) where
  open F use {Float, lit, lt, le}

  -- An estimate is made exactly when the artifact and the data set are stored, and the request asks
  -- for 1 to 8 replicas and 32 to 8192 tokens.
  pub estimate_compute_iff :
      (m : TrainingMoment F) (rate : Float) (payload : ComputeEstimateRequest F)
      (nodes : List (Node F)) (s : MetadataStore F D)
      → ((estimate : ComputeEstimateResponse F) × (estimate_compute F D m rate payload nodes s
            ≡ ok estimate))
        ↔ ((is_some (D.artifacts.find s.artifacts payload.artifact_id) ≡ true)
            × (is_some (D.datasets.find s.datasets payload.dataset_id) ≡ true)
            × ((1 ≤ payload.replicas) × (payload.replicas ≤ 8))
            × ((32 ≤ payload.max_tokens) × (payload.max_tokens ≤ 8192)))
  unfolding estimate_compute
  estimate_compute_iff m rate payload nodes s =
      elim (Option-cases (D.artifacts.find s.artifacts payload.artifact_id)) [
        | inl gone ↦ (
          λ h. let made = h.1 in absurd (ground (arith, gone)),
          λ h. absurd (ground (arith, gone)),
        )
        | inr (artifact, fa) ↦ elim (Option-cases (D.datasets.find s.datasets payload.dataset_id)) [
          | inl gone ↦ (
            λ h. let made = h.1 in absurd (ground (arith, fa, gone)),
            λ h. absurd (ground (arith, gone)),
          )
          | inr (dataset, fd) ↦ (
            λ h. let made = h.1 in ground (arith, fa, fd),
            λ h. (
              estimate_run F m rate (map_artifact F artifact) (map_dataset F dataset) payload nodes,
              ground (arith, fa, fd),
            ),
          )
        ]
      ]

  abbrev Bounded : ℕ → ComputeEstimateResponse F → Type 0
  Bounded replicas estimate =
      (1 ≤ estimate.recommended_replicas)
      × (estimate.recommended_replicas ≤ replicas)
      × (length estimate.node_candidates ≤ 8)

  replicas_for_bounds :
      (requested : ℕ) (candidates : List (Node F))
      → 1 ≤ requested
      → (1 ≤ replicas_for F requested candidates)
        × (replicas_for F requested candidates ≤ requested)
        × (replicas_for F requested candidates ≤ max 1 (length candidates))
  replicas_for_bounds requested candidates some_replica = (omega arith, omega arith, omega arith)

  estimate_run_bounds :
      (m : TrainingMoment F) (rate : Float) (artifact : ModelArtifact F)
      (dataset : DatasetArtifact F) (payload : ComputeEstimateRequest F) (nodes : List (Node F))
      → 1 ≤ payload.replicas
      → Bounded payload.replicas (estimate_run F m rate artifact dataset payload nodes)
  unfolding estimate_run
  estimate_run_bounds m rate artifact dataset payload nodes some_replica =
      let config = config_of F m artifact payload in
      let candidates =
        effective_candidates F (rank_nodes F nodes config []) (fallback_candidates F nodes) in
      let (least, most, _) = replicas_for_bounds payload.replicas candidates some_replica in
      (
        least,
        most,
        omega (arith, length-map (hint_of F config) (take 8 candidates), length-take 8 candidates),
      )

  -- An estimate that is made for one replica or more recommends at least one and at most what was
  -- asked for, and names at most eight nodes.
  pub estimate_compute_bounds :
      (m : TrainingMoment F) (rate : Float) (payload : ComputeEstimateRequest F)
      (nodes : List (Node F)) (s : MetadataStore F D) (estimate : ComputeEstimateResponse F)
      → 1 ≤ payload.replicas
      → estimate_compute F D m rate payload nodes s ≡ ok estimate
      → (1 ≤ estimate.recommended_replicas)
        × (estimate.recommended_replicas ≤ payload.replicas)
        × (length estimate.node_candidates ≤ 8)
  unfolding estimate_compute
  estimate_compute_bounds m rate payload nodes s estimate some_replica made =
      let Fine : Result (ComputeEstimateResponse F) → Type 0 =
        λ r. r ≡ ok estimate → Bounded payload.replicas estimate in
      option_ind Fine (get_model_artifact F D s payload.artifact_id) (λ _ e. absurd (ground arith))
        (λ artifact _.
          option_ind Fine (get_dataset_artifact F D s payload.dataset_id)
            (λ _ e. absurd (ground arith))
            (λ dataset _.
              if_ind Fine (config_is_valid F payload)
                (λ _ (e : ok (estimate_run F m rate artifact dataset payload nodes) ≡ ok estimate).
                  subst (Bounded payload.replicas) (ok_injective _ _ e)
                    (estimate_run_bounds m rate artifact dataset payload nodes some_replica))
                (λ _ e. absurd (ground arith))))
        made

  abbrev Priced : ComputeEstimateResponse F → Type 0
  Priced estimate =
      lt (lit 0 0) estimate.estimated_cost_credits ≡ true
      → lt (lit 0 0) (F.round estimate.estimated_cost_credits 4) ≡ true

  estimate_run-Priced :
      (laws : FloatLaws F) (m : TrainingMoment F) (rate : Float) (artifact : ModelArtifact F)
      (dataset : DatasetArtifact F) (payload : ComputeEstimateRequest F) (nodes : List (Node F))
      → Priced (estimate_run F m rate artifact dataset payload nodes)
  unfolding estimate_run
  estimate_run-Priced laws m rate artifact dataset payload nodes costs =
      round_recorded F laws 1 2 _ (omega arith) (omega arith)
        (laws.round_step _ 2 (omega arith) costs)

  -- The cost of an estimate has two decimals, so where it is not zero the charge for it is not.
  estimate_compute-Priced :
      (laws : FloatLaws F) (m : TrainingMoment F) (rate : Float)
      (payload : ComputeEstimateRequest F) (nodes : List (Node F)) (s : MetadataStore F D)
      (estimate : ComputeEstimateResponse F)
      → estimate_compute F D m rate payload nodes s ≡ ok estimate
      → Priced estimate
  unfolding estimate_compute
  estimate_compute-Priced laws m rate payload nodes s estimate made =
      let Fine : Result (ComputeEstimateResponse F) → Type 0 =
        λ r. r ≡ ok estimate → Priced estimate in
      option_ind Fine (get_model_artifact F D s payload.artifact_id) (λ _ e. absurd (ground arith))
        (λ artifact _.
          option_ind Fine (get_dataset_artifact F D s payload.dataset_id)
            (λ _ e. absurd (ground arith))
            (λ dataset _.
              if_ind Fine (config_is_valid F payload)
                (λ _ (e : ok (estimate_run F m rate artifact dataset payload nodes) ≡ ok estimate).
                  subst Priced (ok_injective _ _ e)
                    (estimate_run-Priced laws m rate artifact dataset payload nodes))
                (λ _ e. absurd (ground arith))))
        made

  charge_run_atomic :
      (m : TrainingMoment F) (payload : TrainingRunCreateRequest F) (cost : Float)
      (credits : Option (CreditLedger F)) (e : Error)
      → (lt (lit 0 0) cost ≡ true → lt (lit 0 0) (F.round cost 4) ≡ true)
      → (charge_run F D m payload cost credits).0 ≡ err e
      → (charge_run F D m payload cost credits).1 ≡ credits
  unfolding charge_run
  charge_run_atomic m payload cost none e priced = λ _. refl
  charge_run_atomic m payload cost (some ledger) e priced =
      let call = train_call F D m in
      let reference = train_reference F D payload in
      let (charged, ledger') = charge_user_for_job F call payload.owner_id reference cost ledger in
      if_ind (λ (t : Result (Unit {0}) × Option (CreditLedger F)). t.0 ≡ err e → t.1 ≡ some ledger)
        (lt (lit 0 0) cost)
        (λ costs.
          result_ind (λ (r : Result (Unit {0})). r ≡ err e → some ledger' ≡ some ledger) charged
            (λ f failed _. ap some (
              charge_user_for_job_atomic F call payload.owner_id reference cost ledger f
                (priced costs) failed))
            (λ _ _ h. absurd (ground arith)))
        (λ _ _. refl)

  -- A request for a run that raises stores no run and leaves the coordinator's store with its ledger
  -- as it was, but for one case: the estimate was made and paid, and then the database refused the
  -- run. The user has then paid without a run.
  pub create_training_run_refused :
      (laws : FloatLaws F) (m : TrainingMoment F) (rate : Float)
      (payload : TrainingRunCreateRequest F) (coordinator : StoreState F) (s : MetadataStore F D)
      (e : Error)
      → (create_training_run F D m rate payload coordinator s).0 ≡ err e
      → ((create_training_run F D m rate payload coordinator s).1 ≡ (coordinator, s))
        ⊎ ((is_some m.database_error ≡ true)
            × ((estimate : ComputeEstimateResponse F) × (paid : Option (CreditLedger F))
                × (estimate_compute F D m rate
                      (estimate_payload F D payload)
                      (list_nodes F coordinator)
                      s
                    ≡ ok estimate)
                × (charge_run F D m payload estimate.estimated_cost_credits coordinator.credits
                    ≡ (ok tt, paid))
                × ((create_training_run F D m rate payload coordinator s).1
                    ≡ (record coordinator { credits = paid }, s))))
  unfolding create_training_run insert_training_run
  create_training_run_refused laws m rate payload coordinator s e =
      let request = estimate_payload F D payload in
      let nodes = list_nodes F coordinator in
      let Atomic : Result (TrainingRun F) × (StoreState F × MetadataStore F D) → Type 0 = λ t.
        t.0 ≡ err e
        → (t.1 ≡ (coordinator, s))
          ⊎ ((is_some m.database_error ≡ true)
              × ((estimate : ComputeEstimateResponse F) × (paid : Option (CreditLedger F))
                  × (estimate_compute F D m rate request nodes s ≡ ok estimate)
                  × (charge_run F D m payload estimate.estimated_cost_credits coordinator.credits
                      ≡ (ok tt, paid))
                  × (t.1 ≡ (record coordinator { credits = paid }, s)))) in
      result_ind Atomic (estimate_compute F D m rate request nodes s) (λ _ _ _. inl refl)
        (λ estimate made.
          let cost = estimate.estimated_cost_credits in
          let priced = estimate_compute-Priced laws m rate request nodes s estimate made in
          let (charged, paid) = charge_run F D m payload cost coordinator.credits in
          result_ind Atomic charged
            (λ f failed _. inl (
              ap (λ c. (record coordinator { credits = c }, s))
                (charge_run_atomic m payload cost coordinator.credits f priced failed)))
            (λ _ went.
              option_ind
                (λ (t : Result (TrainingRun F) × MetadataStore F D).
                  Atomic (t.0, (record coordinator { credits = paid }, t.1)))
                m.database_error (λ _ h. absurd (ground arith))
                (λ text refused _.
                  inr (rw refused refl, (estimate, paid, made, ap (λ c. (c, paid)) went, refl)))))

  abbrev settled : Result (CreditTransaction F) → Result (Unit {0})
  settled r = elim r [ err e ↦ err e | ok _ ↦ ok tt ]

  -- Once a user has paid for a run on an artifact and a data set, a further charge for a run of that
  -- user on the same two succeeds and takes nothing, whatever it is estimated to cost and whatever
  -- the ledger did in between.
  pub charge_run_once :
      (laws : FloatLaws F) (m later : TrainingMoment F) (payload again : TrainingRunCreateRequest F)
      (cost other_cost : Float) (ledger paid ledger' : CreditLedger F)
      → again.owner_id ≡ payload.owner_id
      → again.artifact_id ≡ payload.artifact_id
      → again.dataset_id ≡ payload.dataset_id
      → lt (lit 0 0) cost ≡ true
      → charge_run F D m payload cost (some ledger) ≡ (ok tt, some paid)
      → LedgerSteps F paid ledger'
      → charge_run F D later again other_cost (some ledger') ≡ (ok tt, some ledger')
  unfolding charge_run charge_user_for_job
  charge_run_once laws m later payload again cost other_cost ledger paid ledger' owner artifact
        dataset pos charged steps =
      let first = charge_args F payload.owner_id (train_reference F D payload) cost in
      let second = charge_args F again.owner_id (train_reference F D again) other_cost in
      let key : String =
        concat ("charge:" ∷ train_reference F D payload ∷ ":" ∷ payload.owner_id ∷ []) in
      let same_key : second.idempotency_key ≡ some key = rw (owner, artifact, dataset) refl in
      let (result, left) = transfer F (train_call F D m) first ledger in
      let outcome = settled result in
      let ran : charge_run F D m payload cost (some ledger) ≡ (outcome, some left) = rw pos refl in
      let told = sym ran ∙ charged in
      let taken : some left ≡ some paid =
        ap (λ (t : Result (Unit {0}) × Option (CreditLedger F)). t.1) told in
      let went : outcome ≡ ok tt =
        ap (λ (t : Result (Unit {0}) × Option (CreditLedger F)). t.0) told in
      let from : LedgerSteps F left ledger' =
        subst (λ b. LedgerSteps F b ledger') (sym (some_injective left paid taken)) steps in
      elim (Result-cases result) [
        | inl (e, failed) ↦ absurd (ground (arith, went, failed))
        | inr (txn, made) ↦
            if_ind (λ (t : Result (Unit {0}) × Option (CreditLedger F)). t ≡ (ok tt, some ledger'))
              (lt (lit 0 0) other_cost)
              (λ costs.
                let replay =
                  transfer_replay F (train_call F D m) (train_call F D later) first second ledger
                    ledger' key txn refl same_key (λ e. some_text _ _ e)
                    (ground (arith, laws.lt_not_le (lit 0 0) other_cost, costs)) made from in
                ap (λ (t : Result (CreditTransaction F) × CreditLedger F). (settled t.0, some t.1))
                  replay)
              (λ _. refl)
      ]

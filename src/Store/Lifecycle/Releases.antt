-- ===== src/Store/Lifecycle/Releases.antt =====
-- A node that goes offline loses its claims and its replicas together.
use mathlib.Core.Option
use hyper_looms.Prelude.{
  ℕ, String, ◌≡◌, ◌≢◌, ◌∙◌, sym, ap, refl, true, false, not, List, [], ◌∷◌, arith, ◌==◌, string_eq,
  nat_eq, pair_eq, Bool-cases, Option-cases, inl, inr, any, contains, contains-filter, if_ind,
  if◌then◌else◌, subst, length,
}
use hyper_looms.Float.{FloatOps}
use hyper_looms.Dict.{Dict, get, IsUnique}
use hyper_looms.Result.{Result}
use hyper_looms.Models.Job.{Job, job_status_eq}
use hyper_looms.Store.State.{Moment, StoreConfig, Assignment, StoreState}
use hyper_looms.Store.Keys.{drop_assignment}
use hyper_looms.Store.Expire.{
  evaluate_jobs, released_job, release_jobs, drop_node_assignments, blame_offline, release_inflight,
  expire_nodes, expire_stale_nodes,
}
use hyper_looms.Store.Lifecycle.Base.{
  ◌⟶◌, stay, phase_of_status, is_decided, ⟶-undecided, Held, JobIsValid, Goes, Goes-trans,
  Goes-same,
}
use hyper_looms.Store.Lifecycle.Evaluations.{Held-drop_assignment}
use hyper_looms.Store.Lifecycle.Watchdog.{
  SameJobs-blame_offline, evaluate_jobs-Goes, status_without_undecided,
}

module _ (F : FloatOps) where
  -- what a release makes of one job
  abbrev release_one : List String → String → Job F → Job F
  release_one ids message job =
      if any (λ n. contains n ids) job.inflight_node_ids
      then released_job F ids message job
      else job

  get-release_jobs :
      (ids : List String) (message : String) (d : Dict String (Job F)) (k : String)
      → get (release_jobs F ids message d).1 k ≡ Option.map (release_one ids message) (get d k)
  unfolding get release_jobs
  get-release_jobs ids message [] k = refl
  get-release_jobs ids message ((j, job) ∷ d) k =
      elim (Bool-cases (any (λ n. contains n ids) job.inflight_node_ids)) [
        | inl hit ↦ ground (arith, get-release_jobs ids message d k)
        | inr miss ↦ ground (arith, get-release_jobs ids message d k)
      ]

  release_jobs-IsUnique :
      (ids : List String) (message : String) (d : Dict String (Job F))
      → IsUnique d
      → IsUnique (release_jobs F ids message d).1
  unfolding release_jobs
  release_jobs-IsUnique ids message [] u = tt
  release_jobs-IsUnique ids message ((j, job) ∷ d) (apart, u) =
      let rest = release_jobs-IsUnique ids message d u in
      let new = get-release_jobs ids message d j in
      if_ind (λ (t : List String × Dict String (Job F)). IsUnique t.1)
        (any (λ n. contains n ids) job.inflight_node_ids) (λ _. (ground (arith, new), rest))
        (λ _. (ground (arith, new), rest))

  clear_of :
      (ids nodes : List String) (n : String)
      → any (λ i. contains i ids) nodes ≡ false
      → contains n nodes ≡ true
      → contains n ids ≡ false
  clear_of ids [] n h c = absurd (ground arith)
  clear_of ids (x ∷ xs) n h c = elim (Bool-cases (n == x)) [
    | inl same ↦ ground (arith, ap (λ i. contains i ids) ((string_eq.beq_iff n x).0 same))
    | inr other ↦ clear_of ids xs n (ground arith) (ground arith)
  ]

  some_in_flight : (ids nodes : List String) → any (λ i. contains i ids) nodes ≡ true → nodes ≢ []
  some_in_flight ids [] h e = ground arith
  some_in_flight ids (x ∷ xs) h e = ground arith

  Held-drop_node_assignments :
      (ids : List String) (claims : Dict Assignment ℕ) (s : StoreState F) (b : Assignment)
      → contains b.1 ids ≡ false
      → Held F s b
      → Held F (drop_node_assignments F ids claims s) b
  unfolding drop_node_assignments
  Held-drop_node_assignments ids [] s b ne h = h
  Held-drop_node_assignments ids ((a, t) ∷ rest) s b ne h =
      Held-drop_node_assignments ids rest (if contains a.1 ids then drop_assignment F a s else s) b
        ne
        (if_ind (λ (u : StoreState F). Held F u b) (contains a.1 ids)
          (λ inside.
            Held-drop_assignment F s a b
              (λ e. ground (arith, ap (λ (p : Assignment). contains p.1 ids) e)) h)
          (λ _. h))

  jobs-drop_node_assignments :
      (ids : List String) (claims : Dict Assignment ℕ) (s : StoreState F)
      → (drop_node_assignments F ids claims s).jobs ≡ s.jobs
  unfolding drop_node_assignments drop_assignment
  jobs-drop_node_assignments ids [] s = refl
  jobs-drop_node_assignments ids ((a, t) ∷ rest) s =
      jobs-drop_node_assignments ids rest (if contains a.1 ids then drop_assignment F a s else s)
      ∙ if_ind (λ (t : StoreState F). t.jobs ≡ s.jobs) (contains a.1 ids) (λ _. refl) (λ _. refl)

  release_one-phase :
      (ids : List String) (message : String) (s : StoreState F) (k : String) (job : Job F)
      → JobIsValid F s k job
      → phase_of_status job.status ⟶ phase_of_status (release_one ids message job).status
  release_one-phase ids message s k job it =
      if_ind (λ (j : Job F). phase_of_status job.status ⟶ phase_of_status j.status)
        (any (λ n. contains n ids) job.inflight_node_ids)
        (λ hit. ⟶-undecided job.status _ (elim (Bool-cases (is_decided job.status)) [
          | inl decided ↦ absurd (some_in_flight ids job.inflight_node_ids hit (it.idle decided))
          | inr open_job ↦ open_job
        ]))
        (λ _. stay)

  release_one-JobIsValid :
      (ids : List String) (message : String) (s t : StoreState F) (k : String) (job : Job F)
      → ((n : String) → contains n ids ≡ false → Held F s (k, n) → Held F t (k, n))
      → JobIsValid F s k job
      → JobIsValid F t k (release_one ids message job)
  release_one-JobIsValid ids message s t k job keep it =
      if_ind (JobIsValid F t k) (any (λ n. contains n ids) job.inflight_node_ids)
        (λ hit. record {
          keyed = it.keyed;
          held = λ n h.
              let apart = contains-filter (λ i. not (contains i ids)) n job.inflight_node_ids in
              keep n (ground (arith, apart)) (it.held n (ground (arith, apart)));
          idle = λ d. absurd (ground (arith, status_without_undecided F job));
        })
        (λ miss. record {
          keyed = it.keyed;
          held = λ n h. keep n (clear_of ids job.inflight_node_ids n miss h) (it.held n h);
          idle = it.idle;
        })

  -- The store with the released jobs: what a node offline leaves, before trust and verdicts.
  abbrev released : List String → String → StoreState F → StoreState F
  released ids message s =
      let s1 = drop_node_assignments F ids s.assignment_started_at s in
      record s1 { jobs = (release_jobs F ids message s1.jobs).1 }

  get-released :
      (ids : List String) (message : String) (s : StoreState F) (k : String)
      → get (released ids message s).jobs k ≡ Option.map (release_one ids message) (get s.jobs k)
  get-released ids message s k =
      get-release_jobs ids message _ k
      ∙ ap (λ d. Option.map (release_one ids message) (get d k))
          (jobs-drop_node_assignments ids s.assignment_started_at s)

  released-Goes :
      (ids : List String) (message : String) (s : StoreState F) → Goes F s (released ids message s)
  released-Goes ids message s v =
      let t = released ids message s in
      let keep : (k n : String) → contains n ids ≡ false → Held F s (k, n) → Held F t (k, n) =
        λ k n. Held-drop_node_assignments ids s.assignment_started_at s (k, n) in
      (
        record {
          unique_keys =
              release_jobs-IsUnique ids message _
                (rw (jobs-drop_node_assignments ids s.assignment_started_at s) v.unique_keys);
          at = λ k job found.
              let moved = sym (get-released ids message s k) ∙ found in
              elim (Option-cases (get s.jobs k)) [
                | inl gone ↦ absurd (ground arith)
                | inr (old, there) ↦
                    let same : release_one ids message old ≡ job = ground arith in
                    subst (JobIsValid F t k) same
                      (release_one-JobIsValid ids message s t k old (keep k) (v.at k old there))
              ];
        },
        λ k. rw (get-released ids message s k) (elim (Option-cases (get s.jobs k)) [
          | inl gone ↦ rw gone stay
          | inr (job, found) ↦ rw found (release_one-phase ids message s k job (v.at k job found))
        ]),
      )

  release_inflight-Goes :
      (cfg : StoreConfig F) (m : Moment F) (ids : List String) (message : String) (s : StoreState F)
      → Goes F s (release_inflight F cfg m ids message s).1
  unfolding release_inflight
  release_inflight-Goes cfg m ids message s =
      let s1 = drop_node_assignments F ids s.assignment_started_at s in
      let affected = (release_jobs F ids message s1.jobs).0 in
      let s2 = blame_offline F ids (released ids message s) in
      Goes-trans F s (released ids message s) (evaluate_jobs F cfg m affected s2).1
        (released-Goes ids message s)
        (Goes-trans F (released ids message s) s2 (evaluate_jobs F cfg m affected s2).1
          (Goes-same F _ s2 (SameJobs-blame_offline F ids (released ids message s)))
          (evaluate_jobs-Goes F cfg m affected s2))

  pub expire_stale_nodes-Goes :
      (cfg : StoreConfig F) (m : Moment F) (timeout : ℕ) (s : StoreState F)
      → Goes F s (expire_stale_nodes F cfg m timeout s).1
  unfolding expire_stale_nodes
  expire_stale_nodes-Goes cfg m timeout s =
      let (offline, nodes) = expire_nodes F m.now timeout s.nodes in
      let s1 = record s { nodes = nodes } in
      let aged : Goes F s s1 =
        Goes-same F s s1 (record { jobs = refl; started = refl; digests = refl; expires = refl }) in
      if_ind (λ (t : Result (List String) × StoreState F). Goes F s t.1) (length offline == 0)
        (λ _. aged) (λ _. Goes-trans F s s1 _ aged (release_inflight-Goes cfg m offline _ s1))

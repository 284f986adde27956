-- ===== src/Store/Lifecycle/Base.antt =====
-- The phases of a job, the invariant on jobs and claims, and steps that keep both.
use hyper_looms.Prelude.{
  String, ◌≡◌, ◌≢◌, ◌∙◌, sym, refl, Bool, true, false, Option, none, some, [], arith, ◌==◌,
  string_eq, pair_eq, Bool-cases, inl, inr, contains, subst, if◌then◌else◌, ap,
}
use hyper_looms.Float.{FloatOps}
use hyper_looms.Dict.{get, put, has, get-put, IsUnique, put-IsUnique}
use hyper_looms.Result.{Result}
use hyper_looms.Models.Job.{Job, JobStatus, job_status_eq}
use hyper_looms.Store.State.{StoreState, Assignment}
use hyper_looms.Store.Grants.{SameJobs}

-- What the owner of a job sees of it.
pub data Phase : Type 0 where
  absent undecided succeeded given_up : Phase

-- A job is created once, and decided once.
infix 40 ◌⟶◌
pub data ◌⟶◌ : Phase → Phase → Type 0 where
  stay : {p : Phase} → p ⟶ p
  create : {p : Phase} → Phase.absent ⟶ p
  complete : Phase.undecided ⟶ Phase.succeeded
  give_up : Phase.undecided ⟶ Phase.given_up

pub ⟶-trans : {p q r : Phase} → p ⟶ q → q ⟶ r → p ⟶ r
⟶-trans stay b = b
⟶-trans create b = create
⟶-trans complete stay = complete
⟶-trans give_up stay = give_up

-- No move leaves the two last phases.
pub ⟶-final : {p q : Phase} → p ⟶ q → p ≢ Phase.absent → p ≢ Phase.undecided → q ≡ p
⟶-final stay a u = refl
⟶-final create a u = absurd (a refl)
⟶-final complete a u = absurd (u refl)
⟶-final give_up a u = absurd (u refl)

abbrev pub phase_of_status : JobStatus → Phase
phase_of_status JobStatus.completed = Phase.succeeded
phase_of_status JobStatus.failed = Phase.given_up
phase_of_status _ = Phase.undecided

abbrev pub is_decided : JobStatus → Bool
is_decided JobStatus.completed = true
is_decided JobStatus.failed = true
is_decided _ = false

from_undecided : (b : JobStatus) → Phase.undecided ⟶ phase_of_status b
from_undecided JobStatus.pending = stay
from_undecided JobStatus.running = stay
from_undecided JobStatus.verifying = stay
from_undecided JobStatus.completed = complete
from_undecided JobStatus.failed = give_up

pub ⟶-undecided : (a b : JobStatus) → is_decided a ≡ false → phase_of_status a ⟶ phase_of_status b
⟶-undecided JobStatus.pending b h = from_undecided b
⟶-undecided JobStatus.running b h = from_undecided b
⟶-undecided JobStatus.verifying b h = from_undecided b
⟶-undecided JobStatus.completed b h = absurd (ground arith)
⟶-undecided JobStatus.failed b h = absurd (ground arith)

module _ (F : FloatOps) where
  abbrev pub phase_of : Option (Job F) → Phase
  phase_of none = Phase.absent
  phase_of (some job) = phase_of_status job.status

  -- The abstract view of a store: the phase of the job of each name.
  abbrev pub phase : StoreState F → String → Phase
  phase s job_id = phase_of (get s.jobs job_id)

  -- The claim is on record, with the digest and the expiry time of its key.
  abbrev pub Held : StoreState F → Assignment → Type 0
  Held s a =
      (has s.assignment_started_at a ≡ true)
      × (has s.assignment_hash_digests a ≡ true)
      × (has s.assignment_hash_expires_at a ≡ true)

  -- What every stored job satisfies: its key is its id, each node in flight holds a claim, and a
  -- decided job has no node in flight.
  pub record JobIsValid (s : StoreState F) (k : String) (job : Job F) : Type 0 where
    pub keyed : job.id ≡ k
    pub held :
        (node_id : String) → contains node_id job.inflight_node_ids ≡ true → Held s (k, node_id)
    pub idle : is_decided job.status ≡ true → job.inflight_node_ids ≡ []

  pub record JobsAreValid (s : StoreState F) : Type 0 where
    pub unique_keys : IsUnique s.jobs
    pub at : (k : String) (job : Job F) → get s.jobs k ≡ some job → JobIsValid s k job

  -- The operation keeps the invariant and moves each job forward, if at all.
  abbrev pub Goes : StoreState F → StoreState F → Type 0
  Goes s t = JobsAreValid s → JobsAreValid t × ((k : String) → phase s k ⟶ phase t k)

  abbrev pub GoesTo : {A : Type 0} → StoreState F → Result A × StoreState F → Type 0
  GoesTo s t = Goes s t.1

  pub Goes-refl : (s : StoreState F) → Goes s s
  Goes-refl s v = (v, λ k. stay)

  pub Goes-trans : (s t u : StoreState F) → Goes s t → Goes t u → Goes s u
  Goes-trans s t u f g v =
      let (vt, first) = f v in let (vu, second) = g vt in (vu, λ k. ⟶-trans (first k) (second k))

  -- A write of one undecided or new job under its id: what it needs, and what the claims of other
  -- jobs need.
  pub write-Goes :
      (s t : StoreState F) (k : String) (job : Job F)
      → t.jobs ≡ put s.jobs k job
      → (JobsAreValid s → (phase s k ⟶ phase_of_status job.status) × JobIsValid t k job)
      → ((i : String) (node_id : String) → k ≢ i → Held s (i, node_id) → Held t (i, node_id))
      → Goes s t
  write-Goes s t k job wrote new others v =
      let (forward, valid) = new v in
      (
        record {
          unique_keys = rw wrote (put-IsUnique s.jobs k job v.unique_keys);
          at = λ i other found.
              let moved : (if k == i then some job else get s.jobs i) ≡ some other =
                sym (get-put s.jobs k i job) ∙ sym (ap (λ d. get d i) wrote) ∙ found in
              elim (Bool-cases (k == i)) [
                | inl same ↦
                    let here : k ≡ i = ground (arith, string_eq.beq_iff k i) in
                    let it : job ≡ other = ground arith in
                    subst (λ j. JobIsValid t i j) it (subst (λ x. JobIsValid t x job) here valid)
                | inr apart ↦
                    let ne : k ≢ i = λ e. ground (arith, string_eq.beq_iff k i) in
                    let old = v.at i other (ground arith) in
                    record {
                      keyed = old.keyed;
                      held = λ n h. others i n ne (old.held n h);
                      idle = old.idle;
                    }
              ];
        },
        λ i. rw wrote (
            rw (get-put s.jobs k i job) (elim (Bool-cases (k == i)) [
              | inl same ↦ rw same (
                  subst (λ x. phase s x ⟶ phase_of_status job.status)
                    (ground (arith, string_eq.beq_iff k i)) forward)
              | inr apart ↦ rw apart stay
            ])),
      )

  pub Goes-same : (s t : StoreState F) → SameJobs F s t → Goes s t
  Goes-same s t same v = (
    record {
      unique_keys = rw same.jobs v.unique_keys;
      at = λ k job found.
          let old = v.at k job (sym (ap (λ d. get d k) same.jobs) ∙ found) in
          record {
            keyed = old.keyed;
            held = λ n h. rw (same.started, same.digests, same.expires) (old.held n h);
            idle = old.idle;
          };
    },
    λ k. rw same.jobs stay,
  )

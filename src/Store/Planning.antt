-- ===== src/Store/Planning.antt =====
-- How `InMemoryStateStore` sizes and places the replicas of a job.
use hyper_looms.Prelude.{
  arith, refl, ◌≡◌, ℕ, String, Bool, ◌&&◌, ◌||◌, true, false, not, List, [], ◌∷◌, map, ◌==◌,
  string_eq, nat_eq, if◌then◌else◌, take, filter, contains, length, sort_by, max, min,
}
use hyper_looms.Float.{FloatOps, max_float, min_float}
use hyper_looms.Text.{str_less}
use hyper_looms.Models.Node.{NodeStatus, node_status_eq, Node, free_vram_gb}
use hyper_looms.Models.Job.{Job, JobConfig, NodeExecutionResult}
use hyper_looms.Scheduler.{rank_nodes, select_nodes}
use hyper_looms.Verifier.{succeeded}
use hyper_looms.Store.State.{StoreConfig}

-- `[*dict.fromkeys(xs)]`: each element once, at its first place; `seen` are those before.
unfoldable pub unique_from : List String → List String → List String
unique_from seen [] = []
unique_from seen (x ∷ xs) =
    let skip = unique_from seen xs in
    let keep = unique_from (x ∷ seen) xs in if contains x seen then skip else x ∷ keep

unfoldable pub unique : List String → List String
unfolding unique_from
unique = unique_from []

contains-unique_from :
    (seen xs : List String) (y : String)
    → contains y (unique_from seen xs) ≡ (contains y xs && not (contains y seen))
unfolding unique_from
contains-unique_from seen [] y = refl
contains-unique_from seen (x ∷ xs) y = ground (
  arith,
  contains-unique_from seen xs y,
  contains-unique_from (x ∷ seen) xs y,
  string_eq.beq_iff y x,
)

-- `unique` keeps exactly the elements.
pub contains-unique : (xs : List String) (y : String) → contains y (unique xs) ≡ contains y xs
unfolding unique
contains-unique xs y = ground (arith, contains-unique_from [] xs y)

module _ (F : FloatOps) where
  open F use {Float, lit, add, mul, div, lt, le, round}

  -- the nodes that are not offline
  abbrev pub active : List (Node F) → List (Node F)
  active nodes = filter (λ (n : Node F). not (n.status == NodeStatus.offline)) nodes

  abbrev pub should_use_single_node_fallback : StoreConfig F → List (Node F) → Bool
  should_use_single_node_fallback cfg active_nodes =
      cfg.enable_single_node_test_fallback && length active_nodes == 1

  -- The order of the fallback's sort key: healthy, trust, free memory, id.
  fallback_less : Node F → Node F → Bool
  fallback_less a b =
      let healthy : Node F → Bool = λ n. n.status == NodeStatus.healthy in
      (not (healthy a) && healthy b)
      || (not (healthy a && not (healthy b))
          && (lt a.trust_score b.trust_score
              || (not (lt b.trust_score a.trust_score)
                  && (lt (free_vram_gb F a) (free_vram_gb F b)
                      || (not (lt (free_vram_gb F b) (free_vram_gb F a)) && str_less a.id b.id)))))

  unfoldable pub single_node_fallback_nodes : StoreConfig F → List (Node F) → List (Node F)
  unfolding fallback_less
  single_node_fallback_nodes cfg nodes =
      let active_nodes = active nodes in
      if should_use_single_node_fallback cfg active_nodes
      then sort_by (λ a b. fallback_less b a) active_nodes
      else []

  -- A node is eligible when it is ranked on its own.
  abbrev pub is_eligible : JobConfig F → Node F → Bool
  is_eligible config node = elim (rank_nodes F (node ∷ []) config []) [ [] ↦ false | x ∷ xs ↦ true ]

  unfoldable pub target_replicas : StoreConfig F → JobConfig F → List (Node F) → ℕ
  target_replicas cfg config nodes =
      let eligible = length (filter (is_eligible config) nodes) in
      let active_nodes = active nodes in
      if not (eligible == 0)
      then max 1 (min config.replicas eligible)
      else if should_use_single_node_fallback cfg active_nodes
      then 1
      else max 1 (min config.replicas (if length active_nodes == 0 then 1 else length active_nodes))

  unfoldable pub plan_nodes_for_job :
      StoreConfig F → List (Node F) → JobConfig F → ℕ → List (Node F)
  unfolding single_node_fallback_nodes
  plan_nodes_for_job cfg nodes config replicas = elim (select_nodes F nodes config replicas) [
    | [] ↦ take replicas (single_node_fallback_nodes cfg nodes)
    | x ∷ xs ↦ x ∷ xs
  ]

  unfoldable pub rank_nodes_for_job :
      StoreConfig F → List (Node F) → JobConfig F → List String → List (Node F)
  unfolding single_node_fallback_nodes
  rank_nodes_for_job cfg nodes config exclude = elim (rank_nodes F nodes config exclude) [
    | [] ↦
        filter (λ (n : Node F). not (contains n.id exclude)) (single_node_fallback_nodes cfg nodes)
    | x ∷ xs ↦ x ∷ xs
  ]

  abbrev pub successful : Job F → List (NodeExecutionResult F)
  successful job = filter (succeeded F) job.results

  -- `inflight` stands for its float 0.45 × inflight.
  unfoldable pub progress_of : ℕ → ℕ → ℕ → Float
  progress_of done inflight target =
      if target == 0
      then lit 15 0
      else (let ratio =
            min_float F (lit 10 1)
              (div (add (lit done 0) (mul (lit inflight 0) (lit 45 2))) (lit target 0)) in
          round
            (min_float F (lit 88 0)
              (max_float F (lit 12 0) (add (lit 12 0) (mul ratio (lit 72 0)))))
            2)

  abbrev pub ids_of : List (Node F) → List String
  ids_of = map (λ (n : Node F). n.id)

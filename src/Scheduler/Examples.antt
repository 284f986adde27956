-- ===== src/Scheduler/Examples.antt =====
-- The theorems on the ranking at concrete nodes, and tests.
use mathlib.Core.List.{Perm}
use hyper_looms.Prelude.{
  ◌++◌, filter, min, List, ℕ, String, ◌≡◌, true, false, List, [], ◌∷◌, All, length, some,
}
use hyper_looms.Float.Fixed.{fixed, fixed-FloatLaws}
use hyper_looms.Models.Node.{NodeStatus, Node}
use hyper_looms.Models.Job.{JobConfig}
use hyper_looms.Scheduler.{is_candidate, ranks_above, rank_nodes, select_nodes}
use hyper_looms.Scheduler.Ranking.{rank_nodes-All, select_nodes_best}

abbrev gpu_node : String → NodeStatus → ℕ → Node fixed
gpu_node i status vram = record {
  id = i;
  gpu = "RTX";
  vram_total_gb = fixed.lit vram 0;
  vram_used_gb = fixed.lit 0 0;
  status = status;
  trust_score = fixed.lit 9 1;
  jobs_running = 0;
  latency_ms_avg = fixed.lit 20 0;
  region = "eu";
  model_cache = [];
  last_heartbeat = 0;
}

abbrev nodes : List (Node fixed)
nodes =
    gpu_node "a" NodeStatus.healthy 24
    ∷ gpu_node "b" NodeStatus.offline 80
    ∷ gpu_node "c" NodeStatus.healthy 48
    ∷ gpu_node "d" NodeStatus.healthy 2
    ∷ []

abbrev config : JobConfig fixed
config = record {
  model = "llama-7b";
  replicas = 2;
  max_tokens = 256;
  temperature = fixed.lit 2 1;
  provider = "";
  preferred_region = some "eu";
}

rank_nodes-All_example :
    All
      (λ n. is_candidate fixed config ("a" ∷ []) n ≡ true)
      (rank_nodes fixed nodes config ("a" ∷ []))
rank_nodes-All_example = rank_nodes-All fixed nodes config ("a" ∷ [])

select_nodes_best_example :
    (others : List (Node fixed)) × Perm
      (select_nodes fixed nodes config 1 ++ others)
      (filter (is_candidate fixed config []) nodes)
    × (length (select_nodes fixed nodes config 1)
        ≡ min 1 (length (filter (is_candidate fixed config []) nodes)))
    × All
        (λ x. All (λ y. ranks_above fixed config y x ≡ false) others)
        (select_nodes fixed nodes config 1)
select_nodes_best_example = select_nodes_best fixed fixed-FloatLaws nodes config 1

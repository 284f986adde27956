-- ===== src/Scheduler/Ranking.antt =====
-- The ranking holds the candidates, best first, and the selection is the best of them.
use mathlib.Core.List.{Perm}
use hyper_looms.Prelude.{
  ℕ, zero, suc, String, ◌≡◌, true, false, Bool, List, [], ◌∷◌, ◌++◌, arith, take, filter, min, sym,
  subst, length-sort_by, length-take, drop, take-append-drop, length, All, IsSorted, sort_by-perm,
  All-sort_by, sort_by-IsSorted,
}
use hyper_looms.Float.{FloatOps, FloatLaws}
use hyper_looms.Models.Node.{Node}
use hyper_looms.Models.Job.{JobConfig}
use hyper_looms.Scheduler.{score_node, is_candidate, ranks_above, rank_nodes, select_nodes}

All-filter {ℓ} : {A : Type ℓ} (p : A → Bool) (xs : List A) → All (λ x. p x ≡ true) (filter p xs)
All-filter p [] = tt
All-filter p (x ∷ xs) = ground (arith, All-filter p xs)

module _ {ℓ} {A : Type ℓ} (less : A → A → Bool) where
  All-drop {κ} : (P : A → Type κ) (n : ℕ) (xs : List A) → All P xs → All P (drop n xs)
  All-drop P zero xs h = h
  All-drop P (suc n) [] h = tt
  All-drop P (suc n) (x ∷ xs) h = All-drop P n xs h.1

  -- In a sorted list nothing after a place is below anything before it.
  take_not_below :
      (n : ℕ) (xs : List A)
      → IsSorted less xs
      → All (λ x. All (λ y. less y x ≡ false) (drop n xs)) (take n xs)
  take_not_below zero xs s = tt
  take_not_below (suc n) [] s = tt
  take_not_below (suc n) (x ∷ xs) s =
      (All-drop (λ y. less y x ≡ false) n xs s.0, take_not_below n xs s.1)

module _ (F : FloatOps) where
  -- The ranking has each candidate as often as the given list, and nothing else.
  pub rank_nodes-perm :
      (nodes : List (Node F)) (config : JobConfig F) (exclude : List String)
      → Perm (rank_nodes F nodes config exclude) (filter (is_candidate F config exclude) nodes)
  unfolding rank_nodes
  rank_nodes-perm nodes config exclude = sort_by-perm (ranks_above F config) _

  -- The ranking is as long as the list of the candidates.
  length-rank_nodes :
      (nodes : List (Node F)) (config : JobConfig F) (exclude : List String)
      → length (rank_nodes F nodes config exclude)
        ≡ length (filter (is_candidate F config exclude) nodes)
  unfolding rank_nodes
  length-rank_nodes nodes config exclude = length-sort_by (ranks_above F config) _

  -- Every ranked node is a candidate: not offline, not excluded, and with room for the job.
  pub rank_nodes-All :
      (nodes : List (Node F)) (config : JobConfig F) (exclude : List String)
      → All (λ n. is_candidate F config exclude n ≡ true) (rank_nodes F nodes config exclude)
  unfolding rank_nodes
  rank_nodes-All nodes config exclude =
      All-sort_by (ranks_above F config) (λ n. is_candidate F config exclude n ≡ true) _
        (All-filter (is_candidate F config exclude) nodes)

module _ (F : FloatOps) (laws : FloatLaws F) where
  ranks_above_asym :
      (config : JobConfig F) (a b : Node F)
      → ranks_above F config a b ≡ true
      → ranks_above F config b a ≡ false
  unfolding ranks_above
  ranks_above_asym config a b h =
      let x = score_node F a config in
      let y = score_node F b config in
      ground (arith, laws.lt_not_le x y, laws.lt_not_le y x, laws.le_total x y, laws.le_total y x)

  ranks_above_trans :
      (config : JobConfig F) (a b c : Node F)
      → ranks_above F config b a ≡ false
      → ranks_above F config c b ≡ false
      → ranks_above F config c a ≡ false
  unfolding ranks_above
  ranks_above_trans config a b c h k =
      let x = score_node F a config in
      let y = score_node F b config in
      let z = score_node F c config in
      ground
        (arith, laws.lt_not_le x y, laws.lt_not_le y z, laws.lt_not_le x z, laws.le_trans z y x)

  -- No node ranks above one that stands before it.
  pub rank_nodes-IsSorted :
      (nodes : List (Node F)) (config : JobConfig F) (exclude : List String)
      → IsSorted (ranks_above F config) (rank_nodes F nodes config exclude)
  unfolding rank_nodes
  rank_nodes-IsSorted nodes config exclude =
      sort_by-IsSorted (ranks_above F config) (ranks_above_asym config) (ranks_above_trans config) _

  -- The selected nodes and some others are together the candidates among the given nodes, each as
  -- often as it was given; as many are selected as are asked for, or all candidates where there are
  -- fewer; and none of the others ranks above a selected one.
  pub select_nodes_best :
      (nodes : List (Node F)) (config : JobConfig F) (replicas : ℕ)
      → (others : List (Node F)) × Perm
          (select_nodes F nodes config replicas ++ others)
          (filter (is_candidate F config []) nodes)
        × (length (select_nodes F nodes config replicas)
            ≡ min replicas (length (filter (is_candidate F config []) nodes)))
        × All
            (λ x. All (λ y. ranks_above F config y x ≡ false) others)
            (select_nodes F nodes config replicas)
  unfolding select_nodes
  select_nodes_best nodes config replicas =
      let ranking = rank_nodes F nodes config [] in
      let candidates = filter (is_candidate F config []) nodes in
      (
        drop replicas ranking,
        subst (λ xs. Perm xs candidates) (sym (take-append-drop replicas ranking))
            (rank_nodes-perm F nodes config []),
        omega (arith, length-take replicas ranking, length-rank_nodes F nodes config []),
        take_not_below (ranks_above F config) replicas ranking
            (rank_nodes-IsSorted nodes config []),
      )

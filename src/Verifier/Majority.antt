-- ===== src/Verifier/Majority.antt =====
-- The clusters divide the successful results, and a verdict other than failure has a majority.
use native.Mathlib.Nat.{zero-add}
use hyper_looms.Prelude.{
  ℕ, suc, ◌+◌, ◌*◌, ◌≤◌, String, ◌≡◌, refl, false, List, [], ◌∷◌, map, arith, filter, length, All,
  IsSorted, sort_by-IsSorted, length-append, sum_by, sum_by-sort_by, ◌↔◌, ◌∙◌, max, min, ltb,
  nat_eq,
}
use hyper_looms.Float.{FloatOps}
use hyper_looms.Dict.{Dict}
use hyper_looms.Models.Job.{NodeExecutionResult, VerificationStatus}
use hyper_looms.Verifier.{
  ResultVerifier, succeeded, place, cluster_from, clusters_of, judge, verify, embeddings_of,
  matrix_rows,
}

-- the sum of a list of counts
abbrev pub sum : List ℕ → ℕ
sum [] = 0
sum (n ∷ ns) = n + sum ns

-- the size of the first cluster
abbrev pub first_size : List ℕ → ℕ
first_size [] = 0
first_size (n ∷ ns) = n

module _ (F : FloatOps) where
  abbrev Cluster : Type 0
  Cluster = List (NodeExecutionResult F)

  abbrev size : Cluster → ℕ
  size = length

  abbrev Embeddings : Type 0
  Embeddings = Dict String (List F.Float)

  sum_by-place :
      (self : ResultVerifier F) (d : Embeddings) (r : NodeExecutionResult F) (cs : List Cluster)
      → sum_by size (place F self d r cs) ≡ suc (sum_by size cs)
  unfolding place
  sum_by-place self d r [] = refl
  sum_by-place self d r (c ∷ cs) =
      ground (arith, length-append c (r ∷ []), sum_by-place self d r cs)

  sum_by-cluster_from :
      (self : ResultVerifier F) (d : Embeddings) (rs : Cluster) (cs : List Cluster)
      → sum_by size (cluster_from F self d rs cs) ≡ sum_by size cs + length rs
  unfolding cluster_from
  sum_by-cluster_from self d [] cs = omega arith
  sum_by-cluster_from self d (r ∷ rs) cs =
      omega (arith, sum_by-cluster_from self d rs (place F self d r cs), sum_by-place self d r cs)

  sum-map-size : (cs : List Cluster) → sum (map size cs) ≡ sum_by size cs
  sum-map-size [] = refl
  sum-map-size (c ∷ cs) = omega (arith, sum-map-size cs)

  sum_by-clusters_of :
      (self : ResultVerifier F) (d : Embeddings) (rs : Cluster)
      → sum_by size (clusters_of F self d rs) ≡ length rs
  unfolding clusters_of
  sum_by-clusters_of self d rs =
      sum_by-sort_by (λ a b. ltb (length b) (length a)) size (cluster_from F self d rs [])
      ∙ sum_by-cluster_from self d rs []
      ∙ zero-add (length rs)

  sum-judge :
      (self : ResultVerifier F) (n expected : ℕ) (m : Dict (String × String) F.Float)
      (cs : List Cluster)
      → sum (judge F self n expected m cs).cluster_sizes ≡ sum_by size cs
  unfolding judge
  sum-judge self n expected m [] = refl
  sum-judge self n expected m (c ∷ cs) = omega (arith, sum-map-size cs)

  -- The clusters divide the successful results: their sizes add up to the number of those.
  pub verify_divides :
      (self : ResultVerifier F) (results : List (NodeExecutionResult F)) (expected : ℕ)
      → sum (verify F self results expected).cluster_sizes ≡ length (filter (succeeded F) results)
  unfolding verify
  verify_divides self results expected =
      let rs = filter (succeeded F) results in
      let d = embeddings_of F self rs [] in
      sum-judge self (length rs) expected (matrix_rows F d rs rs []) (clusters_of F self d rs)
      ∙ sum_by-clusters_of self d rs

  judge_failed_iff :
      (self : ResultVerifier F) (n expected : ℕ) (m : Dict (String × String) F.Float)
      (cs : List Cluster)
      → ((judge F self n expected m cs).status ≡ VerificationStatus.failed)
        ↔ (2 * first_size (judge F self n expected m cs).cluster_sizes ≤ max 1 (min expected n))
  unfolding judge
  judge_failed_iff self n expected m [] = (λ _. omega arith, λ _. refl)
  judge_failed_iff self n expected m (c ∷ cs) = ground arith

  -- A verdict is a failure exactly when the first cluster is no strict majority of the population,
  -- which is the number of successful results, cut to the expected replicas, and at least 1.
  pub verify_failed_iff :
      (self : ResultVerifier F) (results : List (NodeExecutionResult F)) (expected : ℕ)
      → ((verify F self results expected).status ≡ VerificationStatus.failed) ↔ (
          2 * first_size (verify F self results expected).cluster_sizes
          ≤ max 1 (min expected (length (filter (succeeded F) results))))
  unfolding verify
  verify_failed_iff self results expected =
      let rs = filter (succeeded F) results in
      let d = embeddings_of F self rs [] in
      judge_failed_iff self (length rs) expected (matrix_rows F d rs rs [])
        (clusters_of F self d rs)

  sizes_below :
      (c : Cluster) (cs : List Cluster)
      → All (λ y. ltb (length c) (length y) ≡ false) cs
      → All (λ k. k ≤ length c) (map size cs)
  sizes_below c [] h = tt
  sizes_below c (x ∷ cs) h = (ground arith, sizes_below c cs h.1)

  judge_first_largest :
      (self : ResultVerifier F) (n expected : ℕ) (m : Dict (String × String) F.Float)
      (cs : List Cluster)
      → IsSorted (λ a b. ltb (length b) (length a)) cs
      → All
          (λ k. k ≤ first_size (judge F self n expected m cs).cluster_sizes)
          (judge F self n expected m cs).cluster_sizes
  unfolding judge
  judge_first_largest self n expected m [] s = tt
  judge_first_largest self n expected m (c ∷ cs) s = (omega arith, sizes_below c cs s.0)

  -- The first cluster is a largest one.
  pub verify_first_largest :
      (self : ResultVerifier F) (results : List (NodeExecutionResult F)) (expected : ℕ)
      → All
          (λ k. k ≤ first_size (verify F self results expected).cluster_sizes)
          (verify F self results expected).cluster_sizes
  unfolding verify clusters_of
  verify_first_largest self results expected =
      let rs = filter (succeeded F) results in
      let d = embeddings_of F self rs [] in
      judge_first_largest self (length rs) expected (matrix_rows F d rs rs [])
        (clusters_of F self d rs)
        (sort_by-IsSorted (λ (a b : Cluster). ltb (length b) (length a)) (λ a b h. ground arith)
          (λ a b c h k. ground arith) (cluster_from F self d rs []))

-- ===== src/Verifier.antt =====
-- backend/app/services/verifier.py: `ResultVerifier`, which keeps only its two settings.
pub mod Majority
mod Examples
mod Vectors
unfoldable pub use Vectors.{tokens, bump, dot, add_vectors, zero_vector}
use hyper_looms.Prelude.{
  ℕ, zero, suc, ◌+◌, ◌/◌, ◌%◌, String, Bool, ◌&&◌, true, false, Option, none, some, List, [], ◌∷◌,
  ◌++◌, map, foldl, ◌==◌, string_eq, nat_eq, pair_eq, ltb, leb, if◌then◌else◌, or_else, filter,
  contains, length, sort_by, max, min,
}
use hyper_looms.Float.{FloatOps, max_float, min_float}
use hyper_looms.Dict.{Dict, get, has, put}
use hyper_looms.Text.{lower, str_less}
use hyper_looms.Models.Job.{NodeExecutionResult, VerificationStatus}

module _ (F : FloatOps) where
  open F use {Float, lit, add, mul, div, sqrt, lt, le, round}

  -- `digest token` is int(sha256(token).hexdigest()[:8], 16).
  pub record ResultVerifier : Type 0 where
    pub similarity_threshold : Float
    pub embedding_dims : ℕ
    pub digest : String → ℕ

  -- what `verify` returns, with the details but the similarity matrix
  pub record Verdict : Type 0 where
    pub status : VerificationStatus
    pub merged_output : Option String
    pub confidence : Float
    pub majority_required : ℕ
    pub majority_nodes : List String
    pub cluster_sizes : List ℕ
    pub avg_internal_similarity : Float

  -- `x.success and x.output`
  abbrev pub succeeded : NodeExecutionResult F → Bool
  succeeded r =
      r.success && elim r.output [ none ↦ false | some o ↦ if o == "" then false else true ]

  -- a vector divided by its norm, unless that is zero
  pub normalize : List Float → List Float
  unfolding dot
  normalize v =
      let norm = sqrt (dot F v v) in
      if le norm (lit 0 0) && le (lit 0 0) norm then v else map (λ x. div x norm) v

  pub embed_text : ResultVerifier → String → List Float
  unfolding tokens bump zero_vector lower normalize
  embed_text self output =
      let toks = tokens (lower output) in
      let start = zero_vector F self.embedding_dims in
      let counted =
        foldl (λ (v : List Float) (t : String). bump F v (self.digest t % self.embedding_dims))
          start toks in
      elim toks [ [] ↦ start | t ∷ ts ↦ normalize counted ]

  pub similarity : List Float → List Float → Float
  unfolding dot
  similarity left right = max_float F (lit 0 1) (min_float F (lit 10 1) (dot F left right))

  abbrev Embeddings : Type 0
  Embeddings = Dict String (List Float)

  pub embeddings_of : ResultVerifier → List (NodeExecutionResult F) → Embeddings → Embeddings
  unfolding embed_text
  embeddings_of self [] d = d
  embeddings_of self (r ∷ rs) d =
      embeddings_of self rs (put d r.node_id (embed_text self (or_else r.output "")))

  abbrev pub embedding : Embeddings → String → List Float
  embedding d i = or_else (get d i) []

  -- `matrix[left][right]` is the entry under the pair.
  abbrev Matrix : Type 0
  Matrix = Dict (String × String) Float

  pub matrix_row : Embeddings → String → List (NodeExecutionResult F) → Matrix → Matrix
  unfolding similarity
  matrix_row d left [] m = m
  matrix_row d left (right ∷ rs) m =
      let s = round (similarity (embedding d left) (embedding d right.node_id)) 4 in
      matrix_row d left rs (
        if has m (left, right.node_id)
        then m
        else put (put m (left, right.node_id) s) (right.node_id, left) s)

  pub matrix_rows :
      Embeddings → List (NodeExecutionResult F) → List (NodeExecutionResult F) → Matrix → Matrix
  unfolding matrix_row
  matrix_rows d [] all m = m
  matrix_rows d (left ∷ ls) all m = matrix_rows d ls all (matrix_row d left.node_id all m)

  pub cluster_centroid : ResultVerifier → List (NodeExecutionResult F) → Embeddings → List Float
  unfolding add_vectors zero_vector normalize
  cluster_centroid self [] d = zero_vector F self.embedding_dims
  cluster_centroid self (r ∷ rs) d = normalize (
      foldl
        (λ (c : List Float) (x : NodeExecutionResult F). add_vectors F c (embedding d x.node_id))
        (zero_vector F self.embedding_dims) (r ∷ rs))

  -- A result joins the first cluster that it is near, or starts one of its own.
  pub place :
      ResultVerifier
      → Embeddings
      → NodeExecutionResult F
      → List (List (NodeExecutionResult F))
      → List (List (NodeExecutionResult F))
  unfolding similarity cluster_centroid
  place self d r [] = (r ∷ []) ∷ []
  place self d r (c ∷ cs) =
      if le self.similarity_threshold
        (similarity (embedding d r.node_id) (cluster_centroid self c d))
      then (c ++ r ∷ []) ∷ cs
      else c ∷ place self d r cs

  pub cluster_from :
      ResultVerifier
      → Embeddings
      → List (NodeExecutionResult F)
      → List (List (NodeExecutionResult F))
      → List (List (NodeExecutionResult F))
  unfolding place
  cluster_from self d [] clusters = clusters
  cluster_from self d (r ∷ rs) clusters = cluster_from self d rs (place self d r clusters)

  -- the sum of the similarities of all pairs, and their number
  pub pair_row : Matrix → String → List (NodeExecutionResult F) → Float × ℕ → Float × ℕ
  pair_row m left [] acc = acc
  pair_row m left (r ∷ rs) (total, pairs) =
      pair_row m left rs (add total (or_else (get m (left, r.node_id)) (lit 0 0)), pairs + 1)

  pub pair_sums : Matrix → List (NodeExecutionResult F) → Float × ℕ → Float × ℕ
  unfolding pair_row
  pair_sums m [] acc = acc
  pair_sums m (l ∷ ls) acc = pair_sums m ls (pair_row m l.node_id ls acc)

  pub average_internal_similarity : List (NodeExecutionResult F) → Matrix → Float
  unfolding pair_sums
  average_internal_similarity cluster m =
      let (total, pairs) = pair_sums m cluster (lit 0 1, 0) in
      if leb (length cluster) 1
      then lit 10 1
      else if pairs == 0
      then lit 10 1
      else div total (lit pairs 0)

  pub unique_ids : List (NodeExecutionResult F) → List String
  unique_ids [] = []
  unique_ids (r ∷ rs) =
      let rest = unique_ids rs in if contains r.node_id rest then rest else r.node_id ∷ rest

  abbrev pub majority_of : ℕ → ℕ
  majority_of population = if population == 1 then 1 else population / 2 + 1

  abbrev pub verdict_status : ResultVerifier → ℕ → ℕ → Float → VerificationStatus
  verdict_status self winner_size required avg =
      if leb required winner_size
      then if le self.similarity_threshold avg
        then VerificationStatus.verified
        else VerificationStatus.mismatch
      else VerificationStatus.failed

  -- the clusters of the successful results, largest first
  pub clusters_of :
      ResultVerifier
      → Embeddings
      → List (NodeExecutionResult F)
      → List (List (NodeExecutionResult F))
  unfolding cluster_from
  clusters_of self d successful =
      sort_by (λ a b. ltb (length b) (length a)) (cluster_from self d successful [])

  -- The verdict on `n` successful results, by the first of their clusters. Without a successful
  -- result there is no cluster.
  pub judge : ResultVerifier → ℕ → ℕ → Matrix → List (List (NodeExecutionResult F)) → Verdict
  unfolding average_internal_similarity unique_ids
  judge self n expected m [] = record {
    status = VerificationStatus.failed;
    merged_output = none;
    confidence = lit 0 1;
    majority_required = 0;
    majority_nodes = [];
    cluster_sizes = [];
    avg_internal_similarity = lit 0 1;
  }
  judge self n expected m (winner ∷ others) =
      let winner_size = length winner in
      let population = max 1 (min expected n) in
      let avg = average_internal_similarity winner m in
      let confidence = max_float F (lit 0 1) (
        min_float F (lit 10 1)
          (mul (div (lit winner_size 0) (lit (max 1 n) 0)) (add (lit 7 1) (mul avg (lit 3 1))))) in
      record {
        status = verdict_status self winner_size (majority_of population) avg;
        merged_output = elim winner [ [] ↦ none | r ∷ rs ↦ r.output ];
        confidence = round confidence 4;
        majority_required = majority_of population;
        majority_nodes = sort_by str_less (unique_ids winner);
        cluster_sizes = map (λ (c : List (NodeExecutionResult F)). length c) (winner ∷ others);
        avg_internal_similarity = round avg 4;
      }

  unfoldable pub verify : ResultVerifier → List (NodeExecutionResult F) → ℕ → Verdict
  unfolding embeddings_of matrix_rows clusters_of judge
  verify self results expected_replicas =
      let successful = filter succeeded results in
      let d = embeddings_of self successful [] in
      judge self (length successful) expected_replicas (matrix_rows d successful successful [])
        (clusters_of self d successful)

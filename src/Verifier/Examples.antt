-- ===== src/Verifier/Examples.antt =====
-- The theorems on verdicts at concrete results.
use hyper_looms.Prelude.{
  ◌*◌, ◌≤◌, ◌↔◌, String, ◌≡◌, true, List, [], ◌∷◌, All, filter, length, max, min, none, some,
}
use Prim.Native.String.{count}
use hyper_looms.Float.Fixed.{fixed}
use hyper_looms.Models.Job.{NodeExecutionResult, VerificationStatus}
use hyper_looms.Verifier.{ResultVerifier, succeeded, verify}
use hyper_looms.Verifier.Majority.{
  sum, first_size, verify_divides, verify_failed_iff, verify_first_largest,
}

abbrev verifier : ResultVerifier fixed
verifier = record { similarity_threshold = fixed.lit 82 2; embedding_dims = 4; digest = count }

abbrev answer : String → String → NodeExecutionResult fixed
answer i o = record {
  node_id = i;
  output = some o;
  latency_ms = fixed.lit 10 0;
  success = true;
  error = none;
}

abbrev results : List (NodeExecutionResult fixed)
results = answer "a" "red" ∷ answer "b" "blue" ∷ answer "c" "red" ∷ answer "d" "" ∷ []

verify_divides_example :
    sum (verify fixed verifier results 3).cluster_sizes ≡ length (filter (succeeded fixed) results)
verify_divides_example = verify_divides fixed verifier results 3

verify_failed_iff_example :
    ((verify fixed verifier results 3).status ≡ VerificationStatus.failed) ↔ (
      2 * first_size (verify fixed verifier results 3).cluster_sizes
      ≤ max 1 (min 3 (length (filter (succeeded fixed) results))))
verify_failed_iff_example = verify_failed_iff fixed verifier results 3

verify_first_largest_example :
    All
      (λ k. k ≤ first_size (verify fixed verifier results 3).cluster_sizes)
      (verify fixed verifier results 3).cluster_sizes
verify_first_largest_example = verify_first_largest fixed verifier results 3

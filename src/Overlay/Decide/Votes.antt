-- ===== src/Overlay/Decide/Votes.antt =====
-- The `Counter` of backend/app/services/p2p_overlay.py, and the loop that merges the ranked ids.
use hyper_looms.Prelude.{
  ℕ, ◌+◌, String, List, [], ◌∷◌, ◌++◌, map, ltb, leb, if◌then◌else◌, or_else, take, contains,
  length, sort_by, max, string_eq,
}
use hyper_looms.Dict.{Dict, get, put}

-- `Counter`: votes[key] += n
unfoldable pub vote : Dict String ℕ → String → ℕ → Dict String ℕ
vote votes key n = put votes key (or_else (get votes key) 0 + n)

unfoldable pub vote_all : Dict String ℕ → List String → ℕ → Dict String ℕ
unfolding vote
vote_all votes [] n = votes
vote_all votes (key ∷ keys) n = vote_all (vote votes key n) keys n

-- The loop that fills `merged`: it ends once there are `target` ids.
unfoldable pub merge_ids : ℕ → List String → List String → List String
merge_ids target merged [] = merged
merge_ids target merged (item ∷ items) =
    let merged' = if contains item merged then merged else merged ++ item ∷ [] in
    let rest = merge_ids target merged' items in
    if leb target (length merged') then merged' else rest

-- max(votes.values()) if votes else 1; a vote counts at least 1
unfoldable pub top_vote : Dict String ℕ → ℕ
top_vote [] = 1
top_vote ((_, n) ∷ votes) = max n (top_vote votes)

unfoldable pub merged_votes : Dict String ℕ → List String → ℕ
merged_votes votes [] = 0
merged_votes votes (i ∷ ids) = or_else (get votes i) 1 + merged_votes votes ids

-- `votes.most_common(n)`: by votes, highest first, equal ones in the order of their first vote
unfoldable pub most_common : ℕ → Dict String ℕ → List String
most_common n votes =
    map (λ (e : String × ℕ). e.0) (take n (sort_by (λ (a b : String × ℕ). ltb b.1 a.1) votes))

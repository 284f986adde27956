-- ===== src/Store/Keys.antt =====
-- The assignment hash keys: a claim issues one, and only it lets the node report on the claim.
use hyper_looms.Prelude.{
  ℕ, ◌+◌, ◌*◌, ◌/◌, String, Option, none, some, [], ◌∷◌, ◌==◌, string_eq, pair_eq, nat_eq, ltb,
  if◌then◌else◌,
}
use hyper_looms.Float.{FloatOps}
use hyper_looms.Dict.{get, put, remove}
use hyper_looms.Result.{Result, ok, err, value_error, concat}
use hyper_looms.Text.{show_nat, parse_nat, split}
use hyper_looms.Store.State.{Moment, StoreConfig, Assignment, StoreState}

module _ (F : FloatOps) where
  -- max(60, ttl), as the constructor sets it
  abbrev pub ttl_sec : StoreConfig F → ℕ
  ttl_sec cfg = if ltb 60 cfg.assignment_hash_ttl_sec then cfg.assignment_hash_ttl_sec else 60

  -- the whole second, in seconds since the epoch, at which a key issued now expires
  abbrev pub expiry_ts : StoreConfig F → ℕ → ℕ
  expiry_ts cfg now = (now + ttl_sec cfg * 1000000) / 1000000

  abbrev pub key_payload : String → String → ℕ → String → String
  key_payload job_id node_id exp_ts nonce =
      concat (job_id ∷ ":" ∷ node_id ∷ ":" ∷ show_nat exp_ts ∷ ":" ∷ nonce ∷ [])

  abbrev pub hash_key : StoreConfig F → Moment F → String → String → String
  hash_key cfg m job_id node_id =
      let exp_ts = expiry_ts cfg m.now in
      concat (
        m.nonce
        ∷ "."
        ∷ show_nat exp_ts
        ∷ "."
        ∷ cfg.sign (key_payload job_id node_id exp_ts m.nonce)
        ∷ [])

  -- Times are in microseconds.
  unfoldable pub issue_assignment_hash_key :
      StoreConfig F → Moment F → String → String → StoreState F → (String × ℕ) × StoreState F
  issue_assignment_hash_key cfg m job_id node_id s =
      let key = hash_key cfg m job_id node_id in
      let expires_at = expiry_ts cfg m.now * 1000000 in
      (
        (key, expires_at),
        record s {
          assignment_hash_digests =
              put s.assignment_hash_digests (job_id, node_id) (cfg.sha256_hex key);
          assignment_hash_expires_at =
              put s.assignment_hash_expires_at (job_id, node_id) expires_at;
        },
      )

  -- The checks on a key whose claim has the digest and the expiry time given.
  unfoldable pub check_key :
      StoreConfig F → Moment F → String → String → String → String → ℕ → Result (Unit {0})
  check_key cfg m job_id node_id key expected_digest expected_expires_at = elim (split 46 key) [
    | nonce ∷ exp_raw ∷ provided_signature ∷ [] ↦
        if nonce == ""
        then err (value_error "Malformed assignment hash key")
        else if exp_raw == ""
        then err (value_error "Malformed assignment hash key")
        else if provided_signature == ""
        then err (value_error "Malformed assignment hash key")
        else elim (parse_nat exp_raw) [
          | none ↦ err (value_error "Malformed assignment hash key")
          | some exp_ts ↦
              if exp_ts * 1000000 == expected_expires_at
              then if ltb (exp_ts * 1000000) m.now
                then err (value_error "Assignment hash key expired")
                else if provided_signature == cfg.sign (key_payload job_id node_id exp_ts nonce)
                then if cfg.sha256_hex key == expected_digest
                  then ok tt
                  else err (value_error "Assignment hash key does not match active claim")
                else err (value_error "Invalid assignment hash key signature")
              else err (value_error "Assignment hash key is not valid for this claim")
        ]
    | _ ↦ err (value_error "Malformed assignment hash key")
  ]

  -- A digest that is the empty text counts as missing.
  unfoldable pub verify_assignment_hash_key :
      StoreConfig F → Moment F → String → String → Option String → StoreState F → Result (Unit {0})
  unfolding check_key
  verify_assignment_hash_key cfg m job_id node_id key s =
      let missing : Result (Unit {0}) = err (
        value_error
          (concat ("Missing active assignment hash key for node '" ∷ node_id ∷ "'" ∷ []))) in
      elim (get s.assignment_hash_digests (job_id, node_id)) [
        | none ↦ missing
        | some digest ↦ elim (get s.assignment_hash_expires_at (job_id, node_id)) [
          | none ↦ missing
          | some expires_at ↦ if digest == "" then missing else elim key [
            | none ↦ err (value_error "Missing assignment hash key")
            | some k ↦
                if k == ""
                then err (value_error "Missing assignment hash key")
                else check_key cfg m job_id node_id k digest expires_at
          ]
        ]
      ]

  unfoldable pub clear_assignment_hash_key : Assignment → StoreState F → StoreState F
  clear_assignment_hash_key a s = record s {
    assignment_hash_digests = remove s.assignment_hash_digests a;
    assignment_hash_expires_at = remove s.assignment_hash_expires_at a;
  }

  -- the two lines that end a claim: its start is forgotten, and its key with it
  unfoldable pub drop_assignment : Assignment → StoreState F → StoreState F
  unfolding clear_assignment_hash_key
  drop_assignment a s =
      clear_assignment_hash_key a
        (record s { assignment_started_at = remove s.assignment_started_at a })

-- ===== src/NodeAuth/Tokens.antt =====
-- A token that is issued is accepted until it expires, and an accepted token is signed and current.
use Prim.Native.Char.{Char, code}
use Prim.Native.String.{char_at, ◌++◌ as str_append}
use text.Mathlib.TextLemmas.{cons-append, nil-append}
use hyper_looms.Prelude.{
  ℕ, zero, suc, ◌+◌, ◌*◌, ◌/◌, ◌≤◌, String, ◌≡◌, ◌≢◌, ◌⊎◌, ◌∙◌, sym, ap, refl, true, false, not,
  Option, none, some, arith, ◌==◌, string_eq, nat_beq, beq_refl, inl, inr, if_ind, option_ind,
  subst, if◌then◌else◌,
}
use hyper_looms.Result.{Result, ok, err, result_ind}
use hyper_looms.Text.{before}
use hyper_looms.NodeAuth.{
  TokenPayload, TokenCrypto, NodeTokenManager, has_char, after, rstrip_equals, equals, padding,
  b64encode, b64decode, issue_token, check_payload, verify_token, AuthSettings, Access,
  presented_token, access_of, require_node_token,
}

rstrip_equals-equals : (n : ℕ) → rstrip_equals (equals n) ≡ ""
unfolding rstrip_equals
rstrip_equals-equals zero = refl
rstrip_equals-equals (suc n) = rw (rstrip_equals-equals n) refl

-- what `rstrip_equals` makes of a character before the text that it keeps of the rest
abbrev keep : Char → String → String
keep c String.[] = if nat_beq (code c) 61 then "" else String.◌∷◌ c ""
keep c (String.◌∷◌ d r) = String.◌∷◌ c (String.◌∷◌ d r)

keep_lem : (c : Char) (s : String) → nat_beq (code c) 61 ≡ false → keep c s ≡ String.◌∷◌ c s
keep_lem c String.[] h = rw h refl
keep_lem c (String.◌∷◌ d r) h = refl

rstrip_equals-append :
    (body : String) (n : ℕ)
    → has_char 61 body ≡ false
    → rstrip_equals (str_append body (equals n)) ≡ body
unfolding rstrip_equals has_char
rstrip_equals-append String.[] n h = rw (nil-append (equals n)) (rstrip_equals-equals n)
rstrip_equals-append (String.◌∷◌ c s) n h =
    ap rstrip_equals (cons-append c s (equals n))
    ∙ ap (keep c) (rstrip_equals-append s n (ground arith))
    ∙ keep_lem c s (ground arith)

-- p, a dot, and q
abbrev dotted : String → String → String
dotted p q = str_append p (String.◌∷◌ (char_at "." 0) q)

before-dotted : (p q : String) → has_char 46 p ≡ false → before 46 (dotted p q) ≡ p
unfolding before has_char
before-dotted String.[] q h = rw (nil-append (String.◌∷◌ (char_at "." 0) q)) refl
before-dotted (String.◌∷◌ c s) q h =
    rw (cons-append c s (String.◌∷◌ (char_at "." 0) q))
      (ground (arith, before-dotted s q (ground arith)))

after-dotted : (p q : String) → has_char 46 p ≡ false → after 46 (dotted p q) ≡ q
unfolding after has_char
after-dotted String.[] q h = rw (nil-append (String.◌∷◌ (char_at "." 0) q)) refl
after-dotted (String.◌∷◌ c s) q h =
    rw (cons-append c s (String.◌∷◌ (char_at "." 0) q))
      (ground (arith, after-dotted s q (ground arith)))

has_char-dotted : (p q : String) → has_char 46 (dotted p q) ≡ true
unfolding has_char
has_char-dotted String.[] q = rw (nil-append (String.◌∷◌ (char_at "." 0) q)) refl
has_char-dotted (String.◌∷◌ c s) q =
    rw (cons-append c s (String.◌∷◌ (char_at "." 0) q)) (ground (arith, has_char-dotted s q))

-- What base64 does with a text: a body without padding or dots, then the padding that its length
-- asks for; and it decodes to the text.
pub record Encodes (crypto : TokenCrypto) (raw body : String) : Type 0 where
  pub padded : crypto.urlsafe_b64encode raw ≡ str_append body (equals (padding body))
  pub no_padding : has_char 61 body ≡ false
  pub no_dot : has_char 46 body ≡ false
  pub decodes : crypto.urlsafe_b64decode (crypto.urlsafe_b64encode raw) ≡ some raw

module _ (manager : NodeTokenManager) where
  open manager use {crypto}

  b64encode_lem : (raw body : String) → Encodes crypto raw body → b64encode crypto raw ≡ body
  unfolding b64encode
  b64encode_lem raw body e =
      ap rstrip_equals e.padded ∙ rstrip_equals-append body (padding body) e.no_padding

  b64decode_lem : (raw body : String) → Encodes crypto raw body → b64decode crypto body ≡ some raw
  b64decode_lem raw body e = ap crypto.urlsafe_b64decode (sym e.padded) ∙ e.decodes

  -- the time in seconds at which a token of this time expires
  abbrev pub exp_of : ℕ → ℕ
  exp_of now = (now + manager.ttl * 1000000) / 1000000

  -- the checks on the payload of a token for the node, before it expires
  check_payload_lem :
      (later exp : ℕ) (node_id : String) (expected : Option String)
      → node_id ≢ ""
      → (expected ≡ none) ⊎ (expected ≡ some node_id)
      → later ≤ exp * 1000000
      → check_payload later (record { node_id = node_id; exp = exp }) expected
        ≡ ok (record { node_id = node_id; exp = exp })
  unfolding check_payload
  check_payload_lem later exp node_id expected named (inl e) in_time =
      ground (arith, e, string_eq.beq_iff node_id "")
  check_payload_lem later exp node_id expected named (inr e) in_time =
      ground (arith, e, string_eq.beq_iff node_id "", beq_refl node_id)

  verify_token-dotted :
      (later : ℕ) (payload body signed : String) (claims : TokenPayload) (expected : Option String)
      → Encodes crypto payload body
      → Encodes crypto (crypto.hmac_sha256 payload) signed
      → crypto.loads payload ≡ ok claims
      → verify_token manager later (dotted body signed) expected
        ≡ check_payload later claims expected
  unfolding verify_token
  verify_token-dotted later payload body signed claims expected enc sig loaded = ground (
    arith,
    has_char-dotted body signed,
    before-dotted body signed enc.no_dot,
    after-dotted body signed enc.no_dot,
    b64decode_lem payload body enc,
    b64decode_lem (crypto.hmac_sha256 payload) signed sig,
    beq_refl (crypto.hmac_sha256 payload),
    loaded,
  )

  -- A token that is issued for a node is accepted for that node, and for no named node, until the
  -- second at which it expires, where base64 and JSON give back what they were given.
  pub verify_token-issue_token :
      (now later : ℕ) (node_id body signed : String) (expected : Option String)
      → let payload = crypto.dumps node_id (now / 1000000) (exp_of now) in
        Encodes crypto payload body
        → Encodes crypto (crypto.hmac_sha256 payload) signed
        → crypto.loads payload ≡ ok (record { node_id = node_id; exp = exp_of now })
        → node_id ≢ ""
        → (expected ≡ none) ⊎ (expected ≡ some node_id)
        → later ≤ exp_of now * 1000000
        → verify_token manager later (issue_token manager now node_id).0 expected
          ≡ ok (record { node_id = node_id; exp = exp_of now })
  unfolding issue_token
  verify_token-issue_token now later node_id body signed expected enc sig loaded named for_node
        in_time =
      let payload = crypto.dumps node_id (now / 1000000) (exp_of now) in
      let token : (issue_token manager now node_id).0 ≡ dotted body signed =
        rw (b64encode_lem payload body enc, b64encode_lem (crypto.hmac_sha256 payload) signed sig)
          refl in
      ap (λ t. verify_token manager later t expected) token
      ∙ verify_token-dotted later payload body signed _ expected enc sig loaded
      ∙ check_payload_lem later (exp_of now) node_id expected named for_node in_time

  -- What an accepted token shows: its signature is that of its payload, the payload names the node
  -- that was expected, and it has not expired.
  pub record Authentic (now : ℕ) (token : String) (expected : Option String) (p : TokenPayload)
      : Type 0 where
    pub payload_json : String
    pub decoded : b64decode crypto (before 46 token) ≡ some payload_json
    pub signed : b64decode crypto (after 46 token) ≡ some (crypto.hmac_sha256 payload_json)
    pub claims : crypto.loads payload_json ≡ ok p
    pub named : p.node_id ≢ ""
    pub for_node : (e : String) → expected ≡ some e → e ≢ "" → p.node_id ≡ e
    pub in_time : now ≤ p.exp * 1000000

  check_payload_ok :
      (now : ℕ) (q p : TokenPayload) (expected : Option String)
      → check_payload now q expected ≡ ok p
      → (q ≡ p)
        × (q.node_id ≢ "")
        × ((e : String) → expected ≡ some e → e ≢ "" → q.node_id ≡ e)
        × (now ≤ q.exp * 1000000)
  unfolding check_payload
  check_payload_ok now q p expected h = (
    ground arith,
    λ e. ground (arith, string_eq.beq_iff q.node_id ""),
    λ e wanted some_name.
        ground (arith, wanted, string_eq.beq_iff e "", string_eq.beq_iff e q.node_id),
    ground arith,
  )

  -- A token is accepted only if its signature is that of its payload under the manager's secret, and
  -- the payload that is returned names a node, the expected one if any, and has not expired.
  pub verify_token-Authentic :
      (now : ℕ) (token : String) (expected : Option String) (p : TokenPayload)
      → verify_token manager now token expected ≡ ok p
      → Authentic now token expected p
  unfolding verify_token
  verify_token-Authentic now token expected p =
      let Fine : Result TokenPayload → Type 0 = λ r. r ≡ ok p → Authentic now token expected p in
      if_ind Fine (not (has_char 46 token)) (λ _ h. absurd (ground arith))
        (λ _.
          option_ind Fine (b64decode crypto (before 46 token)) (λ _ h. absurd (ground arith))
            (λ payload decoded.
              option_ind Fine (b64decode crypto (after 46 token)) (λ _ h. absurd (ground arith))
                (λ provided found.
                  if_ind Fine (not (provided == crypto.hmac_sha256 payload))
                    (λ _ h. absurd (ground arith))
                    (λ same.
                      result_ind Fine (crypto.loads payload) (λ _ _ h. absurd (ground arith))
                        (λ q loaded h.
                          let (it, named, for_node, in_time) =
                            check_payload_ok now q p expected h in
                          let right : provided ≡ crypto.hmac_sha256 payload =
                            (string_eq.beq_iff provided (crypto.hmac_sha256 payload)).0
                              (ground arith) in
                          record {
                            payload_json = payload;
                            decoded = decoded;
                            signed = found ∙ ap some right;
                            claims = loaded ∙ ap ok it;
                            named = λ e. named (ap (λ (x : TokenPayload). x.node_id) it ∙ e);
                            for_node = λ e wanted some_name.
                                ap (λ (x : TokenPayload). x.node_id) (sym it)
                                ∙ for_node e wanted some_name;
                            in_time =
                                subst (λ (x : TokenPayload). now ≤ x.exp * 1000000) it in_time;
                          })))))

  access_of_granted :
      (r : Result TokenPayload) → access_of r ≡ Access.granted → (p : TokenPayload) × (r ≡ ok p)
  access_of_granted (ok p) h = (p, refl)
  access_of_granted (err e) h = absurd (ground arith)

  -- Where node tokens are required, a request on a node passes only with a token, in its bearer or
  -- else in its own header, whose signature is that of its payload under the manager's secret, which
  -- names that node, and which has not expired.
  pub require_node_token_granted :
      (settings : AuthSettings) (now : ℕ) (node_id : String)
      (authorization x_node_token : Option String)
      → settings.node_auth_enabled ≡ true
      → node_id ≢ ""
      → require_node_token settings manager now node_id authorization x_node_token ≡ Access.granted
      → (token : String) × (p : TokenPayload) × (presented_token authorization x_node_token
          ≡ some token)
        × Authentic now token (some node_id) p
        × (p.node_id ≡ node_id)
  unfolding require_node_token
  require_node_token_granted settings now node_id authorization x_node_token enabled some_node
        passed =
      let Fine : Access → Type 0 = λ a.
        a ≡ Access.granted
        → (token : String) × (p : TokenPayload) × (presented_token authorization x_node_token
            ≡ some token)
          × Authentic now token (some node_id) p
          × (p.node_id ≡ node_id) in
      if_ind Fine (not settings.node_auth_enabled) (λ off h. absurd (ground (arith, enabled, off)))
        (λ _.
          option_ind Fine (presented_token authorization x_node_token)
            (λ _ h. absurd (ground arith))
            (λ token found h.
              let (p, accepted) = access_of_granted _ h in
              let proof = verify_token-Authentic now token (some node_id) p accepted in
              (token, p, found, proof, proof.for_node node_id refl some_node)))
        passed

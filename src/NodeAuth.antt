-- ===== src/NodeAuth.antt =====
-- backend/app/services/node_auth.py: `NodeTokenManager`, and the checks of backend/app/core/security.py
-- that use it. A byte string is a text of one character for each byte.
pub mod Tokens
mod Examples
use Prim.Native.Char.{code}
use Prim.Native.String.{char_at, count, ◌++◌ as str_append}
use hyper_looms.Prelude.{
  ℕ, zero, suc, ◌+◌, ◌-◌, ◌*◌, ◌/◌, ◌%◌, String, Bool, true, false, ◌||◌, ◌&&◌, not, Option, none,
  some, [], ◌∷◌, ◌==◌, string_eq, nat_beq, ltb, max, if◌then◌else◌,
}
use hyper_looms.Result.{Error, key_error, runtime_error, Result, ok, err, value_error, concat}
use hyper_looms.Text.{before, lower, strip, starts_with}

-- What is read of the payload of a token. A negative "exp" is read as 0, which is as long past.
pub record TokenPayload : Type 0 where
  pub node_id : String
  pub exp : ℕ

-- The libraries: base64 with its padding (a text that is no base64 raises a `ValueError`), HMAC-SHA256
-- under the manager's secret, and JSON; `loads` is json.loads with the two reads of the payload.
pub record TokenCrypto : Type 0 where
  pub urlsafe_b64encode : String → String
  pub urlsafe_b64decode : String → Option String
  pub hmac_sha256 : String → String
  pub dumps : String → ℕ → ℕ → String
  pub loads : String → Result TokenPayload

pub record NodeTokenManager : Type 0 where
  pub crypto : TokenCrypto
  pub ttl : ℕ

-- `NodeTokenManager.__init__`
abbrev pub ttl_of : ℕ → ℕ
ttl_of ttl_seconds = max 300 ttl_seconds

-- whether the character is in the text
unfoldable pub has_char : ℕ → String → Bool
has_char c String.[] = false
has_char c (String.◌∷◌ d s) = nat_beq (code d) c || has_char c s

-- token.split(".", 1)[1]
unfoldable pub after : ℕ → String → String
after c String.[] = ""
after c (String.◌∷◌ d s) = let rest = after c s in if nat_beq (code d) c then s else rest

-- s.rstrip("=")
unfoldable pub rstrip_equals : String → String
rstrip_equals String.[] = ""
rstrip_equals (String.◌∷◌ c s) = elim (rstrip_equals s) [
  | String.[] ↦ if nat_beq (code c) 61 then "" else String.◌∷◌ c ""
  | String.◌∷◌ d r ↦ String.◌∷◌ c (String.◌∷◌ d r)
]

-- "=" * n
abbrev pub equals : ℕ → String
equals zero = ""
equals (suc n) = String.◌∷◌ (char_at "=" 0) (equals n)

-- (4 - (len(raw) % 4)) % 4
abbrev pub padding : String → ℕ
padding raw = (4 - count raw % 4) % 4

unfoldable pub b64encode : TokenCrypto → String → String
unfolding rstrip_equals
b64encode crypto raw = rstrip_equals (crypto.urlsafe_b64encode raw)

abbrev pub b64decode : TokenCrypto → String → Option String
b64decode crypto raw = crypto.urlsafe_b64decode (str_append raw (equals (padding raw)))

-- The token and the time in seconds at which it expires; `now` is in microseconds.
unfoldable pub issue_token : NodeTokenManager → ℕ → String → String × ℕ
unfolding b64encode
issue_token manager now node_id =
    let exp = (now + manager.ttl * 1000000) / 1000000 in
    let payload_json = manager.crypto.dumps node_id (now / 1000000) exp in
    let signature = manager.crypto.hmac_sha256 payload_json in
    (
      str_append (b64encode manager.crypto payload_json)
          (String.◌∷◌ (char_at "." 0) (b64encode manager.crypto signature)),
      now + manager.ttl * 1000000,
    )

-- the checks on the payload of a token whose signature is right
unfoldable pub check_payload : ℕ → TokenPayload → Option String → Result TokenPayload
check_payload now payload expected_node_id =
    let mismatch : Bool = elim expected_node_id [
      | none ↦ false
      | some expected ↦ not (expected == "") && not (expected == payload.node_id)
    ] in
    if payload.node_id == ""
    then err (value_error "Invalid node token payload")
    else if mismatch
    then err (value_error "Node token does not match node path")
    else if ltb (payload.exp * 1000000) now
    then err (value_error "Node token expired")
    else ok payload

unfoldable pub verify_token : NodeTokenManager → ℕ → String → Option String → Result TokenPayload
unfolding has_char after before check_payload
verify_token manager now token expected_node_id =
    let decoded_payload = b64decode manager.crypto (before 46 token) in
    let decoded_signature = b64decode manager.crypto (after 46 token) in
    if not (has_char 46 token)
    then err (value_error "Malformed node token")
    else elim decoded_payload [
      | none ↦ err (value_error "base64")
      | some payload_bytes ↦ elim decoded_signature [
        | none ↦ err (value_error "base64")
        | some provided_signature ↦
            if not (provided_signature == manager.crypto.hmac_sha256 payload_bytes)
            then err (value_error "Invalid node token signature")
            else elim (manager.crypto.loads payload_bytes) [
              | err e ↦ err e
              | ok payload ↦ check_payload now payload expected_node_id
            ]
      ]
    ]

-- The settings that the checks of core/security.py read.
pub record AuthSettings : Type 0 where
  pub admin_api_key : String
  pub node_auth_enabled : Bool
  pub node_join_token : String

-- How a check ends: it lets the request pass, raises an HTTPException with its status and its detail,
-- or lets another exception through.
pub data Access : Type 0 where
  granted : Access
  refused : ℕ → String → Access
  raised : Error → Access

-- `not x or x != expected`
abbrev pub lacks : Option String → String → Bool
lacks none expected = true
lacks (some x) expected = x == "" || not (x == expected)

pub require_admin_api_key : AuthSettings → Option String → Access
require_admin_api_key settings x_api_key =
    if lacks x_api_key settings.admin_api_key
    then Access.refused 401 "Invalid or missing admin API key"
    else Access.granted

pub require_node_join_token : AuthSettings → Option String → Access
require_node_join_token settings x_node_join_token =
    if not settings.node_auth_enabled
    then Access.granted
    else if lacks x_node_join_token settings.node_join_token
    then Access.refused 401 "Invalid or missing node join token"
    else Access.granted

-- s[n:]
unfoldable pub drop_prefix : ℕ → String → String
drop_prefix zero s = s
drop_prefix (suc n) String.[] = ""
drop_prefix (suc n) (String.◌∷◌ c s) = drop_prefix n s

-- `x or None`
abbrev pub or_none : String → Option String
or_none x = if x == "" then none else some x

unfoldable pub extract_bearer_token : Option String → Option String
unfolding lower starts_with drop_prefix strip
extract_bearer_token none = none
extract_bearer_token (some value) =
    if value == ""
    then none
    else if starts_with "bearer " (lower value)
    then or_none (strip (drop_prefix 7 value))
    else none

-- `_extract_bearer_token(authorization) or x_node_token`
unfoldable pub presented_token : Option String → Option String → Option String
unfolding extract_bearer_token
presented_token authorization x_node_token = elim (extract_bearer_token authorization) [
  | some token ↦ some token
  | none ↦ elim x_node_token [ none ↦ none | some token ↦ or_none token ]
]

-- what becomes of an exception of `verify_token`: a `ValueError` is answered
abbrev pub access_of : Result TokenPayload → Access
access_of (ok _) = Access.granted
access_of (err (value_error e)) = Access.refused 401 (concat ("Invalid node token: " ∷ e ∷ []))
access_of (err e) = Access.raised e

unfoldable pub require_node_token :
    AuthSettings → NodeTokenManager → ℕ → String → Option String → Option String → Access
unfolding presented_token verify_token
require_node_token settings manager now node_id authorization x_node_token =
    if not settings.node_auth_enabled
    then Access.granted
    else elim (presented_token authorization x_node_token) [
      | none ↦ Access.refused 401 "Missing node auth token"
      | some token ↦ access_of (verify_token manager now token (some node_id))
    ]

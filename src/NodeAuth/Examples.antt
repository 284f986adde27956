-- ===== src/NodeAuth/Examples.antt =====
-- The theorems on tokens with a small codec that pads its texts, and one node.
use Prim.Native.String.{◌++◌ as str_append, count}
use hyper_looms.Prelude.{◌≡◌, refl, String, none, some, inr, arith, ap, true, string_eq}
use hyper_looms.Result.{ok}
use hyper_looms.NodeAuth.{
  TokenPayload, TokenCrypto, NodeTokenManager, has_char, after, rstrip_equals, equals, padding,
  issue_token, verify_token, check_payload, AuthSettings, presented_token, extract_bearer_token,
  drop_prefix, require_node_token,
}
use hyper_looms.Text.{before, lower, starts_with, strip}
use hyper_looms.NodeAuth.Tokens.{
  Encodes, Authentic, verify_token-issue_token, require_node_token_granted,
}

-- It signs every payload alike, and writes the id of the node alone.
abbrev toy : TokenCrypto
toy = record {
  urlsafe_b64encode = λ raw. str_append raw (equals (padding raw));
  urlsafe_b64decode = λ s. some (rstrip_equals s);
  hmac_sha256 = λ payload. str_append "s" payload;
  dumps = λ node_id iat exp. node_id;
  loads = λ payload. ok (record { node_id = payload; exp = 300 });
}

abbrev manager : NodeTokenManager
manager = record { crypto = toy; ttl = 300 }

payload-Encodes : Encodes toy "n1" "n1"
unfolding has_char rstrip_equals
payload-Encodes = record { padded = refl; no_padding = refl; no_dot = refl; decodes = refl }

signature-Encodes : Encodes toy "sn1" "sn1"
unfolding has_char rstrip_equals
signature-Encodes = record { padded = refl; no_padding = refl; no_dot = refl; decodes = refl }

verify_token-issue_token_example :
    verify_token manager 5 (issue_token manager 0 "n1").0 (some "n1")
    ≡ ok (record { node_id = "n1"; exp = 300 })
verify_token-issue_token_example =
    verify_token-issue_token manager 0 5 "n1" "n1" "sn1" (some "n1") payload-Encodes
      signature-Encodes refl (λ e. ground (arith, ap count e)) (inr refl) (omega arith)

abbrev settings : AuthSettings
settings = record { admin_api_key = "a"; node_auth_enabled = true; node_join_token = "j" }

require_node_token_granted_example :
    (token : String) × (p : TokenPayload) × (presented_token (some "Bearer n1.sn1") none
      ≡ some token)
    × Authentic manager 5 token (some "n1") p
    × (p.node_id ≡ "n1")
unfolding require_node_token presented_token extract_bearer_token lower starts_with drop_prefix
    strip verify_token has_char after before rstrip_equals check_payload
require_node_token_granted_example =
    require_node_token_granted manager settings 5 "n1" (some "Bearer n1.sn1") none refl
      (λ e. ground (arith, ap count e)) refl

-- ===== src/Trust.antt =====
-- internal/trust: whether a credential is trusted for an issuer. JSON and HTTP are parameters.
pub mod Closed
use siros_status_service.Prelude.{
  ℕ, Bool, true, false, not, List, [], ◌∷◌, ◌++◌, Option, none, some, ◌==◌, if◌then◌else◌, take,
}
use siros_status_service.Prelude.Str.{Str, bytes_of, str_eq}
use siros_status_service.Result.{
  Result, ok, err, no_credential, bad_type, not_200, fail_if, ◌>>=◌, ◌>>◌,
}
use siros_status_service.Signer.{Bytes}
use siros_status_service.Token.{Jwk, non_empty}

pub record Decision : Type 0 where
  pub trusted : Bool
  pub reason : Str

-- A `nil` key is `none`.
pub record Credential : Type 0 where
  pub type : Str
  pub jwk : Option Jwk
  pub x5c : List Str

abbrev pub credential_jwk : Str
credential_jwk = bytes_of "jwk"

abbrev pub credential_x5c : Str
credential_x5c = bytes_of "x5c"

abbrev pub credential_from_jwk : Jwk → Credential
credential_from_jwk jwk = record { type = credential_jwk; jwk = some jwk; x5c = [] }

abbrev pub credential_from_x5c : List Str → Credential
credential_from_x5c chain = record { type = credential_x5c; jwk = none; x5c = chain }

-- `Evaluator`
abbrev pub Evaluator : Type 0
Evaluator = Str → Credential → Result Decision

-- `AllowAllEvaluator.Evaluate`
abbrev pub allow_all : Evaluator
allow_all subject cred =
    ok (record { trusted = true; reason = bytes_of "no trust PDP configured (fail-open default)" })

-- An element of `resource.key`.
pub data KeyItem : Type 0 where
  key_object : Jwk → KeyItem
  certificate : Str → KeyItem

-- `authzenRequest`, whose subject and resource have the same identity.
pub record Request : Type 0 where
  pub subject_type : Str
  pub subject_id : Str
  pub resource_type : Str
  pub resource_id : Str
  pub key : List KeyItem
  pub action : Option Str

-- `authzenResponse`, with the `message` of its context's reason where that is a text.
pub record Response : Type 0 where
  pub decision : Bool
  pub message : Option Str

-- The decision point as the code sees it: a request as JSON, a POST that gives a status code and a
-- body, and a body decoded.
pub record Pdp : Type 0 where
  pub marshal : Request → Result Bytes
  pub post : Str → Bytes → Result (ℕ × Bytes)
  pub decode : Bytes → Result Response

-- `AuthZENEvaluator`
pub record AuthzenEvaluator : Type 0 where
  pub base_url : Str
  pub action_name : Str
  pub pdp : Pdp

-- `maxAuthZENResponseBytes`
abbrev pub max_response_bytes : ℕ
max_response_bytes = 1048576

abbrev pub certificates : List Str → List KeyItem
certificates [] = []
certificates (c ∷ cs) = certificate c ∷ certificates cs

abbrev pub jwk_items : Option Jwk → Result (List KeyItem)
jwk_items none = err no_credential
jwk_items (some jwk) = ok (key_object jwk ∷ [])

abbrev pub x5c_items : List Str → Result (List KeyItem)
x5c_items [] = err no_credential
x5c_items (c ∷ cs) = ok (certificates (c ∷ cs))

-- `credentialKey`
unfoldable pub credential_key : Credential → Result (List KeyItem)
credential_key cred =
    if str_eq cred.type credential_jwk
    then jwk_items cred.jwk
    else if str_eq cred.type credential_x5c
    then x5c_items cred.x5c
    else err bad_type

abbrev pub denial : Option Str → Str
denial none = bytes_of "denied by policy"
denial (some message) = message

abbrev pub request_for : AuthzenEvaluator → Str → Credential → List KeyItem → Request
request_for e subject cred key = record {
  subject_type = bytes_of "key";
  subject_id = subject;
  resource_type = cred.type;
  resource_id = subject;
  key = key;
  action = non_empty e.action_name;
}

-- `AuthZENEvaluator.Evaluate`
unfoldable pub evaluate : AuthzenEvaluator → Evaluator
unfolding credential_key
evaluate e subject cred = do
  key ← credential_key cred
  body ← e.pdp.marshal (request_for e subject cred key)
  (status, answer) ← e.pdp.post (e.base_url ++ bytes_of "/evaluation") body
  fail_if (not (status == 200)) not_200
  parsed ← e.pdp.decode (take max_response_bytes answer)
  ok (record {
    trusted = parsed.decision;
    reason = if parsed.decision then bytes_of "trusted by policy" else denial parsed.message;
  })

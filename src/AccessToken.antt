-- ===== src/AccessToken.antt =====
-- internal/accesstoken/keymanager.go: an access token. The check of the permissions and the JOSE
-- signer are third-party packages: parameters. Times are in nanoseconds, a claim's in seconds.
use siros_status_service.Prelude.{ℕ, ◌+◌, ◌/◌, List, [], ◌∷◌}
use siros_status_service.Prelude.Str.{Str}
use siros_status_service.Result.{Result, ok, ◌>>=◌, ◌>>◌}
use siros_status_service.ListId.{hex_encode}
use siros_status_service.Assertion.{second}

-- `IssueParams`
pub record IssueParams : Type 0 where
  pub issuer : Str
  pub audience : Str
  pub subject : Str
  pub tenant_id : Str
  pub tac : Str
  pub ttl : ℕ

-- `AccessTokenClaims`
pub record AccessTokenClaims : Type 0 where
  pub id : Str
  pub issuer : Str
  pub subject : Str
  pub audience : List Str
  pub issued_at : ℕ
  pub expiry : ℕ
  pub tenant_id : Str
  pub tac : Str

-- `TAC.Validate`, `jose.NewSigner` with the key, and the signing of claims by that signer.
pub record KeyManager : Type 0 where
  pub validate : Str → Result (Unit {0})
  pub new_signer : Result (Unit {0})
  pub sign : AccessTokenClaims → Result Str

abbrev pub claims_of : IssueParams → Str → ℕ → AccessTokenClaims
claims_of p id now = record {
  id = id;
  issuer = p.issuer;
  subject = p.subject;
  audience = p.audience ∷ [];
  issued_at = now / second;
  expiry = (now + p.ttl) / second;
  tenant_id = p.tenant_id;
  tac = p.tac;
}

-- `randomID`, with what `rand.Read` gave.
unfoldable pub random_id : Result (List ℕ) → Result Str
unfolding hex_encode
random_id read = do b ← read; ok (hex_encode b)

-- `Issue`
unfoldable pub issue : KeyManager → IssueParams → Result (List ℕ) → ℕ → Result Str
unfolding random_id
issue m p read now = do
  m.validate p.tac
  id ← random_id read
  m.new_signer
  m.sign (claims_of p id now)

-- ===== src/Router.antt =====
-- internal/ingress/router.go: the claim-routed proxy in front of the ingestion services. The token
-- validator and the proxies themselves are outside; a request is its `Authorization` header and path.
pub mod Routes
use siros_status_service.Prelude.{
  ℕ, Bool, true, false, not, ◌&&◌, ◌||◌, List, [], ◌∷◌, ◌++◌, Option, none, some, ◌==◌,
  if◌then◌else◌,
}
use siros_status_service.Prelude.Str.{Str, bytes_of, str_eq}
use siros_status_service.ListId.{parse_shard}

-- `strings.CutPrefix`: what follows the prefix.
unfoldable pub cut_prefix : Str → Str → Option Str
cut_prefix s [] = some s
cut_prefix [] (p ∷ ps) = none
cut_prefix (c ∷ s) (p ∷ ps) = if c == p then cut_prefix s ps else none

-- `strings.Split` at one byte: never empty.
unfoldable pub split : ℕ → Str → List Str
split sep [] = [] ∷ []
split sep (c ∷ s) = elim (split sep s) [
  | [] ↦ []
  | part ∷ parts ↦ if c == sep then [] ∷ part ∷ parts else (c ∷ part) ∷ parts
]

unfoldable pub trim_left : ℕ → Str → Str
trim_left b [] = []
trim_left b (c ∷ s) = if c == b then trim_left b s else c ∷ s

unfoldable pub trim_right : ℕ → Str → Str
trim_right b [] = []
trim_right b (c ∷ s) = elim (trim_right b s) [
  | [] ↦ if c == b then [] else c ∷ []
  | x ∷ xs ↦ c ∷ x ∷ xs
]

-- `strings.Trim` of one byte.
abbrev pub trim : ℕ → Str → Str
trim b s = trim_right b (trim_left b s)

abbrev pub slash : ℕ
slash = b'/'

-- `len(segments) != 3 || segments[0] != "status" || segments[1] == ""`
abbrev pub list_segment : List Str → Option Str
list_segment (a ∷ b ∷ c ∷ []) =
    if not (str_eq a (bytes_of "status")) || str_eq b [] then none else some b
list_segment _ = none

-- `listIDFromStatusPath`
unfoldable pub list_id_from_status_path : Str → Option Str
unfolding split trim_left trim_right str_eq
list_id_from_status_path path = list_segment (split slash (trim slash path))

-- Why a token was refused, as far as the challenge tells.
pub data Refusal : Type 0 where
  expired invalid : Refusal

-- The challenge of `bearerInvalidTokenChallenge`, and the one of a request with no token.
pub data Challenge : Type 0 where
  invalid_request : Challenge
  invalid_token : Refusal → Challenge

pub data Outcome : Type 0 where
  -- 401 with `WWW-Authenticate`.
  unauthorized : Challenge → Outcome
  -- 502
  bad_gateway : Outcome
  -- Handed to the proxy of a shard.
  proxied : Str → Outcome

-- `map` membership: the shards that a proxy was built for.
unfoldable pub configured : Str → List Str → Bool
configured s [] = false
configured s (x ∷ xs) = str_eq x s || configured s xs

-- The shard of the list that the path names, if it is configured; else the token's.
abbrev pub embedded : List Str → Str → Option Str → Str
embedded proxies tenant none = tenant
embedded proxies tenant (some s) = if configured s proxies then s else tenant

abbrev pub named_shard : Option Str → Option Str
named_shard none = none
named_shard (some id) = parse_shard id

unfoldable pub target_shard : List Str → Str → Str → Str
unfolding list_id_from_status_path configured
target_shard proxies tenant path =
    embedded proxies tenant (named_shard (list_id_from_status_path path))

abbrev pub proxy_to : List Str → Str → Outcome
proxy_to proxies s = if configured s proxies then proxied s else bad_gateway

-- The validator's answer: the token's `tenant_id`, or a refusal.
pub data Verdict : Type 0 where
  valid : Str → Verdict
  refused : Refusal → Verdict

abbrev pub answer : List Str → Str → Verdict → Outcome
answer proxies path (refused why) = unauthorized (invalid_token why)
answer proxies path (valid tenant) = proxy_to proxies (target_shard proxies tenant path)

-- `ServeHTTP`
unfoldable pub serve_http : (Str → Verdict) → List Str → Str → Str → Outcome
unfolding cut_prefix target_shard
serve_http validate proxies authorization path =
    elim (cut_prefix authorization (bytes_of "Bearer ")) [
      | none ↦ unauthorized invalid_request
      | some token ↦
          if str_eq token []
          then unauthorized invalid_request
          else answer proxies path (validate token)
    ]

-- ===== src/Assertion/Proof.antt =====
-- internal/clientassertion/verify.go: what an assertion that verifies has proved.
use mathlib.Core.List.{Mem}
use siros_status_service.Prelude.{
  ℕ, ◌+◌, ◌*◌, ◌≤◌, ◌<◌, ◌≡◌, ◌⊎◌, inl, inr, refl, sym, ap, subst, ◌∙◌, Bool-cases, Bool, true,
  false, ◌||◌, not, List, [], ◌∷◌, Option, none, some, arith,
}
use siros_status_service.Prelude.Str.{Str, bytes_of, str_eq, str_eq_iff}
use siros_status_service.Result.{Result, ok, bind_ok, fail_if, bad_claims, too_long, ◌>>◌}
use siros_status_service.Token.{Jwk}
use siros_status_service.Assertion.{
  Value, Header, Claims, Packages, Verified, second, max_lifetime, ecdsa_only, resolve_jwk, strings,
  leaf_key, resolve_x5c, resolve_proof_of_possession, is_too_long, is_empty, verify,
}

-- What the JWT package documents of `ParseWithClaims` with these options: the signature verifies
-- with the key, the audience is one of the token's, and the token has a time of expiry to come.
pub record Documented (p : Packages) : Type 0 where
  pub verifies : Str → p.PublicKey → Bool
  pub parse_with_claims_lem :
      (assertion : Str) (key : p.PublicKey) (audience : Str) (now : ℕ) (claims : Claims)
      → p.parse_with_claims assertion key audience now ≡ ok claims
      → (verifies assertion key ≡ true)
        × Mem audience claims.audience
        × (exp : ℕ) × (claims.expires_at ≡ some exp)
        × (now < exp * second)

abbrev pub texts : List Str → List (Option Str)
texts [] = []
texts (s ∷ rest) = some s ∷ texts rest

-- The key and the credential are those of the one proof that the header has.
abbrev pub IsProof :
    (p : Packages) → Option Value → Option Value → p.PublicKey → Option Jwk → List Str → Type 0
IsProof p jwk_value x5c_value key jwk x5c =
    ((j : Jwk) × (jwk_value ≡ some (Value.object j))
      × (x5c_value ≡ none)
      × (jwk ≡ some j)
      × (x5c ≡ [])
      × (p.jwk_key j ≡ ok (some key)))
    ⊎ ((leaf : Str) × (rest : List Str) × (jwk_value ≡ none)
        × (x5c_value ≡ some (Value.array (some leaf ∷ texts rest)))
        × (jwk ≡ none)
        × (x5c ≡ leaf ∷ rest)
        × (leaf_key p leaf ≡ ok key))

module _ (p : Packages) where
  ecdsa_only-ok :
      (o : Option p.PublicKey) (key : p.PublicKey) → ecdsa_only p o ≡ ok key → o ≡ some key
  ecdsa_only-ok none key e = cc
  ecdsa_only-ok (some k) key e = ground (arith, e)

  strings-texts :
      (items : List (Option Str)) (chain : List Str)
      → strings p items ≡ ok chain
      → items ≡ texts chain
  unfolding strings
  strings-texts [] chain e = ground (arith, e)
  strings-texts (none ∷ items) chain e = cc
  strings-texts (some s ∷ items) chain e =
      let (rest, same, whole) = bind_ok (strings p items) e in
      let eq : s ∷ rest ≡ chain = ground (arith, whole) in
      ap (λ r. some s ∷ r) (strings-texts items rest same) ∙ ap texts eq

  resolve_proof_of_possession-IsProof :
      (jwk_value x5c_value : Option Value) (key : p.PublicKey) (jwk : Option Jwk) (x5c : List Str)
      → resolve_proof_of_possession p jwk_value x5c_value ≡ ok (key, jwk, x5c)
      → IsProof p jwk_value x5c_value key jwk x5c
  unfolding resolve_proof_of_possession resolve_jwk resolve_x5c
  resolve_proof_of_possession-IsProof (some a) (some b) key jwk x5c e = cc
  resolve_proof_of_possession-IsProof none none key jwk x5c e = cc
  resolve_proof_of_possession-IsProof (some (Value.array items)) none key jwk x5c e = cc
  resolve_proof_of_possession-IsProof (some Value.other) none key jwk x5c e = cc
  resolve_proof_of_possession-IsProof (some (Value.object j)) none key jwk x5c e =
      let (found, resolved, e₁) = bind_ok (resolve_jwk p (Value.object j)) e in
      let (o, decoded, e₂) = bind_ok (p.jwk_key j) resolved in
      let (k, ecdsa, e₃) = bind_ok (ecdsa_only p o) e₂ in
      let key_eq : k ≡ key = ground (arith, e₁, e₃) in
      let jwk_eq : jwk ≡ some j = ground (arith, e₁, e₃) in
      let x5c_eq : x5c ≡ [] = ground (arith, e₁) in
      inl
        (j, refl, refl, jwk_eq, x5c_eq, decoded ∙ ap ok (ecdsa_only-ok o k ecdsa ∙ ap some key_eq))
  resolve_proof_of_possession-IsProof none (some (Value.object j)) key jwk x5c e = cc
  resolve_proof_of_possession-IsProof none (some Value.other) key jwk x5c e = cc
  resolve_proof_of_possession-IsProof none (some (Value.array [])) key jwk x5c e = cc
  resolve_proof_of_possession-IsProof none (some (Value.array (none ∷ items))) key jwk x5c e = cc
  resolve_proof_of_possession-IsProof none (some (Value.array (some leaf ∷ items))) key jwk x5c e =
      let (found, resolved, e₁) = bind_ok (resolve_x5c p (Value.array (some leaf ∷ items))) e in
      let (chain, read, e₂) = bind_ok (strings p items) resolved in
      let (k, leafed, e₃) = bind_ok (leaf_key p leaf) e₂ in
      let key_eq : k ≡ key = ground (arith, e₁, e₃) in
      let jwk_eq : jwk ≡ none = ground (arith, e₁) in
      let x5c_eq : x5c ≡ leaf ∷ chain = ground (arith, e₁, e₃) in
      inr (
        leaf,
        chain,
        refl,
        ap (λ r. some (Value.array (some leaf ∷ r))) (strings-texts items chain read),
        jwk_eq,
        x5c_eq,
        leafed ∙ ap ok key_eq,
      )

  lifetime :
      (iat exp : Option ℕ) (t : ℕ)
      → exp ≡ some t
      → is_too_long p iat exp ≡ false
      → (iat ≡ none) ⊎ ((s : ℕ) × (iat ≡ some s) × (t ≤ s + max_lifetime))
  lifetime none exp t e h = inl refl
  lifetime (some s) none t e h = cc
  lifetime (some s) (some u) t e h =
      let eq : u ≡ t = ground (arith, e) in inr (s, refl, ground (arith, h, eq))

  -- The claims after the test of the subject and that of the lifetime.
  accept : Claims → Option Jwk → List Str → Result Verified
  accept claims jwk x5c = do
    fail_if (is_empty claims.subject || not (str_eq claims.issuer claims.subject)) bad_claims
    fail_if (is_too_long p claims.issued_at claims.expires_at) too_long
    ok (record { issuer_id = claims.subject; jwk = jwk; x5c = x5c })

  accept-ok :
      (claims : Claims) (jwk : Option Jwk) (x5c : List Str) (v : Verified)
      → accept claims jwk x5c ≡ ok v
      → (is_empty claims.subject ≡ false)
        × (claims.issuer ≡ claims.subject)
        × (is_too_long p claims.issued_at claims.expires_at ≡ false)
        × (v ≡ record { issuer_id = claims.subject; jwk = jwk; x5c = x5c })
  unfolding accept
  accept-ok claims jwk x5c v e = elim (Bool-cases (is_empty claims.subject)) [
    | inl bad ↦ absurd (ground (arith, e, bad))
    | inr full ↦ elim (Bool-cases (str_eq claims.issuer claims.subject)) [
      | inr bad ↦ absurd (ground (arith, e, full, bad))
      | inl same ↦ elim (Bool-cases (is_too_long p claims.issued_at claims.expires_at)) [
        | inl bad ↦ absurd (ground (arith, e, full, same, bad))
        | inr short ↦ (
          full,
          (str_eq_iff claims.issuer claims.subject).0 same,
          short,
          ground (arith, e, full, same, short),
        )
      ]
    ]
  ]

  -- An assertion that verifies has a header with exactly one proof of possession, whose key signed
  -- the assertion; of the claims that the JWT package parses with that key, the audience has the
  -- token endpoint; `iss` and `sub` are the identity returned, not empty; the expiry is still to
  -- come; and if they say when the assertion was issued, it expires at most five minutes later.
  pub verify-proves :
      (doc : Documented p) (assertion audience : Str) (now : ℕ) (v : Verified)
      → verify p assertion audience now ≡ ok v
      → (header : Header) × (key : p.PublicKey) × (claims : Claims) × (exp : ℕ)
        × (p.parse_unverified assertion ≡ ok header)
        × IsProof p (header (bytes_of "jwk")) (header (bytes_of "x5c")) key v.jwk v.x5c
        × (p.parse_with_claims assertion key audience now ≡ ok claims)
        × (doc.verifies assertion key ≡ true)
        × Mem audience claims.audience
        × (claims.issuer ≡ v.issuer_id)
        × (claims.subject ≡ v.issuer_id)
        × (is_empty v.issuer_id ≡ false)
        × (claims.expires_at ≡ some exp)
        × (now < exp * second)
        × ((claims.issued_at ≡ none)
            ⊎ ((s : ℕ) × (claims.issued_at ≡ some s) × (exp ≤ s + max_lifetime)))
  unfolding verify accept
  verify-proves doc assertion audience now v e =
      let (header, parsed, e₁) = bind_ok (p.parse_unverified assertion) e in
      let (found, resolved, e₂) =
        bind_ok (resolve_proof_of_possession p (header (bytes_of "jwk")) (header (bytes_of "x5c")))
          e₁ in
      let (claims, accepted, e₃) =
        bind_ok (p.parse_with_claims assertion found.0 audience now) e₂ in
      let (signed, aud, exp, expires, alive) =
        doc.parse_with_claims_lem assertion found.0 audience now claims accepted in
      let (full, same, short, eq) = accept-ok claims found.1 found.2 v e₃ in
      (
        header,
        found.0,
        claims,
        exp,
        parsed,
        subst
            (λ w. IsProof p (header (bytes_of "jwk")) (header (bytes_of "x5c")) found.0 w.jwk w.x5c)
            (sym eq)
            (resolve_proof_of_possession-IsProof (header (bytes_of "jwk")) (header (bytes_of "x5c"))
              found.0 found.1 found.2 resolved),
        accepted,
        signed,
        aud,
        same ∙ sym (ap (λ w. w.issuer_id) eq),
        sym (ap (λ w. w.issuer_id) eq),
        ap (λ w. is_empty w.issuer_id) eq ∙ full,
        expires,
        alive,
        lifetime claims.issued_at claims.expires_at exp expires short,
      )

-- ===== src/Router/Routes.antt =====
-- Where a request ends up.
use siros_status_service.Prelude.{
  ℕ, ◌≡◌, refl, sym, ap, ◌∙◌, subst, ◌⊎◌, inl, inr, true, false, Bool-cases, List, [], ◌∷◌, ◌++◌,
  All, some, Option-cases, ◌==◌,
}
use siros_status_service.Prelude.Str.{Str, bytes_of, str_eq}
use siros_status_service.ListId.{parse_shard}
use siros_status_service.Router.{
  slash, split, trim_right, list_id_from_status_path, list_segment, configured, target_shard,
  cut_prefix, serve_http, Verdict, Refusal, valid, refused, Outcome, proxied,
}

-- A text with no slash and not empty: one segment of a path.
abbrev pub IsSegment : Str → Type 0
IsSegment [] = ⊥
IsSegment (c ∷ s) = ((c == slash) ≡ false) × All (λ x. (x == slash) ≡ false) s

split-plain : (s : Str) → All (λ x. (x == slash) ≡ false) s → split slash s ≡ s ∷ []
unfolding split
split-plain [] h = refl
split-plain (c ∷ s) h = rw (split-plain s h.1, h.0) refl

split-∷ : (t : Str) → (part : Str) × (parts : List Str) × (split slash t ≡ part ∷ parts)
unfolding split
split-∷ [] = ([], [], refl)
split-∷ (c ∷ t) =
    let (part, parts, e) = split-∷ t in
    elim (Bool-cases (c == slash)) [
      | inl cut ↦ ([], part ∷ parts, rw (e, cut) refl)
      | inr kept ↦ (c ∷ part, parts, rw (e, kept) refl)
    ]

split-append :
    (s t : Str)
    → All (λ x. (x == slash) ≡ false) s
    → split slash (s ++ (slash ∷ t)) ≡ s ∷ split slash t
unfolding split
split-append [] t h = let (part, parts, e) = split-∷ t in rw e refl
split-append (c ∷ s) t h = rw (split-append s t h.1, h.0) refl

trim_right-kept :
    (c x : ℕ) (s u : Str) → trim_right slash s ≡ x ∷ u → trim_right slash (c ∷ s) ≡ c ∷ x ∷ u
unfolding trim_right
trim_right-kept c x s u h = rw h refl

trim_right-∷ :
    (c x : ℕ) (u : Str)
    → trim_right slash (x ∷ u) ≡ x ∷ u
    → trim_right slash (c ∷ x ∷ u) ≡ c ∷ x ∷ u
trim_right-∷ c x u h = trim_right-kept c x (x ∷ u) u h

-- What is kept behind a text is kept with it.
trim_right-append :
    (s : Str) (x : ℕ) (u : Str)
    → trim_right slash (x ∷ u) ≡ x ∷ u
    → trim_right slash (s ++ (x ∷ u)) ≡ s ++ (x ∷ u)
trim_right-append [] x u h = h
trim_right-append (c ∷ []) x u h = trim_right-∷ c x u h
trim_right-append (c ∷ d ∷ s) x u h =
    trim_right-∷ c d (s ++ (x ∷ u)) (trim_right-append (d ∷ s) x u h)

trim_right-IsSegment : (s : Str) → IsSegment s → trim_right slash s ≡ s
unfolding trim_right
trim_right-IsSegment [] h = refl
trim_right-IsSegment (c ∷ []) h = rw h.0 refl
trim_right-IsSegment (c ∷ d ∷ s) h = trim_right-∷ c d s (trim_right-IsSegment (d ∷ s) h.1)

-- The path of a status update names its list.
pub list_id_from_status_path_named :
    (id idx : Str)
    → IsSegment id
    → IsSegment idx
    → list_id_from_status_path (bytes_of "/status/" ++ (id ++ (slash ∷ idx))) ≡ some id
unfolding list_id_from_status_path
list_id_from_status_path_named id [] hi hx = absurd hx
list_id_from_status_path_named [] idx hi hx = absurd hi
list_id_from_status_path_named (c ∷ id) (x ∷ idx) hi hx =
    let last = trim_right-∷ slash x idx (trim_right-IsSegment (x ∷ idx) hx) in
    let named = trim_right-append (c ∷ id) slash (x ∷ idx) last in
    let tail = trim_right-append (bytes_of "status/") c (id ++ (slash ∷ x ∷ idx)) named in
    let cut : split slash ((c ∷ id) ++ (slash ∷ x ∷ idx)) ≡ (c ∷ id) ∷ (x ∷ idx) ∷ [] =
      split-append (c ∷ id) (x ∷ idx) hi ∙ ap (λ t. (c ∷ id) ∷ t) (split-plain (x ∷ idx) hx) in
    let parts =
      split-append (bytes_of "status") ((c ∷ id) ++ (slash ∷ x ∷ idx))
        (refl, (refl, (refl, (refl, (refl, (refl, tt))))))
      ∙ ap (λ t. bytes_of "status" ∷ t) cut in
    ap list_segment (ap (split slash) tail ∙ parts)

-- A status update goes to the shard that its list's ID names, whichever shard the valid token names,
-- if that shard is configured.
pub target_shard-named :
    (proxies : List Str) (tenant id idx s : Str)
    → IsSegment id
    → IsSegment idx
    → parse_shard id ≡ some s
    → configured s proxies ≡ true
    → target_shard proxies tenant (bytes_of "/status/" ++ (id ++ (slash ∷ idx))) ≡ s
unfolding target_shard
target_shard-named proxies tenant id idx s hi hx named there =
    rw (list_id_from_status_path_named id idx hi hx, named, there) refl

-- What an outcome of the router rests on.
abbrev pub IsRouted : (Str → Verdict) → List Str → Str → Str → Outcome → Type 0
IsRouted validate proxies authorization path (proxied s) =
    (token tenant : Str) × (cut_prefix authorization (bytes_of "Bearer ") ≡ some token)
    × (validate token ≡ valid tenant)
    × (configured s proxies ≡ true)
    × ((s ≡ tenant)
        ⊎ ((id : Str) × (list_id_from_status_path path ≡ some id) × (parse_shard id ≡ some s)))
IsRouted validate proxies authorization path _ = Unit

target_shard-origin :
    (proxies : List Str) (tenant path : Str)
    → (target_shard proxies tenant path ≡ tenant)
      ⊎ ((id : Str) × (list_id_from_status_path path ≡ some id)
          × (parse_shard id ≡ some (target_shard proxies tenant path)))
unfolding target_shard
target_shard-origin proxies tenant path = elim (Option-cases (list_id_from_status_path path)) [
  | inl e ↦ inl (rw e refl)
  | inr (id, e) ↦ elim (Option-cases (parse_shard id)) [
    | inl f ↦ inl (rw (e, f) refl)
    | inr (s, f) ↦ elim (Bool-cases (configured s proxies)) [
      | inl there ↦ inr (id, e, f ∙ ap some (rw (e, f, there) refl))
      | inr absent ↦ inl (rw (e, f, absent) refl)
    ]
  ]
]

verdict_cases : (v : Verdict) → ((why : Refusal) × (v ≡ refused why)) ⊎ ((t : Str) × (v ≡ valid t))
verdict_cases (valid t) = inr (t, refl)
verdict_cases (refused why) = inl (why, refl)

-- A request reaches a proxy only with a bearer token that the validator accepts, the proxy is
-- configured, and its shard is the token's or the one in the ID of the list that the path names.
pub serve_http-IsRouted :
    (validate : Str → Verdict) (proxies : List Str) (authorization path : Str)
    → IsRouted validate proxies authorization path (serve_http validate proxies authorization path)
unfolding serve_http
serve_http-IsRouted validate proxies authorization path =
    elim (Option-cases (cut_prefix authorization (bytes_of "Bearer "))) [
      | inl e ↦ rw (e, IsRouted) tt
      | inr (token, e) ↦ elim (Bool-cases (str_eq token [])) [
        | inl empty ↦ rw (e, empty, IsRouted) tt
        | inr full ↦ elim (verdict_cases (validate token)) [
          | inl (why, f) ↦ rw (e, full, f, IsRouted) tt
          | inr (tenant, f) ↦
              let s = target_shard proxies tenant path in
              elim (Bool-cases (configured s proxies)) [
                | inr absent ↦ rw (e, full, f, absent, IsRouted) tt
                | inl there ↦
                    let done : serve_http validate proxies authorization path ≡ proxied s =
                      rw (e, full, f, there) refl in
                    subst (λ o. IsRouted validate proxies authorization path o) (sym done)
                      (token, tenant, e, f, there, target_shard-origin proxies tenant path)
              ]
        ]
      ]
    ]

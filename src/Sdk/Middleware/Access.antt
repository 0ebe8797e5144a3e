-- ===== src/Sdk/Middleware/Access.antt =====
-- Which requests the middleware lets through, and how it answers the others.
use centralized_identity.Common.{
  Str, codes, get, ◌==◌, ==-dec, ==_iff, ne-==-false, true, false, ◌&&◌, not, none, some, [],
  Result, ok, err, Error, Bool-cases, Result-cases, ◌≡◌, ◌≢◌, ◌↔◌, ◌⊎◌, inl, inr, refl, arith,
}
use centralized_identity.Http.{HttpRequest, Writer}
use centralized_identity.Sdk.{
  Identity, missing_token, insufficient_trust, pci_scope_required, other_error,
}
use centralized_identity.Sdk.Jwks.{JwksCache}
use centralized_identity.Sdk.Client.{validate_token}
use centralized_identity.Sdk.Middleware.{
  MiddlewareOptions, Platform, Handler, trust_order, trust_rank, meets_min_trust,
  extract_bearer_token, error_handler, skips, admitted, checked, auth_middleware,
}

-- ValidateToken on the bearer token of the request.
abbrev pub validation : Platform → HttpRequest → JwksCache → Result Identity × JwksCache
validation p r c = validate_token p.parse p.jwks p.now c (extract_bearer_token r)

-- The guards on an identity: the trust level is high enough if one is required, and the identity is
-- in the scope of PCI if that is required.
pub record Fit (opts : MiddlewareOptions) (i : Identity) : Type 0 where
  pub trusted :
      (opts.require_trust ≡ []) ⊎ (meets_min_trust i.trust_level opts.require_trust ≡ true)
  pub in_scope : (opts.require_pci ≡ false) ⊎ (i.pci_scope ≡ true)

-- Why a request is handled as it is.
pub data Access (p : Platform) (opts : MiddlewareOptions) (r : HttpRequest) (c : JwksCache)
    : Type 0 where
  skipped : skips opts r.path ≡ true → Access p opts r c
  without_token : skips opts r.path ≡ false → extract_bearer_token r ≡ [] → Access p opts r c
  invalid :
      (e : Error)
      → skips opts r.path ≡ false
      → extract_bearer_token r ≢ []
      → (validation p r c).0 ≡ err e
      → Access p opts r c
  untrusted :
      (i : Identity)
      → skips opts r.path ≡ false
      → extract_bearer_token r ≢ []
      → (validation p r c).0 ≡ ok i
      → opts.require_trust ≢ []
      → meets_min_trust i.trust_level opts.require_trust ≡ false
      → Access p opts r c
  out_of_scope :
      (i : Identity)
      → skips opts r.path ≡ false
      → extract_bearer_token r ≢ []
      → (validation p r c).0 ≡ ok i
      → (opts.require_trust ≡ []) ⊎ (meets_min_trust i.trust_level opts.require_trust ≡ true)
      → opts.require_pci ≡ true
      → i.pci_scope ≡ false
      → Access p opts r c
  fit :
      (i : Identity)
      → skips opts r.path ≡ false
      → extract_bearer_token r ≢ []
      → (validation p r c).0 ≡ ok i
      → Fit opts i
      → Access p opts r c

module _ {p : Platform} {opts : MiddlewareOptions} (next : Handler) {r : HttpRequest}
    (w : Writer Str) {c : JwksCache} where
  -- The response, and the cache behind it.
  abbrev pub handled : Access p opts r c → Writer Str × JwksCache
  handled (skipped _) = (next none r w, c)
  handled (without_token _ _) = (error_handler opts w r missing_token, c)
  handled (invalid e _ _ _) = (error_handler opts w r (other_error e), (validation p r c).1)
  handled (untrusted _ _ _ _ _ _) =
      (error_handler opts w r insufficient_trust, (validation p r c).1)
  handled (out_of_scope _ _ _ _ _ _ _) =
      (error_handler opts w r pci_scope_required, (validation p r c).1)
  handled (fit i _ _ _ _) = (next (some i) r w, (validation p r c).1)

validated-Access :
    (p : Platform) (opts : MiddlewareOptions) (r : HttpRequest) (c : JwksCache) (i : Identity)
    → skips opts r.path ≡ false
    → extract_bearer_token r ≢ []
    → (validation p r c).0 ≡ ok i
    → Access p opts r c
validated-Access p opts r c i unskipped given valid =
    let trust : ((opts.require_trust ≡ [])
          ⊎ (meets_min_trust i.trust_level opts.require_trust ≡ true))
        ⊎ ((opts.require_trust ≢ []) × (meets_min_trust i.trust_level opts.require_trust ≡ false)) =
      elim (==-dec opts.require_trust []) [
        | inl any ↦ inl (inl any)
        | inr some_level ↦ elim (Bool-cases (meets_min_trust i.trust_level opts.require_trust)) [
          | inl meets ↦ inl (inr meets)
          | inr fails ↦ inr (some_level, fails)
        ]
      ] in
    elim trust [
      | inr (required, fails) ↦ untrusted i unskipped given valid required fails
      | inl trusted ↦ elim (Bool-cases opts.require_pci) [
        | inr free ↦ fit i unskipped given valid (record { trusted = trusted; in_scope = inl free })
        | inl pci ↦ elim (Bool-cases i.pci_scope) [
          | inl scope ↦
              fit i unskipped given valid (record { trusted = trusted; in_scope = inr scope })
          | inr none_ ↦ out_of_scope i unskipped given valid trusted pci none_
        ]
      ]
    ]

Access-of :
    (p : Platform) (opts : MiddlewareOptions) (r : HttpRequest) (c : JwksCache) → Access p opts r c
Access-of p opts r c = elim (Bool-cases (skips opts r.path)) [
  | inl skip ↦ skipped skip
  | inr unskipped ↦ elim (==-dec (extract_bearer_token r) []) [
    | inl empty ↦ without_token unskipped empty
    | inr given ↦ elim (Result-cases (validation p r c).0) [
      | inr (e, failed) ↦ invalid e unskipped given failed
      | inl (i, valid) ↦ validated-Access p opts r c i unskipped given valid
    ]
  ]
]

module _ (p : Platform) (opts : MiddlewareOptions) (next : Handler) (r : HttpRequest)
    (w : Writer Str) (c : JwksCache) where
  checked-lem :
      (o : Result Identity × JwksCache) {m : Result Identity}
      → o.0 ≡ m
      → checked opts next r w o ≡ (admitted opts next r w m, o.1)
  unfolding checked
  checked-lem (m, d) h = rw h refl

  -- The guard on the trust level lets it through.
  trust_guard :
      (i : Identity)
      → (opts.require_trust ≡ []) ⊎ (meets_min_trust i.trust_level opts.require_trust ≡ true)
      → (not (opts.require_trust == []) && not (meets_min_trust i.trust_level opts.require_trust))
        ≡ false
  trust_guard i (inl free) = rw ((==_iff opts.require_trust []).1 free) refl
  trust_guard i (inr meets) = ground (arith, meets)

  pci_guard : {i : Identity} → Fit opts i → (opts.require_pci && not i.pci_scope) ≡ false
  pci_guard {i} f = let h = f.in_scope in ground (arith, h)

  -- Behind the first two guards.
  past :
      {o : Result Identity}
      → skips opts r.path ≡ false
      → extract_bearer_token r ≢ []
      → (validation p r c).0 ≡ o
      → auth_middleware p opts next r w c ≡ (admitted opts next r w o, (validation p r c).1)
  unfolding auth_middleware
  past {o} unskipped given valid =
      rw (unskipped, ne-==-false (extract_bearer_token r) [] given)
        (checked-lem (validation p r c) valid)

  auth_middleware-Access :
      (a : Access p opts r c) → auth_middleware p opts next r w c ≡ handled next w a
  unfolding auth_middleware admitted
  auth_middleware-Access (skipped skip) = rw skip
  auth_middleware-Access (without_token unskipped empty) =
      rw (unskipped, (==_iff (extract_bearer_token r) []).1 empty)
  auth_middleware-Access (invalid e unskipped given failed) = past unskipped given failed
  auth_middleware-Access (untrusted i unskipped given valid required fails) =
      rw (past unskipped given valid, ne-==-false opts.require_trust [] required, fails) refl
  auth_middleware-Access (out_of_scope i unskipped given valid trusted pci scope) =
      rw (past unskipped given valid, trust_guard i trusted, pci, scope) refl
  auth_middleware-Access (fit i unskipped given valid f) =
      rw (past unskipped given valid, trust_guard i f.trusted, pci_guard f) refl

-- Every request is handled as one of six cases says: it goes to the wrapped handler without an
-- identity if its path is to be skipped, and with the identity of its valid bearer token if that
-- fits the options; and else the error handler gets the reason, which is no token, the error of
-- the validation, too little trust, or a missing PCI scope. The key cache is as the validation
-- leaves it.
pub auth_middleware-cases :
    (p : Platform) (opts : MiddlewareOptions) (next : Handler) (r : HttpRequest) (w : Writer Str)
    (c : JwksCache)
    → (a : Access p opts r c) × (auth_middleware p opts next r w c ≡ handled next w a)
auth_middleware-cases p opts next r w c =
    (Access-of p opts r c, auth_middleware-Access p opts next r w c (Access-of p opts r c))

-- An identity meets a required level exactly if that is "high" and its own is too, or that is
-- "medium" and its own is "medium" or "high", or that is any other text: then every identity does.
pub meets_min_trust_iff :
    (actual required : Str)
    → (meets_min_trust actual required ≡ true) ↔ (
        ((required ≡ codes "high") × (actual ≡ codes "high"))
        ⊎ ((required ≡ codes "medium") × ((actual ≡ codes "medium") ⊎ (actual ≡ codes "high")))
        ⊎ ((required ≢ codes "high") × (required ≢ codes "medium")))
unfolding meets_min_trust trust_rank trust_order get
meets_min_trust_iff actual required = ground (
  arith,
  ==_iff (codes "low") actual,
  ==_iff (codes "medium") actual,
  ==_iff (codes "high") actual,
  ==_iff (codes "low") required,
  ==_iff (codes "medium") required,
  ==_iff (codes "high") required,
)

-- ===== src/Exchange/Outcome.antt =====
-- What the handler answers, and when it answers with a token.
use centralized_identity.Common.{
  Str, codes, ◌==◌, ==_iff, ==_refl, Option, none, some, [], Result, ok, err, ◌≡◌, ◌≢◌, ◌↔◌, refl,
  Bool-cases, inl, inr,
}
use centralized_identity.Adapter.{
  Adapter, ExchangeResult, get_adapter, detect_adapter, token_type_jwt,
}
use centralized_identity.Exchange.{
  TokenExchangeRequest, TokenExchangeResponse, Env, Resolved, resolved_get, resolved_detect,
  resolved, unresolved, resolve, minted_token, request_of, exchange, adapted, exchanged, finish,
}

-- The adapter that a request asks for by its token type, or else the first that accepts the token.
pub data Resolves (env : Env) (req : TokenExchangeRequest) (a : Adapter) : Type 0 where
  hinted :
      req.subject_token_type ≢ []
      → get_adapter env.registry req.subject_token_type ≡ ok a
      → Resolves env req a
  detected :
      req.subject_token_type ≡ []
      → detect_adapter env.order req.subject_token ≡ some a
      → Resolves env req a

some_resolved : (b a : Adapter) → resolved b ≡ resolved a → some b ≡ some a
some_resolved b a h = cc

resolved_detect_sound :
    (o : Option Adapter) {a : Adapter} → resolved_detect o ≡ resolved a → o ≡ some a
unfolding resolved_detect
resolved_detect_sound none h = cc
resolved_detect_sound (some b) {a} h = some_resolved b a h

resolved_get_sound :
    (env : Env) (token_type : Str) (m : Result Adapter) {a : Adapter}
    → resolved_get env token_type m ≡ resolved a
    → m ≡ ok a
unfolding resolved_get
resolved_get_sound env token_type (ok b) {a} h = cc
resolved_get_sound env token_type (err e) h = cc

resolve_sound :
    (env : Env) (req : TokenExchangeRequest) (a : Adapter)
    → resolve env req ≡ resolved a
    → Resolves env req a
unfolding resolve
resolve_sound env req a h = elim (Bool-cases (req.subject_token_type == [])) [
  | inl empty ↦ detected ((==_iff _ _).0 empty) (
      resolved_detect_sound (detect_adapter env.order req.subject_token) (rw (empty, resolve) at h))
  | inr hint ↦
      hinted (λ e. cc ((==_iff req.subject_token_type []).1 e, hint))
        (resolved_get_sound env req.subject_token_type
          (get_adapter env.registry req.subject_token_type) (rw (hint, resolve) at h))
]

resolve_complete :
    (env : Env) (req : TokenExchangeRequest) (a : Adapter)
    → Resolves env req a
    → resolve env req ≡ resolved a
unfolding resolve
resolve_complete env req a (hinted given e) = elim (Bool-cases (req.subject_token_type == [])) [
  | inl empty ↦ absurd (given ((==_iff _ _).0 empty))
  | inr hint ↦ rw (hint, e) refl
]
resolve_complete env req a (detected empty e) = rw (empty, ==_refl, e) refl

-- A token for the request: the adapter's result, minted for the audience of the request.
pub record Issues (env : Env) (req : TokenExchangeRequest) (access_token : Str) : Type 0 where
  pub adapter : Adapter
  pub result : ExchangeResult
  pub found : Resolves env req adapter
  pub authenticated : adapter.exchange env.adapter_time (request_of req) ≡ ok result
  pub signed : minted_token env req result ≡ ok access_token

abbrev pub bearer : Str → TokenExchangeResponse
bearer access_token = record {
  access_token = access_token;
  issued_token_type = token_type_jwt;
  token_type = codes "Bearer";
  expires_in = 300;
}

finish_sound :
    (env : Env) (r : ExchangeResult) (m : Result Str) {response : TokenExchangeResponse}
    → (finish env r m).0 ≡ ok response
    → (t : Str) × (m ≡ ok t) × (response ≡ bearer t)
unfolding finish
finish_sound env r (ok t) h = (t, refl, cc h)
finish_sound env r (err e) h = cc

exchanged_sound :
    (env : Env) (req : TokenExchangeRequest) (m : Result ExchangeResult)
    {response : TokenExchangeResponse}
    → (exchanged env req m).0 ≡ ok response
    → (r : ExchangeResult) × (t : Str) × (m ≡ ok r)
      × (minted_token env req r ≡ ok t)
      × (response ≡ bearer t)
unfolding exchanged
exchanged_sound env req (ok r) h =
    let (t, signed, made) = finish_sound env r (minted_token env req r) h in
    (r, t, refl, signed, made)
exchanged_sound env req (err e) h = cc

adapted_sound :
    (env : Env) (req : TokenExchangeRequest) (x : Resolved) {response : TokenExchangeResponse}
    → resolve env req ≡ x
    → (adapted env req x).response ≡ ok response
    → (t : Str) × Issues env req t × (response ≡ bearer t)
unfolding adapted
adapted_sound env req (unresolved status e) _ h = cc
adapted_sound env req (resolved a) found h =
    let (r, t, authenticated, signed, made) =
      exchanged_sound env req (a.exchange env.adapter_time (request_of req)) h in
    (
      t,
      record {
        adapter = a;
        result = r;
        found = resolve_sound env req a found;
        authenticated = authenticated;
        signed = signed;
      },
      made,
    )

exchange_complete :
    (env : Env) (req : TokenExchangeRequest) (t : Str)
    → Issues env req t
    → (exchange env req).response ≡ ok (bearer t)
unfolding exchange
exchange_complete env req t i = rw (
  resolve_complete env req i.adapter i.found,
  adapted,
  i.authenticated,
  exchanged,
  i.signed,
  finish,
)

-- The exchange succeeds exactly if the adapter that the request's token type names, or without a
-- type the first that accepts the token, exchanges the token and the result can be minted; then
-- the response is a Bearer token of type JWT, for 300 s.
pub exchange-ok_iff :
    (env : Env) (req : TokenExchangeRequest) (response : TokenExchangeResponse)
    → ((exchange env req).response ≡ ok response)
      ↔ ((t : Str) × Issues env req t × (response ≡ bearer t))
unfolding exchange
exchange-ok_iff env req response = (
  λ h. adapted_sound env req (resolve env req) refl h,
  λ (t, issues, made). rw made (exchange_complete env req t issues),
)

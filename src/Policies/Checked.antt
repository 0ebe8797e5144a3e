-- ===== src/Policies/Checked.antt =====
-- sdk/go: CheckPolicy, against the rules of policies/ in an engine at the client's endpoint.
use centralized_identity.Common.{
  Str, codes, ◌++◌, Bool, false, Option, none, some, List, [], ◌∷◌, ok, ◌≡◌, refl, inl, inr,
  Bool-cases,
}
use centralized_identity.Common.Json.{Value, text, object, member, end, slice_document}
use centralized_identity.Sdk.{Identity}
use centralized_identity.Sdk.Client.{
  Config, Client, Services, policy_input, allow_of, evaluate_policy, check_policy,
}
use centralized_identity.Policies.{Rego, ref}
use centralized_identity.Policies.Engine.{answer, order_service_document, payment_service_document}
use centralized_identity.Policies.OrderService
use centralized_identity.Policies.PaymentService

-- The input of a policy, as it is encoded: the encoder sorts the keys of a map.
abbrev pub input_document : Bool → Config → Identity → Str → Str → Value
input_document nil_slice config i resource action = object (
    member (codes "action") (text action) (
      member (codes "auth_method") (text i.auth_method) (
        member (codes "org_id") (text i.org_id) (
          member (codes "resource") (text resource) (
            member (codes "roles") (slice_document nil_slice i.roles) (
              member (codes "service_name") (text config.service_name) (
                member (codes "subject") (text i.subject)
                  (member (codes "trust_level") (text i.trust_level) end))))))))

unfoldable pub url_path : List Str → Str
url_path [] = []
url_path (p ∷ ps) = codes "/" ++ (p ++ url_path ps)

-- The libraries, the network and the engine, as documented: the input is encoded as its document
-- under "input", a request is made of it and reaches the engine, whose answer comes back with
-- status 200, and the client's decoder reads what was encoded. The engine is asked at the path
-- behind its /v1/data.
pub record Engaged (s : Services) (endpoint : Str) (b : Rego) (permissions : Option Value)
    (path : List Str) : Type 0 where
  pub host : Str
  pub located : endpoint ≡ host ++ (codes "/v1/data" ++ url_path path)
  pub encode : Value → Str
  pub request : Str → Str
  pub nil_slice : Bool
  pub marshals :
      (config : Config) (i : Identity) (resource action : Str)
      → s.marshal_input (policy_input config i resource action)
        ≡ ok (
            encode (
              object
                (member (codes "input") (input_document nil_slice config i resource action) end)))
  pub requested : (body : Str) → s.new_request endpoint body ≡ ok (request body)
  pub answered_by :
      (v : Value)
      → s.send (request (encode v))
        ≡ ok (record { status_code = 200; body = encode (answer b permissions path v) })
  pub client_reads : (v : Value) → s.decode_json (encode v) ≡ some v

-- The answer that the client reads.
abbrev pub answered : Rego → Option Value → List Str → Bool → Config → Identity → Str → Str → Value
answered b permissions path nil_slice config i resource action =
    answer b permissions path
      (object (member (codes "input") (input_document nil_slice config i resource action) end))

module _ (s : Services) (client : Client) (b : Rego) (permissions : Option Value) (path : List Str)
    (e : Engaged s client.config.policy_endpoint b permissions path) (i : Identity)
    (resource action : Str) where
  pub check_policy-answered :
      (allow : Bool)
      → allow_of s
          (e.encode (answered b permissions path e.nil_slice client.config i resource action))
        ≡ some allow
      → check_policy s client i resource action ≡ ok allow
  unfolding check_policy evaluate_policy
  check_policy-answered allow h =
      rw (e.marshals client.config i resource action, e.requested _, e.answered_by _, h) refl

abbrev pub order_path : List Str
order_path = codes "identity" ∷ codes "authz" ∷ codes "order_service" ∷ []

abbrev pub payment_path : List Str
payment_path = codes "identity" ∷ codes "authz" ∷ codes "payment_service" ∷ []

abbrev pub asked : Value → Value
asked input = object (member (codes "input") input end)

abbrev pub result : Value → Value
result v = object (member (codes "result") v end)

pub answer-order :
    (b : Rego) (permissions : Option Value) (input : Value)
    → answer b permissions order_path (asked input)
      ≡ result (object (order_service_document b permissions (some input)))
unfolding answer ref
answer-order b none input = refl
answer-order b (some v) input = refl

pub answer-payment :
    (b : Rego) (permissions : Option Value) (input : Value)
    → answer b permissions payment_path (asked input)
      ≡ result (object (payment_service_document (some input)))
unfolding answer ref
answer-payment b none input = refl
answer-payment b (some v) input = refl

-- The documents of the two services, read by the client.
pub allow_of-order :
    (s : Services) (body : Str) (b : Rego) (permissions : Option Value) (input : Value)
    → s.decode_json body
      ≡ some (result (object (order_service_document b permissions (some input))))
    → allow_of s body ≡ some (OrderService.allow b permissions (some input))
unfolding allow_of order_service_document
allow_of-order s body b permissions input h = rw (allow_of, h) refl

pub allow_of-payment :
    (s : Services) (body : Str) (input : Value)
    → s.decode_json body ≡ some (result (object (payment_service_document (some input))))
    → allow_of s body ≡ some (PaymentService.allow (some input))
unfolding allow_of payment_service_document
allow_of-payment s body input h = elim (Bool-cases (PaymentService.has_payment_role (some input))) [
  | inl paying ↦ rw (allow_of, rw paying at h) refl
  | inr other ↦ rw (allow_of, rw other at h) refl
]

-- The root document has no key "allow".
pub allow_of-root :
    (s : Services) (body : Str) (b : Rego) (permissions : Option Value) (input : Value)
    → s.decode_json body ≡ some (answer b permissions [] (asked input))
    → allow_of s body ≡ some false
unfolding allow_of answer
allow_of-root s body b none input h = rw (allow_of, h) refl
allow_of-root s body b (some v) input h = rw (allow_of, h) refl

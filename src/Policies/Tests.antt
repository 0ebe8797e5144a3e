-- ===== src/Policies/Tests.antt =====
-- The rules on callers: runs of the theorems about them.
use mathlib.Core.List.{Memᴰ}
use centralized_identity.Common.{
  Str, codes, ◌++◌, cut, cut-append, ltb, eqb, ◌||◌, ◌&&◌, if◌then◌else◌, Bool, true, false, Option,
  none, some, List, [], ◌∷◌, ok, err, plain, ◌≡◌, ◌↔◌, refl, Result,
}
use centralized_identity.Common.Json.{
  Value, slice_document, text, boolean, array, object, Members, member, end, cons, nil,
}
use centralized_identity.Common.Json.Codec.{encode, decode, decode-encode}
use centralized_identity.Http.{HttpResponse}
use centralized_identity.Sdk.{Identity}
use centralized_identity.Sdk.Jwks.{new_jwks_cache}
use centralized_identity.Sdk.Client.{
  Client, default_config, PolicyValue, text, texts, Services, policy_input, check_policy,
}
use centralized_identity.Policies.{Rego, ref, is_text}
use centralized_identity.Policies.Pci
use centralized_identity.Policies.PaymentService
use centralized_identity.Policies.Agreement.{denied, payment_allow-undenied}
use centralized_identity.Policies.Engine.{answer}
use centralized_identity.Policies.Checked.{
  url_path, input_document, Engaged, order_path, payment_path,
}
use centralized_identity.Policies.Authz.Grants.{Documented}
use centralized_identity.Policies.OrderService
use centralized_identity.Policies.OrderService.Callers.{
  MayOrder, writes, check_policy-order_iff, check_policy-order_payment,
}
use centralized_identity.Policies.Decisions.{check_policy-payment, check_policy-root}

pub equal : Value → Value → Bool
equal v (text t) = is_text (some v) t
equal v w = false

front : Option (Str × Str) → Str
front none = []
front (some (a, b)) = a

pub sprintf : Str → Value → Str
unfolding front cut
sprintf format (text t) = front (cut format b'%') ++ t
sprintf format v = []

abbrev pub rego : Rego
rego = record { equal = equal; sprintf = sprintf }

pub rego-Documented : Documented rego
unfolding equal sprintf
rego-Documented = record {
  equal_text = λ v t. refl;
  sprintf_text = λ start t lacks. rw (cut-append start (codes "s") b'%' lacks) refl;
}

-- A network, at whose other end the engine stands.
before : Str → Str → Bool
before [] t = true
before (c ∷ s) [] = false
before (c ∷ s) (d ∷ t) = ltb c d || (eqb c d && before s t)

insert : Str → Value → Members → Members
unfolding before
insert k v end = member k v end
insert k v (member j w ms) =
    let rest = insert k v ms in if before k j then member k v (member j w ms) else member j w rest

value_of : PolicyValue → Value
unfolding slice_document
value_of (text t) = Value.text t
value_of (texts ts) = slice_document true ts

pub sorted : List (Str × PolicyValue) → Members
unfolding insert value_of
sorted [] = end
sorted ((k, v) ∷ kvs) = insert k (value_of v) (sorted kvs)

pub engine : Option Value → List Str → Option Value → Result HttpResponse
engine permissions path none = err (plain (codes "no document"))
engine permissions path (some v) =
    ok (record { status_code = 200; body = encode (answer rego permissions path v) })

abbrev pub services : Option Value → List Str → Services
services permissions path = record {
  marshal_input = λ kvs. ok (encode (object (member (codes "input") (object (sorted kvs)) end)));
  marshal_texts = λ kvs. err (plain []);
  new_request = λ endpoint body. ok body;
  send = λ body. engine permissions path (decode body);
  decode_json = decode;
}

abbrev endpoint : List Str → Str
endpoint path = codes "http://localhost:8181" ++ (codes "/v1/data" ++ url_path path)

pub services-Engaged :
    (permissions : Option Value) (path : List Str)
    → Engaged (services permissions path) (endpoint path) rego permissions path
unfolding engine sorted policy_input
services-Engaged permissions path = record {
  host = codes "http://localhost:8181";
  located = refl;
  encode = encode;
  request = λ body. body;
  nil_slice = true;
  marshals = λ config i resource action. refl;
  requested = λ body. refl;
  answered_by = λ v. rw (decode-encode v) refl;
  client_reads = decode-encode;
}

-- A client of a service whose endpoint has the path.
abbrev pub client : List Str → Client
client path = record {
  config = record (default_config (codes "order")) { policy_endpoint = endpoint path };
  jwks_cache = new_jwks_cache [] 0;
  timeout = 0;
}

abbrev ann : Identity
ann = record {
  subject = codes "user:ann";
  org_id = [];
  roles = codes "order.write" ∷ codes "payment.refund" ∷ [];
  auth_method = codes "oidc";
  trust_level = codes "high";
  pci_scope = true;
}

check_policy-payment_example :
    check_policy
      (services none payment_path)
      (client payment_path)
      ann
      (codes "refund")
      (codes "write")
    ≡ ok false
check_policy-payment_example =
    check_policy-payment (services none payment_path) (client payment_path) rego none ann
      (codes "refund") (codes "write") (services-Engaged none payment_path)

check_policy-root_example :
    check_policy
      (services none [])
      (record (client []) { config = default_config (codes "order") })
      ann
      (codes "order.item")
      (codes "write")
    ≡ ok false
unfolding default_config url_path
check_policy-root_example =
    check_policy-root (services none [])
      (record (client []) { config = default_config (codes "order") }) rego none ann
      (codes "order.item") (codes "write") (services-Engaged none [])

check_policy-order_iff_example :
    (check_policy
        (services none order_path)
        (client order_path)
        ann
        (codes "order.item")
        (codes "write")
      ≡ ok true)
    ↔ (MayOrder none (client order_path).config.service_name ann (codes "write"))
check_policy-order_iff_example =
    check_policy-order_iff (services none order_path) (client order_path) rego none ann
      (codes "order.item") (codes "write") rego-Documented (services-Engaged none order_path)

ann_may_write :
    check_policy
      (services none order_path)
      (client order_path)
      ann
      (codes "order.item")
      (codes "write")
    ≡ ok true
ann_may_write = check_policy-order_iff_example.1 (writes refl (λ e. cc e) (Memᴰ.head refl))

check_policy-order_payment_example :
    (check_policy
        (services none order_path)
        (client order_path)
        ann
        (codes "order.payment")
        (codes "write")
      ≡ check_policy
          (services none order_path)
          (client order_path)
          ann
          (codes "order.item")
          (codes "write"))
    × (OrderService.deny (
          some (
            input_document
              (services-Engaged none order_path).nil_slice
              (client order_path).config
              ann
              (codes "order.payment")
              (codes "write")))
        ≡ codes "payment operations require PCI-compliant authentication" ∷ [])
check_policy-order_payment_example =
    check_policy-order_payment (services none order_path) (client order_path) rego none ann
      (codes "order.item") (codes "write") rego-Documented (services-Engaged none order_path)

-- The input of a caller that is let in to the payment service.
abbrev paying : Value
paying = object (
    member (codes "auth_method") (text (codes "mtls")) (
      member (codes "pci_scope") (boolean true) (
        member (codes "roles") (array (cons (text (codes "payment.refund")) nil)) (
          member (codes "subject") (text (codes "service:billing"))
            (member (codes "trust_level") (text (codes "high")) end)))))

payment_allow-undenied_example : denied rego (some paying) ≡ []
unfolding PaymentService.allow ref Pci.allow
payment_allow-undenied_example =
    payment_allow-undenied rego (some paying) (codes "service:billing") refl refl (λ e. cc e)

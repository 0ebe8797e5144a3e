-- ===== src/Policies/OrderService/Callers.antt =====
-- policies/examples/order-service/authz.rego: who may do what at the order service, asked through
-- the SDK.
use mathlib.Core.List.{Memᴰ}
use centralized_identity.Common.{
  Str, codes, ◌==◌, ==_iff, ne-==-false, ◌++◌, any, any_iff, Bool, true, false, ◌&&◌, ◌||◌, not,
  Option, some, List, [], ◌∷◌, ok, ◌≡◌, ◌≢◌, ◌↔◌, ◌⊎◌, refl, inl, inr, ap, arith,
}
use centralized_identity.Common.Json.{Value, slice_document, text, values, texts_value}
use centralized_identity.Sdk.{Identity}
use centralized_identity.Sdk.Client.{Config, Client, Services, check_policy}
use centralized_identity.Policies.{Rego, ref, is_text, is_other, items, message}
use centralized_identity.Policies.Authz
use centralized_identity.Policies.OrderService.{has_role, allow, deny}
use centralized_identity.Policies.Authz.Grants.{
  Documented, Permits, role_permits_iff, is_service_itself_iff,
}
use centralized_identity.Policies.Checked.{input_document, Engaged, order_path}
use centralized_identity.Policies.Decisions.{pci_allow-input, check_policy-order}

-- Why a caller may do something at the order service.
pub data MayOrder (permissions : Option Value) (service : Str) (i : Identity) (action : Str)
    : Type 0 where
  permitted :
      (role : Str)
      → Memᴰ role i.roles
      → Permits permissions role service action
      → MayOrder permissions service i action
  itself : i.subject ≡ codes "service:" ++ service → MayOrder permissions service i action
  reads :
      action ≡ codes "read"
      → Memᴰ (codes "order.read") i.roles
      → MayOrder permissions service i action
  writes :
      action ≡ codes "write"
      → i.trust_level ≢ codes "low"
      → Memᴰ (codes "order.write") i.roles
      → MayOrder permissions service i action

any-texts_value :
    (p : Value → Bool) (rs : List Str) → any p (values (texts_value rs)) ≡ any (λ r. p (text r)) rs
unfolding texts_value
any-texts_value p [] = refl
any-texts_value p (r ∷ rs) = rw (any-texts_value p rs) refl

any_roles :
    (p : Value → Bool) (nil_slice : Bool) (rs : List Str)
    → any p (items (some (slice_document nil_slice rs))) ≡ any (λ r. p (text r)) rs
unfolding slice_document items
any_roles p true [] = refl
any_roles p false [] = refl
any_roles p true (r ∷ rs) = any-texts_value p (r ∷ rs)
any_roles p false (r ∷ rs) = any-texts_value p (r ∷ rs)

has_role_iff :
    (name : Str) (nil_slice : Bool) (config : Config) (i : Identity) (resource action : Str)
    → (has_role name (some (input_document nil_slice config i resource action)) ≡ true)
      ↔ (Memᴰ name i.roles)
unfolding has_role ref is_text
has_role_iff name nil_slice config i resource action =
    rw (any_roles (λ role. is_text (some role) name) nil_slice i.roles) (
      λ h. let (r, m, e) = (any_iff (λ r. r == name) i.roles).0 h in rw (← (==_iff r name).0 e) m,
      λ m. (any_iff (λ r. r == name) i.roles).1 (name, m, (==_iff name name).1 refl),
    )

permitted_roles_iff :
    (b : Rego) (permissions : Option Value) (d : Documented b) (nil_slice : Bool) (config : Config)
    (i : Identity) (resource action : Str)
    → (any
          (Authz.role_permits b permissions (some (text config.service_name)) (some (text action)))
          (items (some (slice_document nil_slice i.roles)))
        ≡ true)
      ↔ ((role : Str) × Memᴰ role i.roles × Permits permissions role config.service_name action)
permitted_roles_iff b permissions d nil_slice config i resource action =
    let test =
      Authz.role_permits b permissions (some (text config.service_name)) (some (text action)) in
    rw (any_roles test nil_slice i.roles) (
      λ h.
          let (r, m, e) = (any_iff (λ r. test (text r)) i.roles).0 h in
          (r, m, (role_permits_iff b permissions r config.service_name action d).0 e),
      λ (r, m, p).
          (any_iff (λ r. test (text r)) i.roles).1
            (r, m, (role_permits_iff b permissions r config.service_name action d).1 p),
    )

any_way :
    {a b c d e f g : Bool} {A B C D E F G : Type 0}
    → ((a ≡ true) ↔ A)
    → ((b ≡ true) ↔ B)
    → ((c ≡ true) ↔ C)
    → ((d ≡ true) ↔ D)
    → ((e ≡ true) ↔ E)
    → ((f ≡ true) ↔ F)
    → ((g ≡ true) ↔ G)
    → (((a || b) || (c && d || e && (f && g))) ≡ true) ↔ ((A ⊎ B) ⊎ ((C × D) ⊎ (E × F × G)))
any_way ha hb hc hd he hf hg = ground arith

not_low_iff : (t : Str) → (not (t == codes "low") ≡ true) ↔ (t ≢ codes "low")
not_low_iff t = (
  λ h e. cc (rw (e, (==_iff (codes "low") (codes "low")).1 refl) at h),
  λ other. rw (ne-==-false t (codes "low") other) refl,
)

order_allow_iff :
    (b : Rego) (permissions : Option Value) (d : Documented b) (nil_slice : Bool) (config : Config)
    (i : Identity) (resource action : Str)
    → (allow b permissions (some (input_document nil_slice config i resource action)) ≡ true)
      ↔ MayOrder permissions config.service_name i action
unfolding allow Authz.allow ref is_other is_text
order_allow_iff b permissions d nil_slice config i resource action =
    let roles = permitted_roles_iff b permissions d nil_slice config i resource action in
    let self = is_service_itself_iff b i.subject config.service_name d in
    let reading = has_role_iff (codes "order.read") nil_slice config i resource action in
    let writing = has_role_iff (codes "order.write") nil_slice config i resource action in
    let ways =
      any_way roles self (==_iff action (codes "read")) reading (==_iff action (codes "write"))
        (not_low_iff i.trust_level) writing in
    (
      λ h. elim (ways.0 h) [
        | inl (inl (role, m, granted)) ↦ permitted role m granted
        | inl (inr same) ↦ itself same
        | inr (inl (read, m)) ↦ reads read m
        | inr (inr (write, trusted, m)) ↦ writes write trusted m
      ],
      λ o. elim o [
        | permitted role m granted ↦ ways.1 (inl (inl (role, m, granted)))
        | itself same ↦ ways.1 (inl (inr same))
        | reads read m ↦ ways.1 (inr (inl (read, m)))
        | writes write trusted m ↦ ways.1 (inr (inr (write, trusted, m)))
      ],
    )

-- The resource is none of what the rules read to allow.
order_allow-resource :
    (b : Rego) (permissions : Option Value) (nil_slice : Bool) (config : Config) (i : Identity)
    (action resource other : Str)
    → allow b permissions (some (input_document nil_slice config i resource action))
      ≡ allow b permissions (some (input_document nil_slice config i other action))
unfolding allow Authz.allow ref has_role
order_allow-resource b permissions nil_slice config i action resource other = refl

module _ (s : Services) (client : Client) (b : Rego) (permissions : Option Value) (i : Identity)
    (resource action : Str) (d : Documented b)
    (e : Engaged s client.config.policy_endpoint b permissions order_path) where
  -- With the rules of the order service at its endpoint, a client is allowed exactly what one of
  -- the caller's roles is granted, what the service does itself, reading with the role order.read,
  -- and writing with the role order.write at a trust level that is not "low"; the language of the
  -- rules is as documented. The resource does not count.
  pub check_policy-order_iff :
      (check_policy s client i resource action ≡ ok true)
      ↔ (MayOrder permissions client.config.service_name i action)
  check_policy-order_iff =
      let sent = order_allow_iff b permissions d e.nil_slice client.config i resource action in
      rw (check_policy-order s client b permissions i resource action e)
        (λ h. sent.0 (cc h), λ o. ap (λ a. ok a) (sent.1 o))

  -- A client decides on payments at the order service as on any other resource, although the rules
  -- deny each payment that it asks about: it reads what they allow, not what they deny, and it
  -- sends no pci_scope.
  pub check_policy-order_payment :
      (check_policy s client i (codes "order.payment") action
        ≡ check_policy s client i resource action)
      × (deny (some (input_document e.nil_slice client.config i (codes "order.payment") action))
          ≡ codes "payment operations require PCI-compliant authentication" ∷ [])
  unfolding deny ref is_text message ◌==◌
  check_policy-order_payment = (
    rw
        (
          check_policy-order s client b permissions i (codes "order.payment") action e,
          check_policy-order s client b permissions i resource action e,
        )
        (ap (λ a. ok a)
          (order_allow-resource b permissions e.nil_slice client.config i action
            (codes "order.payment") resource)),
    rw (pci_allow-input e.nil_slice client.config i (codes "order.payment") action) refl,
  )

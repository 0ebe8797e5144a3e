-- ===== src/Policies/Authz/Grants.antt =====
-- policies/shared/authz-baseline.rego: what a grant permits, where the input holds texts.
use mathlib.Core.List.{Memᴰ}
use mathlib.Core.List.Memᴰ
use centralized_identity.Common.{
  Str, codes, Lacks, Lacks-sound, ==_iff, any_iff, ◌++◌, true, Option, none, some, ◌≡◌, ◌↔◌, ◌⊎◌,
  refl, arith,
}
use centralized_identity.Common.Json.{Value, text}
use centralized_identity.Policies.{Rego, ref, is_text, is_text_iff, items}
use centralized_identity.Policies.Authz.{same, grants, permission, role_permits, is_service_itself}

-- Rego's language, as documented: == with a text holds of that text only, and sprintf writes a
-- text for %s.
pub record Documented (b : Rego) : Type 0 where
  pub equal_text : (v : Value) (t : Str) → b.equal v (text t) ≡ is_text (some v) t
  pub sprintf_text :
      (front t : Str) → Lacks b'%' front → b.sprintf (front ++ codes "%s") (text t) ≡ front ++ t

-- A grant of the permissions of a role, for an action of a service or for all of its actions.
pub record Permits (permissions : Option Value) (role service action : Str) : Type 0 where
  pub grant : Value
  pub granted : Memᴰ grant (items (ref (ref permissions role) (codes "grants")))
  pub for_service : ref (some grant) (codes "service") ≡ some (text service)
  pub for_action :
      (ref (some grant) (codes "action") ≡ some (text action))
      ⊎ (ref (some grant) (codes "action") ≡ some (text (codes "*")))

same_text :
    (b : Rego) (v : Option Value) (t : Str) → Documented b → same b v (some (text t)) ≡ is_text v t
unfolding same is_text
same_text b none t d = refl
same_text b (some v) t d = d.equal_text v t

grants_iff :
    (b : Rego) (service action : Str) (g : Value)
    → Documented b
    → (grants b (some (text service)) (some (text action)) g ≡ true) ↔ (
        (ref (some g) (codes "service") ≡ some (text service))
        × ((ref (some g) (codes "action") ≡ some (text action))
            ⊎ (ref (some g) (codes "action") ≡ some (text (codes "*")))))
unfolding grants
grants_iff b service action g d =
    let for_service = is_text_iff (ref (some g) (codes "service")) service in
    let for_action = is_text_iff (ref (some g) (codes "action")) action in
    let for_all = is_text_iff (ref (some g) (codes "action")) (codes "*") in
    rw
      (
        same_text b (ref (some g) (codes "service")) service d,
        same_text b (ref (some g) (codes "action")) action d,
      )
      (ground arith)

-- A role permits an action of a service exactly if it has a grant for them.
pub role_permits_iff :
    (b : Rego) (permissions : Option Value) (role service action : Str)
    → Documented b
    → (role_permits b permissions (some (text service)) (some (text action)) (text role) ≡ true)
      ↔ Permits permissions role service action
unfolding role_permits permission
role_permits_iff b permissions role service action d =
    let held = items (ref (ref permissions role) (codes "grants")) in
    let test = grants b (some (text service)) (some (text action)) in
    (
      λ h.
          let (grant, granted, fits) = (any_iff test held).0 h in
          let (for_service, for_action) = (grants_iff b service action grant d).0 fits in
          record {
            grant = grant;
            granted = granted;
            for_service = for_service;
            for_action = for_action;
          },
      λ p. (any_iff test held).1 (
        p.grant,
        p.granted,
        (grants_iff b service action p.grant d).1 (p.for_service, p.for_action),
      ),
    )

pub is_service_itself_iff :
    (b : Rego) (subject service : Str)
    → Documented b
    → (is_service_itself b (some (text subject)) (some (text service)) ≡ true)
      ↔ (subject ≡ codes "service:" ++ service)
unfolding is_service_itself is_text
is_service_itself_iff b subject service d =
    rw (d.sprintf_text (codes "service:") service (Lacks-sound b'%' (codes "service:") refl))
      (==_iff subject (codes "service:" ++ service))

-- Nothing is granted where no permissions are loaded.
pub Permits-none : (role service action : Str) → ¬ (Permits none role service action)
unfolding ref items
Permits-none role service action p = Memᴰ.not-nil p.granted

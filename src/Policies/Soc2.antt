-- ===== src/Policies/Soc2.antt =====
-- policies/shared/soc2-baseline.rego: package identity.soc2.
use centralized_identity.Common.{
  codes, any, Bool, false, ◌&&◌, not, Option, none, some, List, Str, [], ◌++◌,
}
use centralized_identity.Common.Json.{Value}
use centralized_identity.Policies.{Rego, ref, is_text, is_other, items, message}

unfoldable pub authenticated : Option Value → Bool
unfolding is_other ref
authenticated input =
    is_other (ref input (codes "subject")) [] && is_other (ref input (codes "auth_method")) []

is_required : Rego → Option Value → Value → Bool
is_required b none role = false
is_required b (some required) role = b.equal role required

unfoldable pub has_required_role : Rego → Option Value → Bool
unfolding is_required items ref
has_required_role b input =
    any (is_required b (ref input (codes "required_role"))) (items (ref input (codes "roles")))

unfoldable pub deny : Option Value → List Str
unfolding authenticated is_text message
deny input =
    message (not (authenticated input)) (codes "unauthenticated access violates SOC2 requirements")
    ++ (message
          (is_text (ref input (codes "action")) (codes "write")
            && is_text (ref input (codes "trust_level")) (codes "low"))
          (codes "low trust level cannot perform write operations")
        ++ message
            (is_text (ref input (codes "action")) (codes "delete")
              && is_text (ref input (codes "trust_level")) (codes "low"))
            (codes "low trust level cannot perform delete operations"))

-- ===== src/Canonical/Document.antt =====
-- services/token-exchange/internal/canonical/token.go: IdentityClaims, by the tags of its fields.
use centralized_identity.Common.{Str, codes, ◌==◌, Bool, if◌then◌else◌}
use centralized_identity.Common.Json.{
  Value, boolean, text, object, Members, end, member, slice_document,
}
use centralized_identity.Canonical.{IdentityClaims}

-- omitempty
non_empty : Str → Str → Members
unfolding ◌==◌
non_empty name v = if v == codes "" then end else member name (text v) end

-- The document of the claims, whose roles may be a nil slice.
unfoldable pub identity_document : Bool → IdentityClaims → Value
unfolding non_empty
identity_document nil_slice c = object (
    member (codes "org_id") (text c.org_id) (
      member (codes "roles") (slice_document nil_slice c.roles) (
        member (codes "auth_method") (text c.auth_method) (
          member (codes "original_issuer") (text c.original_issuer) (
            member (codes "trust_level") (text c.trust_level) (
              member (codes "pci_scope") (boolean c.pci_scope)
                (non_empty (codes "service_name") c.service_name)))))))

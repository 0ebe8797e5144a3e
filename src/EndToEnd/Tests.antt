-- ===== src/EndToEnd/Tests.antt =====
-- The three mock services, one service and one client: runs of the theorems about them.
use mathlib.Core.List.Perm
use centralized_identity.Common.{codes, get, ◌==◌, ◌*◌, ◌/◌, [], ok, ◌≡◌, refl, arith}
use centralized_identity.Common.Json.Codec.{decode, decode-encode}
use centralized_identity.Canonical
use centralized_identity.Canonical.{second}
use centralized_identity.Adapter.{token_type_jwt, token_type_opaque}
use centralized_identity.Adapter.Lookup.{adapters_of}
use centralized_identity.Exchange.{minted_token}
use centralized_identity.Server.Issuers.{get_env}
use centralized_identity.Server.Wiring.{Platform, Moment, server_registry, server_env}
use centralized_identity.OpaqueTokenApp.{encode_hex, hour}
use centralized_identity.OpaqueTokenApp.Tests.{login, services-Reaches}
use centralized_identity.OpaqueTokenApp
use centralized_identity.LegacyJwtApp.{issued, handle_issue_token}
use centralized_identity.LegacyJwtApp.Tests.{sign, get_issuer-ReadsIssuer, parse-Verifies}
use centralized_identity.LegacyJwtApp
use centralized_identity.SamlApp.{saml_assertion}
use centralized_identity.SamlApp.Tests.{format, platform-Reads}
use centralized_identity.SamlApp
use centralized_identity.Sdk.Client.{exchange_token}
use centralized_identity.Sdk.Client.Tests.{client, services, services-Connected}
use centralized_identity.EndToEnd.{
  saml_assertion-served, handle_issue_token-served, handle_login-served,
}

abbrev pub platform : Platform
platform = record LegacyJwtApp.Tests.platform {
  saml = SamlApp.Tests.platform.saml;
  session = OpaqueTokenApp.Tests.services;
  signer = record { numeric_date = λ t. t / second; sign = λ alg c k. ok (codes "signed") };
  decode_json = decode;
}

abbrev pub moment : Moment
moment = record {
  order = adapters_of (server_registry platform);
  adapter_time = 300 * second;
  mint_time = 300 * second;
  uuid = codes "id";
}

saml_assertion-served_example :
    exchange_token
      (services (server_env platform moment))
      client
      (saml_assertion format (7 * second))
      []
    ≡ ok (codes "signed")
unfolding minted_token Canonical.mint
saml_assertion-served_example =
    saml_assertion-served platform moment format (7 * second)
      (services (server_env platform moment)) client (codes "u") (codes "t") (codes "signed")
      (Perm.refl _)
      (record {
        written = platform-Reads.written;
        in_bytes = platform-Reads.in_bytes;
        reads_time = platform-Reads.reads_time;
        no_response = refl;
        reads_assertion = refl;
      })
      (services-Connected (server_env platform moment) decode-encode) (omega arith) refl

handle_issue_token-served_example :
    (handle_issue_token sign 0 5 ≡ issued (ok (codes "a.b.c")))
    × (exchange_token (services (server_env platform moment)) client (codes "a.b.c") token_type_jwt
        ≡ ok (codes "signed"))
unfolding minted_token Canonical.mint get
handle_issue_token-served_example =
    handle_issue_token-served platform moment sign 258 7 0 5 [] (codes "a.b.c")
      (services (server_env platform moment)) client (codes "u") (codes "t") (codes "signed") refl
      refl refl get_issuer-ReadsIssuer refl parse-Verifies (λ e. cc e)
      (services-Connected (server_env platform moment) decode-encode) (omega arith) refl

handle_login-served_example :
    exchange_token
      (services (server_env platform moment))
      client
      (codes "00ff1001ab095a7f")
      token_type_opaque
    ≡ ok (codes "signed")
unfolding minted_token Canonical.mint encode_hex get_env ◌==◌
handle_login-served_example =
    handle_login-served platform moment [] login [] (10 * hour)
      (services (server_env platform moment)) client (codes "u") (codes "t") (codes "signed")
      services-Reaches (λ e. cc e) tt
      (services-Connected (server_env platform moment) decode-encode) (omega arith) refl

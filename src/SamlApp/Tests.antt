-- ===== src/SamlApp/Tests.antt =====
-- An assertion of the app, exchanged: a run of the theorem about it.
use centralized_identity.Common.{
  Str, codes, ap, zero, suc, All, ◌/◌, ◌*◌, ℕ, none, some, Option, [], ◌∷◌, ok, err, plain, ◌≡◌,
  refl, arith,
}
use centralized_identity.Common.Base64.Encoding.{IsByte}
use centralized_identity.Canonical.{second}
use centralized_identity.Adapter.{ExchangeRequest}
use centralized_identity.Server.Wiring.{Platform}
use centralized_identity.SamlApp.{saml_assertion}
use centralized_identity.SamlApp.Exchanged.{issued_assertion, Reads}

-- A time is written as its whole seconds in the unary system, behind a mark.
pub ones : ℕ → Str
ones zero = []
ones (suc n) = b'1' ∷ ones n

abbrev pub format : ℕ → Str
format t = b'T' ∷ ones (t / second)

count : Str → ℕ
count [] = 0
count (c ∷ s) = suc (count s)

count-ones : (n : ℕ) → count (ones n) ≡ n
unfolding count ones
count-ones zero = refl
count-ones (suc n) = ap suc (count-ones n)

pub parse_time : Str → Option ℕ
unfolding count
parse_time [] = none
parse_time (c ∷ s) = some (count s * second)

ones-IsByte : (n : ℕ) → All IsByte (ones n)
unfolding ones
ones-IsByte zero = tt
ones-IsByte (suc n) = (omega arith, ones-IsByte n)

abbrev pub platform : Platform
platform = record {
  env = [];
  jwt = record {
    parse = λ o now f s. err (plain []);
    get_issuer = λ claims. [];
    decode_segment = λ s. none;
    json_document = λ s. none;
  };
  saml = record {
    xml_response = λ s. none;
    xml_assertion = λ s. some (issued_assertion format (7 * second));
    parse_time = parse_time;
  };
  session = record {
    new_request = λ url. ok url;
    send = λ req id. ok (record { status_code = 401; body = [] });
    decode_json = λ s. none;
    parse_time = λ s. none;
  };
  network = record { get = λ n url. none; decode_json = λ body. none };
  generated_key = codes "key";
  signer = record { numeric_date = λ t. t; sign = λ alg c k. ok [] };
  decode_json = λ body. none;
  texts = λ c. [];
}

format-IsByte : (t : ℕ) → All IsByte (format t)
format-IsByte t = (omega arith, ones-IsByte (t / second))

pub platform-Reads : Reads platform.saml format (7 * second)
unfolding parse_time
platform-Reads = record {
  written = λ t e. cc e;
  in_bytes = format-IsByte;
  reads_time = λ t. ap (λ n. some (n * second)) (count-ones (t / second));
  no_response = refl;
  reads_assertion = refl;
}

abbrev request : ExchangeRequest
request = record {
  subject_token = saml_assertion format (7 * second);
  subject_token_type = [];
  audience = [];
  scope = [];
  requested_type = [];
}

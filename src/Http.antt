-- ===== src/Http.antt =====
-- What the program uses of net/http: a request, an answer, and a response as it is written.
use centralized_identity.Common.{
  codes, Str, Map, get, put, ltb, ℕ, zero, suc, ◌+◌, ◌/◌, ◌%◌, if◌then◌else◌, Option, none, some,
  List, [], ◌∷◌, ◌++◌,
}

pub record HttpRequest : Type 0 where
  pub method : Str
  pub path : Str
  pub header : Map Str
  pub body : Str

-- What a client gets for an answer.
pub record HttpResponse : Type 0 where
  pub status_code : ℕ
  pub body : Str

decimal_from : ℕ → ℕ → Str
decimal_from zero n = []
decimal_from (suc f) n =
    let front = decimal_from f (n / 10) in
    if ltb n 10 then (n + b'0') ∷ [] else front ++ (n % 10 + b'0') ∷ []

-- A number in decimal; there are fewer digits than the number is large.
unfoldable pub decimal : ℕ → Str
unfolding decimal_from
decimal n = decimal_from (suc n) n

-- Names of headers are in their canonical form.
abbrev pub correlation_header : Str
correlation_header = codes "X-Correlation-Id"

-- A ResponseWriter: its header, the status code that was sent, and what was written behind it.
pub record Writer {ℓ} (Body : Type ℓ) : Type ℓ where
  pub header : Map Str
  pub code : Option ℕ
  pub bodies : List Body

-- r.Header.Get(name): a missing header is the empty string.
unfoldable pub get_header : Map Str → Str → Str
unfolding get
get_header header name = elim (get header name) [ none ↦ [] | some v ↦ v ]

module _ {ℓ} {Body : Type ℓ} where
  abbrev pub fresh : Writer Body
  fresh = record { header = []; code = none; bodies = [] }

  unfoldable pub set_header : Str → Str → Writer Body → Writer Body
  unfolding put
  set_header name value w = record w { header = put w.header name value }

  -- The first call of WriteHeader counts.
  unfoldable pub write_header : ℕ → Writer Body → Writer Body
  write_header code w = elim w.code [ none ↦ record w { code = some code } | some sent ↦ w ]

  -- A write without a status sends 200.
  unfoldable pub write : Body → Writer Body → Writer Body
  unfolding write_header
  write body w = let sent = write_header 200 w in record sent { bodies = sent.bodies ++ body ∷ [] }

-- What a handler that writes a text with status 200 sends, and what http.Error and http.NotFound
-- send.
abbrev pub text_response : Str → HttpResponse
text_response body = record { status_code = 200; body = body }

abbrev pub error_response : Str → ℕ → HttpResponse
error_response message code = record { status_code = code; body = message ++ codes "\n" }

abbrev pub not_found : HttpResponse
not_found = error_response (codes "404 page not found") 404

-- http.ServeMux, of patterns that are whole paths, and of "/", which stands for every other path.
unfoldable pub route {ℓ} : {Handler : Type ℓ} → Map Handler → Str → Option Handler
unfolding get
route mux path = elim (get mux path) [ some handler ↦ some handler | none ↦ get mux (codes "/") ]

unfoldable pub serve_mux : Map (HttpRequest → HttpResponse) → HttpRequest → HttpResponse
unfolding route
serve_mux mux r = elim (route mux r.path) [ some handler ↦ handler r | none ↦ not_found ]

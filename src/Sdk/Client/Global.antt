-- ===== src/Sdk/Client/Global.antt =====
-- sdk/go/identity.go: the global client, after any calls of Init.
use centralized_identity.Common.{
  ◌==◌, Option, none, some, List, [], ◌∷◌, ok, ◌≡◌, ◌∙◌, refl, ap, inl, inr, Bool-cases,
  Option-cases, ◌↔◌, if◌then◌else◌,
}
use centralized_identity.Sdk.Jwks.{new_jwks_cache}
use centralized_identity.Sdk.Client.{Config, Client, new_client, initialised, init, get_client}

-- The global client behind some calls of Init, the first of the list first.
unfoldable pub inits : Option Client → List Config → Option Client
unfolding init
inits global [] = global
inits global (c ∷ cs) = inits (init global c).1 cs

-- The client that a configuration makes.
abbrev pub client_of : Config → Client
client_of c = record {
  config = c;
  jwks_cache = new_jwks_cache c.jwks_endpoint c.cache_ttl;
  timeout = c.request_timeout;
}

-- The last configuration that names its service.
unfoldable pub last_named : List Config → Option Config
last_named [] = none
last_named (c ∷ cs) =
    let later = last_named cs in
    elim later [ some d ↦ some d | none ↦ (if c.service_name == [] then none else some c) ]

or_old : Option Client → Option Config → Option Client
or_old old none = old
or_old old (some c) = some (client_of c)

init-named :
    (global : Option Client) (c : Config)
    → (init global c).1 ≡ (if c.service_name == [] then global else some (client_of c))
unfolding init initialised new_client
init-named global c = elim (Bool-cases (c.service_name == [])) [
  | inl unnamed ↦ rw (unnamed, initialised) refl
  | inr named ↦ rw (named, initialised) refl
]

inits-last_named :
    (global : Option Client) (cs : List Config) → inits global cs ≡ or_old global (last_named cs)
unfolding inits last_named or_old
inits-last_named global [] = refl
inits-last_named global (c ∷ cs) =
    ap (λ g. inits g cs) (init-named global c)
    ∙ inits-last_named (if c.service_name == [] then global else some (client_of c)) cs
    ∙ elim (Option-cases (last_named cs)) [
      | inr (d, later) ↦ rw later refl
      | inl last ↦ elim (Bool-cases (c.service_name == [])) [
        | inl unnamed ↦ rw (last, unnamed) refl
        | inr named ↦ rw (last, named) refl
      ]
    ]

-- GetClient gives a client exactly if some call of Init had a configuration that names its
-- service, and it is the client of the last such call, however many calls there were before and
-- after: none is ignored because there was one before, and one without a name changes nothing.
pub get_client-inits :
    (cs : List Config) (client : Client)
    → (get_client (inits none cs) ≡ ok client)
      ↔ ((c : Config) × (last_named cs ≡ some c) × (client ≡ client_of c))
unfolding get_client or_old
get_client-inits cs client = elim (Option-cases (last_named cs)) [
  | inl none_named ↦ rw (inits-last_named none cs, none_named) (λ h. cc h, λ (c, h, _). cc h)
  | inr (c, named) ↦
      rw (inits-last_named none cs, named) (λ h. (c, refl, cc h), λ (d, h, made). cc (h, made))
]
